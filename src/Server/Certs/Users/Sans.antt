-- ===== src/Server/Certs/Users/Sans.antt =====
-- User names from a subjectAltName.
use libnetconf.Common.{
  ◌≡◌, refl, ◌∙◌, Bool, true, false, ◌||◌, ◌&&◌, ◌==◌, if◌then◌else◌, List, [], ◌∷◌, Option, none,
  some, length, arith,
}
use libnetconf.Common.Bytes.{Bytes}
use libnetconf.Server.Certs.{
  Ctn, MapType, unknown, specified, san_rfc822_name, san_dns_name, san_ip_address, san_any,
  common_name,
}
use libnetconf.Server.Certs.Names.{Algorithm, matched, nc_tls_cert_to_name}
use libnetconf.Server.Certs.Users.{
  Cert, San, email, dns, ipadd, other_name, wants_email, wants_dns, wants_ip, ip_name, san_round,
  san_loop, nc_tls_ctn_get_username_from_cert, from_sans, behind_sans, rejected, undefined,
  take_username, with_username, verify_name, Verdict,
}

abbrev pub is_san : MapType → Bool
is_san san_rfc822_name = true
is_san san_dns_name = true
is_san san_ip_address = true
is_san san_any = true
is_san m = false

-- A subjectAltName of the kind that is asked for; an address has 4 or 16 bytes.
abbrev pub is_relevant : MapType → San → Bool
is_relevant m (email s) = wants_email m
is_relevant m (dns s) = wants_dns m
is_relevant m (ipadd s) = wants_ip m && (length s == 4 || length s == 16)
is_relevant m other_name = false

abbrev pub any_relevant : MapType → List San → Bool
any_relevant m [] = false
any_relevant m (s ∷ rest) = is_relevant m s || any_relevant m rest

abbrev is_some : Option Bytes → Bool
is_some none = false
is_some (some u) = true

ip_name-some : (s : Bytes) → is_some (ip_name s) ≡ (length s == 4 || length s == 16)
unfolding ip_name
ip_name-some [] = refl
ip_name-some (a ∷ []) = refl
ip_name-some (a ∷ b ∷ []) = refl
ip_name-some (a ∷ b ∷ c ∷ []) = refl
ip_name-some (a ∷ b ∷ c ∷ d ∷ []) = refl
ip_name-some (a ∷ b ∷ c ∷ d ∷ x ∷ xs) = ground arith

san_round-some : (m : MapType) (s : San) → is_some (san_round m s) ≡ is_relevant m s
unfolding san_round
san_round-some m (email s) = ground arith
san_round-some m (dns s) = ground arith
san_round-some m (ipadd s) = ground (arith, ip_name-some s)
san_round-some m other_name = refl

san_loop-some : (m : MapType) (sans : List San) → is_some (san_loop m sans) ≡ any_relevant m sans
unfolding san_loop
san_loop-some m [] = refl
san_loop-some m (s ∷ rest) = ground (arith, san_round-some m s, san_loop-some m rest)

behind_sans-relevant :
    (o : Option Bytes)
    → with_username 0 (behind_sans o) ≡ (if is_some o then rejected else undefined)
behind_sans-relevant none = refl
behind_sans-relevant (some u) = refl

take_username-san :
    (cert : Cert) (m : MapType) (n : Option Bytes)
    → is_san m ≡ true
    → take_username cert 0 m n ≡ with_username 0 (from_sans m cert.sans)
unfolding nc_tls_ctn_get_username_from_cert
take_username-san cert unknown n h = cc
take_username-san cert specified n h = cc
take_username-san cert san_rfc822_name n h = refl
take_username-san cert san_dns_name n h = refl
take_username-san cert san_ip_address n h = refl
take_username-san cert san_any n h = refl
take_username-san cert common_name n h = cc

-- What becomes of a certificate's subjectAltName extension, if there is one.
abbrev pub san_verdict : MapType → Option (List San) → Verdict
san_verdict m none = rejected
san_verdict m (some sans) = if any_relevant m sans then rejected else undefined

from_sans-san_verdict :
    (m : MapType) (o : Option (List San)) → with_username 0 (from_sans m o) ≡ san_verdict m o
from_sans-san_verdict m none = refl
from_sans-san_verdict m (some sans) = behind_sans-relevant (san_loop m sans) ∙ rw san_loop-some refl

-- For a first certificate whose entry maps a subjectAltName, nc_tlsclb_verify never accepts the
-- client: it refuses one whose certificate has no such extension or has a name of the kind in it,
-- and where the extension has none of the kind it uses memory that was freed as the user name.
pub verify_name_san :
    (X509_digest : Algorithm → Option Bytes) (cert : Cert) (cs : List Ctn) (m : MapType)
    (n : Option Bytes)
    → nc_tls_cert_to_name X509_digest none cs ≡ matched m n
    → is_san m ≡ true
    → verify_name X509_digest cert 0 none cs ≡ san_verdict m cert.sans
unfolding verify_name
verify_name_san X509_digest cert cs m n e h =
    rw e (take_username-san cert m n h ∙ from_sans-san_verdict m cert.sans)
