-- ===== src/Server/Certs/Users.antt =====
-- From a certificate to a user name: nc_tls_ctn_get_username_from_cert, and what nc_tlsclb_verify
-- does with it, of src/session_server_tls.c. What OpenSSL reads from a certificate is an argument:
-- the line of X509_NAME_oneline, and the subjectAltNames. Allocation succeeds.
pub mod Granted
pub mod Sans
use libnetconf.Common.{
  ℕ, suc, ◌+◌, ◌/◌, ◌%◌, Bool, true, false, ◌&&◌, ltb, leb, ◌==◌, if◌then◌else◌, List, [], ◌∷◌,
  ◌++◌, map, Option, none, some, take, drop, length,
}
use libnetconf.Common.Bytes.{Bytes, codes, bytes_eq}
use libnetconf.Common.Decimal.{print_dec}
use libnetconf.Server.Certs.{
  Ctn, MapType, unknown, specified, san_rfc822_name, san_dns_name, san_ip_address, san_any,
  common_name,
}
use libnetconf.Server.Certs.Names.{
  Algorithm, Mapping, failed, hex_byte, matched, nc_tls_cert_to_name, overread, unmatched,
}

-- A GENERAL_NAME, with the bytes of its string.
pub data San : Type 0 where
  email : Bytes → San
  dns : Bytes → San
  ipadd : Bytes → San
  other_name : San

-- The bytes before the first one of a value: for 0, what strdup copies.
unfoldable pub before_byte : ℕ → Bytes → Bytes
before_byte d [] = []
before_byte d (c ∷ cs) = let rest = before_byte d cs in if c == d then [] else c ∷ rest

abbrev pub dotted : ℕ → ℕ → ℕ → ℕ → Bytes
dotted a b c d = print_dec a ++ (46 ∷ (print_dec b ++ (46 ∷ (print_dec c ++ (46 ∷ print_dec d)))))

abbrev pub hex_bytes : Bytes → Bytes
hex_bytes [] = []
hex_bytes (b ∷ bs) = hex_byte b ++ hex_bytes bs

unfoldable pub ip_name : Bytes → Option Bytes
ip_name (a ∷ b ∷ c ∷ d ∷ []) = some (dotted a b c d)
ip_name ip = if length ip == 16 then some (hex_bytes ip) else none

abbrev pub wants_email : MapType → Bool
wants_email san_any = true
wants_email san_rfc822_name = true
wants_email m = false

abbrev pub wants_dns : MapType → Bool
wants_dns san_any = true
wants_dns san_dns_name = true
wants_dns m = false

abbrev pub wants_ip : MapType → Bool
wants_ip san_any = true
wants_ip san_ip_address = true
wants_ip m = false

-- A round of the loop: the user name, if the loop is left.
unfoldable pub san_round : MapType → San → Option Bytes
san_round m (email s) = if wants_email m then some (before_byte 0 s) else none
san_round m (dns s) = if wants_dns m then some (before_byte 0 s) else none
san_round m (ipadd s) = if wants_ip m then ip_name s else none
san_round m other_name = none

unfoldable pub san_loop : MapType → List San → Option Bytes
san_loop m [] = none
san_loop m (s ∷ rest) = elim (san_round m s) [ some u ↦ some u | none ↦ san_loop m rest ]

-- strstr() with "CN=": what follows it.
unfoldable pub behind_cn : Bytes → Option Bytes
behind_cn [] = none
behind_cn (c ∷ cs) =
    let rest = behind_cn cs in
    if bytes_eq (take 3 (c ∷ cs)) (codes "CN=") then some (drop 3 (c ∷ cs)) else rest

pub record Cert : Type 0 where
  pub subject : Bytes
  pub sans : Option (List San)

-- `*username`, `none` where it is not assigned, and whether the result is 0.
abbrev pub from_cn : Option Bytes → Option Bytes × Bool
from_cn none = (none, false)
from_cn (some cn) = (some (before_byte 47 cn), true)

-- Behind the loop: `i < san_count` where it was left.
abbrev pub behind_sans : Option Bytes → Option Bytes × Bool
behind_sans (some u) = (some u, false)
behind_sans none = (none, true)

abbrev pub from_sans : MapType → Option (List San) → Option Bytes × Bool
from_sans m none = (none, false)
from_sans m (some sans) = behind_sans (san_loop m sans)

unfoldable pub nc_tls_ctn_get_username_from_cert : Cert → MapType → Option Bytes × Bool
nc_tls_ctn_get_username_from_cert cert common_name = from_cn (behind_cn cert.subject)
nc_tls_ctn_get_username_from_cert cert m = from_sans m cert.sans

-- The result 1, with the session's user name; the result 0; or undefined behaviour: the
-- use of `cp`, which was freed, or of a fingerprint that is too short.
pub data Verdict : Type 0 where
  accepted : Option Bytes → Verdict
  rejected : Verdict
  undefined : Verdict

abbrev pub at_fail : ℕ → Verdict
at_fail depth = if ltb 0 depth then accepted none else rejected

abbrev pub with_username : ℕ → Option Bytes × Bool → Verdict
with_username depth (u, false) = at_fail depth
with_username depth (some u, true) = accepted (some u)
with_username depth (none, true) = undefined

abbrev pub take_username : Cert → ℕ → MapType → Option Bytes → Verdict
take_username cert depth specified name = accepted name
take_username cert depth m name = with_username depth (nc_tls_ctn_get_username_from_cert cert m)

abbrev pub verdict_of : Cert → ℕ → Mapping → Verdict
verdict_of cert depth (matched m name) = take_username cert depth m name
verdict_of cert depth unmatched = at_fail depth
verdict_of cert depth failed = rejected
verdict_of cert depth overread = undefined

-- The end of nc_tlsclb_verify, behind the check for revocation: `username` is that of the session,
-- X509_digest that of the current certificate, and `cert` the client's, which is the current one at
-- depth 0.
unfoldable pub verify_name :
    (X509_digest : Algorithm → Option Bytes) → Cert → ℕ → Option Bytes → List Ctn → Verdict
verify_name X509_digest cert depth (some u) ctns = accepted (some u)
verify_name X509_digest cert depth none ctns =
    verdict_of cert depth (nc_tls_cert_to_name X509_digest none ctns)
