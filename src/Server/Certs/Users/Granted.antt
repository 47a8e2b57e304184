-- ===== src/Server/Certs/Users/Granted.antt =====
-- Which entry and which part of the certificate a user name comes from.
use libnetconf.Common.{
  ◌≡◌, ◌⊎◌, ◌≢◌, inl, inr, refl, sym, ap, ◌∙◌, true, subst, List, [], ◌∷◌, ◌++◌, Option, none, some,
  drop, arith, Option-cases,
}
use libnetconf.Common.Bytes.{Bytes}
use libnetconf.Server.Certs.{
  Ctn, MapType, unknown, specified, san_rfc822_name, san_dns_name, san_ip_address, san_any,
  common_name,
}
use libnetconf.Server.Certs.Names.{
  Algorithm, algorithm_of, digest_to_str, compute_digest, text_of, DigestText, text, no_digest,
  beyond, case_eq, mapped_name, Mapping, matched, unmatched, failed, overread, nc_tls_cert_to_name,
}
use libnetconf.Server.Certs.Users.{
  Cert, San, san_loop, nc_tls_ctn_get_username_from_cert, from_cn, from_sans, behind_sans,
  behind_cn, before_byte, accepted, rejected, undefined, take_username, with_username, verdict_of,
  Verdict, verify_name,
}
use libnetconf.Server.Certs.Names.First.{
  with_text, for_algorithm, outcome, or_else, first_outcome, nc_tls_cert_to_name-first_outcome,
}

-- The fingerprint of the entry is, behind its algorithm, the text of the certificate's digest.
abbrev pub Matches : (Algorithm → Option Bytes) → Ctn → Type 0
Matches X509_digest c =
    (a : Algorithm) × (d : Bytes) × (t : Bytes) × (algorithm_of c.fingerprint ≡ some a)
    × (X509_digest a ≡ some d)
    × (digest_to_str d ≡ some t)
    × (case_eq (drop 3 c.fingerprint) t ≡ true)

-- An entry of the list that matches, with the mapping and the name that it gives.
abbrev pub Found :
    (Algorithm → Option Bytes) → Option Bytes → List Ctn → MapType → Option Bytes → Type 0
Found X509_digest name cs m n =
    (before : List Ctn) × (c : Ctn) × (after : List Ctn) × (cs ≡ before ++ (c ∷ after))
    × Matches X509_digest c
    × (c.map_type ≡ m)
    × (mapped_name name c.map_type c.name ≡ n)

compute_digest-text :
    (digest : Option Bytes) (t : Bytes)
    → compute_digest digest ≡ text t
    → (d : Bytes) × (digest ≡ some d) × (digest_to_str d ≡ some t)
compute_digest-text none t h = cc
compute_digest-text (some d) t h = elim (Option-cases (digest_to_str d)) [
  | inl e ↦ let f : text_of none ≡ text t = ap text_of (sym e) ∙ h in cc
  | inr (u, e) ↦ let f : text_of (some u) ≡ text t = ap text_of (sym e) ∙ h in (d, refl, cc)
]

with_text-matched :
    (name : Option Bytes) (c : Ctn) (m : MapType) (n : Option Bytes) (d : DigestText)
    → with_text name c d ≡ some (matched m n)
    → (t : Bytes) × (d ≡ text t)
      × (case_eq (drop 3 c.fingerprint) t ≡ true)
      × (c.map_type ≡ m)
      × (mapped_name name c.map_type c.name ≡ n)
with_text-matched name c m n no_digest h = cc
with_text-matched name c m n beyond h = cc
with_text-matched name c m n (text t) h = (t, refl, ground arith, ground arith, ground arith)

outcome-matched :
    (X509_digest : Algorithm → Option Bytes) (name : Option Bytes) (c : Ctn) (m : MapType)
    (n : Option Bytes)
    → outcome X509_digest name c ≡ some (matched m n)
    → Matches X509_digest c × (c.map_type ≡ m) × (mapped_name name c.map_type c.name ≡ n)
outcome-matched X509_digest name c m n h = elim (Option-cases (algorithm_of c.fingerprint)) [
  | inl e ↦
      let f : none ≡ some (matched m n) = ap (for_algorithm X509_digest name c) (sym e) ∙ h in cc
  | inr (a, e) ↦
      let (t, f, k, p, q) =
        with_text-matched name c m n (compute_digest (X509_digest a))
          (ap (for_algorithm X509_digest name c) (sym e) ∙ h) in
      let (d, g, l) = compute_digest-text (X509_digest a) t f in ((a, d, t, e, g, l, k), p, q)
]

first_outcome-Found :
    (X509_digest : Algorithm → Option Bytes) (name : Option Bytes) (cs : List Ctn) (m : MapType)
    (n : Option Bytes)
    → first_outcome X509_digest name cs ≡ matched m n
    → Found X509_digest name cs m n
first_outcome-Found X509_digest name [] m n h = cc
first_outcome-Found X509_digest name (c ∷ cs) m n h =
    let rest = first_outcome X509_digest name cs in
    elim (Option-cases (outcome X509_digest name c)) [
      | inl e ↦
          let (before, c', after, f, k, p, q) =
            first_outcome-Found X509_digest name cs m n (ap (λ o. or_else o rest) (sym e) ∙ h) in
          (c ∷ before, c', after, ap (◌∷◌ c) f, k, p, q)
      | inr (r, e) ↦
          let g : r ≡ matched m n = ap (λ o. or_else o rest) (sym e) ∙ h in
          let (k, p, q) = outcome-matched X509_digest name c m n (e ∙ ap some g) in
          ([], c, cs, refl, k, p, q)
    ]

-- At a result of 0, nc_tls_cert_to_name has found an entry of the list whose fingerprint is the
-- text of the certificate's digest, and its results are the entry's mapping, with the entry's name
-- for a specified one and `*name` unchanged for the others.
pub nc_tls_cert_to_name-Found :
    (X509_digest : Algorithm → Option Bytes) (name : Option Bytes) (cs : List Ctn) (m : MapType)
    (n : Option Bytes)
    → nc_tls_cert_to_name X509_digest name cs ≡ matched m n
    → Found X509_digest name cs m n
unfolding nc_tls_cert_to_name
nc_tls_cert_to_name-Found X509_digest name [] m n h = cc
nc_tls_cert_to_name-Found X509_digest name (c ∷ cs) m n h =
    first_outcome-Found X509_digest name (c ∷ cs) m n
      (sym (nc_tls_cert_to_name-first_outcome X509_digest name c cs) ∙ h)

-- A user name that the first certificate of the chain is given: that of an entry which matches it,
-- or, for an entry that asks for the common name, what stands in the line of the subject behind the
-- first "CN=", up to a slash.
abbrev pub Granted : (Algorithm → Option Bytes) → Cert → List Ctn → Option Bytes → Type 0
Granted X509_digest cert cs u =
    Found X509_digest none cs specified u
    ⊎ ((n : Option Bytes) × (cn : Bytes) × Found X509_digest none cs common_name n
        × (behind_cn cert.subject ≡ some cn)
        × (u ≡ some (before_byte 47 cn)))

from_cn-accepted :
    (o u : Option Bytes)
    → with_username 0 (from_cn o) ≡ accepted u
    → (cn : Bytes) × (o ≡ some cn) × (u ≡ some (before_byte 47 cn))
from_cn-accepted none u h = cc
from_cn-accepted (some cn) u h = (cn, refl, cc)

from_sans-accepted :
    (m : MapType) (o : Option (List San)) (u : Option Bytes)
    → with_username 0 (from_sans m o) ≢ accepted u
from_sans-accepted m none u h = cc
from_sans-accepted m (some sans) u h = elim (Option-cases (san_loop m sans)) [
  | inl e ↦
      let f : undefined ≡ accepted u = ap (λ o. with_username 0 (behind_sans o)) (sym e) ∙ h in cc
  | inr (v, e) ↦
      let f : rejected ≡ accepted u = ap (λ o. with_username 0 (behind_sans o)) (sym e) ∙ h in cc
]

take_username-Granted :
    (X509_digest : Algorithm → Option Bytes) (cert : Cert) (cs : List Ctn) (m : MapType)
    (n u : Option Bytes)
    → Found X509_digest none cs m n
    → take_username cert 0 m n ≡ accepted u
    → Granted X509_digest cert cs u
unfolding nc_tls_ctn_get_username_from_cert
take_username-Granted D cert cs unknown n u f h = absurd (from_sans-accepted unknown cert.sans u h)
take_username-Granted D cert cs specified n u f h = inl (subst (Found D none cs specified) (cc) f)
take_username-Granted D cert cs san_rfc822_name n u f h =
    absurd (from_sans-accepted san_rfc822_name cert.sans u h)
take_username-Granted D cert cs san_dns_name n u f h =
    absurd (from_sans-accepted san_dns_name cert.sans u h)
take_username-Granted D cert cs san_ip_address n u f h =
    absurd (from_sans-accepted san_ip_address cert.sans u h)
take_username-Granted D cert cs san_any n u f h = absurd (from_sans-accepted san_any cert.sans u h)
take_username-Granted D cert cs common_name n u f h =
    let (cn, e, k) = from_cn-accepted (behind_cn cert.subject) u h in inr (n, cn, f, e, k)

-- The user name is memory that was freed: an entry which matches maps the subjectAltName, and the
-- certificate has this extension without a name of the kind. Or a fingerprint is too short.
abbrev pub Unsound : (Algorithm → Option Bytes) → Cert → List Ctn → Type 0
Unsound X509_digest cert cs =
    (nc_tls_cert_to_name X509_digest none cs ≡ overread)
    ⊎ ((m : MapType) × (n : Option Bytes) × (sans : List San) × Found X509_digest none cs m n
        × (m ≢ specified)
        × (m ≢ common_name)
        × (cert.sans ≡ some sans)
        × (san_loop m sans ≡ none))

from_cn-undefined : (o : Option Bytes) → with_username 0 (from_cn o) ≢ undefined
from_cn-undefined none h = cc
from_cn-undefined (some cn) h = cc

from_sans-undefined :
    (m : MapType) (o : Option (List San))
    → with_username 0 (from_sans m o) ≡ undefined
    → (sans : List San) × (o ≡ some sans) × (san_loop m sans ≡ none)
from_sans-undefined m none h = cc
from_sans-undefined m (some sans) h = elim (Option-cases (san_loop m sans)) [
  | inl e ↦ (sans, refl, e)
  | inr (v, e) ↦
      let f : rejected ≡ undefined = ap (λ o. with_username 0 (behind_sans o)) (sym e) ∙ h in cc
]

take_username-sans :
    (cert : Cert) (m : MapType) (n : Option Bytes)
    → m ≢ specified
    → m ≢ common_name
    → take_username cert 0 m n ≡ with_username 0 (from_sans m cert.sans)
unfolding nc_tls_ctn_get_username_from_cert
take_username-sans cert specified n h k = absurd (h refl)
take_username-sans cert common_name n h k = absurd (k refl)
take_username-sans cert _ n h k = refl

not_specified :
    (cert : Cert) (m : MapType) (n : Option Bytes)
    → take_username cert 0 m n ≡ undefined
    → (m ≢ specified) × (m ≢ common_name)
unfolding nc_tls_ctn_get_username_from_cert
not_specified cert specified n h = cc
not_specified cert common_name n h = absurd (from_cn-undefined (behind_cn cert.subject) h)
not_specified cert _ n h = (λ e. cc, λ e. cc)

-- What is behind a verdict other than a refusal.
abbrev pub IsGranted : (Algorithm → Option Bytes) → Cert → List Ctn → Verdict → Type 0
IsGranted X509_digest cert cs (accepted u) = Granted X509_digest cert cs u
IsGranted X509_digest cert cs rejected = Unit {0}
IsGranted X509_digest cert cs undefined = Unsound X509_digest cert cs

take_username-IsGranted :
    (X509_digest : Algorithm → Option Bytes) (cert : Cert) (cs : List Ctn) (m : MapType)
    (n : Option Bytes) (v : Verdict)
    → Found X509_digest none cs m n
    → take_username cert 0 m n ≡ v
    → IsGranted X509_digest cert cs v
take_username-IsGranted D cert cs m n (accepted u) f h = take_username-Granted D cert cs m n u f h
take_username-IsGranted D cert cs m n rejected f h = tt
take_username-IsGranted D cert cs m n undefined f h =
    let (a, b) = not_specified cert m n h in
    let (sans, e, k) =
      from_sans-undefined m cert.sans (sym (take_username-sans cert m n a b) ∙ h) in
    inr (m, n, sans, f, a, b, e, k)

-- What nc_tlsclb_verify makes of the first certificate of the chain (depth 0) for a session without
-- a user name. Where it accepts, an entry of the cert-to-name list matches the certificate's digest,
-- and the user name is that of an entry with a specified one or, for an entry that asks for the
-- common name, the text behind the first "CN=" in the subject's line, up to a slash. Where its
-- behaviour is undefined, an entry that asks for neither matches and the subjectAltName has no name
-- of the kind, or a fingerprint was read beyond its end. Nothing is said of a refusal.
pub verify_name-IsGranted :
    (X509_digest : Algorithm → Option Bytes) (cert : Cert) (cs : List Ctn)
    → IsGranted X509_digest cert cs (verify_name X509_digest cert 0 none cs)
unfolding verify_name
verify_name-IsGranted X509_digest cert cs =
    verdict-IsGranted (nc_tls_cert_to_name X509_digest none cs) refl
  where
    verdict-IsGranted :
        (r : Mapping)
        → nc_tls_cert_to_name X509_digest none cs ≡ r
        → IsGranted X509_digest cert cs (verdict_of cert 0 r)
    verdict-IsGranted (matched m n) e =
        take_username-IsGranted X509_digest cert cs m n _
          (nc_tls_cert_to_name-Found X509_digest none cs m n e) refl
    verdict-IsGranted unmatched e = tt
    verdict-IsGranted failed e = tt
    verdict-IsGranted overread e = inl e
