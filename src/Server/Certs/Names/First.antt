-- ===== src/Server/Certs/Names/First.antt =====
-- nc_tls_cert_to_name without the digests that it keeps.
use libnetconf.Common.{
  ◌≡◌, ◌⊎◌, inl, inr, refl, sym, ◌∙◌, ltb, ◌==◌, ==_iff, if◌then◌else◌, List, [], ◌∷◌, Option, none,
  some, drop, length, arith, Bool-cases, Option-cases,
}
use libnetconf.Common.Bytes.{Bytes}
use libnetconf.Server.Certs.{Ctn}
use libnetconf.Server.Certs.Names.{
  Algorithm, algorithm_of, algorithm_code, md5, sha1, sha224, sha256, sha384, sha512, Cache,
  remember, DigestText, text, no_digest, beyond, compute_digest, cached_digest, Mapping, matched,
  unmatched, failed, overread, mapped_name, case_eq, ctn_loop, nc_tls_cert_to_name,
}

-- What an entry comes to once the text of the digest is there.
abbrev pub with_text : Option Bytes → Ctn → DigestText → Option Mapping
with_text name c no_digest = some failed
with_text name c beyond = some overread
with_text name c (text t) =
    if ltb (length c.fingerprint) 3
    then some overread
    else (if case_eq (drop 3 c.fingerprint) t
        then some (matched c.map_type (mapped_name name c.map_type c.name))
        else none)

abbrev pub for_algorithm :
    (Algorithm → Option Bytes) → Option Bytes → Ctn → Option Algorithm → Option Mapping
for_algorithm X509_digest name c none = none
for_algorithm X509_digest name c (some a) = with_text name c (compute_digest (X509_digest a))

-- The result at which an entry ends the search, if it does: every digest is computed anew.
abbrev pub outcome : (Algorithm → Option Bytes) → Option Bytes → Ctn → Option Mapping
outcome X509_digest name c = for_algorithm X509_digest name c (algorithm_of c.fingerprint)

abbrev pub or_else : Option Mapping → Mapping → Mapping
or_else none r = r
or_else (some m) r = m

abbrev pub first_outcome : (Algorithm → Option Bytes) → Option Bytes → List Ctn → Mapping
first_outcome X509_digest name [] = unmatched
first_outcome X509_digest name (c ∷ cs) =
    or_else (outcome X509_digest name c) (first_outcome X509_digest name cs)

-- The kept texts are those of the certificate's digests.
abbrev Agrees : (Algorithm → Option Bytes) → Cache → Type 0
Agrees X509_digest cache =
    (a : Algorithm) (t : Bytes) → cache a ≡ some t → compute_digest (X509_digest a) ≡ text t

code_inj : (a b : Algorithm) → algorithm_code a ≡ algorithm_code b → a ≡ b
code_inj md5 b h = ground arith
code_inj sha1 b h = ground arith
code_inj sha224 b h = ground arith
code_inj sha256 b h = ground arith
code_inj sha384 b h = ground arith
code_inj sha512 b h = ground arith

Agrees-remember :
    (X509_digest : Algorithm → Option Bytes) (cache : Cache) (a : Algorithm) (t : Bytes)
    → compute_digest (X509_digest a) ≡ text t
    → Agrees X509_digest cache
    → Agrees X509_digest (remember a t cache)
Agrees-remember X509_digest cache a t e h b u k =
    elim (Bool-cases (algorithm_code a == algorithm_code b)) [
      | inl same ↦
          let ab : a ≡ b = code_inj a b ((==_iff _ _).0 same) in
          let tu : some t ≡ some u = cc (rw same at k) in rw (sym ab) (e ∙ cc)
      | inr other ↦ h b u (rw other at k)
    ]

cached :
    (X509_digest : Algorithm → Option Bytes) (cache : Cache) (a : Algorithm)
    → Agrees X509_digest cache
    → cached_digest (cache a) (X509_digest a) ≡ compute_digest (X509_digest a)
cached X509_digest cache a h = elim (Option-cases (cache a)) [
  | inl e ↦ rw e
  | inr (t, e) ↦ rw e (sym (h a t e))
]

DigestText-cases :
    (d : DigestText) → ((d ≡ no_digest) ⊎ (d ≡ beyond)) ⊎ ((t : Bytes) × (d ≡ text t))
DigestText-cases no_digest = inl (inl refl)
DigestText-cases beyond = inl (inr refl)
DigestText-cases (text t) = inr (t, refl)

ctn_loop-first_outcome :
    (X509_digest : Algorithm → Option Bytes) (name : Option Bytes) (cache : Cache) (cs : List Ctn)
    → Agrees X509_digest cache
    → ctn_loop X509_digest name cache cs ≡ first_outcome X509_digest name cs
unfolding ctn_loop
ctn_loop-first_outcome X509_digest name cache [] h = refl
ctn_loop-first_outcome X509_digest name cache (c ∷ cs) h =
    elim (Option-cases (algorithm_of c.fingerprint)) [
      | inl e ↦ rw (e, ctn_loop) (ctn_loop-first_outcome X509_digest name cache cs h)
      | inr (a, e) ↦
          rw (e, ctn_loop, cached X509_digest cache a h)
            (elim (DigestText-cases (compute_digest (X509_digest a))) [
              | inl (inl d) ↦ rw d
              | inl (inr d) ↦ rw d
              | inr (t, d) ↦ rw d (
                  ground (
                    arith,
                    ctn_loop-first_outcome X509_digest name (remember a t cache) cs
                        (Agrees-remember X509_digest cache a t d h),
                  ))
            ])
    ]

-- On a list with entries, nc_tls_cert_to_name gives what the first entry to decide gives when the
-- digest of each entry's algorithm is computed anew: 0 with the entry's mapping, and its name where
-- one is specified, at the first entry whose fingerprint is the digest; -1 if X509_digest fails
-- first; and 1 if no entry decides.
pub nc_tls_cert_to_name-first_outcome :
    (X509_digest : Algorithm → Option Bytes) (name : Option Bytes) (c : Ctn) (cs : List Ctn)
    → nc_tls_cert_to_name X509_digest name (c ∷ cs) ≡ first_outcome X509_digest name (c ∷ cs)
unfolding nc_tls_cert_to_name
nc_tls_cert_to_name-first_outcome X509_digest name c cs =
    ctn_loop-first_outcome X509_digest name (λ a. none) (c ∷ cs) (λ a t h. cc)
