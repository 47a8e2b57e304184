-- ===== src/Server/Certs/Names.antt =====
-- From a certificate to an entry of the list: digest_to_str and nc_tls_cert_to_name of
-- src/session_server_tls.c. X509_digest is an argument. Allocation succeeds.
pub mod First
pub mod Digests
use libnetconf.Common.{
  ℕ, suc, ◌+◌, ◌/◌, ◌%◌, Bool, true, false, ◌&&◌, ltb, leb, ◌==◌, if◌then◌else◌, List, [], ◌∷◌,
  ◌++◌, map, Option, none, some, take, drop, length,
}
use libnetconf.Common.Bytes.{Bytes, codes, bytes_eq}
use libnetconf.Common.Decimal.{print_dec}
use libnetconf.Server.Certs.{
  Ctn, MapType, unknown, specified, san_rfc822_name, san_dns_name, san_ip_address, san_any,
  common_name,
}

-- "%x" of a number below 16.
abbrev pub hex_digit : ℕ → ℕ
hex_digit n = if ltb n 10 then 48 + n else 87 + n

-- "%02x" of a byte.
abbrev pub hex_byte : ℕ → Bytes
hex_byte b = hex_digit (b / 16) ∷ hex_digit (b % 16) ∷ []

-- The digest behind a byte.
unfoldable pub hex_more : ℕ → Bytes → Bytes
hex_more b [] = hex_byte b
hex_more b (c ∷ cs) = hex_byte b ++ (58 ∷ hex_more c cs)

-- `none` is an empty digest, for which the loop bound wraps around.
unfoldable pub digest_to_str : Bytes → Option Bytes
digest_to_str [] = none
digest_to_str (b ∷ bs) = some (hex_more b bs)

abbrev pub lower : ℕ → ℕ
lower c = if leb 65 c && leb c 90 then c + 32 else c

-- `!strcasecmp(a, b)`.
unfoldable pub case_eq : Bytes → Bytes → Bool
case_eq a b = bytes_eq (map lower a) (map lower b)

pub data Algorithm : Type 0 where
  md5 : Algorithm
  sha1 : Algorithm
  sha224 : Algorithm
  sha256 : Algorithm
  sha384 : Algorithm
  sha512 : Algorithm

abbrev pub algorithm_code : Algorithm → ℕ
algorithm_code md5 = 1
algorithm_code sha1 = 2
algorithm_code sha224 = 3
algorithm_code sha256 = 4
algorithm_code sha384 = 5
algorithm_code sha512 = 6

-- The tests of the first two characters.
unfoldable pub algorithm_of : Bytes → Option Algorithm
algorithm_of f =
    let start = take 2 f in
    if bytes_eq start (codes "01")
    then some md5
    else (if bytes_eq start (codes "02")
        then some sha1
        else (if bytes_eq start (codes "03")
            then some sha224
            else (if bytes_eq start (codes "04")
                then some sha256
                else (if bytes_eq start (codes "05")
                    then some sha384
                    else (if bytes_eq start (codes "06") then some sha512 else none)))))

-- The variables `digest_md5` to `digest_sha512`.
abbrev pub Cache : Type 0
Cache = Algorithm → Option Bytes

abbrev pub remember : Algorithm → Bytes → Cache → Cache
remember a text cache b = if algorithm_code a == algorithm_code b then some text else cache b

-- The text of a digest, -1, or undefined behaviour.
pub data DigestText : Type 0 where
  text : Bytes → DigestText
  no_digest : DigestText
  beyond : DigestText

abbrev pub text_of : Option Bytes → DigestText
text_of none = beyond
text_of (some t) = text t

abbrev pub compute_digest : Option Bytes → DigestText
compute_digest none = no_digest
compute_digest (some d) = text_of (digest_to_str d)

abbrev pub cached_digest : Option Bytes → Option Bytes → DigestText
cached_digest (some t) digest = text t
cached_digest none digest = compute_digest digest

-- The results 0 with `*map_type` and `*name`, 1 and -1, or undefined behaviour: `fingerprint + 3`
-- is behind the end of a text of two characters.
pub data Mapping : Type 0 where
  matched : MapType → Option Bytes → Mapping
  unmatched : Mapping
  failed : Mapping
  overread : Mapping

-- `name` is what `*name` was.
abbrev pub mapped_name : Option Bytes → MapType → Option Bytes → Option Bytes
mapped_name name specified entry = entry
mapped_name name m entry = name

unfoldable pub ctn_loop :
    (X509_digest : Algorithm → Option Bytes) → Option Bytes → Cache → List Ctn → Mapping
ctn_loop X509_digest name cache [] = unmatched
ctn_loop X509_digest name cache (ctn ∷ rest) = elim (algorithm_of ctn.fingerprint) [
  | none ↦ ctn_loop X509_digest name cache rest
  | some a ↦ elim (cached_digest (cache a) (X509_digest a)) [
    | no_digest ↦ failed
    | beyond ↦ overread
    | text t ↦ elim (ltb (length ctn.fingerprint) 3) [
      | true ↦ overread
      | false ↦ elim (case_eq (drop 3 ctn.fingerprint) t) [
        | true ↦ matched ctn.map_type (mapped_name name ctn.map_type ctn.name)
        | false ↦ ctn_loop X509_digest name (remember a t cache) rest
      ]
    ]
  ]
]

unfoldable pub nc_tls_cert_to_name :
    (X509_digest : Algorithm → Option Bytes) → Option Bytes → List Ctn → Mapping
nc_tls_cert_to_name X509_digest name [] = failed
nc_tls_cert_to_name X509_digest name (ctn ∷ rest) =
    ctn_loop X509_digest name (λ a. none) (ctn ∷ rest)
