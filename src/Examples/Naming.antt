-- ===== src/Examples/Naming.antt =====
-- Cert-to-name lists and certificates, and the theorems about them.
use libnetconf.Common.{◌≡◌, refl, true, [], ◌∷◌, Option, none, some, arith}
use libnetconf.Common.Bytes.{Bytes, codes, bytes_eq}
use libnetconf.Server.Certs.{Ctn, specified, san_any, common_name, nc_server_tls_add_ctn}
use libnetconf.Server.Certs.Sorted.{IsSorted, Placed, nc_server_tls_add_ctn-Placed}
use libnetconf.Server.Certs.Names.{
  Algorithm, md5, algorithm_of, digest_to_str, hex_more, case_eq, ctn_loop, matched,
  nc_tls_cert_to_name,
}
use libnetconf.Server.Certs.Users.{
  Cert, dns, before_byte, behind_cn, nc_tls_ctn_get_username_from_cert, accepted, rejected,
  verify_name,
}
use libnetconf.Server.Certs.Names.First.{first_outcome, nc_tls_cert_to_name-first_outcome}
use libnetconf.Server.Certs.Names.Digests.{case_eq-digest_to_str}
use libnetconf.Server.Certs.Users.Granted.{IsGranted, verify_name-IsGranted}
use libnetconf.Server.Certs.Users.Sans.{verify_name_san}

-- The digests of a certificate that OpenSSL computes.
abbrev digests : Algorithm → Option Bytes
digests md5 = some (1 ∷ 2 ∷ [])
digests _ = some (171 ∷ 205 ∷ [])

abbrev other_entry : Ctn
other_entry = record {
  id = 1;
  fingerprint = codes "01:FF:FF";
  map_type = specified;
  name = some (codes "eve");
}

abbrev cn_entry : Ctn
cn_entry = record { id = 5; fingerprint = codes "04:AB:cd"; map_type = common_name; name = none }

abbrev san_entry : Ctn
san_entry = record { id = 5; fingerprint = codes "04:AB:cd"; map_type = san_any; name = none }

abbrev client_cert : Cert
client_cert = record {
  subject = codes "/C=CZ/CN=joe/O=x";
  sans = some (dns (codes "joe.example") ∷ []);
}

two_entries-IsSorted : IsSorted (other_entry ∷ cn_entry ∷ [])
two_entries-IsSorted = omega arith

nc_server_tls_add_ctn-Placed_example :
    ((nc_server_tls_add_ctn 3
        (some (codes "02:00"))
        specified
        (some (codes "ann"))
        (other_entry ∷ cn_entry ∷ [])).1
      ≡ true)
    × Placed
        (record {
          id = 3;
          fingerprint = codes "02:00";
          map_type = specified;
          name = some (codes "ann");
        })
        (other_entry ∷ cn_entry ∷ [])
        (nc_server_tls_add_ctn 3
          (some (codes "02:00"))
          specified
          (some (codes "ann"))
          (other_entry ∷ cn_entry ∷ [])).0
    × IsSorted
        (nc_server_tls_add_ctn 3
          (some (codes "02:00"))
          specified
          (some (codes "ann"))
          (other_entry ∷ cn_entry ∷ [])).0
nc_server_tls_add_ctn-Placed_example =
    nc_server_tls_add_ctn-Placed 3 (codes "02:00") specified (some (codes "ann"))
      (other_entry ∷ cn_entry ∷ []) refl two_entries-IsSorted

nc_tls_cert_to_name-first_outcome_example :
    nc_tls_cert_to_name digests none (other_entry ∷ cn_entry ∷ [])
    ≡ first_outcome digests none (other_entry ∷ cn_entry ∷ [])
nc_tls_cert_to_name-first_outcome_example =
    nc_tls_cert_to_name-first_outcome digests none other_entry (cn_entry ∷ [])

joe_named :
    verify_name digests client_cert 0 none (other_entry ∷ cn_entry ∷ [])
    ≡ accepted (some (codes "joe"))
unfolding verify_name nc_tls_cert_to_name ctn_loop algorithm_of bytes_eq digest_to_str hex_more
    case_eq nc_tls_ctn_get_username_from_cert behind_cn before_byte
joe_named = refl

verify_name-IsGranted_example :
    IsGranted digests client_cert
      (other_entry ∷ cn_entry ∷ [])
      (verify_name digests client_cert 0 none (other_entry ∷ cn_entry ∷ []))
verify_name-IsGranted_example =
    verify_name-IsGranted digests client_cert (other_entry ∷ cn_entry ∷ [])

san_matched : nc_tls_cert_to_name digests none (other_entry ∷ san_entry ∷ []) ≡ matched san_any none
unfolding nc_tls_cert_to_name ctn_loop algorithm_of bytes_eq digest_to_str hex_more case_eq
san_matched = refl

verify_name_san_example :
    verify_name digests client_cert 0 none (other_entry ∷ san_entry ∷ []) ≡ rejected
verify_name_san_example =
    verify_name_san digests client_cert (other_entry ∷ san_entry ∷ []) san_any none san_matched refl

two_bytes_text : digest_to_str (171 ∷ 205 ∷ []) ≡ some (codes "ab:cd")
unfolding digest_to_str hex_more
two_bytes_text = refl

same_letters : case_eq (codes "AB:cd") (codes "ab:cd") ≡ true
unfolding case_eq bytes_eq
same_letters = refl

case_eq-digest_to_str_example : ◌≡◌ {A = Bytes} (171 ∷ 205 ∷ []) (171 ∷ 205 ∷ [])
case_eq-digest_to_str_example =
    case_eq-digest_to_str (codes "AB:cd") (171 ∷ 205 ∷ []) (171 ∷ 205 ∷ []) (codes "ab:cd")
      (codes "ab:cd") (omega arith) (omega arith) two_bytes_text two_bytes_text same_letters
      same_letters
