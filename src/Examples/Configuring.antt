-- ===== src/Examples/Configuring.antt =====
-- A server's endpoints and options, and the theorems about them.

use libnetconf.Common.{
  ℕ, ◌≡◌, refl, inr, true, List, [], ◌∷◌, Option, none, some, arith, length, if◌then◌else◌,
}
use libnetconf.Common.Bytes.{Bytes, codes, bytes_eq}
use libnetconf.Session.{TransportImpl, ti_libssh, ti_openssl}
use libnetconf.Server.Poll.{done}
use libnetconf.Server.Certs.{specified}
use libnetconf.Server.Swap.Kept.{TakenOut, any}
use libnetconf.Server.Endpoints.{
  Endpt, Authkey, is_endpt, new_endpt, nc_server_endpt_lock, nc_server_add_endpt_listen,
  nc_server_del_endpt,
}
use libnetconf.Server.Endpoints.Keyed.{AreApart, same_key}
use libnetconf.Server.Endpoints.Table.{nc_server_endpt_lock-nc_server_add_endpt_listen}
use libnetconf.Server.Endpoints.Deleted.{nc_server_endpt_lock-nc_server_del_endpt}
use libnetconf.Server.Options.{ServerOpts, initial}
use libnetconf.Server.Options.Ssh.{is_key, del_keys}
use libnetconf.Server.Options.Valid.{IsValid, HasRoom, Returns}
use libnetconf.Server.Options.Calls.{server_call, tls_endpt_add_ctn}
use libnetconf.Server.Options.Calls.Always.{server_call-IsValid}
use libnetconf.Server.Options.Deleted.{del_keys-TakenOut, del_keys_keeps}

abbrev listens : Bytes → ℕ → Option ℕ
listens address port = some 7

abbrev main_endpt : Endpt
main_endpt = new_endpt (codes "main") (codes "::") 830 ti_libssh 7

abbrev tls_endpt : Endpt
tls_endpt = new_endpt (codes "main") (codes "::") 6513 ti_openssl 8

abbrev configured : ServerOpts
configured = record initial { endpts = main_endpt ∷ tls_endpt ∷ [] }

two_endpts-AreApart : AreApart (main_endpt ∷ tls_endpt ∷ [])
unfolding is_endpt
two_endpts-AreApart = ((refl, tt), (tt, tt))

configured-IsValid : IsValid configured
configured-IsValid = record {
  apart = two_endpts-AreApart;
  endpts = ((omega arith, (refl, omega arith, omega arith)), ((omega arith, (tt, tt, tt)), tt));
  ssh_ch = (refl, omega arith, omega arith);
  tls_ch = (tt, tt, tt);
}

configured-HasRoom : HasRoom configured
configured-HasRoom = record {
  count = omega arith;
  keys = (omega arith, (tt, tt));
  ch_keys = omega arith;
}

server_call-IsValid_example : Returns IsValid (
    server_call
      (tls_endpt_add_ctn (codes "main") 1 (some (codes "04:ab")) specified (some (codes "ann")))
      configured)
server_call-IsValid_example =
    server_call-IsValid
      (tls_endpt_add_ctn (codes "main") 1 (some (codes "04:ab")) specified (some (codes "ann")))
      configured configured-IsValid configured-HasRoom

added :
    nc_server_add_endpt_listen listens
      (some (codes "main"))
      (some (codes "::"))
      6513
      ti_openssl
      (main_endpt ∷ [])
    ≡ done (main_endpt ∷ new_endpt (codes "main") (codes "::") 6513 ti_openssl 7 ∷ [], true)
unfolding nc_server_add_endpt_listen is_endpt bytes_eq
added = refl

nc_server_endpt_lock-nc_server_add_endpt_listen_example :
    AreApart (main_endpt ∷ new_endpt (codes "main") (codes "::") 6513 ti_openssl 7 ∷ [])
    × (length (main_endpt ∷ new_endpt (codes "main") (codes "::") 6513 ti_openssl 7 ∷ []) ≡ 2)
    × (sock : ℕ) × (listens (codes "::") 6513 ≡ some sock)
    × ((n : Bytes) (t : TransportImpl)
        → nc_server_endpt_lock n t
            (main_endpt ∷ new_endpt (codes "main") (codes "::") 6513 ti_openssl 7 ∷ [])
          ≡ (if same_key n t (codes "main") ti_openssl
              then some (new_endpt (codes "main") (codes "::") 6513 ti_openssl sock)
              else nc_server_endpt_lock n t (main_endpt ∷ [])))
nc_server_endpt_lock-nc_server_add_endpt_listen_example =
    nc_server_endpt_lock-nc_server_add_endpt_listen listens (codes "main") (codes "::") 6513
      ti_openssl (main_endpt ∷ [])
      (main_endpt ∷ new_endpt (codes "main") (codes "::") 6513 ti_openssl 7 ∷ []) (tt, tt) added

nc_server_endpt_lock-nc_server_del_endpt_example :
    AreApart (nc_server_del_endpt (some (codes "main")) ti_libssh (main_endpt ∷ tls_endpt ∷ [])).0
    × ((nc_server_del_endpt (some (codes "main")) ti_libssh (main_endpt ∷ tls_endpt ∷ [])).1
        ≡ any (is_endpt (codes "main") ti_libssh) (main_endpt ∷ tls_endpt ∷ []))
    × ((n : Bytes) (t : TransportImpl)
        → nc_server_endpt_lock n t
            (nc_server_del_endpt (some (codes "main")) ti_libssh (main_endpt ∷ tls_endpt ∷ [])).0
          ≡ (if same_key n t (codes "main") ti_libssh
              then none
              else nc_server_endpt_lock n t (main_endpt ∷ tls_endpt ∷ [])))
nc_server_endpt_lock-nc_server_del_endpt_example =
    nc_server_endpt_lock-nc_server_del_endpt (codes "main") ti_libssh (main_endpt ∷ tls_endpt ∷ [])
      two_endpts-AreApart

abbrev key_of : Bytes → Authkey
key_of path = record { path = path; username = codes "joe" }

del_keys-TakenOut_example :
    TakenOut
      (is_key none (some (codes "joe")))
      (key_of (codes "a") ∷ key_of (codes "b") ∷ [])
      (del_keys none (some (codes "joe")) (key_of (codes "a") ∷ key_of (codes "b") ∷ []))
    × ((del_keys none (some (codes "joe")) (key_of (codes "a") ∷ key_of (codes "b") ∷ [])).1
        ≡ any (is_key none (some (codes "joe"))) (key_of (codes "a") ∷ key_of (codes "b") ∷ []))
del_keys-TakenOut_example =
    del_keys-TakenOut none (some (codes "joe")) (key_of (codes "a") ∷ key_of (codes "b") ∷ [])

joe_asked : is_key none (some (codes "joe")) (key_of (codes "a")) ≡ true
unfolding is_key bytes_eq
joe_asked = refl

del_keys_keeps_example :
    (rest : List Authkey) × (del_keys none
        (some (codes "joe"))
        (key_of (codes "a") ∷ key_of (codes "b") ∷ [])
      ≡ (key_of (codes "b") ∷ rest, true))
del_keys_keeps_example =
    del_keys_keeps none (some (codes "joe")) (key_of (codes "a")) [] (key_of (codes "b"))
      (inr (λ e. cc)) joe_asked
