-- ===== src/Server/Options/Listed.antt =====
-- The functions on the list of endpoints keep a configuration valid.

use libnetconf.Common.{
  ℕ, ◌+◌, ◌<◌, ◌%◌, ◌^◌, ◌≡◌, inl, inr, refl, Bool, false, ◌&&◌, ◌||◌, not, ◌==◌, List, [], ◌∷◌,
  All, All-append, Option, none, some, arith, Bool-cases, Option-cases, length,
}
use libnetconf.Common.Bytes.{Bytes}
use libnetconf.Session.{TransportImpl}
use libnetconf.Server.Poll.{Done, done, undefined}
use libnetconf.Server.Swap.Kept.{swap_remove-TakenOut}
use libnetconf.Server.Endpoints.{
  Endpt, ti_code, is_endpt, find_endpt, new_opts, new_endpt, append_endpt, nc_server_endpt_lock,
  nc_server_add_endpt_listen, set_listening, set_one, set_locked, is_null,
  nc_server_endpt_set_address_port, removes, nc_server_del_endpt,
}
use libnetconf.Server.Endpoints.Keyed.{AreApart, Permᴰ-All, Permᴰ-AreApart}
use libnetconf.Server.Endpoints.Table.{AreApart-append, All-Fails}
use libnetconf.Server.Endpoints.Deleted.{All-left, AreApart-left}
use libnetconf.Server.Options.{ServerOpts, store_endpts}
use libnetconf.Server.Options.Valid.{OptsOk, EndptOk, IsValid, Returns}
use libnetconf.Server.Options.Kept.{KeepsKey, change-All, change-AreApart}

abbrev pub EndptsOk : List Endpt → Type 0
EndptsOk es = AreApart es × All EndptOk es

pub store_endpts-IsValid :
    (s : ServerOpts) (r : Done (List Endpt × Bool))
    → Returns EndptsOk r
    → IsValid s
    → Returns IsValid (store_endpts s r)
store_endpts-IsValid s undefined h v = h
store_endpts-IsValid s (done (es, ret)) h v = record {
  apart = h.0;
  endpts = h.1;
  ssh_ch = v.ssh_ch;
  tls_ch = v.tls_ch;
}

append_endpt-EndptsOk :
    (es : List Endpt) (e : Endpt)
    → length es + 1 < 2 ^ 16
    → find_endpt (is_endpt e.name e.ti) es ≡ none
    → EndptOk e
    → EndptsOk es
    → Returns EndptsOk (append_endpt e es)
append_endpt-EndptsOk es e l f k h =
    let room : ((length es + 1) % 2 ^ 16 == 0) ≡ false = ground arith in
    rw room (
      AreApart-append es e h.0 (All-Fails (is_endpt e.name e.ti) es f),
      All-append EndptOk es (e ∷ []) h.1 (k, tt),
    )

-- A new endpoint of SSH or TLS.
pub nc_server_add_endpt_listen-EndptsOk :
    (nc_sock_listen : Bytes → ℕ → Option ℕ) (name address : Option Bytes) (port : ℕ)
    (ti : TransportImpl) (es : List Endpt)
    → length es + 1 < 2 ^ 16
    → OptsOk ti (new_opts ti)
    → EndptsOk es
    → Returns EndptsOk (nc_server_add_endpt_listen nc_sock_listen name address port ti es)
unfolding nc_server_add_endpt_listen
nc_server_add_endpt_listen-EndptsOk f none address port ti es l k h = h
nc_server_add_endpt_listen-EndptsOk f (some name) none port ti es l k h = h
nc_server_add_endpt_listen-EndptsOk f (some name) (some address) port ti es l k h =
    elim (Bool-cases (port == 0)) [
      | inl b ↦ rw b h
      | inr b ↦ elim (Option-cases (find_endpt (is_endpt name ti) es)) [
        | inr (e, o) ↦ rw (b, o) h
        | inl o ↦ elim (Option-cases (f address port)) [
          | inl n ↦ rw (b, o, n) h
          | inr (sock, n) ↦
              rw (b, o, n)
                (append_endpt-EndptsOk es (new_endpt name address port ti sock) l o
                  (ground arith, k) h)
        ]
      ]
    ]

set_listening-EndptsOk :
    (test : Endpt → Bool) (f : ℕ → Endpt → Endpt) (es : List Endpt) (r : Option ℕ)
    → ((sock : ℕ) → KeepsKey (f sock))
    → ((sock : ℕ) (e : Endpt) → EndptOk e → EndptOk (f sock e))
    → EndptsOk es
    → EndptsOk (set_listening test f es r).0
set_listening-EndptsOk test f es none k p h = h
set_listening-EndptsOk test f es (some sock) k p h = (
  change-AreApart test (f sock) es (k sock) h.0,
  change-All EndptOk test (f sock) es (λ e _ q. p sock e q) h.1,
)

set_one-EndptsOk :
    (nc_sock_listen : Bytes → ℕ → Option ℕ) (test : Endpt → Bool) (address : Option Bytes)
    (port : ℕ) (es : List Endpt) (e : Endpt)
    → is_null address && port == 0 ≡ false
    → EndptsOk es
    → EndptsOk (set_one nc_sock_listen test address port es e).0
set_one-EndptsOk f test (some address) port es e g h =
    set_listening-EndptsOk test _ es (f address e.port) (λ sock e. (refl, refl)) (λ sock e q. q) h
set_one-EndptsOk f test none port es e g h =
    let pos : 0 < port = ground arith in
    set_listening-EndptsOk test _ es (f e.address port) (λ sock e. (refl, refl))
      (λ sock e q. (pos, q.1)) h

pub nc_server_endpt_set_address_port-EndptsOk :
    (nc_sock_listen : Bytes → ℕ → Option ℕ) (name address : Option Bytes) (port : ℕ)
    (ti : TransportImpl) (es : List Endpt)
    → EndptsOk es
    → EndptsOk (nc_server_endpt_set_address_port nc_sock_listen name address port ti es).0
unfolding nc_server_endpt_set_address_port
nc_server_endpt_set_address_port-EndptsOk f none address port ti es h = h
nc_server_endpt_set_address_port-EndptsOk f (some name) address port ti es h =
    elim (Bool-cases (is_null address && port == 0)) [
      | inl b ↦ rw b h
      | inr b ↦
          rw b (elim (Bool-cases ((not (is_null address) && not (port == 0)) || ti_code ti == 0)) [
            | inl c ↦ rw c h
            | inr c ↦ rw c (locked b (nc_server_endpt_lock name ti es))
          ])
    ]
  where
    locked :
        is_null address && port == 0 ≡ false
        → (o : Option Endpt) → EndptsOk (set_locked f (is_endpt name ti) address port es o).0
    locked b none = h
    locked b (some e) = set_one-EndptsOk f (is_endpt name ti) address port es e b h

pub nc_server_del_endpt-EndptsOk :
    (name : Option Bytes) (ti : TransportImpl) (es : List Endpt)
    → EndptsOk es
    → EndptsOk (nc_server_del_endpt name ti es).0
unfolding nc_server_del_endpt
nc_server_del_endpt-EndptsOk name ti es h = elim (Bool-cases (is_null name && ti_code ti == 0)) [
  | inl b ↦ rw b (tt, tt)
  | inr b ↦
      let ((out, p, _, _), _) = swap_remove-TakenOut (removes name ti) (not (is_null name)) es in
      rw b (
        AreApart-left _ out (Permᴰ-AreApart p h.0),
        All-left EndptOk _ out (Permᴰ-All EndptOk p h.1),
      )
]
