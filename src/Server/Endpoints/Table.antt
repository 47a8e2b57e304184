-- ===== src/Server/Endpoints/Table.antt =====
-- The endpoints as a table: what nc_server_endpt_lock finds after an addition.

use libnetconf.Common.{
  ℕ, ◌≡◌, inl, inr, refl, sym, ◌∙◌, Bool, true, false, ◌==◌, List, [], ◌∷◌, ◌++◌, All, Option, none,
  some, arith, Bool-cases, Option-cases, if◌then◌else◌, length, ◌+◌, All-append, length-append,
}
use libnetconf.Common.Bytes.{Bytes}
use libnetconf.Session.{TransportImpl}
use libnetconf.Server.Poll.{Done, done}
use libnetconf.Server.Endpoints.{
  Endpt, is_endpt, find_endpt, nc_server_endpt_lock, new_endpt, append_endpt,
  nc_server_add_endpt_listen,
}
use libnetconf.Server.Endpoints.Keyed.{
  same_key, same_key→eq, same_key_refl, Differ, Differ-symm, AreApart, Fails,
}

pub All-Fails :
    (test : Endpt → Bool) (xs : List Endpt) → find_endpt test xs ≡ none → All (Fails test) xs
All-Fails test [] h = tt
All-Fails test (x ∷ xs) h = elim (Bool-cases (test x)) [
  | inl b ↦ let f : some x ≡ none = rw b at h in cc
  | inr b ↦ (b, All-Fails test xs (rw b at h))
]

pub AreApart-append :
    (xs : List Endpt) (e : Endpt)
    → AreApart xs
    → All (Fails (is_endpt e.name e.ti)) xs
    → AreApart (xs ++ (e ∷ []))
AreApart-append [] e a h = (tt, tt)
AreApart-append (x ∷ xs) e a h =
    (All-append (Differ x) xs (e ∷ []) a.0 (Differ-symm e x h.0, tt), AreApart-append xs e a.1 h.1)

find_endpt-append :
    (test : Endpt → Bool) (xs : List Endpt) (e : Endpt)
    → find_endpt test (xs ++ (e ∷ []))
      ≡ elim (find_endpt test xs) [ some x ↦ some x | none ↦ if test e then some e else none ]
find_endpt-append test [] e = refl
find_endpt-append test (x ∷ xs) e = ground (arith, find_endpt-append test xs e)

lock_new :
    (name : Bytes) (ti : TransportImpl) (es : List Endpt) (e : Endpt) (n : Bytes)
    (t : TransportImpl)
    → find_endpt (is_endpt name ti) es ≡ none
    → e.name ≡ name
    → e.ti ≡ ti
    → find_endpt (is_endpt n t) (es ++ (e ∷ []))
      ≡ (if same_key n t name ti then some e else find_endpt (is_endpt n t) es)
unfolding is_endpt
lock_new name ti es e n t h p q = elim (Bool-cases (same_key n t name ti)) [
  | inl b ↦
      let (x, y) = same_key→eq n t name ti b in
      let old : find_endpt (is_endpt n t) es ≡ none = subst2 x y h in
      let new : is_endpt n t e ≡ true = rw (p, q, x, y) (same_key_refl n t) in
      rw b (find_endpt-append (is_endpt n t) es e ∙ rw (old, new))
  | inr b ↦
      let other : is_endpt n t e ≡ false = rw (p, q) b in
      rw b (
        find_endpt-append (is_endpt n t) es e
        ∙ no_more (is_endpt n t e) (find_endpt (is_endpt n t) es) other)
]
  where
    subst2 :
        name ≡ n
        → ti ≡ t
        → find_endpt (is_endpt name ti) es ≡ none
        → find_endpt (is_endpt n t) es ≡ none
    subst2 x y k = rw (sym x, sym y) k

    no_more :
        (b : Bool) (o : Option Endpt)
        → b ≡ false
        → ◌≡◌ {A = Option Endpt} (elim o [ some x ↦ some x | none ↦ if b then some e else none ]) o
    no_more b none k = rw k
    no_more b (some x) k = refl

-- What an accepted call has done.
accepted-append :
    (nc_sock_listen : Bytes → ℕ → Option ℕ) (name address : Bytes) (port : ℕ) (ti : TransportImpl)
    (es es' : List Endpt)
    → nc_server_add_endpt_listen nc_sock_listen (some name) (some address) port ti es
      ≡ done (es', true)
    → (find_endpt (is_endpt name ti) es ≡ none)
      × (sock : ℕ) × (nc_sock_listen address port ≡ some sock)
      × (es' ≡ es ++ (new_endpt name address port ti sock ∷ []))
unfolding nc_server_add_endpt_listen
accepted-append f name address port ti es es' h = elim (Bool-cases (port == 0)) [
  | inl b ↦
      let k : ◌≡◌ {A = Done (List Endpt × Bool)} (done (es, false)) (done (es', true)) =
        rw b at h in
      cc
  | inr b ↦ elim (Option-cases (find_endpt (is_endpt name ti) es)) [
    | inr (e, o) ↦
        let k : ◌≡◌ {A = Done (List Endpt × Bool)} (done (es, false)) (done (es', true)) =
          rw (b, o) at h in
        cc
    | inl o ↦ elim (Option-cases (f address port)) [
      | inl l ↦
          let k : ◌≡◌ {A = Done (List Endpt × Bool)} (done (es, false)) (done (es', true)) =
            rw (b, o, l) at h in
          cc
      | inr (sock, l) ↦
          let k : append_endpt (new_endpt name address port ti sock) es ≡ done (es', true) =
            rw (b, o, l) at h in
          (o, sock, l, appended (new_endpt name address port ti sock) k)
    ]
  ]
]
  where
    appended : (e : Endpt) → append_endpt e es ≡ done (es', true) → es' ≡ es ++ (e ∷ [])
    appended e k = ground arith

-- An accepted endpoint is found by its name and transport, listening on its address and port with
-- the default options, and the others are found as before; no two share a name and transport.
pub nc_server_endpt_lock-nc_server_add_endpt_listen :
    (nc_sock_listen : Bytes → ℕ → Option ℕ) (name address : Bytes) (port : ℕ) (ti : TransportImpl)
    (es es' : List Endpt)
    → AreApart es
    → nc_server_add_endpt_listen nc_sock_listen (some name) (some address) port ti es
      ≡ done (es', true)
    → AreApart es'
      × (length es' ≡ length es + 1)
      × (sock : ℕ) × (nc_sock_listen address port ≡ some sock)
      × ((n : Bytes) (t : TransportImpl)
          → nc_server_endpt_lock n t es' ≡ (
              if same_key n t name ti
              then some (new_endpt name address port ti sock)
              else nc_server_endpt_lock n t es))
unfolding nc_server_add_endpt_listen nc_server_endpt_lock
nc_server_endpt_lock-nc_server_add_endpt_listen f name address port ti es es' a h =
    let (o, sock, l, e) = accepted-append f name address port ti es es' h in
    let new = new_endpt name address port ti sock in
    (
      rw e (AreApart-append es new a (All-Fails (is_endpt name ti) es o)),
      rw e (omega (arith, length-append es (new ∷ []))),
      sock,
      l,
      λ n t. rw e (lock_new name ti es new n t o refl refl),
    )

refused :
    (nc_sock_listen : Bytes → ℕ → Option ℕ) (name : Bytes) (ti : TransportImpl) (es : List Endpt)
    (address : Option Bytes) (port : ℕ) (e : Endpt)
    → nc_server_endpt_lock name ti es ≡ some e
    → nc_server_add_endpt_listen nc_sock_listen (some name) address port ti es ≡ done (es, false)
unfolding nc_server_add_endpt_listen nc_server_endpt_lock
refused f name ti es none port e h = refl
refused f name ti es (some address) port e h = rw h (ground arith)

-- An endpoint that was added cannot be added again, whatever the address: the result is -1 and the
-- endpoints are unchanged.
pub nc_server_add_endpt_listen-nc_server_add_endpt_listen :
    (nc_sock_listen : Bytes → ℕ → Option ℕ) (name address : Bytes) (port : ℕ) (ti : TransportImpl)
    (es es' : List Endpt) (address' : Option Bytes) (port' : ℕ)
    → AreApart es
    → nc_server_add_endpt_listen nc_sock_listen (some name) (some address) port ti es
      ≡ done (es', true)
    → nc_server_add_endpt_listen nc_sock_listen (some name) address' port' ti es'
      ≡ done (es', false)
nc_server_add_endpt_listen-nc_server_add_endpt_listen f name address port ti es es' address' port' a
      h =
    let (_, _, sock, _, l) =
      nc_server_endpt_lock-nc_server_add_endpt_listen f name address port ti es es' a h in
    refused f name ti es' address' port' (new_endpt name address port ti sock)
      (l name ti ∙ rw same_key_refl)
