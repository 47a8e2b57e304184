-- ===== src/Hello/Accepted.antt =====
-- What a hello that is accepted leaves in the session.
use libnetconf.Common.{
  ℕ, ◌≤◌, ◌<◌, ◌^◌, ◌≡◌, inl, inr, refl, sym, ◌∙◌, ap, subst, Bool, true, false, ◌&&◌, not, List,
  [], ◌∷◌, none, some, if◌then◌else◌, ◌==◌, arith, Bool-cases, Option-cases,
}
use libnetconf.Common.Bytes.{Bytes, codes, bytes_eq}
use libnetconf.Session.{Session, Version}
use libnetconf.Session.Xml.{Elem, Elems, nil, cons, name_of, content_of, children_of}
use libnetconf.Io.Receive.{
  msg_error, msg_hello, msg_bad_hello, Received, received, overran, out_of_fuel,
}
use libnetconf.Hello.{
  is_base, strtoll, in_range, session_id, parse_cpblts, client_loop, server_loop, Outcome, outcome,
  finish_client, finish_server, client_switch, server_switch,
}

-- A session number of RFC 6241, or the 0 of a session that has none yet.
abbrev pub IsId : ℕ → Type 0
IsId n = n < 2 ^ 32

in_range-IsId : (r : Bool × ℕ × Bytes) (id : ℕ) → in_range r ≡ some id → IsId id
in_range-IsId (negative, n, []) id e = ground arith
in_range-IsId (negative, n, c ∷ cs) id e = absurd cc

session_id-IsId : (content : Bytes) (id : ℕ) → session_id content ≡ some id → IsId id
unfolding session_id
session_id-IsId [] id e = absurd cc
session_id-IsId (c ∷ cs) id e = in_range-IsId (strtoll (c ∷ cs)) id e

client_loop-IsId :
    (xs : Elems) (flag : Bool) (s : Session) → IsId s.id → IsId (client_loop xs flag s).0.id
unfolding client_loop
client_loop-IsId nil flag s h = h
client_loop-IsId (cons x rest) flag s h = elim (Bool-cases (is_base x)) [
  | inr b ↦ rw (b, client_loop) (client_loop-IsId rest flag s h)
  | inl b ↦ elim (Bool-cases (bytes_eq (name_of x) (codes "session-id"))) [
    | inl c ↦ elim (Option-cases (session_id (content_of x))) [
      | inl d ↦ rw (b, c, d, client_loop) h
      | inr (id, d) ↦
          rw (b, c, d, client_loop)
            (client_loop-IsId rest flag (record s { id = id })
              (session_id-IsId (content_of x) id d))
    ]
    | inr c ↦ elim (Bool-cases (bytes_eq (name_of x) (codes "capabilities") && not flag)) [
      | inr d ↦ rw (b, c, d, client_loop) h
      | inl d ↦ elim (Option-cases ((parse_cpblts x).1)) [
        | inl e ↦ rw (b, c, d, e, client_loop) h
        | inr (v, e) ↦
            rw (b, c, d, e, client_loop)
              (client_loop-IsId rest true (record s { cpblts = (parse_cpblts x).0; version = v }) h)
      ]
    ]
  ]
]

finish_client-id :
    (r : Session × Bool) (s' : Session)
    → IsId r.0.id
    → finish_client r ≡ outcome msg_hello s'
    → (1 ≤ s'.id) × (s'.id < 2 ^ 32)
finish_client-id (s, false) s' h e = absurd cc
finish_client-id (s, true) s' h e = elim (Bool-cases (s.id == 0)) [
  | inl z ↦ let now : finish_client (s, true) ≡ outcome msg_error s = rw z refl in absurd cc
  | inr z ↦
      let now : finish_client (s, true) ≡ outcome msg_hello s = rw z refl in
      let same : s ≡ s' = cc in
      let positive : 1 ≤ s.id = ground arith in
      subst (λ (y : Session). (1 ≤ y.id) × (y.id < 2 ^ 32)) same (positive, h)
]

-- The session that the reading hands out has a number that fits.
abbrev pub ReadsId : Received → Type 0
ReadsId (received ty x s) = IsId s.id
ReadsId overran = Unit {0}
ReadsId out_of_fuel = Unit {0}

-- A client accepts a hello only if the session then has a number from 1 to 2 ^ 32 - 1, where the
-- number that it had before is a uint32_t.
pub client_switch-id :
    (r : Received) (s' : Session)
    → ReadsId r
    → client_switch r ≡ outcome msg_hello s'
    → (1 ≤ s'.id) × (s'.id < 2 ^ 32)
unfolding client_switch
client_switch-id (received msg_hello (some x) s) s' h e =
    finish_client-id (client_loop (children_of x) false s) s'
      (client_loop-IsId (children_of x) false s h) e
client_switch-id (received msg_hello none s) s' h e = absurd cc
client_switch-id (received ty x s) s' h e = absurd cc
client_switch-id overran s' h e = absurd cc
client_switch-id out_of_fuel s' h e = absurd cc

-- The children of <hello> that are looked at.
abbrev pub base_children : Elems → List Elem
base_children nil = []
base_children (cons x rest) = let more = base_children rest in if is_base x then x ∷ more else more

abbrev is_empty : List Elem → Bool
is_empty [] = true
is_empty (x ∷ xs) = false

-- A hello by its children in the base namespace: with none it is accepted and the version stays;
-- with one, which is <capabilities>, the version is that of parse_cpblts; else it is refused.
abbrev pub served : List Elem → Session → Outcome
served [] s = outcome msg_hello s
served (c ∷ more) s = elim (bytes_eq (name_of c) (codes "capabilities")) [
  | false ↦ outcome msg_bad_hello s
  | true ↦ elim ((parse_cpblts c).1) [
    | none ↦ outcome msg_bad_hello s
    | some v ↦ elim more [
      | [] ↦ outcome msg_hello (record s { version = v })
      | d ∷ ds ↦ outcome msg_bad_hello (record s { version = v })
    ]
  ]
]

abbrev after_first : List Elem → Session → Outcome
after_first [] s = outcome msg_hello s
after_first (d ∷ ds) s = outcome msg_bad_hello s

server_loop_seen :
    (xs : Elems) (s : Session)
    → finish_server (server_loop xs true s) ≡ after_first (base_children xs) s
unfolding server_loop
server_loop_seen nil s = refl
server_loop_seen (cons x rest) s = elim (Bool-cases (is_base x)) [
  | inr b ↦ rw (b, server_loop) (server_loop_seen rest s)
  | inl b ↦ elim (Bool-cases (bytes_eq (name_of x) (codes "capabilities"))) [
    | inl c ↦ rw (b, c, server_loop) refl
    | inr c ↦ rw (b, c, server_loop) refl
  ]
]

served_one :
    (c : Elem) (more : List Elem) (s : Session) (v : Version)
    → bytes_eq (name_of c) (codes "capabilities") ≡ true
    → (parse_cpblts c).1 ≡ some v
    → served (c ∷ more) s ≡ after_first more (record s { version = v })
served_one c [] s v h k = rw (h, k, served) refl
served_one c (d ∷ ds) s v h k = rw (h, k, served) refl

server_loop-served :
    (xs : Elems) (s : Session)
    → finish_server (server_loop xs false s) ≡ served (base_children xs) s
unfolding server_loop
server_loop-served nil s = refl
server_loop-served (cons x rest) s = elim (Bool-cases (is_base x)) [
  | inr b ↦ rw (b, server_loop) (server_loop-served rest s)
  | inl b ↦ elim (Bool-cases (bytes_eq (name_of x) (codes "capabilities"))) [
    | inr c ↦ rw (b, c, server_loop, served) refl
    | inl c ↦ elim (Option-cases ((parse_cpblts x).1)) [
      | inl e ↦ rw (b, c, e, server_loop, served) refl
      | inr (v, e) ↦
          let first : finish_server (server_loop (cons x rest) false s)
              ≡ finish_server (server_loop rest true (record s { version = v })) =
            rw (b, c, e, server_loop) refl in
          let children : base_children (cons x rest) ≡ x ∷ base_children rest = rw b refl in
          first
          ∙ server_loop_seen rest (record s { version = v })
          ∙ sym (served_one x (base_children rest) s v c e)
          ∙ ap (λ y. served y s) (sym children)
    ]
  ]
]

-- What a server makes of a hello: it is accepted with the version that parse_cpblts chooses if its
-- only child in the base namespace is a <capabilities> for which there is one, and also, with the
-- version as it was, if it has no child in that namespace; else it is a bad hello.
pub server_switch-served :
    (x : Elem) (s : Session)
    → server_switch (received msg_hello (some x) s) ≡ served (base_children (children_of x)) s
unfolding server_switch
server_switch-served x s = server_loop-served (children_of x) s
