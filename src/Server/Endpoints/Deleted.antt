-- ===== src/Server/Endpoints/Deleted.antt =====
-- What nc_server_endpt_lock finds after a deletion by name.
use mathlib.Core.List.{Permᴰ}
use libnetconf.Common.{
  ◌≡◌, inl, inr, refl, sym, ap, ◌∙◌, Bool, true, false, List, [], ◌∷◌, ◌++◌, All, none, some, arith,
  Bool-cases, if◌then◌else◌, append-nil,
}
use libnetconf.Common.Bytes.{Bytes}
use libnetconf.Session.{TransportImpl}
use libnetconf.Server.Swap.Kept.{Is, non_empty, any, swap_remove-TakenOut}
use libnetconf.Server.Endpoints.{
  Endpt, is_endpt, find_endpt, nc_server_endpt_lock, nc_server_del_endpt,
}
use libnetconf.Server.Endpoints.Keyed.{
  same_key, same_key→eq, Differ, AreApart, is_endpt_both, Permᴰ-AreApart, find_endpt-Permᴰ, Fails,
  find_endpt-append_left, find_endpt-Fails,
}

pub All-left : (P : Endpt → Type 0) (xs ys : List Endpt) → All P (xs ++ ys) → All P xs
All-left P [] ys h = tt
All-left P (x ∷ xs) ys h = (h.0, All-left P xs ys h.1)

All-right : (P : Endpt → Type 0) (xs ys : List Endpt) → All P (xs ++ ys) → All P ys
All-right P [] ys h = h
All-right P (x ∷ xs) ys h = All-right P xs ys h.1

pub AreApart-left : (xs ys : List Endpt) → AreApart (xs ++ ys) → AreApart xs
AreApart-left [] ys a = tt
AreApart-left (x ∷ xs) ys a = (All-left (Differ x) xs ys a.0, AreApart-left xs ys a.1)

-- Where an endpoint of the key is taken out, none is left.
apart-Fails :
    (n : Bytes) (t : TransportImpl) (r : List Endpt) (o : Endpt) (os : List Endpt)
    → is_endpt n t o ≡ true
    → AreApart (r ++ (o ∷ os))
    → All (Fails (is_endpt n t)) r
apart-Fails n t [] o os h a = tt
apart-Fails n t (x ∷ r) o os h a =
    let differs : is_endpt x.name x.ti o ≡ false = (All-right (Differ x) r (o ∷ os) a.0).0 in
    (ground (arith, is_endpt_both n t x o), apart-Fails n t r o os h a.1)

find_endpt-any :
    (test : Endpt → Bool) (xs : List Endpt) → any test xs ≡ false → find_endpt test xs ≡ none
find_endpt-any test [] h = refl
find_endpt-any test (x ∷ xs) h = ground (arith, find_endpt-any test xs)

none_left :
    (n : Bytes) (t : TransportImpl) (es r out : List Endpt)
    → AreApart es
    → Permᴰ es (r ++ out)
    → All (Is (is_endpt n t)) out
    → non_empty out ≡ any (is_endpt n t) es
    → find_endpt (is_endpt n t) r ≡ none
none_left n t es r [] a p h e =
    ap (find_endpt (is_endpt n t)) (sym (append-nil r))
    ∙ sym (find_endpt-Permᴰ n t p a)
    ∙ find_endpt-any (is_endpt n t) es (sym e)
none_left n t es r (o ∷ os) a p h e =
    find_endpt-Fails (is_endpt n t) r (apart-Fails n t r o os h.0 (Permᴰ-AreApart p a))

others_fail :
    (name n : Bytes) (ti t : TransportImpl) (out : List Endpt)
    → same_key n t name ti ≡ false
    → All (Is (is_endpt name ti)) out
    → All (Fails (is_endpt n t)) out
unfolding is_endpt
others_fail name n ti t [] b h = tt
others_fail name n ti t (o ∷ os) b h =
    let (x, y) = same_key→eq name ti o.name o.ti h.0 in
    (rw (x, y) b, others_fail name n ti t os b h.1)

lock_taken :
    (name n : Bytes) (ti t : TransportImpl) (es r out : List Endpt)
    → AreApart es
    → Permᴰ es (r ++ out)
    → All (Is (is_endpt name ti)) out
    → non_empty out ≡ any (is_endpt name ti) es
    → find_endpt (is_endpt n t) r
      ≡ (if same_key n t name ti then none else find_endpt (is_endpt n t) es)
lock_taken name n ti t es r out a p h e = elim (Bool-cases (same_key n t name ti)) [
  | inl b ↦
      let (x, y) = same_key→eq n t name ti b in
      rw b (rw (sym x, sym y) (none_left name ti es r out a p h e))
  | inr b ↦ rw b (
      sym (find_endpt-append_left (is_endpt n t) r out (others_fail name n ti t out b h))
      ∙ sym (find_endpt-Permᴰ n t p a))
]

-- What a call with a name comes to: no endpoint of that name and transport is left to be found, the
-- others are found as before, and the result is 0 exactly when there was one.
pub nc_server_endpt_lock-nc_server_del_endpt :
    (name : Bytes) (ti : TransportImpl) (es : List Endpt)
    → AreApart es
    → AreApart (nc_server_del_endpt (some name) ti es).0
      × ((nc_server_del_endpt (some name) ti es).1 ≡ any (is_endpt name ti) es)
      × ((n : Bytes) (t : TransportImpl)
          → nc_server_endpt_lock n t (nc_server_del_endpt (some name) ti es).0
            ≡ (if same_key n t name ti then none else nc_server_endpt_lock n t es))
unfolding nc_server_del_endpt nc_server_endpt_lock is_endpt
nc_server_endpt_lock-nc_server_del_endpt name ti es a =
    let ((out, p, h, e), k) = swap_remove-TakenOut (is_endpt name ti) true es in
    (
      AreApart-left _ out (Permᴰ-AreApart p a),
      k,
      λ n t. lock_taken name n ti t es _ out a p h (sym e ∙ k),
    )
