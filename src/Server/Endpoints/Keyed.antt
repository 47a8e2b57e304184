-- ===== src/Server/Endpoints/Keyed.antt =====
-- Endpoints by their name and transport, which no two of a server share.
use mathlib.Core.List.{Permᴰ}
use libnetconf.Common.{
  ◌≡◌, inl, inr, refl, ◌∙◌, subst, Bool, true, false, ◌&&◌, ◌==◌, List, [], ◌∷◌, ◌++◌, All, none,
  arith, Bool-cases,
}
use libnetconf.Common.Bytes.{Bytes, bytes_eq, bytes_eq_refl, bytes_eq→eq}
use libnetconf.Session.{TransportImpl, ti_none, ti_fd, ti_libssh, ti_openssl}
use libnetconf.Server.Endpoints.{Endpt, ti_code, is_endpt, find_endpt}

abbrev pub same_key : Bytes → TransportImpl → Bytes → TransportImpl → Bool
same_key name ti name' ti' = ti_code ti' == ti_code ti && bytes_eq name' name

abbrev pub Differ : Endpt → Endpt → Type 0
Differ x y = is_endpt x.name x.ti y ≡ false

-- No two have the same name and transport.
abbrev pub AreApart : List Endpt → Type 0
AreApart [] = Unit {0}
AreApart (e ∷ es) = All (Differ e) es × AreApart es

ti_code_inj : (t u : TransportImpl) → ti_code t ≡ ti_code u → t ≡ u
ti_code_inj ti_none u h = ground arith
ti_code_inj ti_fd u h = ground arith
ti_code_inj ti_libssh u h = ground arith
ti_code_inj ti_openssl u h = ground arith

pub same_key→eq :
    (n : Bytes) (t : TransportImpl) (m : Bytes) (u : TransportImpl)
    → same_key n t m u ≡ true
    → (m ≡ n) × (u ≡ t)
same_key→eq n t m u h = (bytes_eq→eq m n (ground arith), ti_code_inj u t (ground arith))

pub same_key_refl : (n : Bytes) (t : TransportImpl) → same_key n t n t ≡ true
same_key_refl n t = ground (arith, bytes_eq_refl n)

-- Two endpoints found by one key have one key.
pub is_endpt_both :
    (n : Bytes) (t : TransportImpl) (x y : Endpt)
    → is_endpt n t x ≡ true
    → is_endpt n t y ≡ true
    → is_endpt x.name x.ti y ≡ true
unfolding is_endpt
is_endpt_both n t x y h k =
    let (a, b) = same_key→eq n t x.name x.ti h in
    let (c, d) = same_key→eq n t y.name y.ti k in rw (a, b, c, d) (same_key_refl n t)

pub Differ-symm : (x y : Endpt) → Differ x y → Differ y x
unfolding is_endpt
Differ-symm x y h = elim (Bool-cases (is_endpt y.name y.ti x)) [
  | inr e ↦ e
  | inl e ↦
      let (a, b) = same_key→eq y.name y.ti x.name x.ti e in
      let f : is_endpt x.name x.ti y ≡ true = rw (a, b) (same_key_refl y.name y.ti) in cc
]

pub Permᴰ-All : (P : Endpt → Type 0) {xs ys : List Endpt} → Permᴰ xs ys → All P xs → All P ys
Permᴰ-All P Permᴰ.nil h = h
Permᴰ-All P (Permᴰ.cons e p) h = (subst P e h.0, Permᴰ-All P p h.1)
Permᴰ-All P (Permᴰ.swap e f) h = (subst P f h.1.0, (subst P e h.0, h.1.1))
Permᴰ-All P (Permᴰ.trans p q) h = Permᴰ-All P q (Permᴰ-All P p h)

pub Permᴰ-AreApart : {xs ys : List Endpt} → Permᴰ xs ys → AreApart xs → AreApart ys
Permᴰ-AreApart Permᴰ.nil h = h
Permᴰ-AreApart (Permᴰ.cons {b = b} {l₂ = l} e p) h =
    (subst (λ x. All (Differ x) l) e (Permᴰ-All _ p h.0), Permᴰ-AreApart p h.1)
Permᴰ-AreApart (Permᴰ.swap {a = a} {b = b} {b' = d} {l = l} e f) h = (
  (
    subst (λ x. Differ x d) f (subst (Differ b) e (Differ-symm a b h.0.0)),
    subst (λ x. All (Differ x) l) f h.1.0,
  ),
  (subst (λ x. All (Differ x) l) e h.0.1, h.1.1),
)
Permᴰ-AreApart (Permᴰ.trans p q) h = Permᴰ-AreApart q (Permᴰ-AreApart p h)

find_swap :
    (n : Bytes) (t : TransportImpl) (a b : Endpt) (l : List Endpt)
    → Differ a b
    → find_endpt (is_endpt n t) (a ∷ b ∷ l) ≡ find_endpt (is_endpt n t) (b ∷ a ∷ l)
find_swap n t a b l h = ground (arith, is_endpt_both n t a b)

-- What is found does not depend on the order.
pub find_endpt-Permᴰ :
    (n : Bytes) (t : TransportImpl) {xs ys : List Endpt}
    → Permᴰ xs ys
    → AreApart xs
    → find_endpt (is_endpt n t) xs ≡ find_endpt (is_endpt n t) ys
find_endpt-Permᴰ n t Permᴰ.nil h = refl
find_endpt-Permᴰ n t (Permᴰ.cons e p) h = ground (arith, e, find_endpt-Permᴰ n t p h.1)
find_endpt-Permᴰ n t (Permᴰ.swap {a = a} {b = b} {l = l} e f) h =
    find_swap n t a b l h.0.0 ∙ ground (arith, e, f)
find_endpt-Permᴰ n t (Permᴰ.trans p q) h =
    find_endpt-Permᴰ n t p h ∙ find_endpt-Permᴰ n t q (Permᴰ-AreApart p h)

abbrev pub Fails : (Endpt → Bool) → Endpt → Type 0
Fails test e = test e ≡ false

pub find_endpt-append_left :
    (test : Endpt → Bool) (xs ys : List Endpt)
    → All (Fails test) ys
    → find_endpt test (xs ++ ys) ≡ find_endpt test xs
find_endpt-append_left test [] [] h = refl
find_endpt-append_left test [] (y ∷ ys) h = rw (h.0) (find_endpt-append_left test [] ys h.1)
find_endpt-append_left test (x ∷ xs) ys h = ground (arith, find_endpt-append_left test xs ys h)

pub find_endpt-Fails :
    (test : Endpt → Bool) (xs : List Endpt) → All (Fails test) xs → find_endpt test xs ≡ none
find_endpt-Fails test [] h = refl
find_endpt-Fails test (x ∷ xs) h = ground (arith, find_endpt-Fails test xs)
