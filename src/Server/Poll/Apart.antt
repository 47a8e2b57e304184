-- ===== src/Server/Poll/Apart.antt =====
-- Lists of sessions none of which is there twice, and removal from the arrays of a pollsession of
-- src/session_server.c.
use mathlib.Core.List.{Permᴰ}
use mathlib.Core.List.Permᴰ
use libnetconf.Common.{
  ℕ, ◌≡◌, ◌≢◌, refl, sym, ap, ◌∙◌, subst, false, List, [], ◌∷◌, ◌++◌, All, some, length,
  length-append, arith, append-nil,
}
use libnetconf.Server.Poll.{Entry, remove_at, elem_of}
use libnetconf.Server.Poll.Slots.{by_last, remove_at_inner, remove_at_last}
use libnetconf.Server.Poll.Deleted.{written, written-append}

abbrev pub sessions : List Entry → List ℕ
sessions [] = []
sessions (e ∷ es) = e.session ∷ sessions es

abbrev pub IsNot : Entry → Entry → Type 0
IsNot x y = y.session ≢ x.session

-- No session is there twice.
abbrev pub AreApart : List Entry → Type 0
AreApart [] = Unit {0}
AreApart (e ∷ es) = All (IsNot e) es × AreApart es

pub sessions-append : (xs ys : List Entry) → sessions (xs ++ ys) ≡ sessions xs ++ sessions ys
sessions-append [] ys = refl
sessions-append (x ∷ xs) ys = ap (◌∷◌ x.session) (sessions-append xs ys)

pub Permᴰ-All : (P : Entry → Type 0) {xs ys : List Entry} → Permᴰ xs ys → All P xs → All P ys
Permᴰ-All P Permᴰ.nil h = h
Permᴰ-All P (Permᴰ.cons e p) h = (subst P e h.0, Permᴰ-All P p h.1)
Permᴰ-All P (Permᴰ.swap e f) h = (subst P f h.1.0, (subst P e h.0, h.1.1))
Permᴰ-All P (Permᴰ.trans p q) h = Permᴰ-All P q (Permᴰ-All P p h)

pub Permᴰ-AreApart : {xs ys : List Entry} → Permᴰ xs ys → AreApart xs → AreApart ys
Permᴰ-AreApart Permᴰ.nil h = h
Permᴰ-AreApart (Permᴰ.cons {b = b} {l₂ = l} e p) h =
    (subst (λ x. All (IsNot x) l) e (Permᴰ-All _ p h.0), Permᴰ-AreApart p h.1)
Permᴰ-AreApart (Permᴰ.swap {l = l} e f) h = (
  (
    λ q. h.0.0 (ap (λ (x : Entry). x.session) f ∙ sym q ∙ sym (ap (λ (x : Entry). x.session) e)),
    subst (λ x. All (IsNot x) l) f h.1.0,
  ),
  (subst (λ x. All (IsNot x) l) e h.0.1, h.1.1),
)
Permᴰ-AreApart (Permᴰ.trans p q) h = Permᴰ-AreApart q (Permᴰ-AreApart p h)

pub elem_of_last :
    (h : ℕ) (l : List ℕ) (x : ℕ) → elem_of h l ≡ false → h ≢ x → elem_of h (l ++ (x ∷ [])) ≡ false
elem_of_last h [] x e k = ground arith
elem_of_last h (y ∷ ys) x e k = ground (arith, elem_of_last h ys x)

pub remove_at-written :
    (xs : List Entry) (y : Entry) (ys : List Entry)
    → (zs : List Entry) × (remove_at (length (written xs)) (written xs ++ (some y ∷ written ys))
        ≡ written xs ++ written zs)
      × Permᴰ zs ys
      × (length zs ≡ length ys)
remove_at-written xs y [] =
    ([], remove_at_last (written xs) (some y) ∙ sym (append-nil (written xs)), Permᴰ.nil, refl)
remove_at-written xs y (u ∷ us) =
    let (ws, l, e) = by_last u us in
    (
      l ∷ ws,
      ap (λ r. remove_at (length (written xs)) (written xs ++ (some y ∷ r)))
            (ap written e ∙ written-append ws (l ∷ []))
          ∙ remove_at_inner (written xs) (some y) (written ws) (some l),
      subst (Permᴰ (l ∷ ws)) (sym e) (Permᴰ.append_comm (l ∷ []) ws),
      omega (arith, ap length e, length-append ws (l ∷ [])),
    )
