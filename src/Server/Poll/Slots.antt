-- ===== src/Server/Poll/Slots.antt =====
-- Removal from the arrays of a pollsession of src/session_server.c.
use mathlib.Core.List.{Permᴰ}
use mathlib.Core.List.Permᴰ
use libnetconf.Common.{
  ◌-◌, ◌≡◌, refl, sym, ap, ◌∙◌, subst, true, false, ltb, List, [], ◌∷◌, ◌++◌, append_assoc,
  append-nil, none, some, length, length-append, take, take-append, set, get_elem?, arith,
}
use libnetconf.Server.Poll.{Slot, remove_at}

module _ {A : Type 0} where
  pub get_elem_middle :
      (xs : List A) (y : A) (ys : List A) → get_elem? (xs ++ (y ∷ ys)) (length xs) ≡ some y
  get_elem_middle [] y ys = refl
  get_elem_middle (x ∷ xs) y ys = get_elem_middle xs y ys

  set_middle :
      (xs : List A) (y z : A) (ys : List A) → set (xs ++ (y ∷ ys)) (length xs) z ≡ xs ++ (z ∷ ys)
  set_middle [] y z ys = refl
  set_middle (x ∷ xs) y z ys = ap (◌∷◌ x) (set_middle xs y z ys)

  pub get_elem_end : (xs : List A) → get_elem? xs (length xs) ≡ none
  get_elem_end [] = refl
  get_elem_end (x ∷ xs) = get_elem_end xs

  -- A list by its last element.
  pub by_last : (x : A) (xs : List A) → (ws : List A) × (l : A) × (x ∷ xs ≡ ws ++ (l ∷ []))
  by_last x [] = ([], x, refl)
  by_last x (y ∷ ys) = let (ws, l, e) = by_last y ys in (x ∷ ws, l, ap (◌∷◌ x) e)

pub remove_at_last : (xs : List Slot) (y : Slot) → remove_at (length xs) (xs ++ (y ∷ [])) ≡ xs
unfolding remove_at
remove_at_last xs y =
    let n : length (xs ++ (y ∷ [])) - 1 ≡ length xs = omega (arith, length-append xs (y ∷ [])) in
    let same : ltb (length xs) (length xs) ≡ false = ground arith in
    rw (n, same) (take-append xs (y ∷ []))

pub remove_at_inner :
    (xs : List Slot) (y : Slot) (ws : List Slot) (l : Slot)
    → remove_at (length xs) (xs ++ (y ∷ (ws ++ (l ∷ [])))) ≡ xs ++ (l ∷ ws)
unfolding remove_at
remove_at_inner xs y ws l =
    let slots : List Slot = xs ++ (y ∷ (ws ++ (l ∷ []))) in
    let n : length slots - 1 ≡ length (xs ++ (y ∷ ws)) = omega (
      arith,
      length-append xs (y ∷ (ws ++ (l ∷ []))),
      length-append ws (l ∷ []),
      length-append xs (y ∷ ws),
    ) in
    let less : ltb (length xs) (length (xs ++ (y ∷ ws))) ≡ true =
      ground (arith, length-append xs (y ∷ ws)) in
    let at : get_elem? slots (length (xs ++ (y ∷ ws))) ≡ some l =
      ap (λ s. get_elem? s (length (xs ++ (y ∷ ws)))) (sym (append_assoc xs (y ∷ ws) (l ∷ [])))
      ∙ get_elem_middle (xs ++ (y ∷ ws)) l [] in
    let long : length slots - 1 ≡ length (xs ++ (l ∷ ws)) =
      n ∙ omega (arith, length-append xs (y ∷ ws), length-append xs (l ∷ ws)) in
    rw (n, less, at, set_middle xs y l (ws ++ (l ∷ [])), long)
      (ap (take (length (xs ++ (l ∷ ws)))) (sym (append_assoc xs (l ∷ ws) (l ∷ [])))
        ∙ take-append (xs ++ (l ∷ ws)) (l ∷ []))

-- What is left of the slots behind the one that is removed, in some order.
pub remove_at-Permᴰ :
    (xs : List Slot) (y : Slot) (ys : List Slot)
    → (zs : List Slot) × (remove_at (length xs) (xs ++ (y ∷ ys)) ≡ xs ++ zs) × Permᴰ zs ys
remove_at-Permᴰ xs y [] = ([], remove_at_last xs y ∙ sym (append-nil xs), Permᴰ.nil)
remove_at-Permᴰ xs y (u ∷ us) =
    let (ws, l, e) = by_last u us in
    (
      l ∷ ws,
      ap (λ r. remove_at (length xs) (xs ++ (y ∷ r))) e ∙ remove_at_inner xs y ws l,
      subst (Permᴰ (l ∷ ws)) (sym e) (Permᴰ.append_comm (l ∷ []) ws),
    )
