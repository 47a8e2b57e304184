-- ===== src/Server/Swap/Kept.antt =====
-- What the removal loop keeps.
use mathlib.Core.List.{Permᴰ}
use mathlib.Core.List.Permᴰ
use libnetconf.Common.{
  ℕ, zero, suc, ◌≤◌, ◌≡◌, inl, inr, refl, sym, ap, subst, Bool, true, false, ◌||◌, List, [], ◌∷◌,
  ◌++◌, All, length, length-append, append-nil, arith, Bool-cases,
}
use libnetconf.Server.Swap.{by_end, moved, behind_first, swap_loop, swap_remove}

abbrev pub Is : {A : Type 0} → (A → Bool) → A → Type 0
Is test x = test x ≡ true

abbrev pub non_empty : {A : Type 0} → List A → Bool
non_empty [] = false
non_empty (x ∷ xs) = true

module _ {A : Type 0} where
  pub by_end_lem : (x : A) (xs : List A) → (by_end x xs).0 ++ ((by_end x xs).1 ∷ []) ≡ x ∷ xs
  unfolding by_end
  by_end_lem x [] = refl
  by_end_lem x (y ∷ ys) = ap (◌∷◌ x) (by_end_lem y ys)

  pub moved-Permᴰ : (xs : List A) → Permᴰ (moved xs) xs
  unfolding moved
  moved-Permᴰ [] = Permᴰ.nil
  moved-Permᴰ (y ∷ ys) =
      subst (Permᴰ _) (by_end_lem y ys) (Permᴰ.append_comm ((by_end y ys).1 ∷ []) (by_end y ys).0)

  pub length-moved : (xs : List A) → length (moved xs) ≡ length xs
  unfolding moved
  length-moved [] = refl
  length-moved (y ∷ ys) =
      omega
        (arith, length-append (by_end y ys).0 ((by_end y ys).1 ∷ []), ap length (by_end_lem y ys))

-- Elements that the test is true of were taken out, with the result.
abbrev pub TakenOut : {A : Type 0} → (A → Bool) → List A → List A × Bool → Type 0
TakenOut {A} test xs (r, ret) =
    (out : List A) × Permᴰ xs (r ++ out) × All (Is test) out × (ret ≡ non_empty out)

module _ {A : Type 0} (test : A → Bool) where
  taken_none : (xs : List A) → TakenOut test xs (xs, false)
  taken_none xs = ([], subst (Permᴰ xs) (sym (append-nil xs)) (Permᴰ.refl xs), tt, refl)

  take_first :
      (x : A) (rest r out : List A)
      → test x ≡ true
      → Permᴰ rest (r ++ out)
      → All (Is test) out
      → TakenOut test (x ∷ rest) (r, true)
  take_first x rest r out h p q =
      (x ∷ out, Permᴰ.trans (Permᴰ.cons refl p) (Permᴰ.symm (Permᴰ.middle x r out)), (h, q), refl)

  keep_first :
      (x : A) (rest : List A) (r : List A × Bool)
      → TakenOut test rest r
      → TakenOut test (x ∷ rest) (x ∷ r.0, r.1)
  keep_first x rest r (out, p, q, e) = (out, Permᴰ.cons refl p, q, e)

  take_once :
      (x : A) (rest ms : List A)
      → test x ≡ true
      → Permᴰ ms rest
      → TakenOut test (x ∷ rest) (behind_first (λ ws. ws) ms, true)
  take_once x rest [] h p = take_first x rest [] [] h (Permᴰ.symm p) tt
  take_once x rest (l ∷ ws) h p =
      take_first x rest (l ∷ ws) [] h
        (subst (Permᴰ rest) (sym (append-nil (l ∷ ws))) (Permᴰ.symm p)) tt

  take_more :
      (g : List A → List A × Bool)
      → ((ws : List A) → TakenOut test ws (g ws))
      → (x : A) (rest ms : List A) → test x ≡ true
      → Permᴰ ms rest
      → TakenOut test (x ∷ rest) (behind_first (λ ws. (g ws).0) ms, true)
  take_more g ih x rest [] h p = take_first x rest [] [] h (Permᴰ.symm p) tt
  take_more g ih x rest (l ∷ ws) h p =
      let (out, q, a, _) = ih ws in
      take_first x rest (l ∷ (g ws).0) out h (Permᴰ.trans (Permᴰ.symm p) (Permᴰ.cons refl q)) a

  swap_loop-TakenOut :
      (once : Bool) (fuel : ℕ) (xs : List A) → TakenOut test xs (swap_loop test once fuel xs)
  unfolding swap_loop
  swap_loop-TakenOut once zero xs = taken_none xs
  swap_loop-TakenOut once (suc fuel) [] = taken_none []
  swap_loop-TakenOut true (suc fuel) (x ∷ rest) = elim (Bool-cases (test x)) [
    | inl b ↦ rw (b, swap_loop) (take_once x rest (moved rest) b (moved-Permᴰ rest))
    | inr b ↦
        rw (b, swap_loop)
          (keep_first x rest (swap_loop test true fuel rest) (swap_loop-TakenOut true fuel rest))
  ]
  swap_loop-TakenOut false (suc fuel) (x ∷ rest) = elim (Bool-cases (test x)) [
    | inl b ↦
        rw (b, swap_loop)
          (take_more (swap_loop test false fuel) (swap_loop-TakenOut false fuel) x rest (moved rest)
            b (moved-Permᴰ rest))
    | inr b ↦
        rw (b, swap_loop)
          (keep_first x rest (swap_loop test false fuel rest) (swap_loop-TakenOut false fuel rest))
  ]

  abbrev pub any : List A → Bool
  any [] = false
  any (x ∷ xs) = test x || any xs

  swap_loop-any :
      (once : Bool) (fuel : ℕ) (xs : List A)
      → length xs ≤ fuel
      → (swap_loop test once fuel xs).1 ≡ any xs
  unfolding swap_loop
  swap_loop-any once zero [] h = refl
  swap_loop-any once zero (x ∷ xs) h = absurd (omega arith)
  swap_loop-any once (suc fuel) [] h = refl
  swap_loop-any once (suc fuel) (x ∷ rest) h = ground (arith, swap_loop-any once fuel rest)

  -- Elements that pass the test are taken out, no other, and the result says whether any passed.
  pub swap_remove-TakenOut :
      (once : Bool) (xs : List A)
      → TakenOut test xs (swap_remove test once xs) × ((swap_remove test once xs).1 ≡ any xs)
  unfolding swap_remove
  swap_remove-TakenOut once xs =
      (swap_loop-TakenOut once (length xs) xs, swap_loop-any once (length xs) xs (omega arith))
