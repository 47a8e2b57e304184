-- ===== src/Server/Swap/Skipped.antt =====
-- What the removal loop passes over: the element that it has just moved.
use libnetconf.Common.{◌≡◌, refl, Bool, true, false, List, [], ◌∷◌, ◌++◌, length}
use libnetconf.Server.Swap.{by_end, moved, swap_loop, swap_remove}

module _ {A : Type 0} where
  by_end-append : (x : A) (xs : List A) (l : A) → by_end x (xs ++ (l ∷ [])) ≡ (x ∷ xs, l)
  unfolding by_end
  by_end-append x [] l = refl
  by_end-append x (y ∷ ys) l = rw (by_end-append y ys l, by_end)

  pub moved-append : (xs : List A) (l : A) → moved (xs ++ (l ∷ [])) ≡ l ∷ xs
  unfolding moved by_end
  moved-append [] l = refl
  moved-append (y ∷ ys) l = rw by_end-append

  -- Where the first element passes the test, the last one is kept, whether it passes the test or
  -- not.
  pub swap_remove_keeps :
      (test : A → Bool) (x : A) (xs : List A) (l : A)
      → test x ≡ true
      → (rest : List A) × (swap_remove test false (x ∷ (xs ++ (l ∷ []))) ≡ (l ∷ rest, true))
  unfolding swap_remove swap_loop
  swap_remove_keeps test x xs l h =
      ((swap_loop test false (length (xs ++ (l ∷ []))) xs).0, rw (h, moved-append xs l))
