-- ===== src/Server/Swap.antt =====
-- The removal loop of nc_server_del_endpt of src/session_server.c and of nc_server_ssh_del_authkey
-- of src/session_server_ssh.c: the last element goes to the index of the one removed.
pub mod Kept
pub mod Skipped
use libnetconf.Common.{ℕ, zero, suc, Bool, true, false, if◌then◌else◌, List, [], ◌∷◌, length}

module _ {A : Type 0} where
  -- A list by its last element, which comes second.
  unfoldable pub by_end : A → List A → List A × A
  by_end x [] = ([], x)
  by_end x (y ∷ ys) = let (ws, l) = by_end y ys in (x ∷ ws, l)

  -- The array from the index on, its element being removed, with `memcpy` from the end.
  unfoldable pub moved : List A → List A
  moved [] = []
  moved (y ∷ ys) = let (ws, l) = by_end y ys in l ∷ ws

  abbrev pub behind_first : (List A → List A) → List A → List A
  behind_first g [] = []
  behind_first g (x ∷ xs) = x ∷ g xs

  -- The array from the index on, and whether `ret` became 0. `once` is the `break`. Each round
  -- leaves fewer elements: as many rounds as there are elements are enough.
  unfoldable pub swap_loop : (A → Bool) → Bool → ℕ → List A → List A × Bool
  swap_loop test once zero xs = (xs, false)
  swap_loop test once (suc fuel) [] = ([], false)
  swap_loop test once (suc fuel) (x ∷ rest) = elim (test x) [
    | true ↦ (
      behind_first (λ ws. elim once [ true ↦ ws | false ↦ (swap_loop test once fuel ws).0 ])
          (moved rest),
      true,
    )
    | false ↦ let (r, ret) = swap_loop test once fuel rest in (x ∷ r, ret)
  ]

  unfoldable pub swap_remove : (A → Bool) → Bool → List A → List A × Bool
  swap_remove test once xs = swap_loop test once (length xs) xs
