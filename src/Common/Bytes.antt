-- ===== src/Common/Bytes.antt =====
-- Byte strings: C's char buffers as lists of numbers, the literals of the source, `strcmp`.
use Prim.Native.Char.{code}
use Prim.Native.String.{String}
use libnetconf.Common.Tests.{◌==◌, leb}
use libnetconf.Common.Lists.{length, drop, drop-append, length-append}
use Prim.Native.Nat.{ℕ, ◌-◌}
use mathlib.Core.Path.{◌≡◌, refl}
use mathlib.Core.Bool.{Bool, true, false, ◌&&◌}
use mathlib.Core.List.{List, [], ◌∷◌, ◌++◌}
use native.Mathlib.Omega.{arith}

abbrev pub Bytes : Type 0
Bytes = List ℕ

-- The code points of a literal: its bytes, since every literal of the source is ASCII.
abbrev pub codes : String → Bytes
codes String.[] = []
codes (String.◌∷◌ c s) = code c ∷ codes s

-- `!strcmp(a, b)`.
unfoldable pub bytes_eq : Bytes → Bytes → Bool
bytes_eq [] [] = true
bytes_eq [] (b ∷ bs) = false
bytes_eq (a ∷ as') [] = false
bytes_eq (a ∷ as') (b ∷ bs) = a == b && bytes_eq as' bs

pub bytes_eq_refl : (a : Bytes) → bytes_eq a a ≡ true
unfolding bytes_eq
bytes_eq_refl [] = refl
bytes_eq_refl (a ∷ as') = ground (arith, bytes_eq_refl as')

pub bytes_eq→eq : (a b : Bytes) → bytes_eq a b ≡ true → a ≡ b
unfolding bytes_eq
bytes_eq→eq [] [] h = refl
bytes_eq→eq [] (b ∷ bs) h = cc
bytes_eq→eq (a ∷ as') [] h = cc
bytes_eq→eq (a ∷ as') (b ∷ bs) h = ground (arith, bytes_eq→eq as' bs)

-- `count >= len && !strncmp(tag, &chunk[count - len], len)`.
unfoldable pub ends_with : Bytes → Bytes → Bool
ends_with tag s = leb (length tag) (length s) && bytes_eq tag (drop (length s - length tag) s)

pub ends_with-append : (tag s : Bytes) → ends_with tag (s ++ tag) ≡ true
unfolding ends_with
ends_with-append tag s =
    let e : length (s ++ tag) - length tag ≡ length s = omega (arith, length-append s tag) in
    rw (e, drop-append s tag, bytes_eq_refl tag) (ground (arith, length-append s tag))

pub ends_with_single : (d : ℕ) (s : Bytes) (c : ℕ) → ends_with (d ∷ []) (s ++ (c ∷ [])) ≡ (d == c)
unfolding ends_with bytes_eq
ends_with_single d s c =
    let e : length (s ++ (c ∷ [])) - 1 ≡ length s = omega (arith, length-append s (c ∷ [])) in
    rw (e, drop-append s (c ∷ [])) (ground (arith, length-append s (c ∷ [])))
