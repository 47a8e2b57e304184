-- ===== src/Common/Decimal.antt =====
-- Decimal numbers: `sprintf("%zu")` and `strtoul(s, NULL, 10)` of the C library.
use libnetconf.Common.Tests.{◌==◌, ltb, leb, if◌then◌else◌}
use libnetconf.Common.Lists.{All, All-append}
use libnetconf.Common.Bytes.{Bytes}
use Prim.Native.Nat.{ℕ, zero, suc, ◌+◌, ◌-◌, ◌*◌, ◌/◌, ◌%◌, ◌^◌, ◌<◌, ◌≤◌}
use mathlib.Core.Path.{◌≡◌, refl, ◌∙◌}
use mathlib.Core.Bool.{Bool, false, ◌&&◌, ◌||◌}
use mathlib.Core.Logic.{◌≢◌}
use mathlib.Core.List.{[], ◌∷◌, ◌++◌, append_assoc}
use native.Mathlib.Omega.{arith}

-- The digits of `n`, the highest first; `fuel` is at least the number of digits less one.
pub print_digits : ℕ → ℕ → Bytes
print_digits zero n = (48 + n) ∷ []
print_digits (suc fuel) n =
    let more = print_digits fuel (n / 10) ++ ((48 + n % 10) ∷ []) in
    if ltb n 10 then (48 + n) ∷ [] else more

unfoldable pub print_dec : ℕ → Bytes
unfolding print_digits
print_dec n = print_digits n n

abbrev pub is_digit : ℕ → Bool
is_digit c = leb 48 c && leb c 57

abbrev pub is_space : ℕ → Bool
is_space c = c == 32 || (leb 9 c && leb c 13)

-- The number that the leading digits spell, behind the value read so far.
unfoldable pub read_digits : ℕ → Bytes → ℕ
read_digits acc [] = acc
read_digits acc (c ∷ cs) =
    let more = read_digits (acc * 10 + (c - 48)) cs in if is_digit c then more else acc

unfoldable pub skip_spaces : Bytes → Bytes
skip_spaces [] = []
skip_spaces (c ∷ cs) = let more = skip_spaces cs in if is_space c then more else c ∷ cs

-- On overflow the result is ULONG_MAX.
abbrev pub clamp_ulong : ℕ → ℕ
clamp_ulong n = if ltb n (2 ^ 64) then n else 2 ^ 64 - 1

-- A minus sign negates an in-range magnitude in the unsigned type.
unfoldable pub signed_digits : Bytes → ℕ
unfolding read_digits
signed_digits [] = 0
signed_digits (c ∷ cs) =
    if c == 45
    then (if ltb (read_digits 0 cs) (2 ^ 64)
        then (2 ^ 64 - read_digits 0 cs) % 2 ^ 64
        else 2 ^ 64 - 1)
    else (if c == 43 then clamp_ulong (read_digits 0 cs) else clamp_ulong (read_digits 0 (c ∷ cs)))

unfoldable pub strtoul : Bytes → ℕ
unfolding skip_spaces signed_digits
strtoul s = signed_digits (skip_spaces s)

abbrev pub IsDigit : ℕ → Type 0
IsDigit c = (48 ≤ c) × (c ≤ 57)

print_digits-IsDigit : (fuel n : ℕ) → n ≤ fuel → All IsDigit (print_digits fuel n)
unfolding print_digits
print_digits-IsDigit zero n h = omega arith
print_digits-IsDigit (suc fuel) n h = ground (
  arith,
  All-append IsDigit (print_digits fuel (n / 10)) ((48 + n % 10) ∷ [])
      (print_digits-IsDigit fuel (n / 10) (omega arith)) (omega arith),
)

pub print_dec-IsDigit : (n : ℕ) → All IsDigit (print_dec n)
unfolding print_dec
print_dec-IsDigit n = print_digits-IsDigit n n (omega arith)

read_digits-print_digits :
    (fuel n : ℕ) (rest : Bytes)
    → n ≤ fuel
    → read_digits 0 (print_digits fuel n ++ rest) ≡ read_digits n rest
unfolding read_digits print_digits
read_digits-print_digits zero n rest h = ground arith
read_digits-print_digits (suc fuel) n rest h = ground (
  arith,
  append_assoc (print_digits fuel (n / 10)) ((48 + n % 10) ∷ []) rest,
  read_digits-print_digits fuel (n / 10) ((48 + n % 10) ∷ rest) (omega arith),
)

pub read_digits-print_dec :
    (n : ℕ) (rest : Bytes) → read_digits 0 (print_dec n ++ rest) ≡ read_digits n rest
unfolding print_dec
read_digits-print_dec n rest = read_digits-print_digits n n rest (omega arith)

-- A printed number followed by a byte that is no digit is read back.
signed_digits-All :
    (xs rest : Bytes) (n : ℕ)
    → xs ≢ []
    → All IsDigit xs
    → read_digits 0 (xs ++ rest) ≡ n
    → signed_digits (skip_spaces (xs ++ rest)) ≡ clamp_ulong n
unfolding signed_digits skip_spaces
signed_digits-All [] rest n ne d e = absurd (ne refl)
signed_digits-All (c ∷ cs) rest n ne d e = rw (← e) (ground arith)

print_digits-ne-nil : (fuel n : ℕ) → print_digits fuel n ≢ []
unfolding print_digits
print_digits-ne-nil zero n e = cc
print_digits-ne-nil (suc fuel) n e = tail_ne (print_digits fuel (n / 10)) (ground arith)
  where
    tail_ne : (xs : Bytes) → xs ++ ((48 + n % 10) ∷ []) ≡ [] → ⊥
    tail_ne [] e = cc
    tail_ne (x ∷ xs) e = cc

pub strtoul-print_dec_clamp :
    (n c : ℕ) (rest : Bytes)
    → is_digit c ≡ false
    → strtoul (print_dec n ++ (c ∷ rest)) ≡ clamp_ulong n
unfolding strtoul read_digits print_dec
strtoul-print_dec_clamp n c rest d =
    signed_digits-All (print_digits n n) (c ∷ rest) n (print_digits-ne-nil n n)
      (print_digits-IsDigit n n (omega arith))
      (read_digits-print_digits n n (c ∷ rest) (omega arith) ∙ ground arith)

pub strtoul-print_dec :
    (n c : ℕ) (rest : Bytes)
    → n < 2 ^ 64
    → is_digit c ≡ false
    → strtoul (print_dec n ++ (c ∷ rest)) ≡ n
strtoul-print_dec n c rest h d = strtoul-print_dec_clamp n c rest d ∙ ground arith
