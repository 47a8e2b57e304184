-- ===== src/Client/Rpc/Memory.antt =====
-- The memory of malloc(), strdup() and free(), as far as the RPC structures need it. malloc() and
-- strdup() succeed.
use libnetconf.Common.{ℕ, suc, true, false, ◌==◌, List, [], ◌∷◌, Option, none, some}

-- The next block that is handed out, and the blocks that are in use.
pub record Heap : Type 0 where
  pub next : ℕ
  pub live : List ℕ

-- A pointer: its block with what stands in it, which nothing here changes.
pub record Ptr (A : Type 0) : Type 0 where
  pub block : ℕ
  pub value : A

abbrev pub malloc : Heap → Heap
malloc h = record { next = suc h.next; live = h.next ∷ h.live }

-- Without the block; there is none if it is not in use.
unfoldable pub remove : ℕ → List ℕ → Option (List ℕ)
remove b [] = none
remove b (x ∷ xs) = elim (x == b) [
  | true ↦ some xs
  | false ↦ elim (remove b xs) [ none ↦ none | some ys ↦ some (x ∷ ys) ]
]

-- free(); `none` is undefined behaviour.
unfoldable pub free : ℕ → Heap → Option Heap
free b h = elim (remove b h.live) [ none ↦ none | some l ↦ some (record h { live = l }) ]

module _ {A : Type 0} where
  -- free() of a pointer that may be NULL.
  abbrev pub free_ptr : Option (Ptr A) → Heap → Option Heap
  free_ptr none h = some h
  free_ptr (some p) h = free p.block h

  -- strdup() or lyd_dup().
  abbrev pub copy : Ptr A → Heap → Ptr A
  copy p h = record { block = h.next; value = p.value }
