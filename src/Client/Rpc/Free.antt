-- ===== src/Client/Rpc/Free.antt =====
-- nc_rpc_free of src/messages_client.c.
use libnetconf.Common.{ℕ, Bool, true, false, List, [], ◌∷◌, Option, none, some}
use libnetconf.Client.Rpc.Memory.{Heap, Ptr, free}
use libnetconf.Client.Rpc.{
  Rpc, rpc_generic, rpc_generic_xml, rpc_getconfig, rpc_edit, rpc_copy, rpc_delete, rpc_lock,
  rpc_unlock, rpc_get, rpc_kill, rpc_commit, rpc_discard, rpc_cancel, rpc_validate, rpc_getschema,
  rpc_subscribe,
}

-- free() of one pointer after another; free(NULL) does nothing.
unfoldable pub free_all : List (Option ℕ) → Heap → Option Heap
free_all [] h = some h
free_all (none ∷ bs) h = free_all bs h
free_all (some b ∷ bs) h = elim (free b h) [ none ↦ none | some h' ↦ free_all bs h' ]

abbrev pub block_of : {A : Type 0} → Option (Ptr A) → Option ℕ
block_of none = none
block_of (some p) = some p.block

-- `if (rpc->free)` before the pointers, and the structure after them.
abbrev pub with_self : ℕ → Bool → List (Option ℕ) → List (Option ℕ)
with_self self true [] = some self ∷ []
with_self self true (b ∷ bs) = b ∷ with_self self true bs
with_self self false bs = some self ∷ []

-- The pointers that nc_rpc_free passes to free() or lyd_free(), in its order.
unfoldable pub freed : {Data : Type 0} → Rpc Data → List (Option ℕ)
freed (rpc_generic self d f) = with_self self f (some d.block ∷ [])
freed (rpc_generic_xml self x f) = with_self self f (some x.block ∷ [])
freed (rpc_getconfig self source filter wd f) = with_self self f (block_of filter ∷ [])
freed (rpc_edit self target dflt test err c f) = with_self self f (some c.block ∷ [])
freed (rpc_copy self target trg source src wd f) = with_self self f (block_of src ∷ [])
freed (rpc_delete self target url f) = with_self self f (block_of url ∷ [])
freed (rpc_get self filter wd f) = with_self self f (block_of filter ∷ [])
freed (rpc_commit self c t p i f) = with_self self f (block_of p ∷ block_of i ∷ [])
freed (rpc_cancel self i f) = with_self self f (block_of i ∷ [])
freed (rpc_validate self source src f) = with_self self f (block_of src ∷ [])
freed (rpc_getschema self i v m f) = with_self self f (some i.block ∷ block_of v ∷ block_of m ∷ [])
freed (rpc_subscribe self s x a o f) =
    with_self self f (block_of s ∷ block_of x ∷ block_of a ∷ block_of o ∷ [])
freed (rpc_lock self target) = some self ∷ []
freed (rpc_unlock self target) = some self ∷ []
freed (rpc_kill self sid) = some self ∷ []
freed (rpc_discard self) = some self ∷ []

unfoldable pub nc_rpc_free : {Data : Type 0} → Option (Rpc Data) → Heap → Option Heap
unfolding freed free_all
nc_rpc_free none h = some h
nc_rpc_free (some r) h = free_all (freed r) h
