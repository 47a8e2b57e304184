-- ===== src/Client/Rpc/Calls.antt =====
-- The calls that make an RPC structure, as one type.
use libnetconf.Common.{ℕ, suc, ◌≡◌, ◌≢◌, Bool, true, false, ◌∷◌, Option, none, some, arith}
use libnetconf.Common.Bytes.{Bytes}
use libnetconf.Client.Rpc.Memory.{Heap, Ptr, free, remove}
use libnetconf.Client.Rpc.{
  Str, ParamType, param_free, param_dup_and_free, Datastore, WdMode, EditDfltop, EditTestopt,
  EditErropt, content_ok,
}
use libnetconf.Client.Rpc.Make.{
  Made, nc_rpc_generic, nc_rpc_generic_xml, nc_rpc_getconfig, nc_rpc_edit, nc_rpc_copy,
  nc_rpc_delete, nc_rpc_lock, nc_rpc_unlock, nc_rpc_get, nc_rpc_kill, nc_rpc_commit, nc_rpc_discard,
  nc_rpc_cancel, nc_rpc_validate, nc_rpc_getschema, nc_rpc_subscribe,
}
use libnetconf.Client.Rpc.Free.{freed, free_all, nc_rpc_free}
use libnetconf.Client.Rpc.Released.{
  Balanced, Leaves, nc_rpc_generic-Balanced, nc_rpc_generic_xml-Balanced, nc_rpc_getconfig-Balanced,
  nc_rpc_edit-Balanced, nc_rpc_copy-Balanced, nc_rpc_delete-Balanced, nc_rpc_lock-Balanced,
  nc_rpc_unlock-Balanced, nc_rpc_get-Balanced, nc_rpc_kill-Balanced, nc_rpc_commit-Balanced,
  nc_rpc_discard-Balanced, nc_rpc_cancel-Balanced, nc_rpc_validate-Balanced,
  nc_rpc_getschema-Balanced, nc_rpc_subscribe-Balanced,
}

-- A call with its arguments, but for the treatment of the strings.
pub data Call (Data : Type 0) : Type 0 where
  call_generic : (Data → Bool) → Option (Ptr Data) → Call Data
  call_generic_xml : Str → Call Data
  call_getconfig : Datastore → Str → WdMode → Call Data
  call_edit : Datastore → EditDfltop → EditTestopt → EditErropt → Str → Call Data
  call_copy : Datastore → Str → Datastore → Str → WdMode → Call Data
  call_delete : Datastore → Str → Call Data
  call_lock : Datastore → Call Data
  call_unlock : Datastore → Call Data
  call_get : Str → WdMode → Call Data
  call_kill : ℕ → Call Data
  call_commit : Bool → ℕ → Str → Str → Call Data
  call_discard : Call Data
  call_cancel : Str → Call Data
  call_validate : Datastore → Str → Call Data
  call_getschema : Str → Str → Str → Call Data
  call_subscribe : Str → Str → Str → Str → Call Data

abbrev pub make : {Data : Type 0} → Call Data → ParamType → Heap → Made Data
make (call_generic is_rpc p) t h = nc_rpc_generic is_rpc p t h
make (call_generic_xml x) t h = nc_rpc_generic_xml x t h
make (call_getconfig s x w) t h = nc_rpc_getconfig s x w t h
make (call_edit s d o e x) t h = nc_rpc_edit s d o e x t h
make (call_copy s u o x w) t h = nc_rpc_copy s u o x w t h
make (call_delete s u) t h = nc_rpc_delete s u t h
make (call_lock s) t h = nc_rpc_lock s h
make (call_unlock s) t h = nc_rpc_unlock s h
make (call_get x w) t h = nc_rpc_get x w t h
make (call_kill n) t h = nc_rpc_kill n h
make (call_commit c n p i) t h = nc_rpc_commit c n p i t h
make call_discard t h = nc_rpc_discard h
make (call_cancel i) t h = nc_rpc_cancel i t h
make (call_validate s x) t h = nc_rpc_validate s x t h
make (call_getschema i v m) t h = nc_rpc_getschema i v m t h
make (call_subscribe s x a o) t h = nc_rpc_subscribe s x a o t h

-- A <copy-config> to an URL.
abbrev pub has_target_url : {Data : Type 0} → Call Data → Bool
has_target_url (call_copy s (some u) o x w) = true
has_target_url _ = false

-- What a call takes from the memory, nc_rpc_free gives back, unless the caller gives its strings
-- away or it is a copy to an URL; a refused call takes nothing.
pub make-Balanced :
    (Data : Type 0) (c : Call Data) (t : ParamType) (h : Heap)
    → t ≢ param_free
    → has_target_url c ≡ false
    → Balanced h (make c t h)
make-Balanced Data (call_generic is_rpc p) t h k l = nc_rpc_generic-Balanced Data is_rpc p t h k
make-Balanced Data (call_generic_xml x) t h k l = nc_rpc_generic_xml-Balanced Data x t h k
make-Balanced Data (call_getconfig s x w) t h k l = nc_rpc_getconfig-Balanced Data s x w t h k
make-Balanced Data (call_edit s d o e x) t h k l = nc_rpc_edit-Balanced Data s d o e x t h k
make-Balanced Data (call_copy s (some u) o x w) t h k l = absurd cc
make-Balanced Data (call_copy s none o x w) t h k l = nc_rpc_copy-Balanced Data s o x w t h k
make-Balanced Data (call_delete s u) t h k l = nc_rpc_delete-Balanced Data s u t h k
make-Balanced Data (call_lock s) t h k l = nc_rpc_lock-Balanced Data s h
make-Balanced Data (call_unlock s) t h k l = nc_rpc_unlock-Balanced Data s h
make-Balanced Data (call_get x w) t h k l = nc_rpc_get-Balanced Data x w t h k
make-Balanced Data (call_kill n) t h k l = nc_rpc_kill-Balanced Data n h
make-Balanced Data (call_commit c n p i) t h k l = nc_rpc_commit-Balanced Data c n p i t h k
make-Balanced Data call_discard t h k l = nc_rpc_discard-Balanced Data h
make-Balanced Data (call_cancel i) t h k l = nc_rpc_cancel-Balanced Data i t h k
make-Balanced Data (call_validate s x) t h k l = nc_rpc_validate-Balanced Data s x t h k
make-Balanced Data (call_getschema i v m) t h k l = nc_rpc_getschema-Balanced Data i v m t h k
make-Balanced Data (call_subscribe s x a o) t h k l = nc_rpc_subscribe-Balanced Data s x a o t h k

-- Of a copy to an URL the copy of the URL stays behind.
pub nc_rpc_copy-Leaves :
    (Data : Type 0) (s : Datastore) (u : Ptr Bytes) (o : Datastore) (x : Str) (w : WdMode)
    (h : Heap)
    → Leaves {Data = Data}
        (suc h.next ∷ h.live)
        h
        (nc_rpc_copy s (some u) o x w param_dup_and_free h)
unfolding nc_rpc_copy nc_rpc_free freed free_all free remove content_ok
nc_rpc_copy-Leaves Data s u o x w h = ground arith
