-- ===== src/Client/Rpc/Released.antt =====
-- What a client's RPC takes from the memory, nc_rpc_free gives back.
use libnetconf.Common.{ℕ, ◌≡◌, ◌≢◌, Bool, List, Option, none, some, arith}
use libnetconf.Client.Rpc.Memory.{Heap, Ptr, free, remove}
use libnetconf.Client.Rpc.{
  Str, ParamType, param_free, Datastore, WdMode, EditDfltop, EditTestopt, EditErropt, filter_ok,
  content_ok,
}
use libnetconf.Client.Rpc.Make.{
  Made, nc_rpc_generic, nc_rpc_generic_xml, nc_rpc_getconfig, nc_rpc_edit, nc_rpc_copy,
  nc_rpc_delete, nc_rpc_lock, nc_rpc_unlock, nc_rpc_get, nc_rpc_kill, nc_rpc_commit, nc_rpc_discard,
  nc_rpc_cancel, nc_rpc_validate, nc_rpc_getschema, nc_rpc_subscribe,
}
use libnetconf.Client.Rpc.Free.{freed, free_all, nc_rpc_free}

-- NULL and the memory as it was, or a structure whose release leaves the blocks `l`.
abbrev pub Leaves : {Data : Type 0} → List ℕ → Heap → Made Data → Type 0
Leaves l h (none, h1) = h1 ≡ h
Leaves l h (some r, h1) = nc_rpc_free (some r) h1 ≡ some (record h1 { live = l })

abbrev pub Balanced : {Data : Type 0} → Heap → Made Data → Type 0
Balanced h m = Leaves h.live h m

module _ (Data : Type 0) where
  pub nc_rpc_generic-Balanced :
      (is_rpc : Data → Bool) (p : Option (Ptr Data)) (t : ParamType) (h : Heap)
      → t ≢ param_free
      → Balanced {Data = Data} h (nc_rpc_generic is_rpc p t h)
  unfolding nc_rpc_generic nc_rpc_free freed free_all free remove filter_ok content_ok
  nc_rpc_generic-Balanced is_rpc p t h k = ground arith

  pub nc_rpc_generic_xml-Balanced :
      (x : Str) (t : ParamType) (h : Heap)
      → t ≢ param_free
      → Balanced {Data = Data} h (nc_rpc_generic_xml x t h)
  unfolding nc_rpc_generic_xml nc_rpc_free freed free_all free remove filter_ok content_ok
  nc_rpc_generic_xml-Balanced x t h k = ground arith

  pub nc_rpc_getconfig-Balanced :
      (source : Datastore) (filter : Str) (wd : WdMode) (t : ParamType) (h : Heap)
      → t ≢ param_free
      → Balanced {Data = Data} h (nc_rpc_getconfig source filter wd t h)
  unfolding nc_rpc_getconfig nc_rpc_free freed free_all free remove filter_ok content_ok
  nc_rpc_getconfig-Balanced source filter wd t h k = ground arith

  pub nc_rpc_edit-Balanced :
      (target : Datastore) (d : EditDfltop) (o : EditTestopt) (e : EditErropt) (c : Str)
      (t : ParamType) (h : Heap)
      → t ≢ param_free
      → Balanced {Data = Data} h (nc_rpc_edit target d o e c t h)
  unfolding nc_rpc_edit nc_rpc_free freed free_all free remove filter_ok content_ok
  nc_rpc_edit-Balanced target d o e c t h k = ground arith

  pub nc_rpc_delete-Balanced :
      (target : Datastore) (url : Str) (t : ParamType) (h : Heap)
      → t ≢ param_free
      → Balanced {Data = Data} h (nc_rpc_delete target url t h)
  unfolding nc_rpc_delete nc_rpc_free freed free_all free remove filter_ok content_ok
  nc_rpc_delete-Balanced target url t h k = ground arith

  pub nc_rpc_lock-Balanced :
      (target : Datastore) (h : Heap) → Balanced {Data = Data} h (nc_rpc_lock target h)
  unfolding nc_rpc_lock nc_rpc_free freed free_all free remove filter_ok content_ok
  nc_rpc_lock-Balanced target h = ground arith

  pub nc_rpc_unlock-Balanced :
      (target : Datastore) (h : Heap) → Balanced {Data = Data} h (nc_rpc_unlock target h)
  unfolding nc_rpc_unlock nc_rpc_free freed free_all free remove filter_ok content_ok
  nc_rpc_unlock-Balanced target h = ground arith

  pub nc_rpc_get-Balanced :
      (filter : Str) (wd : WdMode) (t : ParamType) (h : Heap)
      → t ≢ param_free
      → Balanced {Data = Data} h (nc_rpc_get filter wd t h)
  unfolding nc_rpc_get nc_rpc_free freed free_all free remove filter_ok content_ok
  nc_rpc_get-Balanced filter wd t h k = ground arith

  pub nc_rpc_kill-Balanced : (sid : ℕ) (h : Heap) → Balanced {Data = Data} h (nc_rpc_kill sid h)
  unfolding nc_rpc_kill nc_rpc_free freed free_all free remove filter_ok content_ok
  nc_rpc_kill-Balanced sid h = ground arith

  pub nc_rpc_commit-Balanced :
      (c : Bool) (n : ℕ) (p i : Str) (t : ParamType) (h : Heap)
      → t ≢ param_free
      → Balanced {Data = Data} h (nc_rpc_commit c n p i t h)
  unfolding nc_rpc_commit nc_rpc_free freed free_all free remove filter_ok content_ok
  nc_rpc_commit-Balanced c n p i t h k = ground arith

  pub nc_rpc_discard-Balanced : (h : Heap) → Balanced {Data = Data} h (nc_rpc_discard h)
  unfolding nc_rpc_discard nc_rpc_free freed free_all free remove filter_ok content_ok
  nc_rpc_discard-Balanced h = ground arith

  pub nc_rpc_cancel-Balanced :
      (i : Str) (t : ParamType) (h : Heap)
      → t ≢ param_free
      → Balanced {Data = Data} h (nc_rpc_cancel i t h)
  unfolding nc_rpc_cancel nc_rpc_free freed free_all free remove filter_ok content_ok
  nc_rpc_cancel-Balanced i t h k = ground arith

  pub nc_rpc_validate-Balanced :
      (source : Datastore) (c : Str) (t : ParamType) (h : Heap)
      → t ≢ param_free
      → Balanced {Data = Data} h (nc_rpc_validate source c t h)
  unfolding nc_rpc_validate nc_rpc_free freed free_all free remove filter_ok content_ok
  nc_rpc_validate-Balanced source c t h k = ground arith

  pub nc_rpc_getschema-Balanced :
      (i v m : Str) (t : ParamType) (h : Heap)
      → t ≢ param_free
      → Balanced {Data = Data} h (nc_rpc_getschema i v m t h)
  unfolding nc_rpc_getschema nc_rpc_free freed free_all free remove filter_ok content_ok
  nc_rpc_getschema-Balanced i v m t h k = ground arith

  pub nc_rpc_subscribe-Balanced :
      (s f a o : Str) (t : ParamType) (h : Heap)
      → t ≢ param_free
      → Balanced {Data = Data} h (nc_rpc_subscribe s f a o t h)
  unfolding nc_rpc_subscribe nc_rpc_free freed free_all free remove filter_ok content_ok
  nc_rpc_subscribe-Balanced s f a o t h k = ground arith

  -- Without an URL as its target.
  pub nc_rpc_copy-Balanced :
      (target source : Datastore) (c : Str) (wd : WdMode) (t : ParamType) (h : Heap)
      → t ≢ param_free
      → Balanced {Data = Data} h (nc_rpc_copy target none source c wd t h)
  unfolding nc_rpc_copy nc_rpc_free freed free_all free remove content_ok
  nc_rpc_copy-Balanced target source c wd t h k = ground arith
