-- ===== src/Client/Rpc.antt =====
-- The RPC structures of a client: src/messages_client.c over the types of src/messages_p.h,
-- src/messages_client.h and src/netconf.h. `Data` is libyang's `struct lyd_node`.
pub mod Memory
pub mod Make
pub mod Free
pub mod Released
pub mod Calls
use libnetconf.Common.{
  ℕ, zero, suc, Bool, true, false, not, ◌&&◌, ◌||◌, ◌==◌, leb, if◌then◌else◌, List, [], ◌∷◌, Option,
  none, some,
}
use libnetconf.Common.Bytes.{Bytes}
use libnetconf.Client.Rpc.Memory.{Heap, Ptr, malloc, free, free_ptr, copy}

-- NC_PARAMTYPE.
pub data ParamType : Type 0 where
  param_const param_free param_dup_and_free : ParamType

-- NC_DATASTORE; `ds_error` is 0.
pub data Datastore : Type 0 where
  ds_error ds_config ds_url ds_running ds_startup ds_candidate : Datastore

-- NC_WD_MODE.
pub data WdMode : Type 0 where
  wd_unknown wd_all wd_all_tag wd_trim wd_explicit : WdMode

-- NC_RPC_EDIT_DFLTOP, NC_RPC_EDIT_TESTOPT and NC_RPC_EDIT_ERROPT.
pub data EditDfltop : Type 0 where
  dfltop_unknown dfltop_merge dfltop_replace dfltop_none : EditDfltop

pub data EditTestopt : Type 0 where
  testopt_unknown testopt_testset testopt_set testopt_test : EditTestopt

pub data EditErropt : Type 0 where
  erropt_unknown erropt_stop erropt_continue erropt_rollback : EditErropt

-- A `const char *`.
abbrev pub Str : Type 0
Str = Option (Ptr Bytes)

-- `struct nc_rpc` with those that extend it. `self` is the block of the structure.
pub data Rpc (Data : Type 0) : Type 0 where
  rpc_generic : (self : ℕ) (data_node : Ptr Data) (free_flag : Bool) → Rpc Data
  rpc_generic_xml : (self : ℕ) (xml_str : Ptr Bytes) (free_flag : Bool) → Rpc Data
  rpc_getconfig :
      (self : ℕ) (source : Datastore) (filter : Str) (wd_mode : WdMode) (free_flag : Bool)
      → Rpc Data
  rpc_edit :
      (self : ℕ) (target : Datastore) (default_op : EditDfltop) (test_opt : EditTestopt)
      (error_opt : EditErropt) (edit_cont : Ptr Bytes) (free_flag : Bool)
      → Rpc Data
  rpc_copy :
      (self : ℕ) (target : Datastore) (url_trg : Str) (source : Datastore) (url_config_src : Str)
      (wd_mode : WdMode) (free_flag : Bool)
      → Rpc Data
  rpc_delete : (self : ℕ) (target : Datastore) (url : Str) (free_flag : Bool) → Rpc Data
  rpc_lock rpc_unlock : (self : ℕ) (target : Datastore) → Rpc Data
  rpc_get : (self : ℕ) (filter : Str) (wd_mode : WdMode) (free_flag : Bool) → Rpc Data
  rpc_kill : (self sid : ℕ) → Rpc Data
  rpc_commit :
      (self : ℕ) (confirmed : Bool) (confirm_timeout : ℕ) (persist persist_id : Str)
      (free_flag : Bool)
      → Rpc Data
  rpc_discard : (self : ℕ) → Rpc Data
  rpc_cancel : (self : ℕ) (persist_id : Str) (free_flag : Bool) → Rpc Data
  rpc_validate :
      (self : ℕ) (source : Datastore) (url_config_src : Str) (free_flag : Bool) → Rpc Data
  rpc_getschema :
      (self : ℕ) (identifier : Ptr Bytes) (version format : Str) (free_flag : Bool) → Rpc Data
  rpc_subscribe : (self : ℕ) (stream filter start stop : Str) (free_flag : Bool) → Rpc Data

abbrev pub is_error : Datastore → Bool
is_error ds_error = true
is_error _ = false

-- isalpha() in the C locale.
abbrev pub is_alpha : ℕ → Bool
is_alpha c = (leb 65 c && leb c 90) || (leb 97 c && leb c 122)

-- A filter that is not refused: none, an empty one, an XML subtree, an XPath expression.
unfoldable pub filter_ok : Str → Bool
filter_ok none = true
filter_ok (some p) = elim p.value [ [] ↦ true | c ∷ cs ↦ c == 60 || (c == 47 || is_alpha c) ]

-- A URL or an XML config.
unfoldable pub content_ok : Bytes → Bool
content_ok [] = false
content_ok (c ∷ cs) = c == 60 || is_alpha c

abbrev pub source_ok : Str → Bool
source_ok none = true
source_ok (some p) = content_ok p.value

-- `paramtype == NC_PARAMTYPE_CONST ? 0 : 1`.
abbrev pub frees : ParamType → Bool
frees param_const = false
frees _ = true

module _ {A : Type 0} where
  -- What the structure keeps of an argument: a copy or the argument itself.
  abbrev pub kept : ParamType → Ptr A → Heap → Ptr A × Heap
  kept param_dup_and_free p h = (copy p h, malloc h)
  kept _ p h = (p, h)

  abbrev pub kept_if : ParamType → Option (Ptr A) → Heap → Option (Ptr A) × Heap
  kept_if t none h = (none, h)
  kept_if t (some p) h = let (q, h1) = kept t p h in (some q, h1)
