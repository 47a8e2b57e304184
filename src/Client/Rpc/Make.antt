-- ===== src/Client/Rpc/Make.antt =====
-- The functions of src/messages_client.c that make an RPC structure. A result `none` is NULL.
use libnetconf.Common.{ℕ, zero, suc, Bool, true, false, Option, none, some, if◌then◌else◌}
use libnetconf.Client.Rpc.Memory.{Heap, Ptr, malloc}
use libnetconf.Client.Rpc.{
  Rpc, rpc_generic, rpc_generic_xml, rpc_getconfig, rpc_edit, rpc_copy, rpc_delete, rpc_lock,
  rpc_unlock, rpc_get, rpc_kill, rpc_commit, rpc_discard, rpc_cancel, rpc_validate, rpc_getschema,
  rpc_subscribe, Str, ParamType, Datastore, WdMode, EditDfltop, EditTestopt, EditErropt, is_error,
  filter_ok, content_ok, source_ok, frees, kept, kept_if,
}

abbrev pub Made : Type 0 → Type 0
Made Data = Option (Rpc Data) × Heap

module _ {Data : Type 0} where
  -- `is_rpc` is the test of the node: an RPC without siblings.
  unfoldable pub nc_rpc_generic : (Data → Bool) → Option (Ptr Data) → ParamType → Heap → Made Data
  nc_rpc_generic is_rpc none t h = (none, h)
  nc_rpc_generic is_rpc (some p) t h = elim (is_rpc p.value) [
    | false ↦ (none, h)
    | true ↦ let (q, h1) = kept t p (malloc h) in (some (rpc_generic h.next q (frees t)), h1)
  ]

  unfoldable pub nc_rpc_generic_xml : Str → ParamType → Heap → Made Data
  nc_rpc_generic_xml none t h = (none, h)
  nc_rpc_generic_xml (some p) t h =
      let (q, h1) = kept t p (malloc h) in (some (rpc_generic_xml h.next q (frees t)), h1)

  unfoldable pub nc_rpc_getconfig : Datastore → Str → WdMode → ParamType → Heap → Made Data
  nc_rpc_getconfig source filter wd t h =
      if is_error source
      then (none, h)
      else (if filter_ok filter
          then (let (f, h1) = kept_if t filter (malloc h) in
              (some (rpc_getconfig h.next source f wd (frees t)), h1))
          else (none, h))

  unfoldable pub nc_rpc_edit :
      Datastore → EditDfltop → EditTestopt → EditErropt → Str → ParamType → Heap → Made Data
  nc_rpc_edit target dflt test err none t h = (none, h)
  nc_rpc_edit target dflt test err (some p) t h =
      if is_error target
      then (none, h)
      else (if content_ok p.value
          then (let (q, h1) = kept t p (malloc h) in
              (some (rpc_edit h.next target dflt test err q (frees t)), h1))
          else (none, h))

  unfoldable pub nc_rpc_copy :
      Datastore → Str → Datastore → Str → WdMode → ParamType → Heap → Made Data
  nc_rpc_copy target url_trg source src wd t h =
      if is_error target
      then (none, h)
      else (if is_error source
          then (none, h)
          else (if source_ok src
              then (let (u, h1) = kept_if t url_trg (malloc h) in
                  let (c, h2) = kept_if t src h1 in
                  (some (rpc_copy h.next target u source c wd (frees t)), h2))
              else (none, h)))

  unfoldable pub nc_rpc_delete : Datastore → Str → ParamType → Heap → Made Data
  nc_rpc_delete target url t h =
      if is_error target
      then (none, h)
      else (let (u, h1) = kept_if t url (malloc h) in
          (some (rpc_delete h.next target u (frees t)), h1))

  unfoldable pub nc_rpc_lock : Datastore → Heap → Made Data
  nc_rpc_lock target h =
      if is_error target then (none, h) else (some (rpc_lock h.next target), malloc h)

  unfoldable pub nc_rpc_unlock : Datastore → Heap → Made Data
  nc_rpc_unlock target h =
      if is_error target then (none, h) else (some (rpc_unlock h.next target), malloc h)

  unfoldable pub nc_rpc_get : Str → WdMode → ParamType → Heap → Made Data
  nc_rpc_get filter wd t h =
      if filter_ok filter
      then (let (f, h1) = kept_if t filter (malloc h) in (some (rpc_get h.next f wd (frees t)), h1))
      else (none, h)

  unfoldable pub nc_rpc_kill : ℕ → Heap → Made Data
  nc_rpc_kill zero h = (none, h)
  nc_rpc_kill (suc n) h = (some (rpc_kill h.next (suc n)), malloc h)

  unfoldable pub nc_rpc_commit : Bool → ℕ → Str → Str → ParamType → Heap → Made Data
  nc_rpc_commit confirmed timeout persist persist_id t h =
      let (p, h1) = kept_if t persist (malloc h) in
      let (i, h2) = kept_if t persist_id h1 in
      (some (rpc_commit h.next confirmed timeout p i (frees t)), h2)

  unfoldable pub nc_rpc_discard : Heap → Made Data
  nc_rpc_discard h = (some (rpc_discard h.next), malloc h)

  unfoldable pub nc_rpc_cancel : Str → ParamType → Heap → Made Data
  nc_rpc_cancel persist_id t h =
      let (i, h1) = kept_if t persist_id (malloc h) in (some (rpc_cancel h.next i (frees t)), h1)

  unfoldable pub nc_rpc_validate : Datastore → Str → ParamType → Heap → Made Data
  nc_rpc_validate source src t h =
      if is_error source
      then (none, h)
      else (if source_ok src
          then (let (c, h1) = kept_if t src (malloc h) in
              (some (rpc_validate h.next source c (frees t)), h1))
          else (none, h))

  unfoldable pub nc_rpc_getschema : Str → Str → Str → ParamType → Heap → Made Data
  nc_rpc_getschema none version format t h = (none, h)
  nc_rpc_getschema (some p) version format t h =
      let (i, h1) = kept t p (malloc h) in
      let (v, h2) = kept_if t version h1 in
      let (f, h3) = kept_if t format h2 in (some (rpc_getschema h.next i v f (frees t)), h3)

  unfoldable pub nc_rpc_subscribe : Str → Str → Str → Str → ParamType → Heap → Made Data
  nc_rpc_subscribe stream filter start stop t h =
      if filter_ok filter
      then (let (s, h1) = kept_if t stream (malloc h) in
          let (f, h2) = kept_if t filter h1 in
          let (a, h3) = kept_if t start h2 in
          let (o, h4) = kept_if t stop h3 in (some (rpc_subscribe h.next s f a o (frees t)), h4))
      else (none, h)
