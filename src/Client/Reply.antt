-- ===== src/Client/Reply.antt =====
-- parse_reply, nc_recv_reply and nc_recv_notif of src/session_client.c. The pointers that are
-- arguments are not NULL, and allocation succeeds.
pub mod Parsed
pub mod WithElem
pub mod Answered
pub mod Delivered
use libnetconf.Common.{
  Bool, true, false, not, ◌&&◌, ◌||◌, List, [], ◌∷◌, map, if◌then◌else◌, Option, none, some, ℕ,
}
use libnetconf.Common.Bytes.{Bytes, codes, bytes_eq}
use libnetconf.Session.{Session, running, Status, Side, client, server}
use libnetconf.Session.Xml.{
  Elem, elem, Elems, nil, cons, name_of, ns_of, content_of, children_of, listed, elems_of,
}
use libnetconf.Session.Lock.{Mutex, Timeout}
use libnetconf.Io.Receive.{
  MsgType, msg_error, msg_reply, msg_reply_err_msgid, msg_notif, Received, received, overran,
  out_of_fuel, Wait,
}
use libnetconf.Client.Rpc.{Rpc, rpc_generic, rpc_generic_xml, rpc_getconfig, rpc_get, rpc_getschema}
use libnetconf.Client.Rpc.Memory.{Ptr}
use libnetconf.Client.Queues.{get_msg}
use libnetconf.Client.Errors.{ClientError, no_error, in_base, named, parse_rpc_error}

-- libyang, by the calls of parse_reply and nc_recv_notif: the schema of a node, lyd_parse_mem()
-- of an RPC, lyd_parse_xml() of a <get-config>, <get> or <rpc-reply> or of a notification, and
-- ly_ctx_get_node() of <get-schema>. A result may be NULL.
pub record Libyang (Data Schema Options : Type 0) : Type 0 where
  pub data_schema : Data → Option Schema
  pub parse_rpc : Bytes → Options → Option Data
  pub parse_getconfig : Elems → Options → Option Data
  pub parse_get : Elems → Options → Option Data
  pub parse_rpcreply : Elems → Options → Option Schema → Option Data
  pub parse_notif : Elems → Option Data
  pub getschema_node : Option Schema
  -- `parseroptions & LYD_OPT_TYPEMASK`, and the options without those that the library sets.
  pub has_type : Options → Bool
  pub cleared : Options → Options

-- `struct nc_reply` with those that extend it.
pub data ClientReply (Data : Type 0) : Type 0 where
  reply_ok : ClientReply Data
  reply_data : Option Data → ClientReply Data
  reply_error : List ClientError → ClientReply Data

-- `struct nc_notif`.
pub record Notif (Data : Type 0) : Type 0 where
  pub datetime : Bytes
  pub tree : Data

-- Every child is an <rpc-error> of the base namespace.
unfoldable pub all_errors : List Elem → Bool
all_errors [] = true
all_errors (x ∷ xs) = named x "rpc-error" && (in_base x && all_errors xs)

module _ {Data Schema Options : Type 0} (yang : Libyang Data Schema Options) where
  abbrev pub data_or_null : Option Data → Option (ClientReply Data)
  data_or_null none = none
  data_or_null (some d) = some (reply_data (some d))

  abbrev pub with_schema : Elems → Options → Option Schema → Option (ClientReply Data)
  with_schema xs opts none = none
  with_schema xs opts (some s) = data_or_null (yang.parse_rpcreply xs opts (some s))

  abbrev pub schema_if : Option Data → Option Schema
  schema_if none = none
  schema_if (some d) = yang.data_schema d

  abbrev pub first_children : Elems → Elems
  first_children nil = nil
  first_children (cons x xs) = children_of x

  abbrev pub unless_empty : Elems → Option Data → Option (ClientReply Data)
  unless_empty nil d = some (reply_data none)
  unless_empty (cons x xs) d = data_or_null d

  -- The output of an RPC.
  unfoldable pub rpc_output : Elems → Rpc Data → Options → Option (ClientReply Data)
  rpc_output xs (rpc_generic self d f) opts = with_schema xs opts (yang.data_schema d.value)
  rpc_output xs (rpc_generic_xml self x f) opts =
      with_schema xs opts (schema_if (yang.parse_rpc x.value opts))
  rpc_output xs (rpc_getconfig self s x w f) opts =
      unless_empty (first_children xs) (yang.parse_getconfig (first_children xs) opts)
  rpc_output xs (rpc_get self x w f) opts =
      unless_empty (first_children xs) (yang.parse_get (first_children xs) opts)
  rpc_output xs (rpc_getschema self i v m f) opts = with_schema xs opts yang.getschema_node
  rpc_output xs _ opts = none

  module _ (get_attr : Elem → Bytes → Option Bytes) where
    abbrev pub parse_errors : List Elem → List ClientError
    parse_errors = map (λ x. parse_rpc_error get_attr x no_error)

    -- By the first child.
    unfoldable pub parse_children : Elem → Elems → Rpc Data → Options → Option (ClientReply Data)
    parse_children x rest rpc opts =
        if named x "rpc-error" && in_base x
        then (if all_errors (x ∷ listed rest)
            then some (reply_error (parse_errors (x ∷ listed rest)))
            else none)
        else (if named x "ok" && in_base x
            then elim rest [ nil ↦ some reply_ok | cons y ys ↦ none ]
            else rpc_output (cons x rest) rpc opts)

    unfoldable pub parse_reply : Elem → Rpc Data → Options → Option (ClientReply Data)
    parse_reply xml rpc opts = elim (children_of xml) [
      | nil ↦ none
      | cons x rest ↦ parse_children x rest rpc opts
    ]

-- What a receiving function returns: the type, what it sets its result to, the session; or it
-- reads a pointer that get_msg has not set; or nc_read_msg_poll has no result.
pub data Got (R : Type 0) : Type 0 where
  got : MsgType → Option R → Session → Got R
  got_unset got_nothing : Got R

abbrev pub is_client : Side → Bool
is_client client = true
is_client server = false

abbrev pub is_running : Status → Bool
is_running running = true
is_running _ = false

-- The first <eventTime>, and the children without it.
unfoldable pub take_event_time : List Elem → Option Bytes × List Elem
take_event_time [] = (none, [])
take_event_time (x ∷ xs) =
    if named x "eventTime"
    then (some (content_of x), xs)
    else (let (t, ys) = take_event_time xs in (t, x ∷ ys))

module _ {Data Schema Options : Type 0} (yang : Libyang Data Schema Options) where
  module _ (get_attr : Elem → Bytes → Option Bytes) (parse_mem : Bytes → Option Elem) where
    abbrev pub reply_or_error :
        MsgType → Option (ClientReply Data) → Session → Got (ClientReply Data)
    reply_or_error ty none s = got msg_error none s
    reply_or_error ty (some r) s = got ty (some r) s

    -- What nc_recv_reply does with what get_msg returns.
    unfoldable pub got_reply : Rpc Data → Options → Received → Got (ClientReply Data)
    got_reply rpc opts (received msg_reply none s) = got_unset
    got_reply rpc opts (received msg_reply_err_msgid none s) = got_unset
    got_reply rpc opts (received msg_reply (some x) s) =
        reply_or_error msg_reply (parse_reply yang get_attr x rpc opts) s
    got_reply rpc opts (received msg_reply_err_msgid (some x) s) =
        reply_or_error msg_reply_err_msgid (parse_reply yang get_attr x rpc opts) s
    got_reply rpc opts (received ty x s) = got ty none s
    got_reply rpc opts overran = got_nothing
    got_reply rpc opts out_of_fuel = got_nothing

    module _ (fuel read_timeout : ℕ) where
      unfoldable pub nc_recv_reply :
          Session → Mutex → Timeout → Wait → Rpc Data → ℕ → Options → Got (ClientReply Data)
      nc_recv_reply s m timeout w rpc msgid opts =
          if yang.has_type opts
          then got msg_error none s
          else (if is_running s.status && is_client s.side
              then got_reply rpc (yang.cleared opts)
                  (get_msg get_attr parse_mem fuel read_timeout m timeout w msgid s)
              else got msg_error none s)

    abbrev pub notif_of : Option Bytes → Option Data → Session → Got (Notif Data)
    notif_of none d s = got msg_error none s
    notif_of (some t) none s = got msg_error none s
    notif_of (some t) (some d) s = got msg_notif (some (record { datetime = t; tree = d })) s

    unfoldable pub parse_notif : Elem → Session → Got (Notif Data)
    parse_notif x s =
        let (t, rest) = take_event_time (listed (children_of x)) in
        notif_of t (yang.parse_notif (elems_of rest)) s

    -- What nc_recv_notif does with what get_msg returns.
    unfoldable pub got_notif : Received → Got (Notif Data)
    got_notif (received msg_notif none s) = got_unset
    got_notif (received msg_notif (some x) s) = parse_notif x s
    got_notif (received ty x s) = got ty none s
    got_notif overran = got_nothing
    got_notif out_of_fuel = got_nothing

    module _ (fuel read_timeout : ℕ) where
      unfoldable pub nc_recv_notif : Session → Mutex → Timeout → Wait → Got (Notif Data)
      nc_recv_notif s m timeout w =
          if is_running s.status && is_client s.side
          then got_notif (get_msg get_attr parse_mem fuel read_timeout m timeout w 0 s)
          else got msg_error none s
