-- ===== src/Io/Message.antt =====
-- nc_write_error and nc_write_msg of src/io.c: what is written of a message, as the row of calls of
-- nc_write_clb that the source makes, with the counts that it gives. What libyang prints is given
-- as the pieces that it hands to nc_write_xmlclb. The calls' results are not looked at.
pub mod Wire
pub mod Error
pub mod Replied
pub mod Document
pub mod Core
use libnetconf.Common.{
  ℕ, ◌+◌, ◌<◌, ◌%◌, ◌^◌, Bool, true, false, ◌&&◌, List, [], ◌∷◌, ◌++◌, take, map, Option, none,
  some, if◌then◌else◌,
}
use Prim.Native.String.{String}
use libnetconf.Common.Bytes.{Bytes, codes}
use libnetconf.Common.Decimal.{print_dec}
use libnetconf.Session.{Session, Version, version_10, version_11, is_live}
use libnetconf.Messages.{
  ErrType, type_unknown, type_tran, type_rpc, type_prot, type_app, ErrTag, err_unknown, err_in_use,
  err_invalid_value, err_too_big, err_missing_attr, err_bad_attr, err_unknown_attr,
  err_missing_elem, err_bad_elem, err_unknown_elem, err_unknown_ns, err_access_denied,
  err_lock_denied, err_res_denied, err_rollback_failed, err_data_exists, err_data_missing,
  err_op_not_supported, err_op_failed, err_malformed_msg, ServerError, ServerReply, rpl_ok,
  rpl_data, rpl_error, rpl_notif,
}
use libnetconf.Io.Write.{WclbArg, nc_write_clb, nc_write_clb_end}

-- One call: the buffer and `xmlcontent`.
pub data Piece : Type 0 where
  raw escaped : Bytes → Piece

-- A literal with its count.
abbrev pub lit : String → ℕ → Piece
lit s n = raw (take n (codes s))

unfoldable pub write_piece : WclbArg → Piece → WclbArg
write_piece w (raw b) = (nc_write_clb w b false).0
write_piece w (escaped b) = (nc_write_clb w b true).0

unfoldable pub write_pieces : WclbArg → List Piece → WclbArg
write_pieces w [] = w
write_pieces w (p ∷ ps) = write_pieces (write_piece w p) ps

abbrev pub printed : List Bytes → List Piece
printed = map raw

-- The switch over err->type; `default` is `none`.
abbrev pub type_piece : ErrType → Option Piece
type_piece type_tran = some (lit "transport" 9)
type_piece type_rpc = some (lit "rpc" 3)
type_piece type_prot = some (lit "protocol" 8)
type_piece type_app = some (lit "application" 11)
type_piece type_unknown = none

-- The switch over err->tag.
abbrev pub tag_piece : ErrTag → Option Piece
tag_piece err_in_use = some (lit "in-use" 6)
tag_piece err_invalid_value = some (lit "invalid-value" 13)
tag_piece err_too_big = some (lit "too-big" 7)
tag_piece err_missing_attr = some (lit "missing-attribute" 17)
tag_piece err_bad_attr = some (lit "bad-attribute" 13)
tag_piece err_unknown_attr = some (lit "unknown-attribute" 17)
tag_piece err_missing_elem = some (lit "missing-element" 15)
tag_piece err_bad_elem = some (lit "bad-element" 11)
tag_piece err_unknown_elem = some (lit "unknown-element" 15)
tag_piece err_unknown_ns = some (lit "unknown-namespace" 17)
tag_piece err_access_denied = some (lit "access-denied" 13)
tag_piece err_lock_denied = some (lit "lock-denied" 11)
tag_piece err_res_denied = some (lit "resource-denied" 15)
tag_piece err_rollback_failed = some (lit "rollback-failed" 15)
tag_piece err_data_exists = some (lit "data-exists" 11)
tag_piece err_data_missing = some (lit "data-missing" 12)
tag_piece err_op_not_supported = some (lit "operation-not-supported" 23)
tag_piece err_op_failed = some (lit "operation-failed" 16)
tag_piece err_malformed_msg = some (lit "malformed-message" 17)
tag_piece err_unknown = none

-- An optional string between two literals.
abbrev pub optional : Option Bytes → Piece → Piece → List Piece
optional none opening closing = []
optional (some b) opening closing = opening ∷ escaped b ∷ closing ∷ []

abbrev pub lang_pieces : Option Bytes → List Piece
lang_pieces none = []
lang_pieces (some l) = lit " xml:lang=\"" 11 ∷ escaped l ∷ lit "\"" 1 ∷ []

abbrev pub message_pieces : Option Bytes → Option Bytes → List Piece
message_pieces none lang = []
message_pieces (some m) lang =
    lit "<error-message" 14
    ∷ (lang_pieces lang ++ (lit ">" 1 ∷ escaped m ∷ lit "</error-message>" 16 ∷ []))

abbrev pub sid_pieces : Option ℕ → List Piece
sid_pieces none = []
sid_pieces (some sid) = lit "<session-id>" 12 ∷ raw (print_dec sid) ∷ lit "</session-id>" 13 ∷ []

-- A `for` loop over strings of <error-info>.
abbrev pub each : Piece → Piece → List Bytes → List Piece
each opening closing [] = []
each opening closing (b ∷ bs) = opening ∷ escaped b ∷ closing ∷ each opening closing bs

abbrev pub others_pieces : List (List Bytes) → List Piece
others_pieces [] = []
others_pieces (o ∷ os) = printed o ++ others_pieces os

abbrev pub has_info : ServerError → Bool
has_info e = elim e.sid [
  | some n ↦ true
  | none ↦ elim e.attr [
    | a ∷ as' ↦ true
    | [] ↦ elim e.elems [
      | a ∷ as' ↦ true
      | [] ↦ elim e.ns [ a ∷ as' ↦ true | [] ↦ elim e.others [ a ∷ as' ↦ true | [] ↦ false ] ]
    ]
  ]
]

unfoldable pub info_pieces : ServerError → List Piece
info_pieces e =
    if has_info e
    then lit "<error-info>" 12
      ∷ (sid_pieces e.sid
          ++ (each (lit "<bad-attribute>" 15) (lit "</bad-attribute>" 16) e.attr
              ++ (each (lit "<bad-element>" 13) (lit "</bad-element>" 14) e.elems
                  ++ (each (lit "<bad-namespace>" 15) (lit "</bad-namespace>" 16) e.ns
                      ++ (others_pieces e.others ++ (lit "</error-info>" 13 ∷ []))))))
    else []

-- What follows the tag.
unfoldable pub rest_pieces : ServerError → List Piece
rest_pieces e =
    lit "</error-tag>" 12
    ∷ lit "<error-severity>error</error-severity>" 38
    ∷ (optional e.apptag (lit "<error-app-tag>" 15) (lit "</error-app-tag>" 16)
        ++ (optional e.path (lit "<error-path>" 12) (lit "</error-path>" 13)
            ++ (message_pieces e.message e.message_lang
                ++ (info_pieces e ++ (lit "</rpc-error>" 12 ∷ [])))))

-- nc_write_error. At an unknown type or tag it returns with what it has written.
unfoldable pub nc_write_error : ServerError → List Piece
nc_write_error e = lit "<rpc-error>" 11 ∷ lit "<error-type>" 12 ∷ elim (type_piece e.type) [
  | none ↦ []
  | some ty ↦
      ty
      ∷ lit "</error-type>" 13
      ∷ lit "<error-tag>" 11
      ∷ elim (tag_piece e.tag) [ none ↦ [] | some tag ↦ tag ∷ rest_pieces e ]
]

abbrev pub errors_pieces : List ServerError → List Piece
errors_pieces [] = []
errors_pieces (e ∷ es) = nc_write_error e ++ errors_pieces es

abbrev pub ns_base : Bytes
ns_base = codes "urn:ietf:params:xml:ns:netconf:base:1.0"

abbrev pub ns_notif : Bytes
ns_notif = codes "urn:ietf:params:xml:ns:netconf:notification:1.0"

-- The arguments of nc_write_msg. `rpc_msg` has the printed content and the attributes, `reply_msg`
-- the printed attributes of the RPC unless that is NULL, `hello_msg` the capabilities.
pub data Message : Type 0 where
  rpc_msg : List Bytes → Option Bytes → Message
  reply_msg : Option (List Bytes) → ServerReply → Message
  notif_msg : Message
  hello_msg : List Bytes → Option ℕ → Message
  other_msg : Message

-- The start of a reply. The 48 characters of the second form follow "<rpc-reply" at once.
abbrev pub reply_head : Option (List Bytes) → List Piece
reply_head (some attrs) = printed attrs ++ (lit ">" 1 ∷ [])
reply_head none = lit "xmlns=\"urn:ietf:params:xml:ns:netconf:base:1.0\">" 48 ∷ []

-- The switch over reply->type; `default` is `none`.
unfoldable pub reply_body : ServerReply → Option (List Piece)
reply_body rpl_ok = some (lit "<ok/>" 5 ∷ [])
reply_body (rpl_data d) = some (printed d)
reply_body (rpl_error es) = some (errors_pieces es)
reply_body rpl_notif = none

abbrev pub or_empty : Option Bytes → Bytes
or_empty none = []
or_empty (some b) = b

unfoldable pub rpc_start : ℕ → Option Bytes → Bytes
rpc_start msgid attrs =
    codes "<rpc xmlns=\""
    ++ (ns_base
        ++ (codes "\" message-id=\""
            ++ (print_dec ((msgid + 1) % 2 ^ 64) ++ (codes "\"" ++ (or_empty attrs ++ codes ">")))))

abbrev pub capability_pieces : List Bytes → List Piece
capability_pieces = each (lit "<capability>" 12) (lit "</capability>" 13)

abbrev pub hello_end : Option ℕ → Piece
hello_end none = lit "</capabilities></hello>" 23
hello_end (some sid) =
    raw (codes "</capabilities><session-id>" ++ (print_dec sid ++ codes "</session-id></hello>"))

-- What the switch over the message type does: return -1 at once, or write; `complete` is false
-- where it closes the message and returns -1.
pub data Plan : Type 0 where
  refuse : Plan
  writes : List Piece → (complete : Bool) → Plan

unfoldable pub reply_plan : List Piece → Option (List Piece) → Plan
reply_plan head none = writes head false
reply_plan head (some body) = writes (head ++ (body ++ (lit "</rpc-reply>" 12 ∷ []))) true

unfoldable pub plan : Session → Message → Plan
plan s (rpc_msg content attrs) =
    writes (raw (rpc_start s.msgid attrs) ∷ (printed content ++ (lit "</rpc>" 6 ∷ []))) true
plan s (reply_msg rpc_elem reply) =
    reply_plan (lit "<rpc-reply" 10 ∷ reply_head rpc_elem) (reply_body reply)
plan s notif_msg =
    writes
      (lit "<notification xmlns=\"urn:ietf:params:xml:ns:netconf:notification:1.0\"/>" (21 + 47 + 3)
        ∷ lit "</notification>" 12
        ∷ [])
      true
plan s (hello_msg cpblts sid) = elim s.version [
  | version_11 ↦ refuse
  | version_10 ↦
      writes
        (raw (codes "<hello xmlns=\"" ++ (ns_base ++ codes "\"><capabilities>"))
          ∷ (capability_pieces cpblts ++ (hello_end sid ∷ [])))
        true
]
plan s other_msg = refuse

abbrev pub is_rpc_msg : Message → Bool
is_rpc_msg (rpc_msg content attrs) = true
is_rpc_msg (reply_msg rpc_elem reply) = false
is_rpc_msg notif_msg = false
is_rpc_msg (hello_msg cpblts sid) = false
is_rpc_msg other_msg = false

-- `session->msgid++` for an RPC, before the message is flushed.
abbrev pub counted : Message → Session → Session
counted m s = record s { msgid = if is_rpc_msg m then (s.msgid + 1) % 2 ^ 64 else s.msgid }

abbrev pub count_message : Message → WclbArg → WclbArg
count_message m w = record w { session = counted m w.session }

abbrev pub run_plan : Session → Message → Plan → Session × Bool
run_plan s m refuse = (s, false)
run_plan s m (writes pieces complete) =
    let w = count_message m (write_pieces (record { session = s; buf = [] }) pieces) in
    let s' = (nc_write_clb_end w).0.session in (s', complete && is_live s'.status)

-- nc_write_msg: `true` is 0, `false` is -1.
unfoldable pub nc_write_msg : Session → Message → Session × Bool
nc_write_msg s m = if is_live s.status then run_plan s m (plan s m) else (s, false)
