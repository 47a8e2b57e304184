-- ===== src/Messages.antt =====
-- The server's errors and replies: src/messages_server.c, over the types of src/messages_p.h and
-- src/messages_server.h. Allocation succeeds. A pointer that may be NULL is an option, and so is
-- a result: `none` is NULL or -1, and then the structure is unchanged.
pub mod Create
pub mod Table
use libnetconf.Common.{ℕ, Bool, true, false, List, [], ◌∷◌, ◌++◌, Option, none, some}
use libnetconf.Common.Bytes.{Bytes, codes}

-- NC_ERR_TYPE.
pub data ErrType : Type 0 where
  type_unknown type_tran type_rpc type_prot type_app : ErrType

-- NC_ERR; `err_unknown` is 0.
pub data ErrTag : Type 0 where
  err_unknown err_in_use err_invalid_value err_too_big err_missing_attr err_bad_attr
        err_unknown_attr err_missing_elem err_bad_elem err_unknown_elem err_unknown_ns
        err_access_denied err_lock_denied err_res_denied err_rollback_failed err_data_exists
        err_data_missing err_op_not_supported err_op_failed err_malformed_msg :
      ErrTag

-- `struct nc_server_error`. A `sid` of -1 is `none`. Of <error-info>'s other elements it keeps
-- what libyang prints of each, piece by piece.
pub record ServerError : Type 0 where
  pub type : ErrType
  pub tag : ErrTag
  pub apptag : Option Bytes
  pub path : Option Bytes
  pub message : Option Bytes
  pub message_lang : Option Bytes
  pub sid : Option ℕ
  pub attr : List Bytes
  pub elems : List Bytes
  pub ns : List Bytes
  pub others : List (List Bytes)

-- What calloc() and `ret->sid = -1` leave.
abbrev pub blank : ServerError
blank = record {
  type = type_unknown;
  tag = err_unknown;
  apptag = none;
  path = none;
  message = none;
  message_lang = none;
  sid = none;
  attr = [];
  elems = [];
  ns = [];
  others = [];
}

-- The server's replies. NC_RPL_DATA holds what libyang prints of the data.
pub data ServerReply : Type 0 where
  rpl_ok : ServerReply
  rpl_data : List Bytes → ServerReply
  rpl_error : List ServerError → ServerReply
  rpl_notif : ServerReply

unfoldable pub nc_err_set_app_tag : Option ServerError → Option Bytes → Option ServerError
nc_err_set_app_tag none v = none
nc_err_set_app_tag (some e) none = none
nc_err_set_app_tag (some e) (some v) = some (record e { apptag = some v })

unfoldable pub nc_err_set_path : Option ServerError → Option Bytes → Option ServerError
nc_err_set_path none v = none
nc_err_set_path (some e) none = none
nc_err_set_path (some e) (some v) = some (record e { path = some v })

-- Without a language the old one stays: the code assigns NULL to its argument.
abbrev pub new_lang : Option Bytes → Option Bytes → Option Bytes
new_lang old none = old
new_lang old (some l) = some l

unfoldable pub nc_err_set_msg :
    Option ServerError → Option Bytes → Option Bytes → Option ServerError
nc_err_set_msg none m lang = none
nc_err_set_msg (some e) none lang = none
nc_err_set_msg (some e) (some m) lang =
    some (record e { message = some m; message_lang = new_lang e.message_lang lang })

unfoldable pub nc_err_set_sid : Option ServerError → ℕ → Option ServerError
nc_err_set_sid none sid = none
nc_err_set_sid (some e) sid = some (record e { sid = some sid })

unfoldable pub nc_err_add_bad_attr : Option ServerError → Option Bytes → Option ServerError
nc_err_add_bad_attr none v = none
nc_err_add_bad_attr (some e) none = none
nc_err_add_bad_attr (some e) (some v) = some (record e { attr = e.attr ++ (v ∷ []) })

unfoldable pub nc_err_add_bad_elem : Option ServerError → Option Bytes → Option ServerError
nc_err_add_bad_elem none v = none
nc_err_add_bad_elem (some e) none = none
nc_err_add_bad_elem (some e) (some v) = some (record e { elems = e.elems ++ (v ∷ []) })

unfoldable pub nc_err_add_bad_ns : Option ServerError → Option Bytes → Option ServerError
nc_err_add_bad_ns none v = none
nc_err_add_bad_ns (some e) none = none
nc_err_add_bad_ns (some e) (some v) = some (record e { ns = e.ns ++ (v ∷ []) })

unfoldable pub nc_err_add_info_other : Option ServerError → Option (List Bytes) → Option ServerError
nc_err_add_info_other none v = none
nc_err_add_info_other (some e) none = none
nc_err_add_info_other (some e) (some v) = some (record e { others = e.others ++ (v ∷ []) })

-- A call whose result is not looked at.
abbrev pub ignoring : ServerError → Option ServerError → ServerError
ignoring e none = e
ignoring e (some e') = e'

unfoldable pub nc_server_reply_err : Option ServerError → Option ServerReply
nc_server_reply_err none = none
nc_server_reply_err (some e) = some (rpl_error (e ∷ []))

unfoldable pub nc_server_reply_add_err :
    Option ServerReply → Option ServerError → Option ServerReply
nc_server_reply_add_err (some (rpl_error es)) none = none
nc_server_reply_add_err (some (rpl_error es)) (some e) = some (rpl_error (es ++ (e ∷ [])))
nc_server_reply_add_err _ _ = none
