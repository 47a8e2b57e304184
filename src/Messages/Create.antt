-- ===== src/Messages/Create.antt =====
-- nc_err of src/messages_server.c: a server error by its tag.
use libnetconf.Common.{Bool, true, false, not, Option, none, some, ℕ}
use libnetconf.Common.Bytes.{Bytes, codes}
use libnetconf.Messages.{
  ErrType, type_unknown, type_tran, type_rpc, type_prot, type_app, ErrTag, err_unknown, err_in_use,
  err_invalid_value, err_too_big, err_missing_attr, err_bad_attr, err_unknown_attr,
  err_missing_elem, err_bad_elem, err_unknown_elem, err_unknown_ns, err_access_denied,
  err_lock_denied, err_res_denied, err_rollback_failed, err_data_exists, err_data_missing,
  err_op_not_supported, err_op_failed, err_malformed_msg, ServerError, blank, nc_err_set_msg,
  nc_err_set_sid, nc_err_add_bad_attr, nc_err_add_bad_elem, nc_err_add_bad_ns, ignoring,
}

-- The variable arguments. Each tag takes those that the first switch of nc_err reads.
pub record ErrArgs : Type 0 where
  pub type_arg : ErrType
  pub arg1 : Option Bytes
  pub arg2 : Option Bytes
  pub sid_arg : ℕ

abbrev pub is_prot_or_app : ErrType → Bool
is_prot_or_app type_prot = true
is_prot_or_app type_app = true
is_prot_or_app type_unknown = false
is_prot_or_app type_tran = false
is_prot_or_app type_rpc = false

abbrev pub is_tran : ErrType → Bool
is_tran type_tran = true
is_tran type_prot = false
is_tran type_app = false
is_tran type_unknown = false
is_tran type_rpc = false

-- `if (...) goto fail;`, then the structure with its type.
abbrev pub unless : Bool → ErrType → ServerError → Option (ErrType × ServerError)
unless true type e = none
unless false type e = some (type, e)

abbrev pub with_elem : ErrArgs → ServerError
with_elem a = ignoring blank (nc_err_add_bad_elem (some blank) a.arg1)

abbrev pub with_elem_and_ns : ErrArgs → ServerError
with_elem_and_ns a = ignoring (with_elem a) (nc_err_add_bad_ns (some (with_elem a)) a.arg2)

abbrev pub with_attr : ErrArgs → ServerError
with_attr a = ignoring blank (nc_err_add_bad_attr (some blank) a.arg1)

abbrev pub with_attr_and_elem : ErrArgs → ServerError
with_attr_and_elem a = ignoring (with_attr a) (nc_err_add_bad_elem (some (with_attr a)) a.arg2)

-- The first switch.
unfoldable pub check_args : ErrTag → ErrArgs → Option (ErrType × ServerError)
check_args err_unknown a = none
check_args err_in_use a = unless (not (is_prot_or_app a.type_arg)) a.type_arg blank
check_args err_invalid_value a = unless (not (is_prot_or_app a.type_arg)) a.type_arg blank
check_args err_too_big a = some (a.type_arg, blank)
check_args err_missing_attr a = unless (is_tran a.type_arg) a.type_arg (with_attr_and_elem a)
check_args err_bad_attr a = unless (is_tran a.type_arg) a.type_arg (with_attr_and_elem a)
check_args err_unknown_attr a = unless (is_tran a.type_arg) a.type_arg (with_attr_and_elem a)
check_args err_missing_elem a = unless (not (is_prot_or_app a.type_arg)) a.type_arg (with_elem a)
check_args err_bad_elem a = unless (not (is_prot_or_app a.type_arg)) a.type_arg (with_elem a)
check_args err_unknown_elem a = unless (not (is_prot_or_app a.type_arg)) a.type_arg (with_elem a)
check_args err_unknown_ns a =
    unless (not (is_prot_or_app a.type_arg)) a.type_arg (with_elem_and_ns a)
check_args err_access_denied a = unless (not (is_prot_or_app a.type_arg)) a.type_arg blank
check_args err_lock_denied a =
    some (type_prot, ignoring blank (nc_err_set_sid (some blank) a.sid_arg))
check_args err_res_denied a = some (a.type_arg, blank)
check_args err_rollback_failed a = unless (not (is_prot_or_app a.type_arg)) a.type_arg blank
check_args err_data_exists a = some (type_app, blank)
check_args err_data_missing a = some (type_app, blank)
check_args err_op_not_supported a = unless (not (is_prot_or_app a.type_arg)) a.type_arg blank
check_args err_op_failed a = unless (is_tran a.type_arg) a.type_arg blank
check_args err_malformed_msg a = some (type_rpc, blank)

-- The second switch.
unfoldable pub default_message : ErrTag → Option Bytes
default_message err_unknown = none
default_message err_in_use = some (codes "The request requires a resource that already is in use.")
default_message err_invalid_value =
    some (codes "The request specifies an unacceptable value for one or more parameters.")
default_message err_too_big = some (
    codes
      "The request or response (that would be generated) is too large for the implementation to handle.")
default_message err_missing_attr = some (codes "An expected attribute is missing.")
default_message err_bad_attr = some (codes "An attribute value is not correct.")
default_message err_unknown_attr = some (codes "An unexpected attribute is present.")
default_message err_missing_elem = some (codes "An expected element is missing.")
default_message err_bad_elem = some (codes "An element value is not correct.")
default_message err_unknown_elem = some (codes "An unexpected element is present.")
default_message err_unknown_ns = some (codes "An unexpected namespace is present.")
default_message err_access_denied = some (
    codes
      "Access to the requested protocol operation or data model is denied because authorization failed.")
default_message err_lock_denied = some (
    codes
      "Access to the requested lock is denied because the lock is currently held by another entity.")
default_message err_res_denied =
    some (codes "Request could not be completed because of insufficient resources.")
default_message err_rollback_failed =
    some (codes "Request to roll back some configuration change was not completed for some reason.")
default_message err_data_exists =
    some (
      codes
        "Request could not be completed because the relevant data model content already exists.")
default_message err_data_missing =
    some (
      codes
        "Request could not be completed because the relevant data model content does not exist.")
default_message err_op_not_supported = some (
    codes
      "Request could not be completed because the requested operation is not supported by this implementation.")
default_message err_op_failed = some (
    codes
      "Request could not be completed because the requested operation failed for a non-specific reason.")
default_message err_malformed_msg =
    some (codes "A message could not be handled because it failed to be parsed correctly.")

unfoldable pub nc_err : ErrTag → ErrArgs → Option ServerError
unfolding check_args default_message nc_err_set_msg nc_err_set_sid nc_err_add_bad_attr
    nc_err_add_bad_elem nc_err_add_bad_ns
nc_err tag a = elim (check_args tag a) [
  | none ↦ none
  | some (type, e) ↦ elim (default_message tag) [
    | none ↦ none
    | some m ↦ some (record (ignoring e (nc_err_set_msg (some e) (some m) (some (codes "en")))) {
      type = type;
      tag = tag;
    })
  ]
]
