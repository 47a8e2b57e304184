-- ===== src/Messages/Table.antt =====
-- What nc_err makes, against the table of RFC 6241, appendix A.
use libnetconf.Common.{
  ℕ, ◌≡◌, ◌≢◌, Bool, true, false, List, [], ◌∷◌, Option, none, some, arith, Option-cases, inl, inr,
}
use libnetconf.Common.Bytes.{Bytes, codes}
use libnetconf.Messages.{
  ErrType, type_unknown, type_tran, type_rpc, type_prot, type_app, ErrTag, err_unknown, err_in_use,
  err_invalid_value, err_too_big, err_missing_attr, err_bad_attr, err_unknown_attr,
  err_missing_elem, err_bad_elem, err_unknown_elem, err_unknown_ns, err_access_denied,
  err_lock_denied, err_res_denied, err_rollback_failed, err_data_exists, err_data_missing,
  err_op_not_supported, err_op_failed, err_malformed_msg, ServerError,
}
use libnetconf.Messages.Create.{ErrArgs, nc_err, default_message}

-- The layers that the table gives an error tag.
abbrev pub layers : ErrTag → ErrType → Bool
layers err_unknown ty = false
layers err_in_use type_prot = true
layers err_in_use type_app = true
layers err_in_use ty = false
layers err_invalid_value type_prot = true
layers err_invalid_value type_app = true
layers err_invalid_value ty = false
layers err_too_big type_tran = true
layers err_too_big type_rpc = true
layers err_too_big type_prot = true
layers err_too_big type_app = true
layers err_too_big ty = false
layers err_missing_attr type_rpc = true
layers err_missing_attr type_prot = true
layers err_missing_attr type_app = true
layers err_missing_attr ty = false
layers err_bad_attr type_rpc = true
layers err_bad_attr type_prot = true
layers err_bad_attr type_app = true
layers err_bad_attr ty = false
layers err_unknown_attr type_rpc = true
layers err_unknown_attr type_prot = true
layers err_unknown_attr type_app = true
layers err_unknown_attr ty = false
layers err_missing_elem type_prot = true
layers err_missing_elem type_app = true
layers err_missing_elem ty = false
layers err_bad_elem type_prot = true
layers err_bad_elem type_app = true
layers err_bad_elem ty = false
layers err_unknown_elem type_prot = true
layers err_unknown_elem type_app = true
layers err_unknown_elem ty = false
layers err_unknown_ns type_prot = true
layers err_unknown_ns type_app = true
layers err_unknown_ns ty = false
layers err_access_denied type_prot = true
layers err_access_denied type_app = true
layers err_access_denied ty = false
layers err_lock_denied type_prot = true
layers err_lock_denied ty = false
layers err_res_denied type_tran = true
layers err_res_denied type_rpc = true
layers err_res_denied type_prot = true
layers err_res_denied type_app = true
layers err_res_denied ty = false
layers err_rollback_failed type_prot = true
layers err_rollback_failed type_app = true
layers err_rollback_failed ty = false
layers err_data_exists type_app = true
layers err_data_exists ty = false
layers err_data_missing type_app = true
layers err_data_missing ty = false
layers err_op_not_supported type_prot = true
layers err_op_not_supported type_app = true
layers err_op_not_supported ty = false
layers err_op_failed type_rpc = true
layers err_op_failed type_prot = true
layers err_op_failed type_app = true
layers err_op_failed ty = false
layers err_malformed_msg type_rpc = true
layers err_malformed_msg ty = false

abbrev given : Option Bytes → List Bytes
given none = []
given (some b) = b ∷ []

-- The error-info that the table gives an error tag, of the arguments of nc_err: the attributes, the
-- elements, the namespaces, and the session.
abbrev pub bad_attributes : ErrTag → ErrArgs → List Bytes
bad_attributes err_missing_attr a = given a.arg1
bad_attributes err_bad_attr a = given a.arg1
bad_attributes err_unknown_attr a = given a.arg1
bad_attributes tag a = []

abbrev pub bad_elements : ErrTag → ErrArgs → List Bytes
bad_elements err_missing_attr a = given a.arg2
bad_elements err_bad_attr a = given a.arg2
bad_elements err_unknown_attr a = given a.arg2
bad_elements err_missing_elem a = given a.arg1
bad_elements err_bad_elem a = given a.arg1
bad_elements err_unknown_elem a = given a.arg1
bad_elements err_unknown_ns a = given a.arg1
bad_elements tag a = []

abbrev pub bad_namespaces : ErrTag → ErrArgs → List Bytes
bad_namespaces err_unknown_ns a = given a.arg2
bad_namespaces tag a = []

abbrev pub lock_owner : ErrTag → ErrArgs → Option ℕ
lock_owner err_lock_denied a = some a.sid_arg
lock_owner tag a = none

-- The table's row with its error-info, the tag, and the message of the tag in English.
pub record IsConforming (tag : ErrTag) (a : ErrArgs) (e : ServerError) : Type 0 where
  pub tagged : e.tag ≡ tag
  pub layered : layers tag e.type ≡ true
  pub described : e.message ≡ default_message tag
  pub in_english : e.message_lang ≡ some (codes "en")
  pub with_attributes : e.attr ≡ bad_attributes tag a
  pub with_elements : e.elems ≡ bad_elements tag a
  pub with_namespaces : e.ns ≡ bad_namespaces tag a
  pub with_session : e.sid ≡ lock_owner tag a
  pub with_no_more : e.others ≡ []

row-IsConforming :
    (tag : ErrTag) (a : ErrArgs) (e : ServerError)
    → a.type_arg ≢ type_unknown
    → nc_err tag a ≡ some e
    → (e.tag ≡ tag)
      × (layers tag e.type ≡ true)
      × (e.message ≡ default_message tag)
      × (e.message_lang ≡ some (codes "en"))
unfolding nc_err
row-IsConforming err_unknown a e k h = absurd (cc)
row-IsConforming _ a e k h = ground arith

info-IsConforming :
    (tag : ErrTag) (a : ErrArgs) (e : ServerError)
    → nc_err tag a ≡ some e
    → (e.attr ≡ bad_attributes tag a)
      × (e.elems ≡ bad_elements tag a)
      × (e.ns ≡ bad_namespaces tag a)
      × (e.sid ≡ lock_owner tag a)
      × (e.others ≡ [])
unfolding nc_err
info-IsConforming err_unknown a e h = absurd (cc)
info-IsConforming _ a e h = ground arith

-- An error that nc_err makes when its type argument is a known layer has a layer of its tag's row,
-- the tag, its English message, and as error-info what the row prescribes, of the arguments: the
-- attribute, the element, the namespace or the session, where they are not NULL, and nothing else.
pub nc_err-IsConforming :
    (tag : ErrTag) (a : ErrArgs) (e : ServerError)
    → a.type_arg ≢ type_unknown
    → nc_err tag a ≡ some e
    → IsConforming tag a e
nc_err-IsConforming tag a e k h =
    let (t, l, d, g) = row-IsConforming tag a e k h in
    let (at, el, n, s, o) = info-IsConforming tag a e h in
    record {
      tagged = t;
      layered = l;
      described = d;
      in_english = g;
      with_attributes = at;
      with_elements = el;
      with_namespaces = n;
      with_session = s;
      with_no_more = o;
    }

nc_err-ne-none : (tag : ErrTag) (a : ErrArgs) → layers tag a.type_arg ≡ true → nc_err tag a ≢ none
unfolding nc_err
nc_err-ne-none err_unknown a h = absurd (cc)
nc_err-ne-none _ a h = ground arith

nc_err-type :
    (tag : ErrTag) (a : ErrArgs) (e : ServerError)
    → layers tag a.type_arg ≡ true
    → nc_err tag a ≡ some e
    → e.type ≡ a.type_arg
unfolding nc_err
nc_err-type err_unknown a e h p = absurd (cc)
nc_err-type _ a e h p = ground arith

-- Every layer that the table allows can be made, whatever the other arguments are.
pub nc_err_complete :
    (tag : ErrTag) (a : ErrArgs)
    → layers tag a.type_arg ≡ true
    → (e : ServerError) × (nc_err tag a ≡ some e) × (e.type ≡ a.type_arg)
nc_err_complete tag a h = elim (Option-cases (nc_err tag a)) [
  | inl p ↦ absurd (nc_err-ne-none tag a h p)
  | inr (e, p) ↦ (e, p, nc_err-type tag a e h p)
]
