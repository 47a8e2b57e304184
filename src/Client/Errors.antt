-- ===== src/Client/Errors.antt =====
-- parse_rpc_error of src/session_client.c, and `struct nc_err` of src/messages_client.h, which it
-- fills. Allocation succeeds.
pub mod Info
pub mod Back
use libnetconf.Common.{
  Bool, true, false, ◌||◌, List, [], ◌∷◌, ◌++◌, if◌then◌else◌, Option, none, some,
}
use Prim.Native.String.{String}
use libnetconf.Common.Bytes.{Bytes, codes, bytes_eq}
use libnetconf.Session.Xml.{Elem, name_of, ns_of, content_of, children_of, listed}
use libnetconf.Io.Message.{ns_base}

-- `struct nc_err`; the arrays with their counts are lists.
pub record ClientError : Type 0 where
  pub type : Option Bytes
  pub tag : Option Bytes
  pub severity : Option Bytes
  pub apptag : Option Bytes
  pub path : Option Bytes
  pub message : Option Bytes
  pub message_lang : Option Bytes
  pub sid : Option Bytes
  pub attr : List Bytes
  pub elem : List Bytes
  pub ns : List Bytes
  pub other : List Elem

-- What calloc() leaves.
abbrev pub no_error : ClientError
no_error = record {
  type = none;
  tag = none;
  severity = none;
  apptag = none;
  path = none;
  message = none;
  message_lang = none;
  sid = none;
  attr = [];
  elem = [];
  ns = [];
  other = [];
}

-- `ns && !strcmp(ns->value, NC_NS_BASE)`.
unfoldable pub in_base : Elem → Bool
in_base x = elim (ns_of x) [ none ↦ false | some n ↦ bytes_eq n ns_base ]

abbrev pub named : Elem → String → Bool
named x name = bytes_eq (name_of x) (codes name)

unfoldable pub one_of : List String → Bytes → Bool
one_of [] b = false
one_of (s ∷ ss) b = bytes_eq b (codes s) || one_of ss b

abbrev pub known_types : List String
known_types = "transport" ∷ "rpc" ∷ "protocol" ∷ "application" ∷ []

abbrev pub known_tags : List String
known_tags =
    "in-use" ∷ "invalid-value" ∷ "too-big" ∷ "missing-attribute" ∷ "bad-attribute"
    ∷ "unknown-attribute" ∷ "missing-element" ∷ "bad-element" ∷ "unknown-element"
    ∷ "unknown-namespace" ∷ "access-denied" ∷ "lock-denied" ∷ "resource-denied" ∷ "rollback-failed"
    ∷ "data-exists" ∷ "data-missing" ∷ "operation-not-supported" ∷ "operation-failed"
    ∷ "malformed-message" ∷ []

abbrev pub known_severities : List String
known_severities = "error" ∷ "warning" ∷ []

-- The first value stays.
abbrev pub once : Option Bytes → Bytes → Option Bytes
once none b = some b
once (some a) b = some a

-- A value that is none of the known ones is passed over.
abbrev pub once_known : List String → Option Bytes → Bytes → Option Bytes
once_known known old b = if one_of known b then once old b else old

-- A child of <error-info>.
unfoldable pub info_child : Elem → ClientError → ClientError
info_child x e =
    if in_base x
    then (if named x "session-id"
        then record e { sid = once e.sid (content_of x) }
        else (if named x "bad-attr"
            then record e { attr = e.attr ++ (content_of x ∷ []) }
            else (if named x "bad-element"
                then record e { elem = e.elem ++ (content_of x ∷ []) }
                else (if named x "bad-namespace"
                    then record e { ns = e.ns ++ (content_of x ∷ []) }
                    else e))))
    else record e { other = e.other ++ (x ∷ []) }

abbrev pub info_loop : List Elem → ClientError → ClientError
info_loop [] e = e
info_loop (x ∷ xs) e = info_loop xs (info_child x e)

module _ (get_attr : Elem → Bytes → Option Bytes) where
  abbrev pub message_once : Elem → Option Bytes → ClientError → ClientError
  message_once x none e = record e {
    message = some (content_of x);
    message_lang = get_attr x (codes "xml:lang");
  }
  message_once x (some m) e = e

  -- A child of <rpc-error>.
  unfoldable pub error_child : Elem → ClientError → ClientError
  error_child x e =
      if in_base x
      then (if named x "error-type"
          then record e { type = once_known known_types e.type (content_of x) }
          else (if named x "error-tag"
              then record e { tag = once_known known_tags e.tag (content_of x) }
              else (if named x "error-severity"
                  then record e { severity = once_known known_severities e.severity (content_of x) }
                  else (if named x "error-app-tag"
                      then record e { apptag = once e.apptag (content_of x) }
                      else (if named x "error-path"
                          then record e { path = once e.path (content_of x) }
                          else (if named x "error-message"
                              then message_once x e.message e
                              else (if named x "error-info"
                                  then info_loop (listed (children_of x)) e
                                  else e)))))))
      else e

  abbrev pub error_loop : List Elem → ClientError → ClientError
  error_loop [] e = e
  error_loop (x ∷ xs) e = error_loop xs (error_child x e)

  unfoldable pub parse_rpc_error : Elem → ClientError → ClientError
  parse_rpc_error x e = error_loop (listed (children_of x)) e
