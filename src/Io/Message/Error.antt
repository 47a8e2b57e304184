-- ===== src/Io/Message/Error.antt =====
-- The text of an <rpc-error> and of the start tag of a reply.
use libnetconf.Common.{
  ◌≡◌, ◌≢◌, refl, ap, ◌∙◌, List, [], ◌∷◌, ◌++◌, append_assoc, append-nil, some, none, drop, Option,
  true,
}
use libnetconf.Common.Bytes.{Bytes, codes}
use libnetconf.Messages.{
  ErrType, type_unknown, type_tran, type_rpc, type_prot, type_app, ErrTag, err_unknown, err_in_use,
  err_invalid_value, err_too_big, err_missing_attr, err_bad_attr, err_unknown_attr,
  err_missing_elem, err_bad_elem, err_unknown_elem, err_unknown_ns, err_access_denied,
  err_lock_denied, err_res_denied, err_rollback_failed, err_data_exists, err_data_missing,
  err_op_not_supported, err_op_failed, err_malformed_msg, ServerError, ServerReply,
}
use libnetconf.Io.Message.{
  Piece, type_piece, tag_piece, rest_pieces, nc_write_error, reply_plan, reply_body, reply_head,
  plan, reply_msg, writes, lit,
}
use libnetconf.Session.{Session}
use libnetconf.Io.Message.Wire.{piece_text, document}
use libnetconf.Io.Message.Document.{
  error_xml, document-append, document-info, document-message, document-path, document-apptag,
}

-- The names of RFC 6241, appendix A.
abbrev pub type_name : ErrType → Bytes
type_name type_unknown = []
type_name type_tran = codes "transport"
type_name type_rpc = codes "rpc"
type_name type_prot = codes "protocol"
type_name type_app = codes "application"

abbrev pub tag_name : ErrTag → Bytes
tag_name err_unknown = []
tag_name err_in_use = codes "in-use"
tag_name err_invalid_value = codes "invalid-value"
tag_name err_too_big = codes "too-big"
tag_name err_missing_attr = codes "missing-attribute"
tag_name err_bad_attr = codes "bad-attribute"
tag_name err_unknown_attr = codes "unknown-attribute"
tag_name err_missing_elem = codes "missing-element"
tag_name err_bad_elem = codes "bad-element"
tag_name err_unknown_elem = codes "unknown-element"
tag_name err_unknown_ns = codes "unknown-namespace"
tag_name err_access_denied = codes "access-denied"
tag_name err_lock_denied = codes "lock-denied"
tag_name err_res_denied = codes "resource-denied"
tag_name err_rollback_failed = codes "rollback-failed"
tag_name err_data_exists = codes "data-exists"
tag_name err_data_missing = codes "data-missing"
tag_name err_op_not_supported = codes "operation-not-supported"
tag_name err_op_failed = codes "operation-failed"
tag_name err_malformed_msg = codes "malformed-message"

type_piece-name :
    (ty : ErrType)
    → ty ≢ type_unknown
    → (p : Piece) × (type_piece ty ≡ some p) × (piece_text p ≡ type_name ty)
type_piece-name type_unknown k = absurd (k refl)
type_piece-name type_tran k = (_, refl, refl)
type_piece-name type_rpc k = (_, refl, refl)
type_piece-name type_prot k = (_, refl, refl)
type_piece-name type_app k = (_, refl, refl)

tag_piece-name :
    (tag : ErrTag)
    → tag ≢ err_unknown
    → (p : Piece) × (tag_piece tag ≡ some p) × (piece_text p ≡ tag_name tag)
tag_piece-name err_unknown k = absurd (k refl)
tag_piece-name _ k = (_, refl, refl)

error_pieces :
    (e : ServerError) (p q : Piece)
    → type_piece e.type ≡ some p
    → tag_piece e.tag ≡ some q
    → document (nc_write_error e) ≡ error_xml (piece_text p) (piece_text q) e
unfolding nc_write_error rest_pieces
error_pieces e p q a b =
    rw (a, b)
      (simp (
        document-append, document-apptag, document-path, document-message, document-info,
        append_assoc, append-nil,
      ))

-- An error of a known type and tag is written as one <rpc-error> element with the children that
-- RFC 6241 gives it, in its order, and with every string escaped.
pub document-nc_write_error :
    (e : ServerError)
    → e.type ≢ type_unknown
    → e.tag ≢ err_unknown
    → document (nc_write_error e) ≡ error_xml (type_name e.type) (tag_name e.tag) e
document-nc_write_error e k l =
    let (p, a, c) = type_piece-name e.type k in
    let (q, b, d) = tag_piece-name e.tag l in
    error_pieces e p q a b
    ∙ ap (λ x. error_xml x (piece_text q) e) c
    ∙ ap (λ x. error_xml (type_name e.type) x e) d

-- Of an error of an unknown type only two start tags are written.
pub document-nc_write_error_unknown :
    (e : ServerError)
    → e.type ≡ type_unknown
    → document (nc_write_error e) ≡ codes "<rpc-error><error-type>"
unfolding nc_write_error
document-nc_write_error_unknown e k = rw k

-- A reply to no RPC begins with a start tag whose name runs into the namespace attribute.
pub reply_head_joined :
    (s : Session) (reply : ServerReply) (ps : List Piece)
    → plan s (reply_msg none reply) ≡ writes ps true
    → (rest : Bytes) × (document ps ≡ codes "<rpc-replyxmlns=" ++ rest)
unfolding plan reply_plan
reply_head_joined s reply ps e = go (reply_body reply) e
  where
    go :
        (body : Option (List Piece))
        → reply_plan (lit "<rpc-reply" 10 ∷ reply_head none) body ≡ writes ps true
        → (rest : Bytes) × (document ps ≡ codes "<rpc-replyxmlns=" ++ rest)
    go none q = absurd (cc)
    go (some body) q =
        let ps' =
          lit "<rpc-reply" 10 ∷ (reply_head none ++ (body ++ (lit "</rpc-reply>" 12 ∷ []))) in
        (drop 16 (document ps'), ap document {x = ps} {y = ps'} (cc))
