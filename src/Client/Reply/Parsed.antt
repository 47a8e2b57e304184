-- ===== src/Client/Reply/Parsed.antt =====
-- The client's reading of the error replies that the server of this library writes.
use libnetconf.Common.{◌≡◌, ◌≢◌, refl, ap, ◌∙◌, true, List, [], ◌∷◌, map, All, Option, some}
use libnetconf.Common.Bytes.{Bytes, codes, bytes_eq}
use libnetconf.Session.Xml.{Elem, elem, elems_of}
use libnetconf.Messages.{ServerError, type_unknown, err_unknown}
use libnetconf.Io.Message.{ns_base}
use libnetconf.Client.Rpc.{Rpc}
use libnetconf.Client.Errors.{ClientError, in_base}
use libnetconf.Client.Errors.Info.{IsOther, error_elem, listed-elems_of}
use libnetconf.Client.Errors.Back.{client_error, parse_rpc_error-error_elem}
use libnetconf.Client.Reply.{
  Libyang, reply_error, all_errors, parse_errors, parse_children, parse_reply,
}

-- An error with the elements that libyang prints of its `others`.
abbrev pub Sent : Type 0
Sent = ServerError × List Elem

-- Of a known type and tag, and the other elements of other namespaces.
abbrev pub IsSent : Sent → Type 0
IsSent (e, others) =
    (e.type ≢ type_unknown)
    × (e.tag ≢ err_unknown)
    × All IsOther others
    × (e.others ≡ [] → others ≡ [])

abbrev pub sent_elem : Sent → Elem
sent_elem (e, others) = error_elem e others

-- The element of an error reply, with the attributes of the <rpc>.
abbrev pub error_reply : List (Bytes × Bytes) → List Sent → Elem
error_reply attrs es =
    elem (codes "rpc-reply") (some ns_base) attrs [] (elems_of (map sent_elem es))

sent_all_errors : (es : List Sent) → all_errors (map sent_elem es) ≡ true
unfolding all_errors bytes_eq in_base
sent_all_errors [] = refl
sent_all_errors (e ∷ es) = sent_all_errors es

module _ {Data Schema Options : Type 0} (yang : Libyang Data Schema Options) where
  module _ (get_attr : Elem → Bytes → Option Bytes) where
    abbrev pub received_error : Sent → ClientError
    received_error (e, others) = client_error get_attr e others

    parse_errors-sent_elem :
        (es : List Sent)
        → All IsSent es
        → parse_errors yang get_attr (map sent_elem es) ≡ map received_error es
    parse_errors-sent_elem [] h = refl
    parse_errors-sent_elem ((e, others) ∷ es) ((a, b, c, d), h) =
        ap (λ x. x ∷ parse_errors yang get_attr (map sent_elem es))
          (parse_rpc_error-error_elem get_attr e others a b c d)
        ∙ ap (◌∷◌ (client_error get_attr e others)) (parse_errors-sent_elem es h)

    -- A reply with one or more errors is read as these errors, in their order, whatever the RPC.
    pub parse_reply-error_reply :
        (attrs : List (Bytes × Bytes)) (e : Sent) (es : List Sent) (rpc : Rpc Data) (opts : Options)
        → All IsSent (e ∷ es)
        → parse_reply yang get_attr (error_reply attrs (e ∷ es)) rpc opts
          ≡ some (reply_error (map received_error (e ∷ es)))
    unfolding parse_reply parse_children bytes_eq in_base
    parse_reply-error_reply attrs e es rpc opts h =
        rw
          (
            listed-elems_of (map sent_elem es),
            sent_all_errors (e ∷ es),
            parse_errors-sent_elem (e ∷ es) h,
          )
          refl
