-- ===== src/Io/Message/Replied.antt =====
-- The text of an error reply of the server, as nc_write_msg of src/io.c prints it.
use libnetconf.Common.{
  ◌≡◌, ◌≢◌, refl, ap, ◌∙◌, List, [], ◌∷◌, ◌++◌, All, flatten, append_assoc, append-nil, some, true,
}
use libnetconf.Common.Bytes.{Bytes, codes}
use libnetconf.Messages.{type_unknown, err_unknown, ServerError, rpl_error}
use libnetconf.Session.{Session}
use libnetconf.Io.Message.{
  Piece, lit, printed, errors_pieces, nc_write_error, reply_head, reply_plan, reply_body, reply_msg,
  plan, writes,
}
use libnetconf.Io.Message.Wire.{document}
use libnetconf.Io.Message.Document.{error_xml, document-append}
use libnetconf.Io.Message.Error.{type_name, tag_name, document-nc_write_error}

-- The calls for a reply with the errors to an RPC with the printed attributes.
abbrev pub reply_pieces : List Bytes → List ServerError → List Piece
reply_pieces attrs es =
    lit "<rpc-reply" 10
    ∷ (reply_head (some attrs) ++ (errors_pieces es ++ (lit "</rpc-reply>" 12 ∷ [])))

pub plan-rpl_error :
    (s : Session) (attrs : List Bytes) (es : List ServerError)
    → plan s (reply_msg (some attrs) (rpl_error es)) ≡ writes (reply_pieces attrs es) true
unfolding plan reply_plan reply_body
plan-rpl_error s attrs es = refl

abbrev pub IsKnown : ServerError → Type 0
IsKnown e = (e.type ≢ type_unknown) × (e.tag ≢ err_unknown)

abbrev pub errors_xml : List ServerError → Bytes
errors_xml [] = []
errors_xml (e ∷ es) = error_xml (type_name e.type) (tag_name e.tag) e ++ errors_xml es

-- <rpc-reply> with the attributes of the <rpc> and an <rpc-error> of RFC 6241, section 4.3, for each
-- error.
abbrev pub reply_xml : List Bytes → List ServerError → Bytes
reply_xml attrs es =
    codes "<rpc-reply" ++ (flatten attrs ++ (codes ">" ++ (errors_xml es ++ codes "</rpc-reply>")))

document-printed : (bs : List Bytes) → document (printed bs) ≡ flatten bs
document-printed [] = refl
document-printed (b ∷ bs) = ap (◌++◌ b) (document-printed bs)

document-errors_pieces :
    (es : List ServerError) → All IsKnown es → document (errors_pieces es) ≡ errors_xml es
document-errors_pieces [] h = refl
document-errors_pieces (e ∷ es) ((k, l), h) =
    document-append (nc_write_error e) (errors_pieces es)
    ∙ ap (λ b. b ++ document (errors_pieces es)) (document-nc_write_error e k l)
    ∙ ap (◌++◌ (error_xml (type_name e.type) (tag_name e.tag) e)) (document-errors_pieces es h)

pub document-reply_pieces :
    (attrs : List Bytes) (es : List ServerError)
    → All IsKnown es
    → document (reply_pieces attrs es) ≡ reply_xml attrs es
document-reply_pieces attrs es h =
    simp (document-append, document-printed, document-errors_pieces es h, append_assoc, append-nil)
