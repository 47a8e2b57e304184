-- ===== src/Io/Message/Document.antt =====
-- The text of the messages: the escapes of character data, the elements of an <rpc-error>, and
-- the start tag of a reply.
use libnetconf.Common.{
  ℕ, ◌≡◌, ◌≢◌, refl, sym, ◌∙◌, ap, List, [], ◌∷◌, ◌++◌, append_assoc, append-nil, true, false,
  Option, none, some, ◌==◌, if◌then◌else◌, arith, All, All-append, Bool-cases, inl, inr,
}
use Prim.Native.String.{String}
use libnetconf.Common.Bytes.{Bytes, codes, bytes_eq}
use libnetconf.Common.Decimal.{print_dec}
use libnetconf.Messages.{ServerError}
use libnetconf.Io.Write.{escape_byte}
use libnetconf.Io.Write.Buffered.{escape}
use libnetconf.Io.Message.{
  Piece, lit, printed, optional, each, others_pieces, message_pieces, sid_pieces, has_info,
  info_pieces,
}
use libnetconf.Io.Message.Wire.{piece_text, document}

-- What an XML reader makes of the entities in character data, behind `&` and what follows it.
resolve : Bytes → Bytes
unfolding bytes_eq
resolve name =
    if bytes_eq name (codes "amp")
    then 38 ∷ []
    else (if bytes_eq name (codes "lt")
        then 60 ∷ []
        else (if bytes_eq name (codes "gt") then 62 ∷ [] else []))

unescape_from : Option Bytes → Bytes → Bytes
unfolding resolve
unescape_from entity [] = []
unescape_from none (c ∷ cs) = elim (c == 38) [
  | true ↦ unescape_from (some []) cs
  | false ↦ c ∷ unescape_from none cs
]
unescape_from (some name) (c ∷ cs) = elim (c == 59) [
  | true ↦ resolve name ++ unescape_from none cs
  | false ↦ unescape_from (some (name ++ (c ∷ []))) cs
]

pub unescape : Bytes → Bytes
unfolding unescape_from
unescape = unescape_from none

unescape_from-escape_byte :
    (c : ℕ) (rest : Bytes)
    → unescape_from none (escape_byte c ++ rest) ≡ c ∷ unescape_from none rest
unfolding unescape_from escape_byte
unescape_from-escape_byte c rest = ground arith

-- Character data comes back from its escaped form.
pub unescape-escape : (s : Bytes) → unescape (escape s) ≡ s
unfolding unescape escape
unescape-escape [] = refl
unescape-escape (c ∷ cs) = unescape_from-escape_byte c (escape cs) ∙ ap (◌∷◌ c) (unescape-escape cs)

abbrev pub IsText : ℕ → Type 0
IsText c = (c ≢ 60) × (c ≢ 62)

escape_byte-IsText : (c : ℕ) → All IsText (escape_byte c)
unfolding escape_byte
escape_byte-IsText c = ground arith

-- Escaped character data has no tag delimiters.
pub escape-IsText : (s : Bytes) → All IsText (escape s)
unfolding escape
escape-IsText [] = tt
escape-IsText (c ∷ cs) =
    All-append IsText (escape_byte c) (escape cs) (escape_byte-IsText c) (escape-IsText cs)

pub document-append : (ps qs : List Piece) → document (ps ++ qs) ≡ document ps ++ document qs
document-append [] qs = refl
document-append (p ∷ ps) qs =
    ap (◌++◌ (piece_text p)) (document-append ps qs)
    ∙ sym (append_assoc (piece_text p) (document ps) (document qs))

-- An element by its name and content.
abbrev pub tagged : String → Bytes → Bytes
tagged name body =
    codes "<" ++ (codes name ++ (codes ">" ++ (body ++ (codes "</" ++ (codes name ++ codes ">")))))

abbrev pub optional_xml : String → Option Bytes → Bytes
optional_xml name none = []
optional_xml name (some b) = tagged name (escape b)

abbrev pub each_xml : String → List Bytes → Bytes
each_xml name [] = []
each_xml name (b ∷ bs) = tagged name (escape b) ++ each_xml name bs

abbrev pub others_xml : List (List Bytes) → Bytes
others_xml [] = []
others_xml (o ∷ os) = document (printed o) ++ others_xml os

abbrev pub lang_xml : Option Bytes → Bytes
lang_xml none = []
lang_xml (some l) = codes " xml:lang=\"" ++ (escape l ++ codes "\"")

abbrev pub message_xml : Option Bytes → Option Bytes → Bytes
message_xml none lang = []
message_xml (some m) lang =
    codes "<error-message"
    ++ (lang_xml lang ++ (codes ">" ++ (escape m ++ codes "</error-message>")))

abbrev pub sid_xml : Option ℕ → Bytes
sid_xml none = []
sid_xml (some n) = tagged "session-id" (print_dec n)

abbrev pub info_xml : ServerError → Bytes
info_xml e =
    if has_info e
    then tagged "error-info" (
        sid_xml e.sid
        ++ (each_xml "bad-attribute" e.attr
            ++ (each_xml "bad-element" e.elems
                ++ (each_xml "bad-namespace" e.ns ++ others_xml e.others))))
    else []

-- The <rpc-error> of RFC 6241, section 4.3.
abbrev pub error_xml : Bytes → Bytes → ServerError → Bytes
error_xml type tag e = tagged "rpc-error" (
    tagged "error-type" type
    ++ (tagged "error-tag" tag
        ++ (tagged "error-severity" (codes "error")
            ++ (optional_xml "error-app-tag" e.apptag
                ++ (optional_xml "error-path" e.path
                    ++ (message_xml e.message e.message_lang ++ info_xml e))))))

document-attrs :
    (bs : List Bytes)
    → document (each (lit "<bad-attribute>" 15) (lit "</bad-attribute>" 16) bs)
      ≡ each_xml "bad-attribute" bs
document-attrs [] = refl
document-attrs (b ∷ bs) = rw (document-attrs bs) (simp append_assoc)

document-elems :
    (bs : List Bytes)
    → document (each (lit "<bad-element>" 13) (lit "</bad-element>" 14) bs)
      ≡ each_xml "bad-element" bs
document-elems [] = refl
document-elems (b ∷ bs) = rw (document-elems bs) (simp append_assoc)

document-ns :
    (bs : List Bytes)
    → document (each (lit "<bad-namespace>" 15) (lit "</bad-namespace>" 16) bs)
      ≡ each_xml "bad-namespace" bs
document-ns [] = refl
document-ns (b ∷ bs) = rw (document-ns bs) (simp append_assoc)

document-others : (os : List (List Bytes)) → document (others_pieces os) ≡ others_xml os
document-others [] = refl
document-others (o ∷ os) =
    document-append (printed o) (others_pieces os)
    ∙ ap (◌++◌ (document (printed o))) (document-others os)

document-sid : (sid : Option ℕ) → document (sid_pieces sid) ≡ sid_xml sid
document-sid none = refl
document-sid (some n) = simp append-nil

pub document-message :
    (m lang : Option Bytes) → document (message_pieces m lang) ≡ message_xml m lang
document-message none lang = refl
document-message (some m) none = simp append-nil
document-message (some m) (some l) = simp (append-nil, append_assoc)

pub document-apptag :
    (b : Option Bytes)
    → document (optional b (lit "<error-app-tag>" 15) (lit "</error-app-tag>" 16))
      ≡ optional_xml "error-app-tag" b
document-apptag none = refl
document-apptag (some b) = simp append-nil

pub document-path :
    (b : Option Bytes)
    → document (optional b (lit "<error-path>" 12) (lit "</error-path>" 13))
      ≡ optional_xml "error-path" b
document-path none = refl
document-path (some b) = simp append-nil

pub document-info : (e : ServerError) → document (info_pieces e) ≡ info_xml e
unfolding info_pieces
document-info e = elim (Bool-cases (has_info e)) [
  | inl h ↦ rw h (
      simp (
        document-append, document-sid, document-attrs, document-elems, document-ns, document-others,
        append_assoc, append-nil,
      ))
  | inr h ↦ rw h
]
