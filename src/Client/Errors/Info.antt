-- ===== src/Client/Errors/Info.antt =====
-- The <rpc-error> element of a server's error, and what the client takes of its <error-info>.
use libnetconf.Common.{
  ◌≡◌, ◌≢◌, refl, sym, ap, ◌∙◌, List, [], ◌∷◌, ◌++◌, append_assoc, append-nil, some, none, Option,
  true, false, All, if◌then◌else◌, ℕ,
}
use Prim.Native.String.{String}
use libnetconf.Common.Bytes.{Bytes, codes, bytes_eq, bytes_eq_refl}
use libnetconf.Common.Decimal.{print_dec}
use libnetconf.Session.Xml.{Elem, elem, Elems, nil, listed, elems_of}
use libnetconf.Messages.{ErrType, type_unknown, ErrTag, err_unknown, ServerError}
use libnetconf.Io.Message.{ns_base, has_info}
use libnetconf.Io.Message.Error.{type_name, tag_name}
use libnetconf.Client.Errors.{
  ClientError, in_base, one_of, known_types, known_tags, info_child, info_loop, once,
}

-- An element of the base namespace.
abbrev pub text : String → Bytes → Elem
text name b = elem (codes name) (some ns_base) [] b nil

abbrev pub one_text : String → Option Bytes → List Elem
one_text name none = []
one_text name (some b) = text name b ∷ []

abbrev pub texts : String → List Bytes → List Elem
texts name [] = []
texts name (b ∷ bs) = text name b ∷ texts name bs

abbrev pub lang_attrs : Option Bytes → List (Bytes × Bytes)
lang_attrs none = []
lang_attrs (some l) = (codes "xml:lang", l) ∷ []

abbrev pub message_elem : Bytes → Option Bytes → Elem
message_elem m lang = elem (codes "error-message") (some ns_base) (lang_attrs lang) m nil

abbrev pub message_elems : Option Bytes → Option Bytes → List Elem
message_elems none lang = []
message_elems (some m) lang = message_elem m lang ∷ []

abbrev pub sid_text : Option ℕ → Option Bytes
sid_text none = none
sid_text (some n) = some (print_dec n)

-- `others` are the elements that libyang prints of `e.others`.
abbrev pub info_elems : ServerError → List Elem → List Elem
info_elems e others =
    one_text "session-id" (sid_text e.sid)
    ++ (texts "bad-attribute" e.attr
        ++ (texts "bad-element" e.elems ++ (texts "bad-namespace" e.ns ++ others)))

abbrev pub info_part : ServerError → List Elem → List Elem
info_part e others =
    if has_info e
    then elem (codes "error-info") (some ns_base) [] [] (elems_of (info_elems e others)) ∷ []
    else []

abbrev pub error_elems : ServerError → List Elem → List Elem
error_elems e others =
    text "error-type" (type_name e.type)
    ∷ text "error-tag" (tag_name e.tag)
    ∷ text "error-severity" (codes "error")
    ∷ (one_text "error-app-tag" e.apptag
        ++ (one_text "error-path" e.path
            ++ (message_elems e.message e.message_lang ++ info_part e others)))

-- The <rpc-error> element of a server's error.
abbrev pub error_elem : ServerError → List Elem → Elem
error_elem e others =
    elem (codes "rpc-error") (some ns_base) [] [] (elems_of (error_elems e others))

pub listed-elems_of : (xs : List Elem) → listed (elems_of xs) ≡ xs
listed-elems_of [] = refl
listed-elems_of (x ∷ xs) = ap (◌∷◌ x) (listed-elems_of xs)

abbrev pub IsOther : Elem → Type 0
IsOther x = in_base x ≡ false

pub in_base_text :
    (name : Bytes) (attrs : List (Bytes × Bytes)) (b : Bytes) (xs : Elems)
    → in_base (elem name (some ns_base) attrs b xs) ≡ true
unfolding in_base
in_base_text name attrs b xs = bytes_eq_refl ns_base

pub type_name-known : (ty : ErrType) → ty ≢ type_unknown → one_of known_types (type_name ty) ≡ true
unfolding one_of bytes_eq
type_name-known type_unknown k = absurd (k refl)
type_name-known _ k = refl

pub tag_name-known : (tag : ErrTag) → tag ≢ err_unknown → one_of known_tags (tag_name tag) ≡ true
unfolding one_of bytes_eq
tag_name-known err_unknown k = absurd (k refl)
tag_name-known _ k = refl

info_loop-append :
    (xs ys : List Elem) (e : ClientError) → info_loop (xs ++ ys) e ≡ info_loop ys (info_loop xs e)
info_loop-append [] ys e = refl
info_loop-append (x ∷ xs) ys e = info_loop-append xs ys (info_child x e)

info_loop-sid :
    (sid : Option Bytes) (e : ClientError)
    → e.sid ≡ none
    → info_loop (one_text "session-id" sid) e ≡ record e { sid = sid }
unfolding info_child bytes_eq in_base
info_loop-sid none e h = ap (λ (x : Option Bytes). record e { sid = x }) h
info_loop-sid (some b) e h = ap (λ (x : Option Bytes). record e { sid = once x b }) h

info_loop-attr : (bs : List Bytes) (e : ClientError) → info_loop (texts "bad-attribute" bs) e ≡ e
unfolding info_child bytes_eq in_base
info_loop-attr [] e = refl
info_loop-attr (b ∷ bs) e = info_loop-attr bs e

info_loop-elem :
    (bs : List Bytes) (e : ClientError)
    → info_loop (texts "bad-element" bs) e ≡ record e { elem = e.elem ++ bs }
unfolding info_child bytes_eq in_base
info_loop-elem [] e = ap (λ (x : List Bytes). record e { elem = x }) (sym (append-nil e.elem))
info_loop-elem (b ∷ bs) e =
    info_loop-elem bs (record e { elem = e.elem ++ (b ∷ []) })
    ∙ ap (λ (x : List Bytes). record e { elem = x }) (append_assoc e.elem (b ∷ []) bs)

info_loop-ns :
    (bs : List Bytes) (e : ClientError)
    → info_loop (texts "bad-namespace" bs) e ≡ record e { ns = e.ns ++ bs }
unfolding info_child bytes_eq in_base
info_loop-ns [] e = ap (λ (x : List Bytes). record e { ns = x }) (sym (append-nil e.ns))
info_loop-ns (b ∷ bs) e =
    info_loop-ns bs (record e { ns = e.ns ++ (b ∷ []) })
    ∙ ap (λ (x : List Bytes). record e { ns = x }) (append_assoc e.ns (b ∷ []) bs)

info_child-other :
    (x : Elem) (e : ClientError)
    → in_base x ≡ false
    → info_child x e ≡ record e { other = e.other ++ (x ∷ []) }
unfolding info_child
info_child-other x e h = rw h

info_loop-other :
    (xs : List Elem) (e : ClientError)
    → All IsOther xs
    → info_loop xs e ≡ record e { other = e.other ++ xs }
info_loop-other [] e h = ap (λ (x : List Elem). record e { other = x }) (sym (append-nil e.other))
info_loop-other (x ∷ xs) e h =
    ap (info_loop xs) (info_child-other x e h.0)
    ∙ info_loop-other xs (record e { other = e.other ++ (x ∷ []) }) h.1
    ∙ ap (λ (l : List Elem). record e { other = l }) (append_assoc e.other (x ∷ []) xs)

-- What the children of <error-info> add to an error without a session id.
abbrev pub with_info : ServerError → List Elem → ClientError → ClientError
with_info s others e = record e {
  sid = sid_text s.sid;
  elem = e.elem ++ s.elems;
  ns = e.ns ++ s.ns;
  other = e.other ++ others;
}

pub info_loop-elems :
    (s : ServerError) (others : List Elem) (e : ClientError)
    → All IsOther others
    → e.sid ≡ none
    → info_loop (info_elems s others) e ≡ with_info s others e
info_loop-elems s others e h k =
    let e1 : ClientError = record e { sid = sid_text s.sid } in
    let e2 : ClientError = record e1 { elem = e.elem ++ s.elems } in
    rw
      (
        info_loop-append,
        info_loop-sid (sid_text s.sid) e k,
        info_loop-append,
        info_loop-attr s.attr e1,
        info_loop-append,
        info_loop-elem s.elems e1,
        info_loop-append,
        info_loop-ns s.ns e2,
      )
      (info_loop-other others _ h)
