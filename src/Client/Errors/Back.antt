-- ===== src/Client/Errors/Back.antt =====
-- What the client makes of the <rpc-error> that nc_write_error of src/io.c writes.
use libnetconf.Common.{
  ◌≡◌, ◌≢◌, refl, ap, ◌∙◌, List, [], ◌∷◌, ◌++◌, append-nil, some, none, Option, false, All,
  Bool-cases, inl, inr, arith,
}
use libnetconf.Common.Bytes.{Bytes, codes, bytes_eq}
use libnetconf.Session.Xml.{Elem}
use libnetconf.Messages.{type_unknown, err_unknown, ServerError}
use libnetconf.Io.Message.{has_info}
use libnetconf.Io.Message.Error.{type_name, tag_name}
use libnetconf.Client.Errors.{
  ClientError, no_error, in_base, one_of, error_child, error_loop, parse_rpc_error, once,
}
use libnetconf.Client.Errors.Info.{
  text, one_text, message_elem, message_elems, info_elems, info_part, error_elems, error_elem,
  IsOther, type_name-known, tag_name-known, with_info, info_loop-elems, listed-elems_of, sid_text,
}

module _ (get_attr : Elem → Bytes → Option Bytes) where
  -- The language is the attribute that the client finds at <error-message>.
  abbrev pub lang_found : Option Bytes → Option Bytes → Option Bytes
  lang_found none lang = none
  lang_found (some m) lang = get_attr (message_elem m lang) (codes "xml:lang")

  -- All that the server's error says, without its bad attributes.
  abbrev pub client_error : ServerError → List Elem → ClientError
  client_error s others = record {
    type = some (type_name s.type);
    tag = some (tag_name s.tag);
    severity = some (codes "error");
    apptag = s.apptag;
    path = s.path;
    message = s.message;
    message_lang = lang_found s.message s.message_lang;
    sid = sid_text s.sid;
    attr = [];
    elem = s.elems;
    ns = s.ns;
    other = others;
  }

  error_loop-append :
      (xs ys : List Elem) (e : ClientError)
      → error_loop get_attr (xs ++ ys) e ≡ error_loop get_attr ys (error_loop get_attr xs e)
  error_loop-append [] ys e = refl
  error_loop-append (x ∷ xs) ys e = error_loop-append xs ys (error_child get_attr x e)

  error_loop-apptag :
      (b : Option Bytes) (e : ClientError)
      → e.apptag ≡ none
      → error_loop get_attr (one_text "error-app-tag" b) e ≡ record e { apptag = b }
  unfolding error_child bytes_eq in_base
  error_loop-apptag none e h = ap (λ (x : Option Bytes). record e { apptag = x }) h
  error_loop-apptag (some b) e h = ap (λ (x : Option Bytes). record e { apptag = once x b }) h

  error_loop-path :
      (b : Option Bytes) (e : ClientError)
      → e.path ≡ none
      → error_loop get_attr (one_text "error-path" b) e ≡ record e { path = b }
  unfolding error_child bytes_eq in_base
  error_loop-path none e h = ap (λ (x : Option Bytes). record e { path = x }) h
  error_loop-path (some b) e h = ap (λ (x : Option Bytes). record e { path = once x b }) h

  error_loop-message :
      (m lang : Option Bytes) (e : ClientError)
      → e.message ≡ none
      → e.message_lang ≡ none
      → error_loop get_attr (message_elems m lang) e
        ≡ record e { message = m; message_lang = lang_found m lang }
  unfolding error_child bytes_eq in_base
  error_loop-message none lang e h k =
      ap (λ (x : Option Bytes). record e { message = x }) h
      ∙ ap (λ (x : Option Bytes). record e { message = none; message_lang = x }) k
  error_loop-message (some m) lang e h k = rw h refl

  has_no_info :
      (s : ServerError)
      → has_info s ≡ false
      → (s.sid ≡ none) × (s.elems ≡ []) × (s.ns ≡ []) × (s.others ≡ [])
  has_no_info s h = ground arith

  no_info :
      (s : ServerError) (others : List Elem) (e : ClientError)
      → has_info s ≡ false
      → (s.others ≡ [] → others ≡ [])
      → e.sid ≡ none
      → e ≡ with_info s others e
  no_info s others e h k l =
      let (a, b, c, d) = has_no_info s h in
      rw (a, b, c, k d, append-nil, append-nil, append-nil)
        (ap (λ (x : Option Bytes). record e { sid = x }) l)

  error_loop-info :
      (s : ServerError) (others : List Elem) (e : ClientError)
      → All IsOther others
      → (s.others ≡ [] → others ≡ [])
      → e.sid ≡ none
      → error_loop get_attr (info_part s others) e ≡ with_info s others e
  unfolding error_child bytes_eq in_base
  error_loop-info s others e h k l = elim (Bool-cases (has_info s)) [
    | inl b ↦ rw (b, listed-elems_of (info_elems s others)) (info_loop-elems s others e h l)
    | inr b ↦ rw b (no_info s others e b k l)
  ]

  -- The first three children are always there.
  error_loop-head :
      (s : ServerError) (rest : List Elem)
      → s.type ≢ type_unknown
      → s.tag ≢ err_unknown
      → error_loop get_attr
          (text "error-type" (type_name s.type)
            ∷ text "error-tag" (tag_name s.tag)
            ∷ text "error-severity" (codes "error")
            ∷ rest)
          no_error
        ≡ error_loop get_attr rest (record no_error {
          type = some (type_name s.type);
          tag = some (tag_name s.tag);
          severity = some (codes "error");
        })
  unfolding error_child bytes_eq in_base one_of
  error_loop-head s rest k l = rw (type_name-known s.type k, tag_name-known s.tag l) refl

  -- The client takes all of a server's error but its bad attributes.
  pub parse_rpc_error-error_elem :
      (s : ServerError) (others : List Elem)
      → s.type ≢ type_unknown
      → s.tag ≢ err_unknown
      → All IsOther others
      → (s.others ≡ [] → others ≡ [])
      → parse_rpc_error get_attr (error_elem s others) no_error ≡ client_error s others
  unfolding parse_rpc_error
  parse_rpc_error-error_elem s others k l h m =
      let e0 : ClientError = record no_error {
        type = some (type_name s.type);
        tag = some (tag_name s.tag);
        severity = some (codes "error");
      } in
      let e1 : ClientError = record e0 { apptag = s.apptag } in
      let e2 : ClientError = record e1 { path = s.path } in
      let e3 : ClientError = record e2 {
        message = s.message;
        message_lang = lang_found s.message s.message_lang;
      } in
      rw
        (
          listed-elems_of (error_elems s others),
          error_loop-head s _ k l,
          error_loop-append,
          error_loop-apptag s.apptag e0 refl,
          error_loop-append,
          error_loop-path s.path e1 refl,
          error_loop-append,
          error_loop-message s.message s.message_lang e2 refl refl,
        )
        (error_loop-info s others e3 h m refl)
