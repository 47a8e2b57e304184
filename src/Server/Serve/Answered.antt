-- ===== src/Server/Serve/Answered.antt =====
-- The reply of nc_send_reply of src/session_server.c, and what of it is on the wire.
use libnetconf.Common.{
  ℕ, ◌≡◌, refl, ap, ◌∙◌, true, List, [], ◌∷◌, ◌++◌, flatten, All, Option, none, some,
}
use libnetconf.Common.Bytes.{Bytes, codes}
use libnetconf.Session.{Session}
use libnetconf.Session.Xml.{Elem}
use libnetconf.Messages.{
  ServerReply, rpl_error, ErrType, type_prot, type_app, ErrTag, err_op_not_supported, err_op_failed,
  blank, nc_server_reply_err,
}
use libnetconf.Messages.Create.{nc_err}
use libnetconf.Io.Frame.{frames, endtag}
use libnetconf.Io.Frame.Decode.{IsChunk}
use libnetconf.Io.Message.{Piece, reply_msg, plan, writes, nc_write_msg}
use libnetconf.Io.Message.Wire.{document, IsSized, nc_write_msg-frames}
use libnetconf.Io.Write.Up.{IsUp, sent}
use libnetconf.Server.Serve.{
  Flags, no_flags, Store, update, Callback, Program, prot_args, ask_global, ask, or_failed,
  is_error_reply, ended, write_reply, nc_send_reply,
}

-- An error reply with the tag, the layer and an English message.
abbrev error_of : ErrType → ErrTag → Bytes → ServerReply
error_of ty tag text = rpl_error (
    record blank { type = ty; tag = tag; message = some text; message_lang = some (codes "en") }
    ∷ [])

abbrev pub not_supported : ServerReply
not_supported = error_of type_prot err_op_not_supported (
    codes
      "Request could not be completed because the requested operation is not supported by this implementation.")

abbrev pub operation_failed : ServerReply
operation_failed = error_of type_app err_op_failed (
    codes
      "Request could not be completed because the requested operation failed for a non-specific reason.")

-- The callback of the operation, or else the global one.
abbrev pub first_callback :
    {Data : Type 0} → Option (Callback Data) → Option (Callback Data) → Option (Callback Data)
first_callback (some clb) other = some clb
first_callback none other = other

abbrev pub replied : Option ServerReply → ServerReply
replied (some r) = r
replied none = operation_failed

-- The reply that an RPC on the session `h` is due, and the sessions behind the callback.
abbrev pub due : {Data : Type 0} → Option (Callback Data) → Data → ℕ → Store → ServerReply × Store
due none d h store = (not_supported, store)
due (some clb) d h store = (replied (clb d h store).0, (clb d h store).1)

not_supported_made :
    nc_server_reply_err (nc_err err_op_not_supported prot_args) ≡ some not_supported
unfolding nc_server_reply_err nc_err
not_supported_made = refl

or_failed-replied :
    {Data : Type 0} (prog : Program Data) (r : Option ServerReply)
    → or_failed prog r ≡ some (replied r)
unfolding nc_server_reply_err nc_err
or_failed-replied prog (some r) = refl
or_failed-replied prog none = refl

module _ {Data : Type 0} (prog : Program Data) where
  abbrev with_reply : Elem → ℕ → Option ServerReply × Store → Flags × Store
  with_reply root h (r, store) =
      let (f, s) = write_reply prog root (store h) (or_failed prog r) in (f, update h s store)

  abbrev with_due : Elem → ℕ → ServerReply × Store → Flags × Store
  with_due root h (r, store) =
      let (f, s) = write_reply prog root (store h) (some r) in (f, update h s store)

  with_reply-replied :
      (root : Elem) (h : ℕ) (x : Option ServerReply × Store)
      → with_reply root h x ≡ with_due root h (replied x.0, x.1)
  with_reply-replied root h (r, store) =
      ap
        (λ (o : Option ServerReply).
          let (f, s) = write_reply prog root (store h) o in (f, update h s store))
        (or_failed-replied prog r)

  ask_global-due :
      (root : Elem) (d : Data) (h : ℕ) (store : Store) (other : Option (Callback Data))
      → with_reply root h (ask_global prog other d h store) ≡ with_due root h (due other d h store)
  ask_global-due root d h store (some clb) = with_reply-replied root h (clb d h store)
  ask_global-due root d h store none =
      ap (λ (o : Option ServerReply). with_reply root h (o, store)) not_supported_made

  ask-due :
      (root : Elem) (d : Data) (h : ℕ) (store : Store) (first : Option (Callback Data))
      → with_reply root h (ask prog first d h store)
        ≡ with_due root h (due (first_callback first prog.global_clb) d h store)
  ask-due root d h store (some clb) = with_reply-replied root h (clb d h store)
  ask-due root d h store none = ask_global-due root d h store prog.global_clb

  write_reply-sent :
      (root : Elem) (s1 s2 : Session) (r : ServerReply)
      → nc_write_msg s1 (reply_msg (some (prog.print_attrs root)) r) ≡ (s2, true)
      → write_reply prog root s1 (some r)
        ≡ (record no_flags { reply_error = is_error_reply r }, ended prog s2)
  unfolding write_reply
  write_reply-sent root s1 s2 r e = rw e refl

  nc_send_reply-due :
      (root : Elem) (d : Data) (h : ℕ) (store : Store)
      → nc_send_reply prog root d h store
        ≡ with_due root h (due (first_callback (prog.schema_clb d) prog.global_clb) d h store)
  unfolding nc_send_reply
  nc_send_reply-due root d h store = ask-due root d h store (prog.schema_clb d)

  -- An RPC gets one reply, that of the operation's callback, or else of the global one; the error
  -- operation-not-supported of the protocol layer, where there is no callback; or the error
  -- operation-failed of the application layer, where the callback gives NULL. If the callback leaves
  -- the session's transport in order, and the reply is one that nc_write_msg writes whole, in pieces
  -- below 2 ^ 64 - 1 bytes, its text is framed for the session's version and ended, the only flag
  -- is NC_PSPOLL_REPLY_ERROR, for an error reply, and the session ends if it runs and the callback
  -- set its term reason. What the callback did to the other sessions stands.
  pub nc_send_reply-frames :
      (root : Elem) (d : Data) (h : ℕ) (store store1 : Store) (r : ServerReply) (ps : List Piece)
      → due (first_callback (prog.schema_clb d) prog.global_clb) d h store ≡ (r, store1)
      → IsUp (store1 h)
      → plan (store1 h) (reply_msg (some (prog.print_attrs root)) r) ≡ writes ps true
      → All IsSized ps
      → (chunks : List Bytes) × (nc_send_reply prog root d h store ≡ (
        record no_flags { reply_error = is_error_reply r },
        update h
            (ended prog
              (sent (store1 h) (frames (store1 h).version chunks ++ endtag (store1 h).version)))
            store1,
      ))
        × (flatten chunks ≡ document ps)
        × All IsChunk chunks
  nc_send_reply-frames root d h store store1 r ps a u p l =
      let (chunks, e, f, c) =
        nc_write_msg-frames (store1 h) (reply_msg (some (prog.print_attrs root)) r) ps u p l in
      (
        chunks,
        nc_send_reply-due root d h store
            ∙ ap (with_due root h) a
            ∙ ap (λ (x : Flags × Session). (x.0, update h x.1 store1))
                (write_reply-sent root (store1 h) _ r e),
        f,
        c,
      )
