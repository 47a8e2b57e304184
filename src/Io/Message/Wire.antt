-- ===== src/Io/Message/Wire.antt =====
-- What nc_write_msg puts on a transport that is in order, and that the peer reads it back.
use libnetconf.Common.{
  ℕ, ◌+◌, ◌^◌, ◌<◌, ◌≡◌, ◌≢◌, refl, sym, ◌∙◌, ap, subst, List, [], ◌∷◌, ◌++◌, length, append_assoc,
  append-nil, flatten, All, arith, Bool, true, false, Option,
}
use libnetconf.Common.Bytes.{Bytes}
use libnetconf.Session.{Session, Version, version_10, version_11, is_live}
use libnetconf.Io.Read.Stream.{weight}
use libnetconf.Io.Read.Exact.{IsReady}
use libnetconf.Io.Read.Until.{first_end}
use libnetconf.Io.Frame.{frame, frames, endtag, endtag_10, message, read_framed}
use libnetconf.Io.Frame.Decode.{IsChunk, Delivers, read_framed_10, read_framed_11}
use libnetconf.Io.Write.{WclbArg}
use libnetconf.Io.Write.Up.{IsUp, sent, Wrote}
use libnetconf.Io.Write.Buffered.{escape, text, nc_write_clb-Writes, nc_write_clb_end-up}
use libnetconf.Io.Message.{
  Piece, raw, escaped, write_piece, write_pieces, Message, writes, plan, counted, count_message,
  nc_write_msg, run_plan,
}

-- The text of a row of calls, with the escapes of the calls that have xmlcontent.
abbrev pub piece_text : Piece → Bytes
piece_text (raw b) = b
piece_text (escaped b) = escape b

abbrev pub document : List Piece → Bytes
document [] = []
document (p ∷ ps) = piece_text p ++ document ps

-- No call is given 2 ^ 64 - 1 bytes or more.
abbrev pub IsSized : Piece → Type 0
IsSized (raw b) = length b + 1 < 2 ^ 64
IsSized (escaped b) = length b + 1 < 2 ^ 64

write_piece-Wrote :
    (p : Piece) (s : Session) (content : Bytes) (w : WclbArg)
    → IsUp s
    → IsSized p
    → Wrote s content w
    → Wrote s (content ++ piece_text p) (write_piece w p)
unfolding write_piece text
write_piece-Wrote (raw b) s content w u l r =
    let (n, w', e, r') = nc_write_clb-Writes b false s content w u l r in
    subst (λ x. Wrote s (content ++ b) x.0) (sym e) r'
write_piece-Wrote (escaped b) s content w u l r =
    let (n, w', e, r') = nc_write_clb-Writes b true s content w u l r in
    subst (λ x. Wrote s (content ++ escape b) x.0) (sym e) r'

write_pieces-Wrote :
    (ps : List Piece) (s : Session) (content : Bytes) (w : WclbArg)
    → IsUp s
    → All IsSized ps
    → Wrote s content w
    → Wrote s (content ++ document ps) (write_pieces w ps)
unfolding write_pieces
write_pieces-Wrote [] s content w u l r = subst (λ x. Wrote s x w) (sym (append-nil content)) r
write_pieces-Wrote (p ∷ ps) s content w u l r =
    subst (λ x. Wrote s x (write_pieces (write_piece w p) ps))
      (append_assoc content (piece_text p) (document ps))
      (write_pieces-Wrote ps s (content ++ piece_text p) (write_piece w p) u l.1
        (write_piece-Wrote p s content w u l.0 r))

count_message-Wrote :
    (m : Message) (s : Session) (content : Bytes) (w : WclbArg)
    → Wrote s content w
    → Wrote (counted m s) content (count_message m w)
count_message-Wrote m s content w r = record {
  chunks = r.chunks;
  on_wire = ap (counted m) r.on_wire;
  in_all = r.in_all;
  sized = r.sized;
  fits = r.fits;
}

counted-IsUp : (m : Message) (s : Session) → IsUp s → IsUp (counted m s)
counted-IsUp m s u = record { live = u.live; connected = u.connected; in_order = u.in_order }

empty-Wrote : (s : Session) → Wrote s [] (record { session = s; buf = [] })
unfolding frames
empty-Wrote s = record {
  chunks = [];
  on_wire = ap (λ o. record s { outgoing = o }) (sym (append-nil s.outgoing));
  in_all = refl;
  sized = tt;
  fits = omega arith;
}

nc_write_msg-plan :
    (s : Session) (m : Message) (ps : List Piece) (complete : Bool)
    → is_live s.status ≡ true
    → plan s m ≡ writes ps complete
    → nc_write_msg s m ≡ run_plan s m (writes ps complete)
unfolding nc_write_msg
nc_write_msg-plan s m ps complete live p = rw (live, p)

-- On a transport in order nc_write_msg succeeds with a message that it writes whole (its plan is
-- complete: not a hello on a session of version 1.1 nor a reply of an unknown type) in pieces that
-- are shorter than 2 ^ 64 - 1: it counts an RPC, and what it adds to the wire is the message's text,
-- cut into nonempty chunks and framed for the version, with the end tag.
pub nc_write_msg-frames :
    (s : Session) (m : Message) (ps : List Piece)
    → IsUp s
    → plan s m ≡ writes ps true
    → All IsSized ps
    → (chunks : List Bytes) × (nc_write_msg s m
        ≡ (sent (counted m s) (frames s.version chunks ++ endtag s.version), true))
      × (flatten chunks ≡ document ps)
      × All IsChunk chunks
nc_write_msg-frames s m ps u p l =
    let w = write_pieces (record { session = s; buf = [] }) ps in
    let r = write_pieces-Wrote ps s [] (record { session = s; buf = [] }) u l (empty-Wrote s) in
    let (chunks, n, e, f, c) =
      nc_write_clb_end-up (counted m s) (document ps) (count_message m w) (counted-IsUp m s u)
        (count_message-Wrote m s (document ps) w r) in
    let finish : WclbArg × Option ℕ → Session × Bool =
      λ x. (x.0.session, is_live x.0.session.status) in
    let after = sent (counted m s) (frames s.version chunks ++ endtag s.version) in
    (
      chunks,
      nc_write_msg-plan s m ps true u.live p
          ∙ ap finish e
          ∙ ap {B = Session × Bool} (λ b. (after, b)) u.live,
      f,
      c,
    )

append_cancel : (xs ys zs : Bytes) → xs ++ ys ≡ xs ++ zs → ys ≡ zs
append_cancel [] ys zs e = e
append_cancel (x ∷ xs) ys zs e = append_cancel xs ys zs (cc)

frames-version_10 : (cs : List Bytes) → frames version_10 cs ≡ flatten cs
unfolding frames frame
frames-version_10 [] = refl
frames-version_10 (c ∷ cs) = ap (◌++◌ c) (frames-version_10 cs)

-- A message that version 1.1 can carry is not empty; in version 1.0 the end tag stands in the
-- text only at its end.
abbrev pub IsCarried : Version → Bytes → Type 0
IsCarried version_10 doc = first_end endtag_10 [] (doc ++ endtag_10) ≡ true
IsCarried version_11 doc = doc ≢ []

read_frames :
    (v : Version) (fuel : ℕ) (chunks : List Bytes) (doc ys : Bytes) (peer : Session) (t : ℕ)
    → All IsChunk chunks
    → flatten chunks ≡ doc
    → IsCarried v doc
    → IsReady peer t (frames v chunks ++ (endtag v ++ ys))
    → weight peer.incoming < fuel
    → Delivers peer (message doc) ys (read_framed fuel v peer t)
read_frames version_10 fuel chunks doc ys peer t c f k r w =
    read_framed_10 fuel doc ys peer t k
      (subst (λ x. IsReady peer t (x ++ (endtag version_10 ++ ys))) (frames-version_10 chunks ∙ f)
        r)
      w
read_frames version_11 fuel [] doc ys peer t c f k r w = absurd (k (sym f))
read_frames version_11 fuel (x ∷ xs) doc ys peer t c f k r w =
    subst (λ d. Delivers peer (message d) ys (read_framed fuel version_11 peer t)) f
      (read_framed_11 fuel x xs ys peer t c r w)

-- What nc_write_msg adds to the wire on a transport in order, a peer of the same version reads as
-- the message's text, with enough fuel, and the bytes behind it are left, however its transport
-- delivers them within the timeout: in pieces, with idle spells and, on a file descriptor,
-- interrupted calls. The message is one that nc_write_msg writes whole, its pieces are shorter than
-- 2 ^ 64 - 1, and its text can be framed for the version.
pub write-read :
    (s : Session) (m : Message) (ps : List Piece) (out ys : Bytes) (peer : Session) (fuel t : ℕ)
    → IsUp s
    → plan s m ≡ writes ps true
    → All IsSized ps
    → IsCarried s.version (document ps)
    → (nc_write_msg s m).0.outgoing ≡ s.outgoing ++ out
    → IsReady peer t (out ++ ys)
    → weight peer.incoming < fuel
    → Delivers peer (message (document ps)) ys (read_framed fuel s.version peer t)
write-read s m ps out ys peer fuel t u p l k o r w =
    let (chunks, e, f, c) = nc_write_msg-frames s m ps u p l in
    let wire = frames s.version chunks ++ endtag s.version in
    let same : out ≡ wire =
      append_cancel s.outgoing out wire (sym o ∙ ap (λ (x : Session × Bool). x.0.outgoing) e) in
    read_frames s.version fuel chunks (document ps) ys peer t c f k
      (subst (IsReady peer t)
        (ap (λ x. x ++ ys) same ∙ append_assoc (frames s.version chunks) (endtag s.version) ys) r)
      w
