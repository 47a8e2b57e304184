-- ===== src/Io/Write/Up.antt =====
-- Writing on a transport that is in order, up to the flush of the buffer.
use libnetconf.Common.{
  ℕ, suc, ◌+◌, ◌≤◌, ◌≡◌, refl, sym, ◌∙◌, ap, List, [], ◌∷◌, ◌++◌, length, length-append,
  append_assoc, append-nil, flatten, flatten-append, All, All-append, arith, Bool, true, false,
  Option, some, inl, inr, ◌==◌, if◌then◌else◌, subst, ◌⊎◌,
}
use libnetconf.Common.Bytes.{Bytes}
use libnetconf.Common.Decimal.{print_dec}
use libnetconf.Session.{Session, Version, version_10, version_11, is_live}
use libnetconf.Io.Read.Stream.{has_transport}
use libnetconf.Io.Frame.{frame, frames, chunk_tag, newline}
use libnetconf.Io.Frame.Decode.{IsChunk}
use libnetconf.Io.Write.{
  WclbArg, write_bufsize, nc_write, write_live, write_switch, sound_attempt,
  nc_session_is_connected, nc_write_starttag_and_msg, nc_write_clb_flush, flushed,
}

-- A session that can be written to, on a transport that takes all it is given.
pub record IsUp (s : Session) : Type 0 where
  pub live : is_live s.status ≡ true
  pub connected : has_transport s.ti_type ≡ true
  pub in_order : s.attempts ≡ []

abbrev pub sent : Session → Bytes → Session
sent s out = record s { outgoing = s.outgoing ++ out }

write_live-up :
    (s : Session) (buf : Bytes)
    → has_transport s.ti_type ≡ true
    → write_live s sound_attempt buf ≡ (sent s buf, some (length buf))
unfolding write_live write_switch nc_session_is_connected
write_live-up s buf h = ground arith

pub nc_write-up :
    (s : Session) (buf : Bytes) → IsUp s → nc_write s buf ≡ (sent s buf, some (length buf))
nc_write-up s buf u =
    unfold nc_write in
    rw (u.live, u.in_order) (write_live-up (record s { attempts = [] }) buf u.connected)

-- Writing changes neither what makes a session writable nor its version.
pub sent-IsUp : (s : Session) (out : Bytes) → IsUp s → IsUp (sent s out)
sent-IsUp s out u = record { live = u.live; connected = u.connected; in_order = u.in_order }

pub sent-sent : (s : Session) (a b : Bytes) → sent (sent s a) b ≡ sent s (a ++ b)
sent-sent s a b = ap (λ o. record s { outgoing = o }) (append_assoc s.outgoing a b)

pub starttag-up :
    (v : Version) (s : Session) (buf : Bytes)
    → IsUp s
    → (n : ℕ) × (nc_write_starttag_and_msg v s buf ≡ (sent s (frame v buf), some n))
unfolding nc_write_starttag_and_msg frame
starttag-up version_10 s buf u = (0 + length buf, rw (nc_write-up s buf u))
starttag-up version_11 s buf u =
    let head = chunk_tag ++ (print_dec (length buf) ++ newline) in
    (
      length head + length buf,
      rw
          (
            nc_write-up s head u,
            nc_write-up (sent s head) buf (sent-IsUp s head u),
            sent-sent s head buf,
          )
          (ap (λ x. (sent s x, some (length head + length buf))) (simp append_assoc)),
    )

pub frames-append :
    (v : Version) (xs ys : List Bytes) → frames v (xs ++ ys) ≡ frames v xs ++ frames v ys
unfolding frames
frames-append v [] ys = refl
frames-append v (x ∷ xs) ys =
    rw (frames-append v xs ys) (sym (append_assoc (frame v x) (frames v xs) (frames v ys)))

-- What has been written of `content` since the session was `s`: whole chunks, and a part in the
-- buffer.
pub record Wrote (s : Session) (content : Bytes) (w : WclbArg) : Type 0 where
  pub chunks : List Bytes
  pub on_wire : w.session ≡ sent s (frames s.version chunks)
  pub in_all : flatten chunks ++ w.buf ≡ content
  pub sized : All IsChunk chunks
  pub fits : length w.buf ≤ write_bufsize

-- One more chunk goes onto the wire and leaves an empty buffer.
pub chunk-Wrote :
    (s : Session) (chunks : List Bytes) (c content : Bytes)
    → All IsChunk chunks
    → IsChunk c
    → flatten chunks ++ c ≡ content
    → Wrote s content
        (record { session = sent (sent s (frames s.version chunks)) (frame s.version c); buf = [] })
unfolding frames
chunk-Wrote s chunks c content h k e = record {
  chunks = chunks ++ (c ∷ []);
  on_wire =
      sent-sent s (frames s.version chunks) (frame s.version c)
      ∙ ap (sent s) (
          sym (
            frames-append s.version chunks (c ∷ [])
            ∙ ap (◌++◌ (frames s.version chunks)) (append-nil (frame s.version c))));
  in_all =
      append-nil (flatten (chunks ++ (c ∷ [])))
      ∙ flatten-append chunks (c ∷ [])
      ∙ ap (◌++◌ (flatten chunks)) (append-nil c)
      ∙ e;
  sized = All-append IsChunk chunks (c ∷ []) h (k, tt);
  fits = omega arith;
}

-- A successful call that leaves `content` written.
abbrev pub Writes : Session → Bytes → WclbArg × Option ℕ → Type 0
Writes s content r = (n : ℕ) × (w : WclbArg) × (r ≡ (w, some n)) × Wrote s content w

-- The same, with nothing left in the buffer.
abbrev Flushes : Session → Bytes → WclbArg × Option ℕ → Type 0
Flushes s content r = (n : ℕ) × (w : WclbArg) × (r ≡ (w, some n)) × Wrote s content w × (w.buf ≡ [])

flush-buf :
    (s : Session) (chunks : List Bytes) (buf content : Bytes)
    → IsUp s
    → All IsChunk chunks
    → flatten chunks ++ buf ≡ content
    → length buf ≤ write_bufsize
    → Flushes s content
        (nc_write_clb_flush (record { session = sent s (frames s.version chunks); buf = buf }))
unfolding nc_write_clb_flush
flush-buf s chunks [] content u h e l = (
  0,
  record { session = sent s (frames s.version chunks); buf = [] },
  refl,
  record { chunks = chunks; on_wire = refl; in_all = e; sized = h; fits = l },
  refl,
)
flush-buf s chunks (b ∷ bs) content u h e l =
    let s' = sent s (frames s.version chunks) in
    let (n, p) = starttag-up s.version s' (b ∷ bs) (sent-IsUp s (frames s.version chunks) u) in
    let some_left : (suc (length bs) == 0) ≡ false = ground arith in
    (
      n,
      record { session = sent s' (frame s.version (b ∷ bs)); buf = [] },
      rw some_left (ap flushed p),
      chunk-Wrote s chunks (b ∷ bs) content h ((λ q. cc), omega arith) e,
      refl,
    )

pub flush-Flushes :
    (s : Session) (content : Bytes) (w : WclbArg)
    → IsUp s
    → Wrote s content w
    → Flushes s content (nc_write_clb_flush w)
flush-Flushes s content w u r =
    subst (λ z. Flushes s content (nc_write_clb_flush (record { session = z; buf = w.buf })))
      (sym r.on_wire) (flush-buf s r.chunks w.buf content u r.sized r.in_all r.fits)

-- Bytes that fit join the buffer.
pub join-Wrote :
    (s : Session) (content more : Bytes) (w : WclbArg)
    → Wrote s content w
    → length w.buf + length more ≤ write_bufsize
    → Wrote s (content ++ more) (record w { buf = w.buf ++ more })
join-Wrote s content more w r l = record {
  chunks = r.chunks;
  on_wire = r.on_wire;
  in_all = sym (append_assoc (flatten r.chunks) w.buf more) ∙ ap (λ x. x ++ more) r.in_all;
  sized = r.sized;
  fits = omega (arith, length-append w.buf more);
}

-- A flush that depends on a test leaves room by either branch.
pub flush_if :
    (b : Bool) (s : Session) (content : Bytes) (w : WclbArg)
    → IsUp s
    → Wrote s content w
    → (n : ℕ) × (w' : WclbArg) × ((if b then nc_write_clb_flush w else (w, some 0)) ≡ (w', some n))
      × Wrote s content w'
      × (((b ≡ true) × (w'.buf ≡ [])) ⊎ ((b ≡ false) × (w' ≡ w)))
flush_if true s content w u r =
    let (n, w', e, r', z) = flush-Flushes s content w u r in (n, w', e, r', inl (refl, z))
flush_if false s content w u r = (0, w, refl, r, inr (refl, refl))
