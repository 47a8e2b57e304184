-- ===== src/Io/Write/Buffered.antt =====
-- Writing through the buffer on a transport that is in order.
use libnetconf.Common.{
  ℕ, ◌+◌, ◌^◌, ◌≤◌, ◌<◌, ◌≡◌, refl, sym, ◌∙◌, ap, List, [], ◌∷◌, ◌++◌, length, append_assoc,
  append-nil, flatten, All, arith, Bool, true, false, Option, some, Bool-cases, inl, inr, ltb, leb,
  ◌==◌, ◌&&◌, not, if◌then◌else◌, subst, ◌⊎◌,
}
use libnetconf.Common.Bytes.{Bytes}
use libnetconf.Session.{Session}
use libnetconf.Io.Frame.{frame, frames, endtag}
use libnetconf.Io.Frame.Decode.{IsChunk}
use libnetconf.Io.Write.{
  WclbArg, write_bufsize, nc_write_endtag, nc_write_clb_flush, escape_byte, escape_loop, put,
  nc_write_clb, nc_write_clb_end, add_result, put_directly, endtag_after,
}
use libnetconf.Io.Write.Up.{
  nc_write-up, sent-IsUp, sent-sent, starttag-up, chunk-Wrote, flush-Flushes, join-Wrote, flush_if,
  IsUp, sent, Wrote, Writes,
}

unfoldable pub escape : Bytes → Bytes
escape [] = []
escape (c ∷ cs) = escape_byte c ++ escape cs

length-escape_byte : (c : ℕ) → length (escape_byte c) ≤ 5
unfolding escape_byte
length-escape_byte c = ground arith

escape_loop_step :
    (w : WclbArg) (ret c : ℕ) (cs : Bytes) (w' : WclbArg) (n : ℕ)
    → (if leb write_bufsize (length w.buf + 5) then nc_write_clb_flush w else (w, some 0))
      ≡ (w', some n)
    → escape_loop w ret (c ∷ cs)
      ≡ escape_loop (record w' { buf = w'.buf ++ escape_byte c }) (ret + length (escape_byte c)) cs
unfolding escape_loop
escape_loop_step w ret c cs w' n e =
    rw (e, escape_loop)
      (ap
        (λ (x : WclbArg × Option ℕ).
          escape_loop (record { session = x.0.session; buf = x.0.buf ++ escape_byte c })
            (ret + length (escape_byte c)) cs)
        e)

escape_loop-Writes :
    (cs : Bytes) (s : Session) (content : Bytes) (w : WclbArg) (ret : ℕ)
    → IsUp s
    → Wrote s content w
    → Writes s (content ++ escape cs) (escape_loop w ret cs)
unfolding escape
escape_loop-Writes [] s content w ret u r =
    (ret, w, unfold escape_loop in refl, subst (λ x. Wrote s x w) (sym (append-nil content)) r)
escape_loop-Writes (c ∷ cs) s content w ret u r =
    let (n, w1, e, r1, room) = flush_if (leb write_bufsize (length w.buf + 5)) s content w u r in
    let small : length w1.buf + length (escape_byte c) ≤ write_bufsize = elim room [
      | inl (_, z) ↦ omega (arith, ap length z, length-escape_byte c)
      | inr (low, z) ↦ ground (arith, ap (λ (x : WclbArg). length x.buf) z, length-escape_byte c)
    ] in
    let (m, w2, e2, r2) =
      escape_loop-Writes cs s (content ++ escape_byte c)
        (record w1 { buf = w1.buf ++ escape_byte c }) (ret + length (escape_byte c)) u
        (join-Wrote s content (escape_byte c) w1 r1 small) in
    (
      m,
      w2,
      escape_loop_step w ret c cs w1 n e ∙ e2,
      subst (λ x. Wrote s x w2) (append_assoc content (escape_byte c) (escape cs)) r2,
    )

-- The content of a call.
unfoldable pub text : Bytes → Bool → Bytes
text buf true = escape buf
text buf false = buf

directly-Writes :
    (buf : Bytes) (s : Session) (content : Bytes) (w : WclbArg) (ret : ℕ)
    → IsUp s
    → IsChunk buf
    → Wrote s content w
    → w.buf ≡ []
    → Writes s (content ++ buf) (put_directly w ret buf)
directly-Writes buf s content w ret u c r z =
    let s' = sent s (frames s.version r.chunks) in
    let (n, p) = starttag-up s.version s' buf (sent-IsUp s (frames s.version r.chunks) u) in
    let all : flatten r.chunks ≡ content =
      sym (append-nil (flatten r.chunks)) ∙ ap (◌++◌ (flatten r.chunks)) (sym z) ∙ r.in_all in
    subst (λ v. Writes s (content ++ buf) (put_directly v ret buf))
      (λ i. record { session = sym r.on_wire i; buf = sym z i })
      (
        ret + n,
        record { session = sent s' (frame s.version buf); buf = [] },
        ap
            (λ (x : Session × Option ℕ).
              ((record { session = (add_result ret x).0; buf = [] }), (add_result ret x).1))
            p,
        chunk-Wrote s r.chunks buf (content ++ buf) r.sized c (ap (λ x. x ++ buf) all),
      )

put-Writes :
    (buf : Bytes) (xmlcontent : Bool) (s : Session) (content : Bytes) (w : WclbArg) (ret : ℕ)
    → IsUp s
    → length buf + 1 < 2 ^ 64
    → Wrote s content w
    → (w.buf ≡ []) ⊎ (length w.buf + length buf ≤ write_bufsize)
    → Writes s (content ++ text buf xmlcontent) (put w ret buf xmlcontent)
unfolding put text
put-Writes buf true s content w ret u l r room = escape_loop-Writes buf s content w ret u r
put-Writes buf false s content w ret u l r room =
    elim (Bool-cases (ltb write_bufsize (length buf))) [
      | inl large ↦ rw large (
          directly-Writes buf s content w ret u ((λ e. absurd (ground (arith, ap length e))), l) r
            (elim room [ inl z ↦ z | inr z ↦ absurd (ground arith) ]))
      | inr small ↦ rw small (
        ret + length buf,
        record w { buf = w.buf ++ buf },
        refl,
        join-Wrote s content buf w r
            (elim room [ inl z ↦ ground (arith, ap length z) | inr z ↦ z ]),
      )
    ]

nil_of_length : (xs : Bytes) → (length xs == 0) ≡ true → xs ≡ []
nil_of_length [] e = refl
nil_of_length (x ∷ xs) e = absurd (ground arith)

-- Behind the first flush of nc_write_clb the buffer is empty or has room.
room_after :
    (w w' : WclbArg) (n : ℕ)
    → (((not (length w.buf == 0) && ltb write_bufsize (length w.buf + n)) ≡ true) × (w'.buf ≡ []))
      ⊎ (((not (length w.buf == 0) && ltb write_bufsize (length w.buf + n)) ≡ false) × (w' ≡ w))
    → (w'.buf ≡ []) ⊎ (length w'.buf + n ≤ write_bufsize)
room_after w w' n (inl (_, z)) = inl z
room_after w w' n (inr (low, z)) = elim (Bool-cases (length w.buf == 0)) [
  | inl e ↦ inl (ap (λ (x : WclbArg). x.buf) z ∙ nil_of_length w.buf e)
  | inr e ↦ inr (ground (arith, ap (λ (x : WclbArg). length x.buf) z))
]

-- Of a callback's arguments the content is added to what is written.
pub nc_write_clb-Writes :
    (buf : Bytes) (xmlcontent : Bool) (s : Session) (content : Bytes) (w : WclbArg)
    → IsUp s
    → length buf + 1 < 2 ^ 64
    → Wrote s content w
    → Writes s (content ++ text buf xmlcontent) (nc_write_clb w buf xmlcontent)
unfolding nc_write_clb
nc_write_clb-Writes buf xmlcontent s content w u l r =
    let test = not (length w.buf == 0) && ltb write_bufsize (length w.buf + length buf) in
    let (n, w', e, r', room) = flush_if test s content w u r in
    let roomy : (w'.buf ≡ []) ⊎ (length w'.buf + length buf ≤ write_bufsize) =
      room_after w w' (length buf) room in
    rw e (put-Writes buf xmlcontent s content w' n u l r' roomy)

-- The closing call puts the rest and the end tag on the wire.
pub nc_write_clb_end-up :
    (s : Session) (content : Bytes) (w : WclbArg)
    → IsUp s
    → Wrote s content w
    → (chunks : List Bytes) × (n : ℕ) × (nc_write_clb_end w ≡ (
      record { session = sent s (frames s.version chunks ++ endtag s.version); buf = [] },
      some n,
    ))
      × (flatten chunks ≡ content)
      × All IsChunk chunks
unfolding nc_write_clb_end nc_write_endtag
nc_write_clb_end-up s content w u r =
    let (n, w', e, r', z) = flush-Flushes s content w u r in
    let wire = frames s.version r'.chunks in
    let closed : endtag_after (record { session = sent s wire; buf = [] }, some n) ≡ (
      record { session = sent s (wire ++ endtag s.version); buf = [] },
      some (n + length (endtag s.version)),
    ) =
      rw (nc_write-up (sent s wire) (endtag s.version) (sent-IsUp s wire u)) (
        ap (λ x. (record { session = x; buf = [] }, some (n + length (endtag s.version))))
          (sent-sent s wire (endtag s.version))) in
    (
      r'.chunks,
      n + length (endtag s.version),
      ap endtag_after e
          ∙ ap (λ v. endtag_after (v, some n)) (λ i. record { session = r'.on_wire i; buf = z i })
          ∙ closed,
      sym (append-nil (flatten r'.chunks)) ∙ ap (◌++◌ (flatten r'.chunks)) (sym z) ∙ r'.in_all,
      r'.sized,
    )
