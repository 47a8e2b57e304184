-- ===== src/Io/Frame/Decode.antt =====
-- Reading back framed messages.
use libnetconf.Common.{
  ℕ, zero, suc, ◌+◌, ◌-◌, ◌^◌, ◌≤◌, ◌<◌, ◌≡◌, ◌≢◌, refl, sym, ◌∙◌, ap, List, [], ◌∷◌, ◌++◌, length,
  length-append, take-append, append_assoc, append-nil, flatten, All, arith, true, false, Option,
  none, some, subst,
}
use libnetconf.Common.Bytes.{Bytes, bytes_eq, ends_with, ends_with_single}
use libnetconf.Common.Decimal.{print_dec, strtoul-print_dec, IsDigit, print_dec-IsDigit}
use libnetconf.Session.{Session, Arrival, version_10, version_11}
use libnetconf.Io.Read.{Result, ok, ◌>>=◌, nc_read_until, nc_read_chunk}
use libnetconf.Io.Read.Stream.{weight}
use libnetconf.Io.Read.Exact.{IsReady}
use libnetconf.Io.Read.Until.{first_end, nc_read_until_exact, nc_read_chunk_exact}
use libnetconf.Io.Frame.{
  Framed, message, chunk_loop, read_framed, frame, frames, endtag, endtag_10, endtag_11, chunk_tag,
  newline, last_chunk,
}

-- A chunk that the framing can carry.
abbrev pub IsChunk : Bytes → Type 0
IsChunk c = (c ≢ []) × (length c + 1 < 2 ^ 64)

first_end-digits : (ds acc : Bytes) → All IsDigit ds → first_end newline acc (ds ++ newline) ≡ true
unfolding first_end
first_end-digits [] acc h = ends_with_single 10 acc 10
first_end-digits (d ∷ []) acc h =
    ground (arith, ends_with_single 10 acc d, first_end-digits [] (acc ++ (d ∷ [])) h.1)
first_end-digits (d ∷ e ∷ ds) acc h =
    ground (arith, ends_with_single 10 acc d, first_end-digits (e ∷ ds) (acc ++ (d ∷ [])) h.1)

pub first_end-size : (n : ℕ) → first_end newline [] (print_dec n ++ newline) ≡ true
first_end-size n = first_end-digits (print_dec n) [] (print_dec-IsDigit n)

-- A size line is not the line of the last chunk.
pub size-ne-last : (ds : Bytes) → All IsDigit ds → bytes_eq (ds ++ newline) last_chunk ≡ false
unfolding bytes_eq
size-ne-last [] h = refl
size-ne-last (d ∷ ds) h = ground arith

-- The result of reading a message, with `ys` left to come.
abbrev pub Delivers : Session → Framed → Bytes → Result Framed → Type 0
Delivers s m ys r =
    (rest : List Arrival) × (left : ℕ) × (r ≡ ok m (record s { incoming = rest }) left)
    × IsReady (record s { incoming = rest }) left ys

abbrev so_far : Option Bytes → Bytes → Bytes
so_far none body = body
so_far (some m) body = m ++ body

-- The size line and the body of one chunk.
chunk_round :
    (rounds fuel : ℕ) (msg : Option Bytes) (c : Bytes) (s s1 s2 s3 : Session) (t t1 t2 t3 : ℕ)
    → nc_read_until fuel chunk_tag 0 s t ≡ ok chunk_tag s1 t1
    → nc_read_until fuel newline 0 s1 t1 ≡ ok (print_dec (length c) ++ newline) s2 t2
    → nc_read_chunk fuel (length c) s2 t2 ≡ ok c s3 t3
    → IsChunk c
    → chunk_loop (suc rounds) fuel msg s t ≡ chunk_loop rounds fuel (some (so_far msg c)) s3 t3
unfolding chunk_loop
chunk_round rounds fuel msg [] s s1 s2 s3 t t1 t2 t3 a b e h = absurd (h.0 refl)
chunk_round rounds fuel none (x ∷ xs) s s1 s2 s3 t t1 t2 t3 a b e h = rw (
  a,
  ◌>>=◌,
  b,
  ◌>>=◌,
  size-ne-last (print_dec (length (x ∷ xs))) (print_dec-IsDigit (length (x ∷ xs))),
  strtoul-print_dec (length (x ∷ xs)) 10 [] (omega arith) refl,
  e,
  ◌>>=◌,
)
chunk_round rounds fuel (some m) (x ∷ xs) s s1 s2 s3 t t1 t2 t3 a b e h = rw (
  a,
  ◌>>=◌,
  b,
  ◌>>=◌,
  size-ne-last (print_dec (length (x ∷ xs))) (print_dec-IsDigit (length (x ∷ xs))),
  strtoul-print_dec (length (x ∷ xs)) 10 [] (omega arith) refl,
  e,
  ◌>>=◌,
)

last_round :
    (rounds fuel : ℕ) (m : Bytes) (s s1 s2 : Session) (t t1 t2 : ℕ)
    → nc_read_until fuel chunk_tag 0 s t ≡ ok chunk_tag s1 t1
    → nc_read_until fuel newline 0 s1 t1 ≡ ok last_chunk s2 t2
    → chunk_loop (suc rounds) fuel (some m) s t ≡ ok (message m) s2 t2
unfolding chunk_loop
last_round rounds fuel m s s1 s2 t t1 t2 a b = rw (a, ◌>>=◌, b, ◌>>=◌) (unfold bytes_eq in refl)

pub first_end-chunk_tag : first_end chunk_tag [] chunk_tag ≡ true
unfolding first_end ends_with bytes_eq
first_end-chunk_tag = refl

first_end-last_chunk : first_end newline [] last_chunk ≡ true
unfolding first_end ends_with bytes_eq
first_end-last_chunk = refl

frame_parts :
    (c rest : Bytes)
    → frame version_11 c ++ rest ≡ chunk_tag ++ ((print_dec (length c) ++ newline) ++ (c ++ rest))
unfolding frame
frame_parts c rest = simp append_assoc

pub IsReady-eq : {s : Session} {t : ℕ} (ys zs : Bytes) → ys ≡ zs → IsReady s t ys → IsReady s t zs
IsReady-eq {s} {t} ys zs e r = subst (IsReady s t) e r

chunk_loop-end :
    (rounds fuel : ℕ) (m ys : Bytes) (s : Session) (t : ℕ)
    → IsReady s t (endtag_11 ++ ys)
    → weight s.incoming < fuel
    → Delivers s (message m) ys (chunk_loop (suc rounds) fuel (some m) s t)
chunk_loop-end rounds fuel m ys s t r w =
    let (r1, t1, e1, q1, w1) =
      nc_read_until_exact fuel chunk_tag chunk_tag (last_chunk ++ ys) s t first_end-chunk_tag r w in
    let s1 = record s { incoming = r1 } in
    let (r2, t2, e2, q2, w2) =
      nc_read_until_exact fuel newline last_chunk ys s1 t1 first_end-last_chunk q1 (omega arith) in
    (r2, t2, last_round rounds fuel m s s1 (record s1 { incoming = r2 }) t t1 t2 e1 e2, q2)

-- The state behind one chunk of the stream.
chunk_step :
    (rounds fuel : ℕ) (msg : Option Bytes) (c ys : Bytes) (s : Session) (t : ℕ)
    → IsChunk c
    → IsReady s t (frame version_11 c ++ ys)
    → weight s.incoming < fuel
    → (rest : List Arrival) × (left : ℕ) × (chunk_loop (suc rounds) fuel msg s t
        ≡ chunk_loop rounds fuel (some (so_far msg c)) (record s { incoming = rest }) left)
      × IsReady (record s { incoming = rest }) left ys
      × (weight rest + 1 ≤ weight s.incoming)
chunk_step rounds fuel msg c ys s t h r w =
    let size = print_dec (length c) ++ newline in
    let (r1, t1, e1, q1, w1) =
      nc_read_until_exact fuel chunk_tag chunk_tag (size ++ (c ++ ys)) s t first_end-chunk_tag
        (IsReady-eq _ _ (frame_parts c ys) r) w in
    let s1 = record s { incoming = r1 } in
    let (r2, t2, e2, q2, w2) =
      nc_read_until_exact fuel newline size (c ++ ys) s1 t1 (first_end-size (length c)) q1
        (omega arith) in
    let s2 = record s { incoming = r2 } in
    let (r3, t3, e3, q3, w3) = nc_read_chunk_exact fuel c ys s2 t2 h.1 h.0 q2 (omega arith) in
    (
      r3,
      t3,
      chunk_round rounds fuel msg c s s1 s2 (record s { incoming = r3 }) t t1 t2 t3 e1 e2 e3 h,
      q3,
      omega arith,
    )

chunk_loop-frames :
    (rounds fuel : ℕ) (m : Bytes) (cs : List Bytes) (ys : Bytes) (s : Session) (t : ℕ)
    → All IsChunk cs
    → IsReady s t (frames version_11 cs ++ (endtag_11 ++ ys))
    → weight s.incoming < fuel
    → weight s.incoming < rounds
    → Delivers s (message (m ++ flatten cs)) ys (chunk_loop rounds fuel (some m) s t)
unfolding frames
chunk_loop-frames zero fuel m cs ys s t h r w v = absurd (omega arith)
chunk_loop-frames (suc rounds) fuel m [] ys s t h r w v =
    rw (append-nil m) (chunk_loop-end rounds fuel m ys s t r w)
chunk_loop-frames (suc rounds) fuel m (c ∷ cs) ys s t h r w v =
    let (rest, left, e, q, u) =
      chunk_step rounds fuel (some m) c (frames version_11 cs ++ (endtag_11 ++ ys)) s t h.0
        (IsReady-eq _ _ (append_assoc (frame version_11 c) (frames version_11 cs) (endtag_11 ++ ys))
          r)
        w in
    let (rest', left', e', q') =
      chunk_loop-frames rounds fuel (m ++ c) cs ys (record s { incoming = rest }) left h.1 q
        (omega arith) (omega arith) in
    (
      rest',
      left',
      e
          ∙ e'
          ∙ ap (λ x. ok (message x) (record s { incoming = rest' }) left')
              (append_assoc m c (flatten cs)),
      q',
    )

-- With enough fuel and timeout, and whatever way a sound transport cuts up the bytes, a message
-- framed for version 1.1 in at least one chunk, each of them nonempty and shorter than 2 ^ 64 - 1,
-- is read back whole, and what follows it is left.
pub read_framed_11 :
    (fuel : ℕ) (c : Bytes) (cs : List Bytes) (ys : Bytes) (s : Session) (t : ℕ)
    → All IsChunk (c ∷ cs)
    → IsReady s t (frames version_11 (c ∷ cs) ++ (endtag version_11 ++ ys))
    → weight s.incoming < fuel
    → Delivers s (message (flatten (c ∷ cs))) ys (read_framed fuel version_11 s t)
unfolding read_framed frames
read_framed_11 zero c cs ys s t h r w = absurd (omega arith)
read_framed_11 (suc rounds) c cs ys s t h r w =
    let fuel = suc rounds in
    let (rest, left, e, q, u) =
      chunk_step rounds fuel none c (frames version_11 cs ++ (endtag_11 ++ ys)) s t h.0
        (IsReady-eq _ _ (append_assoc (frame version_11 c) (frames version_11 cs) (endtag_11 ++ ys))
          r)
        w in
    let (rest', left', e', q') =
      chunk_loop-frames rounds fuel c cs ys (record s { incoming = rest }) left h.1 q (omega arith)
        (omega arith) in
    (rest', left', e ∙ e', q')

-- On a stream in order, and with enough fuel, a message of version 1.0 that has the end tag only at
-- its end is read back without it, and what follows it is left.
pub read_framed_10 :
    (fuel : ℕ) (m ys : Bytes) (s : Session) (t : ℕ)
    → first_end endtag_10 [] (m ++ endtag_10) ≡ true
    → IsReady s t (m ++ (endtag version_10 ++ ys))
    → weight s.incoming < fuel
    → Delivers s (message m) ys (read_framed fuel version_10 s t)
unfolding read_framed
read_framed_10 fuel m ys s t f r w =
    let (rest, left, e, q, u) =
      nc_read_until_exact fuel endtag_10 (m ++ endtag_10) ys s t f
        (IsReady-eq _ _ (sym (append_assoc m endtag_10 ys)) r) w in
    let size : length (m ++ endtag_10) - 6 ≡ length m = omega (arith, length-append m endtag_10) in
    (rest, left, rw (e, ◌>>=◌, size, take-append m endtag_10), q)
