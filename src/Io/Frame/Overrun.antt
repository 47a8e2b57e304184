-- ===== src/Io/Frame/Overrun.antt =====
-- The chunk size for which the buffer of nc_read_chunk is too small.
use libnetconf.Common.{
  ℕ, zero, suc, ◌-◌, ◌^◌, ◌≤◌, ◌<◌, ◌≡◌, refl, ◌∙◌, none, [], ◌++◌, arith, leb, true,
}
use libnetconf.Common.Bytes.{Bytes}
use libnetconf.Common.Decimal.{strtoul, print_dec, strtoul-print_dec_clamp, print_dec-IsDigit}
use libnetconf.Session.{Session, version_11}
use libnetconf.Io.Read.{ok, fault, ◌>>=◌, nc_read_until, nc_read_chunk, chunk_alloc}
use libnetconf.Io.Read.Stream.{weight}
use libnetconf.Io.Read.Exact.{IsReady}
use libnetconf.Io.Read.Until.{nc_read_until_exact}
use libnetconf.Io.Frame.{read_framed, chunk_loop, chunk_tag, newline}
use libnetconf.Io.Frame.Decode.{first_end-size, size-ne-last, first_end-chunk_tag}

overrun :
    (fuel k : ℕ) (s : Session) (t : ℕ) → k ≡ 2 ^ 64 - 2 → nc_read_chunk fuel (suc k) s t ≡ fault
unfolding nc_read_chunk
overrun fuel k s t e =
    let small : leb (chunk_alloc (suc k)) k ≡ true = ground arith in rw (small, ◌>>=◌)

huge_round :
    (rounds fuel n k : ℕ) (s s1 s2 : Session) (t t1 t2 : ℕ)
    → nc_read_until fuel chunk_tag 0 s t ≡ ok chunk_tag s1 t1
    → nc_read_until fuel newline 0 s1 t1 ≡ ok (print_dec n ++ newline) s2 t2
    → strtoul (print_dec n ++ newline) ≡ suc k
    → nc_read_chunk fuel (suc k) s2 t2 ≡ fault
    → chunk_loop (suc rounds) fuel none s t ≡ fault
unfolding chunk_loop
huge_round rounds fuel n k s s1 s2 t t1 t2 a b c f =
    rw (a, ◌>>=◌, b, ◌>>=◌, size-ne-last (print_dec n) (print_dec-IsDigit n), c, f, ◌>>=◌)

-- On a sound stream, with enough fuel and timeout, a first chunk whose size line says 2 ^ 64 - 1 or
-- more makes the reader overrun the buffer, which it allocates with 0 bytes.
pub read_framed_overrun :
    (fuel n : ℕ) (ys : Bytes) (s : Session) (t : ℕ)
    → 2 ^ 64 - 1 ≤ n
    → IsReady s t (chunk_tag ++ ((print_dec n ++ newline) ++ ys))
    → weight s.incoming < fuel
    → read_framed fuel version_11 s t ≡ fault
unfolding read_framed
read_framed_overrun zero n ys s t h r w = absurd (omega arith)
read_framed_overrun (suc rounds) n ys s t h r w =
    let fuel = suc rounds in
    let (r1, t1, e1, q1, w1) =
      nc_read_until_exact fuel chunk_tag chunk_tag ((print_dec n ++ newline) ++ ys) s t
        first_end-chunk_tag r w in
    let s1 = record s { incoming = r1 } in
    let (r2, t2, e2, q2, w2) =
      nc_read_until_exact fuel newline (print_dec n ++ newline) ys s1 t1 (first_end-size n) q1
        (omega arith) in
    let size : strtoul (print_dec n ++ newline) ≡ suc (2 ^ 64 - 2) =
      strtoul-print_dec_clamp n 10 [] refl ∙ ground arith in
    huge_round rounds fuel n (2 ^ 64 - 2) s s1 (record s1 { incoming = r2 }) t t1 t2 e1 e2 size
      (overrun fuel (2 ^ 64 - 2) (record s1 { incoming = r2 }) t2 refl)
