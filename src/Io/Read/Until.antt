-- ===== src/Io/Read/Until.antt =====
-- nc_read_until and nc_read_chunk on a sound stream.
use libnetconf.Common.{
  ℕ, zero, suc, ◌+◌, ◌^◌, ◌≤◌, ◌<◌, ◌≡◌, ◌≢◌, refl, ◌∙◌, ap, Bool, true, false, [], ◌∷◌, ◌++◌,
  length, length-append, append_assoc, arith, leb, ◌&&◌, not,
}
use libnetconf.Common.Bytes.{Bytes, ends_with}
use libnetconf.Session.{Session}
use libnetconf.Io.Read.{ok, nc_read, until_loop, nc_read_until, nc_read_chunk, chunk_alloc, ◌>>=◌}
use libnetconf.Io.Read.Stream.{weight, length-stream-le}
use libnetconf.Io.Read.Exact.{IsReady, Finishes, nc_read_exact}

-- Read behind `acc`, the bytes of the second list end with the tag, and no proper beginning does.
unfoldable pub first_end : Bytes → Bytes → Bytes → Bool
first_end tag acc [] = false
first_end tag acc (c ∷ []) = ends_with tag (acc ++ (c ∷ []))
first_end tag acc (c ∷ d ∷ q) =
    not (ends_with tag (acc ++ (c ∷ []))) && first_end tag (acc ++ (c ∷ [])) (d ∷ q)

-- One byte was read and the tag is not there yet.
until_loop_more :
    (rounds fuel : ℕ) (tag acc : Bytes) (c : ℕ) (s s' : Session) (t t' : ℕ)
    → nc_read fuel 1 s t ≡ ok (c ∷ []) s' t'
    → ends_with tag (acc ++ (c ∷ [])) ≡ false
    → until_loop (suc rounds) fuel tag 0 acc s t
      ≡ until_loop rounds fuel tag 0 (acc ++ (c ∷ [])) s' t'
unfolding until_loop
until_loop_more rounds fuel tag acc c s s' t t' e f = rw (e, ◌>>=◌, f)

until_loop_done :
    (rounds fuel : ℕ) (tag acc : Bytes) (c : ℕ) (s s' : Session) (t t' : ℕ)
    → nc_read fuel 1 s t ≡ ok (c ∷ []) s' t'
    → ends_with tag (acc ++ (c ∷ [])) ≡ true
    → until_loop (suc rounds) fuel tag 0 acc s t ≡ ok (acc ++ (c ∷ [])) s' t'
unfolding until_loop
until_loop_done rounds fuel tag acc c s s' t t' e f = rw (e, ◌>>=◌, f)

until_loop_exact :
    (rounds fuel : ℕ) (tag acc q ys : Bytes) (s : Session) (t : ℕ)
    → first_end tag acc q ≡ true
    → IsReady s t (q ++ ys)
    → weight s.incoming < fuel
    → length q ≤ rounds
    → Finishes s acc q ys (weight s.incoming) (until_loop rounds fuel tag 0 acc s t)
unfolding first_end
until_loop_exact rounds fuel tag acc [] ys s t f r w h = absurd (cc)
until_loop_exact zero fuel tag acc (c ∷ q) ys s t f r w h = absurd (omega arith)
until_loop_exact (suc rounds) fuel tag acc (c ∷ []) ys s t f r w h =
    let (rest, left, e, r', w') = nc_read_exact fuel s t (c ∷ []) ys r w in
    (rest, left, until_loop_done rounds fuel tag acc c s _ t left e f, r', w')
until_loop_exact (suc rounds) fuel tag acc (c ∷ d ∷ q) ys s t f r w h =
    let (rest, left, e, r', w') = nc_read_exact fuel s t (c ∷ []) ((d ∷ q) ++ ys) r w in
    let (rest2, left2, e2, r2, w2) =
      until_loop_exact rounds fuel tag (acc ++ (c ∷ [])) (d ∷ q) ys (record s { incoming = rest })
        left (ground arith) r' (omega arith) (omega arith) in
    (
      rest2,
      left2,
      until_loop_more rounds fuel tag acc c s (record s { incoming = rest }) t left e (ground arith)
          ∙ e2
          ∙ ap (λ v. ok v (record s { incoming = rest2 }) left2)
              (append_assoc acc (c ∷ []) (d ∷ q)),
      r2,
      omega arith,
    )

-- On a sound stream, with enough fuel and timeout, nc_read_until returns the shortest beginning
-- that ends with the tag, and leaves what follows it.
pub nc_read_until_exact :
    (fuel : ℕ) (tag q ys : Bytes) (s : Session) (t : ℕ)
    → first_end tag [] q ≡ true
    → IsReady s t (q ++ ys)
    → weight s.incoming < fuel
    → Finishes s [] q ys (weight s.incoming) (nc_read_until fuel tag 0 s t)
unfolding nc_read_until
nc_read_until_exact fuel tag q ys s t f r w =
    until_loop_exact fuel fuel tag [] q ys s t f r w
      (omega (arith, length-stream-le s.incoming, ap length r.to_come, length-append q ys))

-- A chunk of any length below 2 ^ 64 - 1 is read whole.
pub nc_read_chunk_exact :
    (fuel : ℕ) (xs ys : Bytes) (s : Session) (t : ℕ)
    → length xs + 1 < 2 ^ 64
    → xs ≢ []
    → IsReady s t (xs ++ ys)
    → weight s.incoming < fuel
    → Finishes s [] xs ys (weight s.incoming) (nc_read_chunk fuel (length xs) s t)
unfolding nc_read_chunk
nc_read_chunk_exact fuel [] ys s t l ne r w = absurd (ne refl)
nc_read_chunk_exact fuel (x ∷ xs) ys s t l ne r w =
    let (rest, left, e, r', w') = nc_read_exact fuel s t (x ∷ xs) ys r w in
    let fits : leb (chunk_alloc (suc (length xs))) (length xs) ≡ false = ground arith in
    (rest, left, rw (fits, e, ◌>>=◌), r', w')
