-- ===== src/Io/Read/Exact.antt =====
-- On a sound stream nc_read returns the bytes that it was asked for, however the transport cuts
-- them up, and leaves the rest of the stream.
use libnetconf.Common.{
  ℕ, zero, suc, ◌+◌, ◌-◌, ◌*◌, ◌≤◌, ◌<◌, ◌≡◌, refl, sym, ◌∙◌, ap, true, List, [], ◌∷◌, ◌++◌, length,
  length-append, append-nil, append_assoc, arith,
}
use libnetconf.Common.Bytes.{Bytes}
use libnetconf.Session.{Session, Arrival, is_live}
use libnetconf.Io.Read.{
  Result, ok, Received, receive, read_loop, nc_read, left_after, slept, steps_per_second,
}
use libnetconf.Io.Read.Stream.{
  stream, idles, weight, IsSound, has_transport, Progress, takes, waits, retries, receive-Progress,
  receive-IsSound, remaining,
}

-- `ys` is to come on a session that can be read from, within a timeout of `t` seconds.
pub record IsReady (s : Session) (t : ℕ) (ys : Bytes) : Type 0 where
  pub live : is_live s.status ≡ true
  pub connected : has_transport s.ti_type ≡ true
  pub sound : IsSound s.ti_type s.incoming
  pub to_come : stream s.incoming ≡ ys
  pub patient : idles s.incoming < steps_per_second * t
  pub in_range : t < 65536

-- Splits a stream at a point inside `xs`.
split_at :
    (bs zs xs ys : Bytes)
    → bs ++ zs ≡ xs ++ ys
    → length bs ≤ length xs
    → (more : Bytes) × (xs ≡ bs ++ more) × (zs ≡ more ++ ys)
split_at [] zs xs ys e h = (xs, refl, e)
split_at (b ∷ bs) zs [] ys e h = absurd (omega arith)
split_at (b ∷ bs) zs (x ∷ xs) ys e h =
    let (more, p, q) = split_at bs zs xs ys (cc) (omega arith) in (more, cc, q)

left_after_bounds :
    (i n t : ℕ)
    → suc i + n < steps_per_second * t
    → n < steps_per_second
    → t < 65536
    → (0 < left_after n t)
      × (i + slept n < steps_per_second * left_after n t)
      × (slept n < steps_per_second)
      × (left_after n t < 65536)
left_after_bounds i n t h k l = ground arith

-- The result `acc ++ xs`, with `ys` left to come and at most `w` rounds left in the arrivals.
abbrev pub Finishes : Session → Bytes → Bytes → Bytes → ℕ → Result Bytes → Type 0
Finishes s acc xs ys w r =
    (rest : List Arrival) × (left : ℕ) × (r ≡ ok (acc ++ xs) (record s { incoming = rest }) left)
    × IsReady (record s { incoming = rest }) left ys
    × (weight rest + length xs ≤ w)

abbrev ReadsExactly : ℕ → Type 0
ReadsExactly fuel =
    (count : ℕ) (acc : Bytes) (sleeps : ℕ) (s : Session) (t : ℕ) (xs ys : Bytes)
    → length xs ≡ count
    → IsReady s t (xs ++ ys)
    → idles s.incoming + sleeps < steps_per_second * t
    → sleeps < steps_per_second
    → weight s.incoming < fuel
    → Finishes s acc xs ys (weight s.incoming) (read_loop fuel count acc sleeps s t)

module _ (fuel : ℕ) (ih : ReadsExactly fuel) (k : ℕ) (acc : Bytes) (sleeps : ℕ) (s : Session)
    (t : ℕ) (xs ys : Bytes) (e : length xs ≡ suc k) (r : IsReady s t (xs ++ ys))
    (i : idles s.incoming + sleeps < steps_per_second * t) (n : sleeps < steps_per_second)
    (w : weight s.incoming < suc fuel) where
  after_bytes :
      (bs : Bytes) (rest : List Arrival)
      → IsSound s.ti_type rest
      → stream s.incoming ≡ bs ++ stream rest
      → 1 ≤ length bs
      → length bs ≤ suc k
      → weight rest + length bs ≤ weight s.incoming
      → idles rest ≡ idles s.incoming
      → Finishes s acc xs ys
          (weight s.incoming)
          (read_loop fuel (suc k - length bs) (acc ++ bs) sleeps (record s { incoming = rest }) t)
  after_bytes bs rest g a b c d f =
      let (more, p, q) = split_at bs (stream rest) xs ys (sym a ∙ r.to_come) (omega arith) in
      let sizes : length xs ≡ length bs + length more = ap length p ∙ length-append bs more in
      let (rest', left, x, y, z) =
        ih (suc k - length bs) (acc ++ bs) sleeps (record s { incoming = rest }) t more ys
          (omega arith)
          (record {
            live = r.live;
            connected = r.connected;
            sound = g;
            to_come = q;
            patient = omega (arith, r.patient);
            in_range = r.in_range;
          })
          (omega arith) n (omega arith) in
      let whole : (acc ++ bs) ++ more ≡ acc ++ xs =
        append_assoc acc bs more ∙ ap (◌++◌ acc) (sym p) in
      (rest', left, x ∙ ap (λ v. ok v (record s { incoming = rest' }) left) whole, y, omega arith)

  after_wait :
      (rest : List Arrival)
      → IsSound s.ti_type rest
      → stream rest ≡ stream s.incoming
      → weight rest + 1 ≤ weight s.incoming
      → (sleeps' t' : ℕ) → idles rest + sleeps' < steps_per_second * t'
      → sleeps' < steps_per_second
      → t' < 65536
      → Finishes s acc xs ys
          (weight s.incoming)
          (read_loop fuel (suc k) acc sleeps' (record s { incoming = rest }) t')
  after_wait rest g a b sleeps' t' i' n' l' =
      let (rest', left, x, y, z) =
        ih (suc k) acc sleeps' (record s { incoming = rest }) t' xs ys e
          (record {
            live = r.live;
            connected = r.connected;
            sound = g;
            to_come = a ∙ r.to_come;
            patient = omega arith;
            in_range = l';
          })
          i' n' (omega arith) in
      (rest', left, x, y, omega arith)

  one_round :
      (v : Received)
      → receive s.ti_type k s.incoming ≡ v
      → IsSound s.ti_type (remaining v [])
      → Progress k s.incoming v
      → Finishes s acc xs ys (weight s.incoming) (read_loop (suc fuel) (suc k) acc sleeps s t)
  unfolding read_loop
  one_round _ p g (takes bs rest a b c d f) = rw (p, read_loop) (after_bytes bs rest g a b c d f)
  one_round _ p g (waits rest a b c) =
      let (pos, i', n', l') = left_after_bounds (idles rest) sleeps t (omega arith) n r.in_range in
      let l : left_after sleeps t ≡ suc (left_after sleeps t - 1) = omega arith in
      rw (p, read_loop, l)
        (after_wait rest g a b (slept sleeps) (suc (left_after sleeps t - 1)) (rw l at i') n'
          (rw l at l'))
  one_round _ p g (retries rest a b c) =
      rw (p, read_loop) (after_wait rest g a b sleeps t (omega arith) n r.in_range)

read_loop_exact : (fuel : ℕ) → ReadsExactly fuel
read_loop_exact zero count acc sleeps s t xs ys e r i n w = absurd (omega arith)
read_loop_exact (suc fuel) zero acc sleeps s t [] ys e r i n w =
    (s.incoming, t, unfold read_loop in ap (λ v. ok v s t) (sym (append-nil acc)), r, omega arith)
read_loop_exact (suc fuel) zero acc sleeps s t (x ∷ xs) ys e r i n w = absurd (omega arith)
read_loop_exact (suc fuel) (suc k) acc sleeps s t [] ys e r i n w = absurd (omega arith)
read_loop_exact (suc fuel) (suc k) acc sleeps s t (x ∷ xs) ys e r i n w =
    one_round fuel (read_loop_exact fuel) k acc sleeps s t (x ∷ xs) ys e r i n w
      (receive s.ti_type k s.incoming) refl (receive-IsSound s.ti_type k s.incoming r.sound)
      (receive-Progress s.ti_type k s.incoming r.connected r.sound (λ p. cc (r.to_come)))

-- On a sound stream that begins with `xs`, with enough fuel and with fewer idle spells than the
-- timeout allows, a read of as many bytes returns `xs` and leaves the
-- session ready for what follows.
pub nc_read_exact :
    (fuel : ℕ) (s : Session) (t : ℕ) (xs ys : Bytes)
    → IsReady s t (xs ++ ys)
    → weight s.incoming < fuel
    → Finishes s [] xs ys (weight s.incoming) (nc_read fuel (length xs) s t)
unfolding nc_read
nc_read_exact fuel s t xs ys r w = rw (r.live) (
    read_loop_exact fuel (length xs) [] 0 s t xs ys refl r (omega (arith, r.patient)) (omega arith)
      w)
