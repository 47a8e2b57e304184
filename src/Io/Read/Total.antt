-- ===== src/Io/Read/Total.antt =====
-- nc_read ends on every input, and what it may do to the session.
use libnetconf.Common.{
  ℕ, zero, suc, ◌+◌, ◌-◌, ◌*◌, ◌≤◌, ◌<◌, ◌≡◌, ◌⊎◌, inl, inr, refl, ◌∙◌, ap, true, false, List, [],
  ◌∷◌, ◌++◌, length, length-append, take, drop, take-append-drop, arith, Bool-cases,
}
use libnetconf.Common.{subst}
use Prim.Native.Nat.add
use libnetconf.Common.Bytes.{Bytes}
use libnetconf.Session.{
  Session, TransportImpl, ti_none, ti_fd, ti_libssh, ti_openssl, Arrival, packet, would_block,
  interrupted, no_bytes, broken, is_live, terminate, dropped, other,
}
use libnetconf.Io.Read.{
  Result, ok, error, fault, stuck, Received, bytes, nothing, again, at_end, failed, no_transport,
  receive, push_back, read_loop, nc_read, left_after, slept, steps_per_second,
}
use libnetconf.Io.Read.Stream.{weight, weight-push_back, length-take-le}

data Consumes (ti : TransportImpl) (k : ℕ) (arrivals : List Arrival) : Received → Type 0 where
  takes :
      (bs : Bytes) (rest : List Arrival)
      → 1 ≤ length bs
      → length bs ≤ suc k
      → weight rest + length bs ≤ weight arrivals
      → Consumes ti k arrivals (bytes bs rest)
  waits :
      (rest : List Arrival) → weight rest ≤ weight arrivals → Consumes ti k arrivals (nothing rest)
  retries :
      (rest : List Arrival)
      → weight rest + 1 ≤ weight arrivals
      → Consumes ti k arrivals (again rest)
  ends : (rest : List Arrival) → Consumes ti k arrivals (at_end rest)
  fails : (rest : List Arrival) → Consumes ti k arrivals (failed rest)
  closes : ti ≡ ti_none → Consumes ti k arrivals no_transport

takes_packet :
    (ti : TransportImpl) (k b : ℕ) (bs : Bytes) (rest : List Arrival)
    → Consumes ti k (packet b bs ∷ rest) (bytes (b ∷ take k bs) (push_back (drop k bs) rest))
takes_packet ti k b bs rest = takes _ _ (omega arith) (omega (arith, length-take-le k bs)) (
    omega (
      arith,
      weight-push_back (drop k bs) rest,
      length-append (take k bs) (drop k bs),
      ap length (take-append-drop k bs),
    ))

receive-Consumes :
    (ti : TransportImpl) (k : ℕ) (arrivals : List Arrival)
    → Consumes ti k arrivals (receive ti k arrivals)
unfolding receive
receive-Consumes ti_none k arrivals = closes refl
receive-Consumes ti_fd k [] = waits [] (omega arith)
receive-Consumes ti_fd k (packet b bs ∷ rest) = takes_packet ti_fd k b bs rest
receive-Consumes ti_fd k (would_block ∷ rest) = waits rest (omega arith)
receive-Consumes ti_fd k (interrupted ∷ rest) = retries rest (omega arith)
receive-Consumes ti_fd k (broken ∷ rest) = fails rest
receive-Consumes ti_fd k (no_bytes true ∷ rest) = ends rest
receive-Consumes ti_fd k (no_bytes false ∷ rest) = ends rest
receive-Consumes ti_libssh k [] = waits [] (omega arith)
receive-Consumes ti_libssh k (packet b bs ∷ rest) = takes_packet ti_libssh k b bs rest
receive-Consumes ti_libssh k (would_block ∷ rest) = waits rest (omega arith)
receive-Consumes ti_libssh k (interrupted ∷ rest) = fails rest
receive-Consumes ti_libssh k (broken ∷ rest) = fails rest
receive-Consumes ti_libssh k (no_bytes true ∷ rest) = ends rest
receive-Consumes ti_libssh k (no_bytes false ∷ rest) = waits rest (omega arith)
receive-Consumes ti_openssl k [] = waits [] (omega arith)
receive-Consumes ti_openssl k (packet b bs ∷ rest) = takes_packet ti_openssl k b bs rest
receive-Consumes ti_openssl k (would_block ∷ rest) = waits rest (omega arith)
receive-Consumes ti_openssl k (interrupted ∷ rest) = fails rest
receive-Consumes ti_openssl k (broken ∷ rest) = fails rest
receive-Consumes ti_openssl k (no_bytes true ∷ rest) = ends rest
receive-Consumes ti_openssl k (no_bytes false ∷ rest) = fails rest

-- A bound of the rounds that are left.
abbrev pub budget : Session → ℕ → ℕ
budget s t = weight s.incoming + steps_per_second * t

-- The results of a read of `size` bytes, `have` of them at hand: all of them, or none on a session
-- without a transport, and then the session is read from further, by as many rounds at least; or
-- the session is invalid, as dropped or for another reason. Nothing else changes.
abbrev pub Allowed : Session → ℕ → ℕ → ℕ → Result Bytes → Type 0
Allowed s t have size (ok bs s' t') =
    (s' ≡ record s { incoming = s'.incoming })
    × ((length bs ≡ size) ⊎ ((s.ti_type ≡ ti_none) × (bs ≡ [])))
    × (budget s' t' + length bs ≤ budget s t + have)
    × (t' < 65536)
Allowed s t have size (error s') =
    (s' ≡ terminate (record s { incoming = s'.incoming }) dropped)
    ⊎ (s' ≡ terminate (record s { incoming = s'.incoming }) other)
Allowed s t have size fault = ⊥
Allowed s t have size stuck = ⊥

-- Whether a session was read from further changes nothing of what is allowed.
Allowed-incoming :
    (s : Session) (rest : List Arrival) (t t1 have have1 size size1 : ℕ) (r : Result Bytes)
    → size1 ≡ size
    → budget (record s { incoming = rest }) t1 + have1 ≤ budget s t + have
    → Allowed (record s { incoming = rest }) t1 have1 size1 r
    → Allowed s t have size r
Allowed-incoming s rest t t1 have have1 size size1 (ok bs s' t') e b a =
    (a.0, elim a.1 [ inl p ↦ inl (p ∙ e) | inr q ↦ inr q ], omega (arith, a.2), a.3)
Allowed-incoming s rest t t1 have have1 size size1 (error s') e b a = a
Allowed-incoming s rest t t1 have have1 size size1 fault e b a = a
Allowed-incoming s rest t t1 have have1 size size1 stuck e b a = a

abbrev Terminates : ℕ → Type 0
Terminates fuel =
    (count : ℕ) (acc : Bytes) (sleeps : ℕ) (s : Session) (t : ℕ)
    → budget s t < fuel + sleeps
    → sleeps < steps_per_second
    → sleeps ≤ steps_per_second * t
    → t < 65536
    → Allowed s t (length acc) (length acc + count) (read_loop fuel count acc sleeps s t)

left_after_cases :
    (n t : ℕ)
    → n < steps_per_second
    → n ≤ steps_per_second * t
    → t < 65536
    → (left_after n t ≡ 0)
      ⊎ ((t' : ℕ) × (left_after n t ≡ suc t')
          × (steps_per_second * suc t' + n < steps_per_second * t + slept n)
          × (slept n < steps_per_second)
          × (slept n ≤ steps_per_second * suc t')
          × (suc t' < 65536)
          × (suc t' ≤ t))
left_after_cases n t h k l = go (left_after n t) refl
  where
    go :
        (v : ℕ)
        → left_after n t ≡ v
        → (v ≡ 0)
          ⊎ ((t' : ℕ) × (v ≡ suc t')
              × (steps_per_second * suc t' + n < steps_per_second * t + slept n)
              × (slept n < steps_per_second)
              × (slept n ≤ steps_per_second * suc t')
              × (suc t' < 65536)
              × (suc t' ≤ t))
    go zero e = inl refl
    go (suc t') e =
        inr (t', refl, ground arith, ground arith, ground arith, ground arith, ground arith)

one_round :
    (fuel : ℕ) (ih : Terminates fuel) (k : ℕ) (acc : Bytes) (sleeps : ℕ) (s : Session) (t : ℕ)
    (v : Received)
    → receive s.ti_type k s.incoming ≡ v
    → budget s t < suc fuel + sleeps
    → sleeps < steps_per_second
    → sleeps ≤ steps_per_second * t
    → t < 65536
    → Consumes s.ti_type k s.incoming v
    → Allowed s t (length acc) (length acc + suc k) (read_loop (suc fuel) (suc k) acc sleeps s t)
unfolding read_loop
one_round fuel ih k acc sleeps s t _ p b n m l (takes bs rest x y z) =
    rw (p, read_loop)
      (Allowed-incoming s rest _ _ _ _ _ _ _ (omega (arith, length-append acc bs))
        (omega (arith, length-append acc bs))
        (ih (suc k - length bs) (acc ++ bs) sleeps (record s { incoming = rest }) t (omega arith) n
          m l))
one_round fuel ih k acc sleeps s t _ p b n m l (waits rest x) =
    elim (left_after_cases sleeps t n m l) [
      | inl e ↦ rw (p, read_loop, e) (inr refl)
      | inr (t', e, i, n', m', l', d) ↦
          rw (p, read_loop, e)
            (Allowed-incoming s rest _ _ _ _ _ _ _ refl (omega arith) (
              ih (suc k) acc (slept sleeps) (record s { incoming = rest }) (suc t') (omega arith) n'
                m' l'))
    ]
one_round fuel ih k acc sleeps s t _ p b n m l (retries rest x) =
    rw (p, read_loop)
      (Allowed-incoming s rest _ _ _ _ _ _ _ refl (omega arith)
        (ih (suc k) acc sleeps (record s { incoming = rest }) t (omega arith) n m l))
one_round fuel ih k acc sleeps s t _ p b n m l (ends rest) = rw (p, read_loop) (inl refl)
one_round fuel ih k acc sleeps s t _ p b n m l (fails rest) = rw (p, read_loop) (inr refl)
one_round fuel ih k acc sleeps s t _ p b n m l (closes e) =
    rw (p, read_loop) (refl, inr (e, refl), omega arith, l)

read_loop-Allowed : (fuel : ℕ) → Terminates fuel
read_loop-Allowed zero count acc sleeps s t b n m l = absurd (omega arith)
read_loop-Allowed (suc fuel) zero acc sleeps s t b n m l =
    unfold read_loop in (refl, inl (omega arith), omega arith, l)
read_loop-Allowed (suc fuel) (suc k) acc sleeps s t b n m l =
    one_round fuel (read_loop-Allowed fuel) k acc sleeps s t (receive s.ti_type k s.incoming) refl b
      n m l (receive-Consumes s.ti_type k s.incoming)

-- A read ends, with more fuel than the arrivals and the timeout (below 2 ^ 16) have rounds: on a
-- live session it returns all the bytes asked for and leaves the status, or (without a transport)
-- none, or it makes the session invalid as dropped or for another reason. On any other session it
-- fails and changes nothing.
pub nc_read_total :
    (fuel count : ℕ) (s : Session) (t : ℕ)
    → budget s t < fuel
    → t < 65536
    → ((is_live s.status ≡ true) × Allowed s t 0 count (nc_read fuel count s t))
      ⊎ ((is_live s.status ≡ false) × (nc_read fuel count s t ≡ error s))
unfolding nc_read
nc_read_total fuel count s t b l = elim (Bool-cases (is_live s.status)) [
  | inl e ↦ inl (
    e,
    rw e (
        subst (λ n. Allowed s t 0 n (read_loop fuel count [] 0 s t)) (add.zero count)
          (read_loop-Allowed fuel count [] 0 s t (omega arith) (omega arith) (omega arith) l)),
  )
  | inr e ↦ inr (e, rw e refl)
]
