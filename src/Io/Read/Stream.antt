-- ===== src/Io/Read/Stream.antt =====
-- What is still to come from a transport: its bytes, its idle spells, and when it is sound.
use libnetconf.Common.{
  ℕ, zero, suc, ◌+◌, ◌≤◌, ◌≡◌, ◌≢◌, refl, sym, ◌∙◌, ap, Bool, true, false, List, [], ◌∷◌, ◌++◌,
  length, length-append, take, drop, take-append-drop, append_assoc, arith,
}
use libnetconf.Common.Bytes.{Bytes}
use libnetconf.Session.{
  TransportImpl, ti_none, ti_fd, ti_libssh, ti_openssl, Arrival, packet, would_block, interrupted,
  broken, no_bytes,
}
use libnetconf.Io.Read.{Received, bytes, nothing, again, push_back, receive}

abbrev pub stream : List Arrival → Bytes
stream [] = []
stream (packet b bs ∷ rest) = (b ∷ bs) ++ stream rest
stream (would_block ∷ rest) = stream rest
stream (interrupted ∷ rest) = stream rest
stream (broken ∷ rest) = stream rest
stream (no_bytes eof ∷ rest) = stream rest

-- The rounds of the read loop that find nothing.
abbrev pub idles : List Arrival → ℕ
idles [] = 0
idles (would_block ∷ rest) = suc (idles rest)
idles (no_bytes eof ∷ rest) = suc (idles rest)
idles (packet b bs ∷ rest) = idles rest
idles (interrupted ∷ rest) = idles rest
idles (broken ∷ rest) = idles rest

-- A bound of the rounds that use up the list.
abbrev pub weight : List Arrival → ℕ
weight [] = 0
weight (packet b bs ∷ rest) = suc (length bs) + weight rest
weight (would_block ∷ rest) = suc (weight rest)
weight (interrupted ∷ rest) = suc (weight rest)
weight (broken ∷ rest) = suc (weight rest)
weight (no_bytes eof ∷ rest) = suc (weight rest)

-- The results that end no session on this transport.
abbrev pub is_sound : TransportImpl → Arrival → Bool
is_sound ti (packet b bs) = true
is_sound ti would_block = true
is_sound ti_fd interrupted = true
is_sound ti_libssh (no_bytes false) = true
is_sound ti a = false

abbrev pub IsSound : TransportImpl → List Arrival → Type 0
IsSound ti [] = Unit {0}
IsSound ti (a ∷ rest) = (is_sound ti a ≡ true) × IsSound ti rest

pub length-stream-le : (arrivals : List Arrival) → length (stream arrivals) ≤ weight arrivals
length-stream-le [] = omega arith
length-stream-le (packet b bs ∷ rest) =
    omega (arith, length-stream-le rest, length-append bs (stream rest))
length-stream-le (would_block ∷ rest) = omega (arith, length-stream-le rest)
length-stream-le (interrupted ∷ rest) = omega (arith, length-stream-le rest)
length-stream-le (broken ∷ rest) = omega (arith, length-stream-le rest)
length-stream-le (no_bytes eof ∷ rest) = omega (arith, length-stream-le rest)

pub stream-push_back :
    (bs : Bytes) (rest : List Arrival) → stream (push_back bs rest) ≡ bs ++ stream rest
unfolding push_back
stream-push_back [] rest = refl
stream-push_back (b ∷ bs) rest = refl

idles-push_back : (bs : Bytes) (rest : List Arrival) → idles (push_back bs rest) ≡ idles rest
unfolding push_back
idles-push_back [] rest = refl
idles-push_back (b ∷ bs) rest = refl

pub weight-push_back :
    (bs : Bytes) (rest : List Arrival) → weight (push_back bs rest) ≡ length bs + weight rest
unfolding push_back
weight-push_back [] rest = omega arith
weight-push_back (b ∷ bs) rest = refl

push_back-IsSound :
    (ti : TransportImpl) (bs : Bytes) (rest : List Arrival)
    → IsSound ti rest
    → IsSound ti (push_back bs rest)
unfolding push_back
push_back-IsSound ti [] rest h = h
push_back-IsSound ti (b ∷ bs) rest h = (refl, h)

pub length-take-le {ℓ} : {A : Type ℓ} (n : ℕ) (xs : List A) → length (take n xs) ≤ n
length-take-le zero xs = omega arith
length-take-le (suc n) [] = omega arith
length-take-le (suc n) (x ∷ xs) = omega (arith, length-take-le n xs)

-- One read call takes bytes off the stream, or leaves it and uses up one entry.
pub data Progress (k : ℕ) (arrivals : List Arrival) : Received → Type 0 where
  takes :
      (bs : Bytes) (rest : List Arrival)
      → stream arrivals ≡ bs ++ stream rest
      → 1 ≤ length bs
      → length bs ≤ suc k
      → weight rest + length bs ≤ weight arrivals
      → idles rest ≡ idles arrivals
      → Progress k arrivals (bytes bs rest)
  waits :
      (rest : List Arrival)
      → stream rest ≡ stream arrivals
      → weight rest + 1 ≤ weight arrivals
      → idles rest + 1 ≡ idles arrivals
      → Progress k arrivals (nothing rest)
  retries :
      (rest : List Arrival)
      → stream rest ≡ stream arrivals
      → weight rest + 1 ≤ weight arrivals
      → idles rest ≡ idles arrivals
      → Progress k arrivals (again rest)

abbrev pub remaining : Received → List Arrival → List Arrival
remaining (bytes bs rest) d = rest
remaining (nothing rest) d = rest
remaining (again rest) d = rest
remaining _ d = d

abbrev pub has_transport : TransportImpl → Bool
has_transport ti_none = false
has_transport ti_fd = true
has_transport ti_libssh = true
has_transport ti_openssl = true

receive_packet :
    (ti : TransportImpl) (k b : ℕ) (bs : Bytes) (rest : List Arrival)
    → has_transport ti ≡ true
    → receive ti k (packet b bs ∷ rest) ≡ bytes (b ∷ take k bs) (push_back (drop k bs) rest)
unfolding receive
receive_packet ti_none k b bs rest h = cc
receive_packet ti_fd k b bs rest h = refl
receive_packet ti_libssh k b bs rest h = refl
receive_packet ti_openssl k b bs rest h = refl

packet-Progress :
    (k b : ℕ) (bs : Bytes) (rest : List Arrival)
    → Progress k (packet b bs ∷ rest) (bytes (b ∷ take k bs) (push_back (drop k bs) rest))
packet-Progress k b bs rest =
    takes (b ∷ take k bs) (push_back (drop k bs) rest)
      (rw (stream-push_back (drop k bs) rest) (
        ap (◌∷◌ b) (
          ap (λ xs. xs ++ stream rest) (sym (take-append-drop k bs))
          ∙ append_assoc (take k bs) (drop k bs) (stream rest))))
      (omega arith) (omega (arith, length-take-le k bs))
      (omega (
        arith,
        weight-push_back (drop k bs) rest,
        length-append (take k bs) (drop k bs),
        ap length (take-append-drop k bs),
      ))
      (idles-push_back (drop k bs) rest)

pub receive-Progress :
    (ti : TransportImpl) (k : ℕ) (arrivals : List Arrival)
    → has_transport ti ≡ true
    → IsSound ti arrivals
    → stream arrivals ≢ []
    → Progress k arrivals (receive ti k arrivals)
unfolding receive
receive-Progress ti k [] h g ne = absurd (ne refl)
receive-Progress ti k (packet b bs ∷ rest) h g ne =
    rw (receive_packet ti k b bs rest h) (packet-Progress k b bs rest)
receive-Progress ti_none k (would_block ∷ rest) h g ne = absurd (cc)
receive-Progress ti_fd k (would_block ∷ rest) h g ne = waits rest refl (omega arith) (omega arith)
receive-Progress ti_libssh k (would_block ∷ rest) h g ne =
    waits rest refl (omega arith) (omega arith)
receive-Progress ti_openssl k (would_block ∷ rest) h g ne =
    waits rest refl (omega arith) (omega arith)
receive-Progress ti_none k (interrupted ∷ rest) h g ne = absurd (cc)
receive-Progress ti_fd k (interrupted ∷ rest) h g ne = retries rest refl (omega arith) refl
receive-Progress ti_libssh k (interrupted ∷ rest) h g ne = absurd (cc g.0)
receive-Progress ti_openssl k (interrupted ∷ rest) h g ne = absurd (cc g.0)
receive-Progress ti_libssh k (no_bytes false ∷ rest) h g ne =
    waits rest refl (omega arith) (omega arith)
receive-Progress ti_none k (no_bytes false ∷ rest) h g ne = absurd (cc g.0)
receive-Progress ti_fd k (no_bytes false ∷ rest) h g ne = absurd (cc g.0)
receive-Progress ti_openssl k (no_bytes false ∷ rest) h g ne = absurd (cc g.0)
receive-Progress ti_none k (no_bytes true ∷ rest) h g ne = absurd (cc g.0)
receive-Progress ti_fd k (no_bytes true ∷ rest) h g ne = absurd (cc g.0)
receive-Progress ti_libssh k (no_bytes true ∷ rest) h g ne = absurd (cc g.0)
receive-Progress ti_openssl k (no_bytes true ∷ rest) h g ne = absurd (cc g.0)
receive-Progress ti_none k (broken ∷ rest) h g ne = absurd (cc g.0)
receive-Progress ti_fd k (broken ∷ rest) h g ne = absurd (cc g.0)
receive-Progress ti_libssh k (broken ∷ rest) h g ne = absurd (cc g.0)
receive-Progress ti_openssl k (broken ∷ rest) h g ne = absurd (cc g.0)

pub receive-IsSound :
    (ti : TransportImpl) (k : ℕ) (arrivals : List Arrival)
    → IsSound ti arrivals
    → IsSound ti (remaining (receive ti k arrivals) [])
unfolding receive
receive-IsSound ti_none k arrivals g = tt
receive-IsSound ti_fd k [] g = tt
receive-IsSound ti_fd k (packet b bs ∷ rest) g = push_back-IsSound ti_fd (drop k bs) rest g.1
receive-IsSound ti_fd k (would_block ∷ rest) g = g.1
receive-IsSound ti_fd k (interrupted ∷ rest) g = g.1
receive-IsSound ti_fd k (broken ∷ rest) g = tt
receive-IsSound ti_fd k (no_bytes true ∷ rest) g = tt
receive-IsSound ti_fd k (no_bytes false ∷ rest) g = tt
receive-IsSound ti_libssh k [] g = tt
receive-IsSound ti_libssh k (packet b bs ∷ rest) g =
    push_back-IsSound ti_libssh (drop k bs) rest g.1
receive-IsSound ti_libssh k (would_block ∷ rest) g = g.1
receive-IsSound ti_libssh k (interrupted ∷ rest) g = tt
receive-IsSound ti_libssh k (broken ∷ rest) g = tt
receive-IsSound ti_libssh k (no_bytes true ∷ rest) g = tt
receive-IsSound ti_libssh k (no_bytes false ∷ rest) g = g.1
receive-IsSound ti_openssl k [] g = tt
receive-IsSound ti_openssl k (packet b bs ∷ rest) g =
    push_back-IsSound ti_openssl (drop k bs) rest g.1
receive-IsSound ti_openssl k (would_block ∷ rest) g = g.1
receive-IsSound ti_openssl k (interrupted ∷ rest) g = tt
receive-IsSound ti_openssl k (broken ∷ rest) g = tt
receive-IsSound ti_openssl k (no_bytes true ∷ rest) g = tt
receive-IsSound ti_openssl k (no_bytes false ∷ rest) g = tt
