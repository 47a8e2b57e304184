-- ===== src/Io/Read.antt =====
-- Reading from the transport: nc_read, nc_read_chunk and nc_read_until of src/io.c.
-- A reader takes the session and the seconds left of the timeout, and returns them changed.
-- Allocation succeeds. `fault` is a write outside a buffer; `stuck` is no result of the program
-- but the end of the model's fuel.
pub mod Stream
pub mod Exact
pub mod Total
pub mod Until
pub mod Ends
pub mod Core
use libnetconf.Common.{
  ℕ, zero, suc, ◌+◌, ◌-◌, ◌*◌, ◌/◌, ◌%◌, ◌^◌, Bool, true, false, ◌&&◌, not, List, [], ◌∷◌, ◌++◌,
  length, take, drop, ◌==◌, leb, if◌then◌else◌,
}
use libnetconf.Common.Bytes.{Bytes, ends_with}
use libnetconf.Session.{
  Session, TransportImpl, ti_none, ti_fd, ti_libssh, ti_openssl, Arrival, packet, would_block,
  interrupted, broken, no_bytes, dropped, other, is_live, terminate,
}

pub data Result {ℓ} (A : Type ℓ) : Type ℓ where
  ok : A → Session → ℕ → Result A
  error : Session → Result A
  fault : Result A
  stuck : Result A

abbrev pub Reader : Type 0 → Type 0
Reader A = Session → ℕ → Result A

infixl 5 ◌>>=◌ ◌>>◌
abbrev pub ◌>>=◌ : {A B : Type 0} → Reader A → (A → Reader B) → Reader B
◌>>=◌ m f s t = elim (m s t) [
  | ok a s' t' ↦ f a s' t'
  | error s' ↦ error s'
  | fault ↦ fault
  | stuck ↦ stuck
]

abbrev pub ◌>>◌ : {A B : Type 0} → Reader A → Reader B → Reader B
m >> k = m >>= λ _. k

abbrev pub return : {A : Type 0} → A → Reader A
return a s t = ok a s t

abbrev pub fail : {A : Type 0} → Reader A
fail s t = error s

-- A read call leaves in the transport what it did not ask for.
unfoldable pub push_back : Bytes → List Arrival → List Arrival
push_back [] rest = rest
push_back (b ∷ bs) rest = packet b bs ∷ rest

-- What the switch over the transport makes of one read call for `suc k` bytes: bytes, nothing yet
-- (`r == 0` behind the switch), EINTR, the end of the input, a failure. Past the end of `incoming`
-- the peer sends nothing more.
pub data Received : Type 0 where
  bytes : Bytes → List Arrival → Received
  nothing again at_end failed : List Arrival → Received
  no_transport : Received

unfoldable pub receive : TransportImpl → ℕ → List Arrival → Received
unfolding push_back
receive ti_none k arrivals = no_transport
receive ti k [] = nothing []
receive ti k (packet b bs ∷ rest) = bytes (b ∷ take k bs) (push_back (drop k bs) rest)
receive ti k (would_block ∷ rest) = nothing rest
receive ti_fd k (interrupted ∷ rest) = again rest
receive ti k (interrupted ∷ rest) = failed rest
receive ti_libssh k (no_bytes false ∷ rest) = nothing rest
receive ti_openssl k (no_bytes false ∷ rest) = failed rest
receive ti k (no_bytes eof ∷ rest) = at_end rest
receive ti k (broken ∷ rest) = failed rest

-- `1000000 / NC_TIMEOUT_STEP`: the sleeps of 20 microseconds in a second.
abbrev pub steps_per_second : ℕ
steps_per_second = 1000000 / 20

-- `--(*read_timeout)` of a uint16_t.
abbrev pub decrement : ℕ → ℕ
decrement t = (t + 65535) % 65536

-- The counters after one more sleep.
abbrev pub slept : ℕ → ℕ
slept n = if suc n == steps_per_second then 0 else suc n

abbrev pub left_after : ℕ → ℕ → ℕ
left_after n t = if suc n == steps_per_second then decrement t else t

-- The `while (count)` loop of nc_read. `acc` is what `buf` holds so far.
unfoldable pub read_loop : ℕ → ℕ → Bytes → ℕ → Reader Bytes
unfolding receive
read_loop zero count acc sleeps s t = stuck
read_loop (suc fuel) zero acc sleeps s t = ok acc s t
read_loop (suc fuel) (suc k) acc sleeps s t = elim (receive s.ti_type k s.incoming) [
  | no_transport ↦ ok [] s t
  | bytes bs rest ↦
      read_loop fuel (suc k - length bs) (acc ++ bs) sleeps (record s { incoming = rest }) t
  | again rest ↦ read_loop fuel (suc k) acc sleeps (record s { incoming = rest }) t
  | at_end rest ↦ error (terminate (record s { incoming = rest }) dropped)
  | failed rest ↦ error (terminate (record s { incoming = rest }) other)
  | nothing rest ↦ elim (left_after sleeps t) [
    | zero ↦ error (terminate (record s { incoming = rest }) other)
    | suc t' ↦ read_loop fuel (suc k) acc (slept sleeps) (record s { incoming = rest }) (suc t')
  ]
]

-- nc_read. The result is what is in `buf`; its length is the C result.
unfoldable pub nc_read : ℕ → ℕ → Reader Bytes
unfolding read_loop
nc_read fuel count s t = if is_live s.status then read_loop fuel count [] 0 s t else error s

-- `(len + 1) * sizeof **chunk` of a size_t.
abbrev pub chunk_alloc : ℕ → ℕ
chunk_alloc len = (len + 1) % 2 ^ 64

-- nc_read_chunk. Where the buffer is smaller than `len` the read writes outside it.
unfoldable pub nc_read_chunk : ℕ → ℕ → Reader Bytes
nc_read_chunk fuel zero = return []
nc_read_chunk fuel (suc k) = do
  chunk ← if leb (chunk_alloc (suc k)) k then (λ s t. fault) else nc_read fuel (suc k)
  elim chunk [ [] ↦ fail | b ∷ bs ↦ return (b ∷ bs) ]

-- The `while (1)` loop of nc_read_until, one round a byte; `rounds` is the loop's fuel.
unfoldable pub until_loop : ℕ → ℕ → Bytes → ℕ → Bytes → Reader Bytes
until_loop zero fuel endtag limit acc = λ s t. stuck
until_loop (suc rounds) fuel endtag limit acc =
    if not (limit == 0) && length acc == limit then fail else do
      c ← nc_read fuel 1
      elim c [
        | b ∷ [] ↦ elim (ends_with endtag (acc ++ (b ∷ []))) [
          | true ↦ return (acc ++ (b ∷ []))
          | false ↦ until_loop rounds fuel endtag limit (acc ++ (b ∷ []))
        ]
        | _ ↦ fail
      ]

-- nc_read_until: the bytes up to the end tag, it included.
unfoldable pub nc_read_until : ℕ → Bytes → ℕ → Reader Bytes
nc_read_until fuel endtag limit = until_loop fuel fuel endtag limit []
