-- ===== src/Io/Read/Core.antt =====
-- Reading changes a session's status and the reason of its end at most.
use libnetconf.Common.{
  ℕ, zero, suc, ◌-◌, ◌≡◌, refl, ◌∙◌, Bool, true, false, List, [], ◌∷◌, ◌++◌, length, ◌==◌, leb,
  ◌&&◌, not, if◌then◌else◌,
}
use libnetconf.Common.Bytes.{Bytes, ends_with}
use libnetconf.Session.{Session, Arrival, is_live}
use libnetconf.Session.Core.{core}
use libnetconf.Io.Read.{
  Result, ok, error, fault, stuck, Reader, ◌>>=◌, return, fail, Received, bytes, nothing, again,
  at_end, failed, no_transport, receive, left_after, slept, read_loop, nc_read, chunk_alloc,
  nc_read_chunk, until_loop, nc_read_until,
}

abbrev pub Stays : {A : Type 0} → Session → Result A → Type 0
Stays s (ok a s' t') = core s' ≡ core s
Stays s (error s') = core s' ≡ core s
Stays s fault = Unit {0}
Stays s stuck = Unit {0}

abbrev pub Steady : {A : Type 0} → Reader A → Type 0
Steady m = (s : Session) (t : ℕ) → Stays s (m s t)

Stays-later :
    {A : Type 0} (s s1 : Session) (r : Result A) → core s1 ≡ core s → Stays s1 r → Stays s r
Stays-later s s1 (ok a s' t') e k = k ∙ e
Stays-later s s1 (error s') e k = k ∙ e
Stays-later s s1 fault e k = tt
Stays-later s s1 stuck e k = tt

pub >>=-Steady :
    {A B : Type 0} (m : Reader A) (f : A → Reader B)
    → Steady m
    → ((a : A) → Steady (f a))
    → Steady (m >>= f)
>>=-Steady m f k g s t = go (m s t) refl (k s t)
  where
    go : (r : Result _) → m s t ≡ r → Stays s r → Stays s ((m >>= f) s t)
    go (ok a s' t') e h = rw (e, ◌>>=◌) (Stays-later s s' (f a s' t') h (g a s' t'))
    go (error s') e h = rw (e, ◌>>=◌) h
    go fault e h = rw (e, ◌>>=◌) tt
    go stuck e h = rw (e, ◌>>=◌) tt

pub return-Steady : {A : Type 0} (a : A) → Steady (return a)
return-Steady a s t = refl

pub fail-Steady : (A : Type 0) → Steady (fail {A = A})
fail-Steady A s t = refl

pub if-Steady :
    {A : Type 0} (b : Bool) (m n : Reader A) → Steady m → Steady n → Steady (if b then m else n)
if-Steady true m n k l = k
if-Steady false m n k l = l

abbrev LoopStays : ℕ → Type 0
LoopStays fuel =
    (count : ℕ) (acc : Bytes) (sleeps : ℕ) (s : Session) (t : ℕ)
    → Stays s (read_loop fuel count acc sleeps s t)

module _ (fuel k : ℕ) (acc : Bytes) (sleeps : ℕ) (s : Session) (t : ℕ) (ih : LoopStays fuel) where
  after_nothing :
      (rest : List Arrival) (l : ℕ)
      → receive s.ti_type k s.incoming ≡ nothing rest
      → left_after sleeps t ≡ l
      → Stays s (read_loop (suc fuel) (suc k) acc sleeps s t)
  unfolding read_loop
  after_nothing rest zero e h = rw (e, h, read_loop) refl
  after_nothing rest (suc l) e h =
      rw (e, h, read_loop) (ih (suc k) acc (slept sleeps) (record s { incoming = rest }) (suc l))

  one_round :
      (r : Received)
      → receive s.ti_type k s.incoming ≡ r
      → Stays s (read_loop (suc fuel) (suc k) acc sleeps s t)
  unfolding read_loop
  one_round (bytes bs rest) e =
      rw (e, read_loop) (ih (suc k - length bs) (acc ++ bs) sleeps (record s { incoming = rest }) t)
  one_round (nothing rest) e = after_nothing rest (left_after sleeps t) e refl
  one_round (again rest) e =
      rw (e, read_loop) (ih (suc k) acc sleeps (record s { incoming = rest }) t)
  one_round (at_end rest) e = rw (e, read_loop) refl
  one_round (failed rest) e = rw (e, read_loop) refl
  one_round no_transport e = rw (e, read_loop) refl

read_loop-Stays : (fuel : ℕ) → LoopStays fuel
read_loop-Stays zero count acc sleeps s t = unfold read_loop in tt
read_loop-Stays (suc fuel) zero acc sleeps s t = unfold read_loop in refl
read_loop-Stays (suc fuel) (suc k) acc sleeps s t =
    one_round fuel k acc sleeps s t (read_loop-Stays fuel) (receive s.ti_type k s.incoming) refl

pub nc_read-Steady : (fuel count : ℕ) → Steady (nc_read fuel count)
unfolding nc_read
nc_read-Steady fuel count s t =
    elim (is_live s.status)
      as (λ b. Stays s (if b then read_loop fuel count [] 0 s t else error s)) [
        | true ↦ read_loop-Stays fuel count [] 0 s t
        | false ↦ refl
      ]

checked-Steady :
    (chunk : Bytes)
    → Steady (elim chunk as (λ x. Reader Bytes) [ [] ↦ fail | b ∷ bs ↦ return (b ∷ bs) ])
checked-Steady [] = fail-Steady Bytes
checked-Steady (b ∷ bs) = return-Steady (b ∷ bs)

pub nc_read_chunk-Steady : (fuel len : ℕ) → Steady (nc_read_chunk fuel len)
unfolding nc_read_chunk
nc_read_chunk-Steady fuel zero = return-Steady {A = Bytes} []
nc_read_chunk-Steady fuel (suc k) =
    >>=-Steady _ _
      (if-Steady (leb (chunk_alloc (suc k)) k) (λ s t. fault) (nc_read fuel (suc k)) (λ s t. tt)
        (nc_read-Steady fuel (suc k)))
      checked-Steady

abbrev after_byte : (rounds fuel limit : ℕ) (endtag acc c : Bytes) → Reader Bytes
after_byte rounds fuel limit endtag acc c = elim c [
  | b ∷ [] ↦ elim (ends_with endtag (acc ++ (b ∷ []))) [
    | true ↦ return (acc ++ (b ∷ []))
    | false ↦ until_loop rounds fuel endtag limit (acc ++ (b ∷ []))
  ]
  | _ ↦ fail
]

after_byte-Steady :
    (rounds fuel limit : ℕ) (endtag acc c : Bytes)
    → ((acc : Bytes) → Steady (until_loop rounds fuel endtag limit acc))
    → Steady (after_byte rounds fuel limit endtag acc c)
after_byte-Steady rounds fuel limit endtag acc [] ih = fail-Steady Bytes
after_byte-Steady rounds fuel limit endtag acc (b ∷ c ∷ cs) ih = fail-Steady Bytes
after_byte-Steady rounds fuel limit endtag acc (b ∷ []) ih =
    elim (ends_with endtag (acc ++ (b ∷ [])))
      as (λ z. Steady (elim z as (λ y. Reader Bytes) [
        | true ↦ return (acc ++ (b ∷ []))
        | false ↦ until_loop rounds fuel endtag limit (acc ++ (b ∷ []))
      ])) [ true ↦ return-Steady (acc ++ (b ∷ [])) | false ↦ ih (acc ++ (b ∷ [])) ]

until_loop-Steady :
    (rounds fuel limit : ℕ) (endtag acc : Bytes) → Steady (until_loop rounds fuel endtag limit acc)
unfolding until_loop
until_loop-Steady zero fuel limit endtag acc = λ s t. tt
until_loop-Steady (suc rounds) fuel limit endtag acc =
    if-Steady (not (limit == 0) && length acc == limit) fail
      (nc_read fuel 1 >>= after_byte rounds fuel limit endtag acc) (fail-Steady Bytes)
      (>>=-Steady (nc_read fuel 1) (after_byte rounds fuel limit endtag acc) (nc_read-Steady fuel 1)
        (λ c.
          after_byte-Steady rounds fuel limit endtag acc c
            (until_loop-Steady rounds fuel limit endtag)))

pub nc_read_until-Steady :
    (fuel : ℕ) (endtag : Bytes) (limit : ℕ) → Steady (nc_read_until fuel endtag limit)
unfolding nc_read_until
nc_read_until-Steady fuel endtag limit = until_loop-Steady fuel fuel limit endtag []
