-- ===== src/Io/Read/Ends.antt =====
-- nc_read_until and nc_read_chunk end on every input, and leave the session as nc_read may.
use libnetconf.Common.{
  ℕ, zero, suc, ◌+◌, ◌≤◌, ◌<◌, ◌≡◌, ◌⊎◌, inl, inr, refl, sym, ◌∙◌, ap, subst, false, [], ◌∷◌, ◌++◌,
  length, arith, Bool-cases, leb, ◌&&◌, not, ◌==◌,
}
use libnetconf.Common.Bytes.{Bytes, ends_with}
use libnetconf.Session.{Session, terminate, dropped, other}
use libnetconf.Io.Read.{
  Result, Reader, ok, error, fault, stuck, nc_read, until_loop, nc_read_until, nc_read_chunk,
  chunk_alloc, ◌>>=◌,
}
use libnetconf.Io.Read.Total.{budget, Allowed, nc_read_total}

-- What a reader may do: read on, by `w` rounds at least; or fail, with the session read from
-- further and perhaps made invalid; or overrun a buffer. It ends.
abbrev pub Keeps : {A : Type 0} → Session → ℕ → ℕ → Result A → Type 0
Keeps s t w (ok a s' t') =
    (s' ≡ record s { incoming = s'.incoming }) × (budget s' t' + w ≤ budget s t) × (t' < 65536)
Keeps s t w (error s') =
    (s' ≡ record s { incoming = s'.incoming })
    ⊎ ((s' ≡ terminate (record s { incoming = s'.incoming }) dropped)
        ⊎ (s' ≡ terminate (record s { incoming = s'.incoming }) other))
Keeps s t w fault = Unit {0}
Keeps s t w stuck = ⊥

-- What a later part may do, the whole may.
pub Keeps-later :
    {A : Type 0} (s s1 : Session) (t t1 w w1 : ℕ) (r : Result A)
    → s1 ≡ record s { incoming = s1.incoming }
    → budget s1 t1 + w1 ≤ budget s t
    → Keeps s1 t1 w r
    → Keeps s t (w1 + w) r
Keeps-later s s1 t t1 w w1 (ok a s' t') e b k =
    (k.0 ∙ ap (λ (x : Session). record x { incoming = s'.incoming }) e, omega (arith, k.1), k.2)
Keeps-later s s1 t t1 w w1 (error s') e b (inl k) =
    inl (k ∙ ap (λ (x : Session). record x { incoming = s'.incoming }) e)
Keeps-later s s1 t t1 w w1 (error s') e b (inr (inl k)) =
    inr (inl (k ∙ ap (λ (x : Session). terminate (record x { incoming = s'.incoming }) dropped) e))
Keeps-later s s1 t t1 w w1 (error s') e b (inr (inr k)) =
    inr (inr (k ∙ ap (λ (x : Session). terminate (record x { incoming = s'.incoming }) other) e))
Keeps-later s s1 t t1 w w1 fault e b k = tt
Keeps-later s s1 t t1 w w1 stuck e b k = k

pub Keeps-weaker :
    {A : Type 0} (s : Session) (t w w1 : ℕ) (r : Result A) → w ≤ w1 → Keeps s t w1 r → Keeps s t w r
Keeps-weaker s t w w1 (ok a s' t') h k = (k.0, omega (arith, k.1), k.2)
Keeps-weaker s t w w1 (error s') h k = k
Keeps-weaker s t w w1 fault h k = k
Keeps-weaker s t w w1 stuck h k = k

-- A sequence keeps the rule if its parts do; `w` rounds go by in the first.
pub >>=-Keeps :
    {A B : Type 0} (m : Reader A) (f : A → Reader B) (s : Session) (t w w2 : ℕ)
    → Keeps s t w (m s t)
    → ((a : A) (s' : Session) (t' : ℕ)
        → m s t ≡ ok a s' t'
        → budget s' t' + w ≤ budget s t
        → t' < 65536
        → Keeps s' t' w2 (f a s' t'))
    → Keeps s t (w + w2) ((m >>= f) s t)
>>=-Keeps m f s t w w2 k g = go (m s t) refl k
  where
    go : (r : Result _) → m s t ≡ r → Keeps s t w r → Keeps s t (w + w2) ((m >>= f) s t)
    go (ok a s' t') e k =
        rw (e, ◌>>=◌) (Keeps-later s s' t t' w2 w (f a s' t') k.0 k.1 (g a s' t' e k.1 k.2))
    go (error s') e k = rw (e, ◌>>=◌) k
    go fault e k = rw (e, ◌>>=◌) tt
    go stuck e k = absurd k

-- One read of a byte or more behind nc_read_total: each byte is a round.
abbrev pub KeepsBytes : Session → ℕ → Result Bytes → Type 0
KeepsBytes s t (ok bs s' t') =
    (s' ≡ record s { incoming = s'.incoming })
    × (budget s' t' + length bs ≤ budget s t)
    × (t' < 65536)
KeepsBytes s t r = Keeps s t 0 r

pub nc_read-KeepsBytes :
    (fuel count : ℕ) (s : Session) (t : ℕ)
    → budget s t < fuel
    → t < 65536
    → KeepsBytes s t (nc_read fuel count s t)
nc_read-KeepsBytes fuel count s t b l = elim (nc_read_total fuel count s t b l) [
  | inl (_, a) ↦ go (nc_read fuel count s t) a
  | inr (_, e) ↦ subst (KeepsBytes s t) (sym e) (inl refl)
]
  where
    go : (r : Result Bytes) → Allowed s t 0 count r → KeepsBytes s t r
    go (ok bs s' t') a = (a.0, omega (arith, a.2), a.3)
    go (error s') a = inr a
    go fault a = absurd a
    go stuck a = absurd a

abbrev UntilEnds : ℕ → ℕ → Bytes → ℕ → Type 0
UntilEnds rounds fuel endtag limit =
    (acc : Bytes) (s : Session) (t : ℕ)
    → budget s t < fuel
    → budget s t < rounds
    → t < 65536
    → Keeps s t 1 (until_loop rounds fuel endtag limit acc s t)

-- What the loop does with the result of its read.
until_round :
    (rounds fuel limit : ℕ) (endtag acc : Bytes) (s : Session) (t : ℕ)
    → UntilEnds rounds fuel endtag limit
    → budget s t < fuel
    → budget s t < suc rounds
    → (not (limit == 0) && length acc == limit) ≡ false
    → (r : Result Bytes) → nc_read fuel 1 s t ≡ r
    → KeepsBytes s t r
    → Keeps s t 1 (until_loop (suc rounds) fuel endtag limit acc s t)
unfolding until_loop
until_round rounds fuel limit endtag acc s t ih b c d (ok [] s' t') e k = rw (d, e, ◌>>=◌) (inl k.0)
until_round rounds fuel limit endtag acc s t ih b c d (ok (x ∷ y ∷ bs) s' t') e k =
    rw (d, e, ◌>>=◌) (inl k.0)
until_round rounds fuel limit endtag acc s t ih b c d (ok (x ∷ []) s' t') e k =
    elim (Bool-cases (ends_with endtag (acc ++ (x ∷ [])))) [
      | inl found ↦ rw (d, e, ◌>>=◌, found) (k.0, k.1, k.2)
      | inr more ↦
          rw (d, e, ◌>>=◌, more)
            (Keeps-weaker s t 1 (1 + 1) _ (omega arith) (
              Keeps-later s s' t t' 1 1 _ k.0 k.1
                (ih (acc ++ (x ∷ [])) s' t' (omega (arith, k.1)) (omega (arith, k.1)) k.2)))
    ]
until_round rounds fuel limit endtag acc s t ih b c d (error s') e k = rw (d, e, ◌>>=◌) k
until_round rounds fuel limit endtag acc s t ih b c d fault e k = rw (d, e, ◌>>=◌) tt
until_round rounds fuel limit endtag acc s t ih b c d stuck e k = absurd k

until_loop-Keeps : (rounds fuel limit : ℕ) (endtag : Bytes) → UntilEnds rounds fuel endtag limit
until_loop-Keeps zero fuel limit endtag acc s t b c l = absurd (omega arith)
until_loop-Keeps (suc rounds) fuel limit endtag acc s t b c l =
    elim (Bool-cases (not (limit == 0) && length acc == limit)) [
      | inl full ↦ unfold until_loop in rw full (inl refl)
      | inr d ↦
          until_round rounds fuel limit endtag acc s t (until_loop-Keeps rounds fuel limit endtag) b
            c d (nc_read fuel 1 s t) refl (nc_read-KeepsBytes fuel 1 s t b l)
    ]

-- nc_read_until ends on every input; it uses up a byte at least, or fails.
pub nc_read_until-Keeps :
    (fuel : ℕ) (endtag : Bytes) (limit : ℕ) (s : Session) (t : ℕ)
    → budget s t < fuel
    → t < 65536
    → Keeps s t 1 (nc_read_until fuel endtag limit s t)
unfolding nc_read_until
nc_read_until-Keeps fuel endtag limit s t b l = until_loop-Keeps fuel fuel limit endtag [] s t b b l

-- So does nc_read_chunk, or it overruns its buffer.
pub nc_read_chunk-Keeps :
    (fuel len : ℕ) (s : Session) (t : ℕ)
    → budget s t < fuel
    → t < 65536
    → Keeps s t 0 (nc_read_chunk fuel len s t)
unfolding nc_read_chunk
nc_read_chunk-Keeps fuel zero s t b l = (refl, omega arith, l)
nc_read_chunk-Keeps fuel (suc k) s t b l = elim (Bool-cases (leb (chunk_alloc (suc k)) k)) [
  | inl small ↦ rw (small, ◌>>=◌) tt
  | inr fits ↦ go fits (nc_read fuel (suc k) s t) refl (nc_read-KeepsBytes fuel (suc k) s t b l)
]
  where
    go :
        leb (chunk_alloc (suc k)) k ≡ false
        → (r : Result Bytes) → nc_read fuel (suc k) s t ≡ r
        → KeepsBytes s t r
        → Keeps s t 0 (nc_read_chunk fuel (suc k) s t)
    go fits (ok [] s' t') e h = rw fits (rw (e, ◌>>=◌) (inl h.0))
    go fits (ok (x ∷ bs) s' t') e h = rw fits (rw (e, ◌>>=◌) (h.0, omega (arith, h.1), h.2))
    go fits (error s') e h = rw fits (rw (e, ◌>>=◌) h)
    go fits fault e h = rw fits (rw (e, ◌>>=◌) tt)
    go fits stuck e h = absurd h
