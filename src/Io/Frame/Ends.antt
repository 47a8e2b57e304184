-- ===== src/Io/Frame/Ends.antt =====
-- Taking a message off the transport ends on every input.
use libnetconf.Common.{
  ℕ, zero, suc, ◌+◌, ◌<◌, ◌≡◌, refl, sym, subst, Bool, true, false, ◌++◌, arith, Option, none, some,
}
use libnetconf.Common.Bytes.{Bytes, bytes_eq}
use libnetconf.Common.Decimal.{strtoul}
use libnetconf.Session.{Session, Version, version_10, version_11}
use libnetconf.Io.Read.{Reader, nc_read_until, nc_read_chunk, return, ◌>>=◌}
use libnetconf.Io.Read.Total.{budget}
use libnetconf.Io.Read.Ends.{
  Keeps, Keeps-weaker, >>=-Keeps, nc_read_until-Keeps, nc_read_chunk-Keeps,
}
use libnetconf.Io.Frame.{
  Framed, message, malformed, chunk_loop, read_framed, chunk_tag, newline, last_chunk, endtag_10,
}

abbrev LoopEnds : ℕ → ℕ → Type 0
LoopEnds rounds fuel =
    (msg : Option Bytes) (s : Session) (t : ℕ)
    → budget s t < fuel
    → budget s t < rounds
    → t < 65536
    → Keeps s t 0 (chunk_loop rounds fuel msg s t)

-- What is done behind a size line: `chunk_loop` from its second read on.
abbrev after_line : ℕ → ℕ → Option Bytes → Bytes → Reader Framed
after_line rounds fuel msg chunk = elim (bytes_eq chunk last_chunk) [
  | true ↦ elim msg [ none ↦ return malformed | some m ↦ return (message m) ]
  | false ↦ elim (strtoul chunk) [
    | zero ↦ return malformed
    | suc n ↦ nc_read_chunk fuel (suc n) >>= λ body.
        chunk_loop rounds fuel (some (elim msg [ none ↦ body | some m ↦ m ++ body ]))
  ]
]

after_line-Keeps :
    (rounds fuel : ℕ) (msg : Option Bytes) (chunk : Bytes) (s : Session) (t : ℕ)
    → LoopEnds rounds fuel
    → budget s t < fuel
    → budget s t < rounds
    → t < 65536
    → Keeps s t 0 (after_line rounds fuel msg chunk s t)
after_line-Keeps rounds fuel msg chunk s t ih b c l = go (bytes_eq chunk last_chunk) (strtoul chunk)
  where
    go :
        (is_last : Bool) (size : ℕ)
        → Keeps s t 0 (
            (elim is_last as (λ x. Reader Framed) [
              | true ↦ elim msg [ none ↦ return malformed | some m ↦ return (message m) ]
              | false ↦ elim size [
                | zero ↦ return malformed
                | suc n ↦ nc_read_chunk fuel (suc n) >>= λ body.
                    chunk_loop rounds fuel (some (elim msg [ none ↦ body | some m ↦ m ++ body ]))
              ]
            ])
              s t)
    go true size =
        elim msg
          as (λ x. Keeps s t 0 (
            (elim x as (λ z. Reader Framed) [
              | none ↦ return malformed
              | some m ↦ return (message m)
            ])
              s t)) [ none ↦ (refl, omega arith, l) | some m ↦ (refl, omega arith, l) ]
    go false zero = (refl, omega arith, l)
    go false (suc n) =
        >>=-Keeps (nc_read_chunk fuel (suc n)) _ s t 0 0 (nc_read_chunk-Keeps fuel (suc n) s t b l)
          (λ body s' t' e b' l'. ih _ s' t' (omega arith) (omega arith) l')

chunk_loop-step :
    (rounds fuel : ℕ) (msg : Option Bytes) (s : Session) (t : ℕ)
    → chunk_loop (suc rounds) fuel msg s t
      ≡ (nc_read_until fuel chunk_tag 0 >>= λ _.
            nc_read_until fuel newline 0 >>= after_line rounds fuel msg)
          s t
unfolding chunk_loop
chunk_loop-step rounds fuel msg s t = refl

chunk_loop-Keeps : (rounds fuel : ℕ) → LoopEnds rounds fuel
chunk_loop-Keeps zero fuel msg s t b c l = absurd (omega arith)
chunk_loop-Keeps (suc rounds) fuel msg s t b c l =
    subst (Keeps s t 0) (sym (chunk_loop-step rounds fuel msg s t)) (
      Keeps-weaker s t 0 (1 + (1 + 0)) _ (omega arith) (
        >>=-Keeps (nc_read_until fuel chunk_tag 0) _ s t 1 (1 + 0)
          (nc_read_until-Keeps fuel chunk_tag 0 s t b l)
          (λ _ s1 t1 e1 b1 l1.
            >>=-Keeps (nc_read_until fuel newline 0) _ s1 t1 1 0
              (nc_read_until-Keeps fuel newline 0 s1 t1 (omega arith) l1)
              (λ chunk s2 t2 e2 b2 l2.
                after_line-Keeps rounds fuel msg chunk s2 t2 (chunk_loop-Keeps rounds fuel)
                  (omega arith) (omega arith) l2))))

-- With more fuel than the arrivals and the timeout have rounds, taking a message off the transport
-- ends, for either version and whatever arrives: with a message, a malformed one, a failed read or
-- an overrun chunk buffer. Unless a chunk overran its buffer, the session is as it was but for the
-- bytes it has read and, where the read failed, for its termination.
pub read_framed-Keeps :
    (fuel : ℕ) (v : Version) (s : Session) (t : ℕ)
    → budget s t < fuel
    → t < 65536
    → Keeps s t 0 (read_framed fuel v s t)
unfolding read_framed
read_framed-Keeps fuel version_10 s t b l = Keeps-weaker s t 0 (1 + 0) _ (omega arith) (
    >>=-Keeps (nc_read_until fuel endtag_10 0) _ s t 1 0
      (nc_read_until-Keeps fuel endtag_10 0 s t b l) (λ msg s' t' e b' l'. (refl, omega arith, l')))
read_framed-Keeps fuel version_11 s t b l = chunk_loop-Keeps fuel fuel none s t b b l
