-- ===== src/Io/Frame/Core.antt =====
-- Taking a message off the transport changes a session as reading does.
use libnetconf.Common.{ℕ, zero, suc, ◌-◌, true, false, ◌++◌, length, take, Option, none, some}
use libnetconf.Common.Bytes.{Bytes, bytes_eq}
use libnetconf.Common.Decimal.{strtoul}
use libnetconf.Session.{Version, version_10, version_11}
use libnetconf.Io.Read.{Reader, ◌>>=◌, return, nc_read_until, nc_read_chunk}
use libnetconf.Io.Read.Core.{
  Steady, >>=-Steady, return-Steady, nc_read_until-Steady, nc_read_chunk-Steady,
}
use libnetconf.Io.Frame.{
  Framed, message, malformed, chunk_loop, read_framed, endtag_10, chunk_tag, newline, last_chunk,
}

abbrev at_end : Option Bytes → Reader Framed
at_end msg = elim msg [ none ↦ return malformed | some m ↦ return (message m) ]

at_end-Steady : (msg : Option Bytes) → Steady (at_end msg)
at_end-Steady none = return-Steady malformed
at_end-Steady (some m) = return-Steady (message m)

abbrev sized : (rounds fuel : ℕ) → Option Bytes → ℕ → Reader Framed
sized rounds fuel msg size = elim size [
  | zero ↦ return malformed
  | suc n ↦ nc_read_chunk fuel (suc n) >>= λ body.
      chunk_loop rounds fuel (some (elim msg [ none ↦ body | some m ↦ m ++ body ]))
]

sized-Steady :
    (rounds fuel : ℕ) (msg : Option Bytes) (size : ℕ)
    → ((m : Option Bytes) → Steady (chunk_loop rounds fuel m))
    → Steady (sized rounds fuel msg size)
sized-Steady rounds fuel msg zero ih = return-Steady malformed
sized-Steady rounds fuel msg (suc n) ih =
    >>=-Steady (nc_read_chunk fuel (suc n)) _ (nc_read_chunk-Steady fuel (suc n)) (λ body. ih _)

abbrev after_size : (rounds fuel : ℕ) → Option Bytes → Bytes → Reader Framed
after_size rounds fuel msg chunk = elim (bytes_eq chunk last_chunk) [
  | true ↦ at_end msg
  | false ↦ sized rounds fuel msg (strtoul chunk)
]

after_size-Steady :
    (rounds fuel : ℕ) (msg : Option Bytes) (chunk : Bytes)
    → ((m : Option Bytes) → Steady (chunk_loop rounds fuel m))
    → Steady (after_size rounds fuel msg chunk)
after_size-Steady rounds fuel msg chunk ih =
    elim (bytes_eq chunk last_chunk)
      as (λ b. Steady (elim b as (λ z. Reader Framed) [
        | true ↦ at_end msg
        | false ↦ sized rounds fuel msg (strtoul chunk)
      ])) [ true ↦ at_end-Steady msg | false ↦ sized-Steady rounds fuel msg (strtoul chunk) ih ]

chunk_loop-Steady : (rounds fuel : ℕ) (msg : Option Bytes) → Steady (chunk_loop rounds fuel msg)
unfolding chunk_loop
chunk_loop-Steady zero fuel msg = λ s t. tt
chunk_loop-Steady (suc rounds) fuel msg =
    >>=-Steady (nc_read_until fuel chunk_tag 0) _ (nc_read_until-Steady fuel chunk_tag 0) λ _.
      >>=-Steady (nc_read_until fuel newline 0) (after_size rounds fuel msg)
        (nc_read_until-Steady fuel newline 0)
        (λ chunk. after_size-Steady rounds fuel msg chunk (chunk_loop-Steady rounds fuel))

pub read_framed-Steady : (fuel : ℕ) (v : Version) → Steady (read_framed fuel v)
unfolding read_framed
read_framed-Steady fuel version_10 =
    >>=-Steady (nc_read_until fuel endtag_10 0) _ (nc_read_until-Steady fuel endtag_10 0)
      (λ msg. return-Steady (message (take (length msg - 6) msg)))
read_framed-Steady fuel version_11 = chunk_loop-Steady fuel fuel none
