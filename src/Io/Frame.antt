-- ===== src/Io/Frame.antt =====
-- Message framing: the part of nc_read_msg (src/io.c) that takes one message off the transport,
-- and the framing of RFC 6242 that it has to understand.
pub mod Decode
pub mod Overrun
pub mod Ends
pub mod Core
use libnetconf.Common.{
  ℕ, zero, suc, ◌-◌, List, [], ◌∷◌, ◌++◌, length, take, ◌==◌, if◌then◌else◌, Option, none, some,
  true, false,
}
use libnetconf.Common.Bytes.{Bytes, codes, bytes_eq}
use libnetconf.Common.Decimal.{strtoul, print_dec}
use libnetconf.Session.{Version, version_10, version_11}
use libnetconf.Io.Read.{Reader, ◌>>=◌, ◌>>◌, return, nc_read_until, nc_read_chunk, stuck}

-- NC_VERSION_10_ENDTAG.
abbrev pub endtag_10 : Bytes
endtag_10 = codes "]]>]]>"

-- "\n#", "\n", "#\n" and "\n##\n".
abbrev pub chunk_tag : Bytes
chunk_tag = 10 ∷ 35 ∷ []

abbrev pub newline : Bytes
newline = 10 ∷ []

abbrev pub last_chunk : Bytes
last_chunk = 35 ∷ 10 ∷ []

abbrev pub endtag_11 : Bytes
endtag_11 = 10 ∷ 35 ∷ 35 ∷ 10 ∷ []

-- `malformed` is the jump to `malformed_msg`; the jump to `error` is the reader's error.
pub data Framed : Type 0 where
  message : Bytes → Framed
  malformed : Framed

-- The `while (1)` loop for version 1.1. `msg` is NULL before the first chunk.
unfoldable pub chunk_loop : ℕ → ℕ → Option Bytes → Reader Framed
chunk_loop zero fuel msg = λ s t. stuck
chunk_loop (suc rounds) fuel msg = do
  nc_read_until fuel chunk_tag 0
  chunk ← nc_read_until fuel newline 0
  elim (bytes_eq chunk last_chunk) [
    | true ↦ elim msg [ none ↦ return malformed | some m ↦ return (message m) ]
    | false ↦ elim (strtoul chunk) [
      | zero ↦ return malformed
      | suc n ↦ do
        body ← nc_read_chunk fuel (suc n)
        chunk_loop rounds fuel (some (elim msg [ none ↦ body | some m ↦ m ++ body ]))
    ]
  ]

-- The switch over the version. The end tag of version 1.0 is cut off.
unfoldable pub read_framed : ℕ → Version → Reader Framed
read_framed fuel version_10 = do
  msg ← nc_read_until fuel endtag_10 0
  return (message (take (length msg - 6) msg))
read_framed fuel version_11 = chunk_loop fuel fuel none

-- What a message looks like on the wire, cut into the given chunks.
unfoldable pub frame : Version → Bytes → Bytes
unfolding print_dec
frame version_10 c = c
frame version_11 c = chunk_tag ++ (print_dec (length c) ++ (newline ++ c))

unfoldable pub frames : Version → List Bytes → Bytes
unfolding frame
frames v [] = []
frames v (c ∷ cs) = frame v c ++ frames v cs

abbrev pub endtag : Version → Bytes
endtag version_10 = endtag_10
endtag version_11 = endtag_11
