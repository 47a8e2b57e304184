-- ===== src/Examples/Reading.antt =====
-- The reader on short streams.
use libnetconf.Common.{◌-◌, ◌^◌, ◌≡◌, ◌⊎◌, refl, true, false, [], ◌∷◌, ◌++◌, arith}
use libnetconf.Common.Bytes.{codes, ends_with, bytes_eq}
use libnetconf.Common.Decimal.{print_dec}
use libnetconf.Session.{Session, packet, would_block, interrupted, is_live, version_10, version_11}
use libnetconf.Io.Read.{nc_read, error}
use libnetconf.Io.Read.Stream.{weight}
use libnetconf.Io.Read.Total.{Allowed, nc_read_total}
use libnetconf.Io.Read.Exact.{IsReady, Finishes, nc_read_exact}
use libnetconf.Io.Read.Until.{first_end}
use libnetconf.Io.Read.Ends.{Keeps}
use libnetconf.Io.Frame.{read_framed, frames, endtag, endtag_10, chunk_tag, newline}
use libnetconf.Io.Frame.Ends.{read_framed-Keeps}
use libnetconf.Examples.{session_with}

-- "abcd", in two packets.
abbrev abcd : Session
abcd = session_with (packet 97 (98 ∷ []) ∷ would_block ∷ interrupted ∷ packet 99 (100 ∷ []) ∷ [])

abcd-IsReady : IsReady abcd 1 ((97 ∷ 98 ∷ 99 ∷ []) ++ (100 ∷ []))
abcd-IsReady = record {
  live = refl;
  connected = refl;
  sound = (refl, (refl, (refl, (refl, tt))));
  to_come = refl;
  patient = omega arith;
  in_range = omega arith;
}

nc_read_exact_example :
    Finishes abcd [] (97 ∷ 98 ∷ 99 ∷ []) (100 ∷ []) (weight abcd.incoming) (nc_read 9 3 abcd 1)
nc_read_exact_example =
    nc_read_exact 9 abcd 1 (97 ∷ 98 ∷ 99 ∷ []) (100 ∷ []) abcd-IsReady (omega arith)

nc_read_total_example :
    ((is_live abcd.status ≡ true) × Allowed abcd 1 0 3 (nc_read 60000 3 abcd 1))
    ⊎ ((is_live abcd.status ≡ false) × (nc_read 60000 3 abcd 1 ≡ error abcd))
nc_read_total_example = nc_read_total 60000 3 abcd 1 (omega arith) (omega arith)

nc_read_until_exact_first : first_end (98 ∷ 99 ∷ []) [] (97 ∷ 98 ∷ 99 ∷ []) ≡ true
unfolding first_end ends_with bytes_eq
nc_read_until_exact_first = refl

read_framed-Keeps_example : Keeps abcd 1 0 (read_framed 60000 version_11 abcd 1)
read_framed-Keeps_example = read_framed-Keeps 60000 version_11 abcd 1 (omega arith) (omega arith)

-- A message "ab" with the end tag of version 1.0, and "c" behind it.
abbrev old_message : Session
old_message = session_with (packet 97 (98 ∷ endtag_10) ∷ would_block ∷ packet 99 [] ∷ [])

read_framed_10_first : first_end endtag_10 [] ((97 ∷ 98 ∷ []) ++ endtag_10) ≡ true
unfolding first_end ends_with bytes_eq
read_framed_10_first = refl

read_framed_10-IsReady : IsReady old_message 1 ((97 ∷ 98 ∷ []) ++ (endtag version_10 ++ (99 ∷ [])))
read_framed_10-IsReady = record {
  live = refl;
  connected = refl;
  sound = (refl, (refl, (refl, tt)));
  to_come = refl;
  patient = omega arith;
  in_range = omega arith;
}

-- "ab" and "c" in a chunk each.
abbrev two_chunks : Session
two_chunks = session_with (
    packet 10 (35 ∷ codes "2")
    ∷ would_block
    ∷ packet 10 (97 ∷ 98 ∷ 10 ∷ 35 ∷ codes "1")
    ∷ packet 10 (99 ∷ 10 ∷ 35 ∷ 35 ∷ 10 ∷ [])
    ∷ [])

read_framed_11-IsReady :
    IsReady two_chunks 1
      (frames version_11 (codes "ab" ∷ codes "c" ∷ []) ++ (endtag version_11 ++ []))
unfolding frames
read_framed_11-IsReady = record {
  live = refl;
  connected = refl;
  sound = (refl, (refl, (refl, (refl, tt))));
  to_come = refl;
  patient = omega arith;
  in_range = omega arith;
}

-- A chunk that claims 2 ^ 64 - 1 bytes.
abbrev huge_chunk : Session
huge_chunk = session_with (packet 10 (35 ∷ (codes "18446744073709551615" ++ (10 ∷ codes "x"))) ∷ [])

read_framed_overrun-IsReady :
    IsReady huge_chunk 1 (chunk_tag ++ ((print_dec (2 ^ 64 - 1) ++ newline) ++ codes "x"))
unfolding print_dec
read_framed_overrun-IsReady = record {
  live = refl;
  connected = refl;
  sound = (refl, tt);
  to_come = refl;
  patient = omega arith;
  in_range = omega arith;
}
