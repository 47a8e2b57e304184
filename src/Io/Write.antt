-- ===== src/Io/Write.antt =====
-- Writing to the transport: nc_session_is_connected, nc_write, nc_write_starttag_and_msg,
-- nc_write_endtag, nc_write_clb_flush and nc_write_clb of src/io.c.
-- A C result of -1 is `none`; any other is the number of bytes.
pub mod Up
pub mod Buffered
pub mod Core
pub mod Faults
use libnetconf.Common.{
  ℕ, zero, suc, ◌+◌, ◌*◌, Bool, true, false, ◌&&◌, ◌||◌, not, List, [], ◌∷◌, ◌++◌, length, take,
  ◌==◌, ltb, leb, min, if◌then◌else◌, Option, none, some,
}
use libnetconf.Common.Bytes.{Bytes, codes}
use libnetconf.Common.Decimal.{print_dec}
use libnetconf.Session.{
  Session, TransportImpl, ti_none, ti_fd, ti_libssh, ti_openssl, Version, version_10, version_11,
  Attempt, Poll, poll_interrupted, poll_failed, poll_events, Taken, all_taken, write_failed,
  part_taken, is_live, terminate, dropped,
}
use libnetconf.Io.Frame.{chunk_tag, newline, endtag}

-- The poll loop of nc_session_is_connected: EINTR polls again. Past the end of the list poll()
-- returns 0.
unfoldable pub poll_result : List Poll → Bool
poll_result [] = true
poll_result (poll_interrupted ∷ ps) = poll_result ps
poll_result (poll_failed ∷ ps) = false
poll_result (poll_events hung_up ∷ ps) = not hung_up

unfoldable pub nc_session_is_connected : TransportImpl → List Poll → Bool
unfolding poll_result
nc_session_is_connected ti_none ps = false
nc_session_is_connected ti_fd ps = poll_result ps
nc_session_is_connected ti_libssh ps = poll_result ps
nc_session_is_connected ti_openssl ps = poll_result ps

-- The write call of the transport. A part of the bytes may be taken.
abbrev pub send : Session → Taken → Bytes → Session × Option ℕ
send s write_failed buf = (s, none)
send s all_taken buf = (record s { outgoing = s.outgoing ++ buf }, some (length buf))
send s (part_taken n) buf =
    (record s { outgoing = s.outgoing ++ take n buf }, some (min n (length buf)))

-- Past the end of `attempts` the transport is in order.
abbrev pub sound_attempt : Attempt
sound_attempt = record {
  polls = [];
  channel_closed = false;
  channel_eof = false;
  taken = all_taken;
}

abbrev pub next_attempt : List Attempt → Attempt
next_attempt [] = sound_attempt
next_attempt (a ∷ rest) = a

abbrev pub later_attempts : List Attempt → List Attempt
later_attempts [] = []
later_attempts (a ∷ rest) = rest

-- The switch over the transport of nc_write.
unfoldable pub write_switch : TransportImpl → Session → Attempt → Bytes → Session × Option ℕ
write_switch ti_none s a buf = (s, none)
write_switch ti_fd s a buf = send s a.taken buf
write_switch ti_libssh s a buf =
    if a.channel_closed || a.channel_eof then (terminate s dropped, none) else send s a.taken buf
write_switch ti_openssl s a buf = send s a.taken buf

unfoldable pub write_live : Session → Attempt → Bytes → Session × Option ℕ
write_live s a buf =
    if nc_session_is_connected s.ti_type a.polls
    then write_switch s.ti_type s a buf
    else (terminate s dropped, none)

unfoldable pub nc_write : Session → Bytes → Session × Option ℕ
nc_write s buf =
    if is_live s.status
    then write_live (record s { attempts = later_attempts s.attempts }) (next_attempt s.attempts)
        buf
    else (s, none)

-- `if (c == -1) return -1; ret += c;`
abbrev pub add_result : ℕ → Session × Option ℕ → Session × Option ℕ
add_result n (s, none) = (s, none)
add_result n (s, some m) = (s, some (n + m))

-- The second write, behind the result of the first.
abbrev pub then_write : Session × Option ℕ → Bytes → Session × Option ℕ
then_write (s, none) buf = (s, none)
then_write (s, some n) buf = add_result n (nc_write s buf)

unfoldable pub nc_write_starttag_and_msg : Version → Session → Bytes → Session × Option ℕ
nc_write_starttag_and_msg version_10 s buf = add_result 0 (nc_write s buf)
nc_write_starttag_and_msg version_11 s buf =
    then_write (nc_write s (chunk_tag ++ (print_dec (length buf) ++ newline))) buf

unfoldable pub nc_write_endtag : Session → Session × Option ℕ
nc_write_endtag s = nc_write s (endtag s.version)

-- WRITE_BUFSIZE.
abbrev pub write_bufsize : ℕ
write_bufsize = 2 * 512

-- `struct wclb_arg`: `len` is the length of the list.
pub record WclbArg : Type 0 where
  pub session : Session
  pub buf : Bytes

abbrev pub flushed : Session × Option ℕ → WclbArg × Option ℕ
flushed (s, r) = (record { session = s; buf = [] }, r)

unfoldable pub nc_write_clb_flush : WclbArg → WclbArg × Option ℕ
nc_write_clb_flush w =
    if length w.buf == 0
    then (w, some 0)
    else flushed (nc_write_starttag_and_msg w.session.version w.session w.buf)

-- How `xmlcontent` is written.
unfoldable pub escape_byte : ℕ → Bytes
escape_byte c =
    if c == 38
    then codes "&amp;"
    else (if c == 60 then codes "&lt;" else (if c == 62 then codes "&gt;" else c ∷ []))

-- The buffer is flushed when fewer than six bytes are left.
abbrev pub make_room : WclbArg → WclbArg × Option ℕ
make_room w = if leb write_bufsize (length w.buf + 5) then nc_write_clb_flush w else (w, some 0)

-- The `for` loop over xmlcontent.
unfoldable pub escape_loop : WclbArg → ℕ → Bytes → WclbArg × Option ℕ
escape_loop w ret [] = (w, some ret)
escape_loop w ret (c ∷ cs) =
    let (w', r) = make_room w in
    elim r [
      | none ↦ (w', none)
      | some n ↦
          escape_loop (record w' { buf = w'.buf ++ escape_byte c }) (ret + length (escape_byte c))
            cs
    ]

-- A buffer larger than the whole of `warg->buf` is written directly.
abbrev pub put_directly : WclbArg → ℕ → Bytes → WclbArg × Option ℕ
put_directly w ret buf =
    let (s, r) = add_result ret (nc_write_starttag_and_msg w.session.version w.session buf) in
    (record w { session = s }, r)

-- The part of nc_write_clb behind the first flush.
unfoldable pub put : WclbArg → ℕ → Bytes → Bool → WclbArg × Option ℕ
put w ret buf true = escape_loop w ret buf
put w ret buf false =
    if ltb write_bufsize (length buf)
    then put_directly w ret buf
    else (record w { buf = w.buf ++ buf }, some (ret + length buf))

abbrev pub put_after : WclbArg × Option ℕ → Bytes → Bool → WclbArg × Option ℕ
put_after (w, none) buf xmlcontent = (w, none)
put_after (w, some ret) buf xmlcontent = put w ret buf xmlcontent

-- nc_write_clb with a buffer.
unfoldable pub nc_write_clb : WclbArg → Bytes → Bool → WclbArg × Option ℕ
nc_write_clb w buf xmlcontent =
    put_after
      (if not (length w.buf == 0) && ltb write_bufsize (length w.buf + length buf)
        then nc_write_clb_flush w
        else (w, some 0))
      buf xmlcontent

abbrev pub endtag_after : WclbArg × Option ℕ → WclbArg × Option ℕ
endtag_after (w, none) = (w, none)
endtag_after (w, some ret) =
    let (s, r) = add_result ret (nc_write_endtag w.session) in (record w { session = s }, r)

-- nc_write_clb with `buf` NULL: the rest of the buffer and the end tag.
unfoldable pub nc_write_clb_end : WclbArg → WclbArg × Option ℕ
nc_write_clb_end w = endtag_after (nc_write_clb_flush w)
