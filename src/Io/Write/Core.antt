-- ===== src/Io/Write/Core.antt =====
-- Writing changes a session's status and the reason of its end at most.
use libnetconf.Common.{
  ℕ, ◌≡◌, refl, ◌∙◌, ap, Bool, true, false, [], ◌∷◌, ◌++◌, length, ◌==◌, leb, ltb, ◌&&◌, not,
  Option, none, some, if◌then◌else◌, Bool-cases, Option-cases, inl, inr, ◌||◌, ◌+◌,
}
use libnetconf.Common.Bytes.{Bytes}
use libnetconf.Session.{
  Session, TransportImpl, ti_none, ti_fd, ti_libssh, ti_openssl, Version, version_10, version_11,
  Attempt, Taken, all_taken, part_taken, write_failed, is_live,
}
use libnetconf.Session.Core.{core}
use libnetconf.Io.Frame.{endtag}
use libnetconf.Io.Write.{
  WclbArg, write_bufsize, send, nc_write, write_live, write_switch, later_attempts, next_attempt,
  nc_session_is_connected, add_result, then_write, nc_write_starttag_and_msg, nc_write_endtag,
  flushed, nc_write_clb_flush, make_room, escape_byte, escape_loop, put_directly, put, put_after,
  nc_write_clb, endtag_after, nc_write_clb_end,
}

send-core : (s : Session) (taken : Taken) (buf : Bytes) → core (send s taken buf).0 ≡ core s
send-core s all_taken buf = refl
send-core s (part_taken n) buf = refl
send-core s write_failed buf = refl

write_switch-core :
    (ti : TransportImpl) (s : Session) (a : Attempt) (buf : Bytes)
    → core (write_switch ti s a buf).0 ≡ core s
unfolding write_switch
write_switch-core ti_none s a buf = refl
write_switch-core ti_fd s a buf = send-core s a.taken buf
write_switch-core ti_libssh s a buf = elim (Bool-cases (a.channel_closed || a.channel_eof)) [
  | inl b ↦ rw b refl
  | inr b ↦ rw b (send-core s a.taken buf)
]
write_switch-core ti_openssl s a buf = send-core s a.taken buf

write_live-core : (s : Session) (a : Attempt) (buf : Bytes) → core (write_live s a buf).0 ≡ core s
unfolding write_live
write_live-core s a buf = elim (Bool-cases (nc_session_is_connected s.ti_type a.polls)) [
  | inl b ↦ rw b (write_switch-core s.ti_type s a buf)
  | inr b ↦ rw b refl
]

pub nc_write-core : (s : Session) (buf : Bytes) → core (nc_write s buf).0 ≡ core s
unfolding nc_write
nc_write-core s buf = elim (Bool-cases (is_live s.status)) [
  | inl b ↦ rw b (
      write_live-core (record s { attempts = later_attempts s.attempts }) (next_attempt s.attempts)
        buf)
  | inr b ↦ rw b refl
]

add_result-core :
    (n : ℕ) (s : Session) (r : Session × Option ℕ)
    → core r.0 ≡ core s
    → core (add_result n r).0 ≡ core s
add_result-core n s (s', none) e = e
add_result-core n s (s', some m) e = e

then_write-core :
    (s : Session) (r : Session × Option ℕ) (buf : Bytes)
    → core r.0 ≡ core s
    → core (then_write r buf).0 ≡ core s
then_write-core s (s', none) buf e = e
then_write-core s (s', some n) buf e =
    add_result-core n s (nc_write s' buf) (nc_write-core s' buf ∙ e)

starttag-core :
    (v : Version) (s : Session) (buf : Bytes) → core (nc_write_starttag_and_msg v s buf).0 ≡ core s
unfolding nc_write_starttag_and_msg
starttag-core version_10 s buf = add_result-core 0 s (nc_write s buf) (nc_write-core s buf)
starttag-core version_11 s buf = then_write-core s _ buf (nc_write-core s _)

flushed-core : (r : Session × Option ℕ) → (flushed r).0.session ≡ r.0
flushed-core (s, r) = refl

flush-core : (w : WclbArg) → core (nc_write_clb_flush w).0.session ≡ core w.session
unfolding nc_write_clb_flush
flush-core w = elim (Bool-cases (length w.buf == 0)) [
  | inl b ↦ rw b refl
  | inr b ↦ rw b (
      ap core (flushed-core (nc_write_starttag_and_msg w.session.version w.session w.buf))
      ∙ starttag-core w.session.version w.session w.buf)
]

abbrev pub Holds : WclbArg → WclbArg × Option ℕ → Type 0
Holds w r = core r.0.session ≡ core w.session

make_room-core : (w : WclbArg) → Holds w (make_room w)
make_room-core w = elim (Bool-cases (leb write_bufsize (length w.buf + 5))) [
  | inl b ↦ rw b (flush-core w)
  | inr b ↦ rw b refl
]

escape_loop-core : (cs : Bytes) (w : WclbArg) (ret : ℕ) → Holds w (escape_loop w ret cs)
unfolding escape_loop
escape_loop-core [] w ret = refl
escape_loop-core (c ∷ cs) w ret = elim (Option-cases (make_room w).1) [
  | inl e ↦ rw (e, escape_loop) (make_room-core w)
  | inr (n, e) ↦
      rw (e, escape_loop)
        (escape_loop-core cs
            (record {
              session = (make_room w).0.session;
              buf = (make_room w).0.buf ++ escape_byte c;
            })
            (ret + length (escape_byte c))
          ∙ make_room-core w)
]

put_directly-core : (w : WclbArg) (ret : ℕ) (buf : Bytes) → Holds w (put_directly w ret buf)
put_directly-core w ret buf =
    add_result-core ret w.session (nc_write_starttag_and_msg w.session.version w.session buf)
      (starttag-core w.session.version w.session buf)

put-core : (w : WclbArg) (ret : ℕ) (buf : Bytes) (xml : Bool) → Holds w (put w ret buf xml)
unfolding put
put-core w ret buf true = escape_loop-core buf w ret
put-core w ret buf false = elim (Bool-cases (ltb write_bufsize (length buf))) [
  | inl b ↦ rw b (put_directly-core w ret buf)
  | inr b ↦ rw b refl
]

put_after-core :
    (w : WclbArg) (r : WclbArg × Option ℕ) (buf : Bytes) (xml : Bool)
    → Holds w r
    → Holds w (put_after r buf xml)
put_after-core w (w', none) buf xml h = h
put_after-core w (w', some ret) buf xml h = put-core w' ret buf xml ∙ h

pub nc_write_clb-core : (w : WclbArg) (buf : Bytes) (xml : Bool) → Holds w (nc_write_clb w buf xml)
unfolding nc_write_clb
nc_write_clb-core w buf xml =
    put_after-core w _ buf xml
      (elim (not (length w.buf == 0) && ltb write_bufsize (length w.buf + length buf))
        as (λ b. Holds w (if b then nc_write_clb_flush w else (w, some 0))) [
          | true ↦ flush-core w
          | false ↦ refl
        ])

endtag_after-core : (w : WclbArg) (r : WclbArg × Option ℕ) → Holds w r → Holds w (endtag_after r)
unfolding nc_write_endtag
endtag_after-core w (w', none) h = h
endtag_after-core w (w', some ret) h =
    add_result-core ret w'.session (nc_write_endtag w'.session)
      (nc_write-core w'.session (endtag w'.session.version))
    ∙ h

pub nc_write_clb_end-core : (w : WclbArg) → Holds w (nc_write_clb_end w)
unfolding nc_write_clb_end
nc_write_clb_end-core w = endtag_after-core w (nc_write_clb_flush w) (flush-core w)
