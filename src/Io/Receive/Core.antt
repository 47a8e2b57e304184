-- ===== src/Io/Receive/Core.antt =====
-- What receiving a message leaves as it was.
use libnetconf.Common.{
  ℕ, ◌≡◌, refl, ◌∙◌, Bool, true, false, Option, none, some, inl, inr, Bool-cases,
}
use libnetconf.Common.Bytes.{Bytes}
use libnetconf.Session.{
  Session, Status, starting, closing, invalid, running, is_live, TransportImpl, ti_none, ti_fd,
  ti_libssh, ti_openssl,
}
use libnetconf.Session.Core.{core}
use libnetconf.Session.Xml.{Elem}
use libnetconf.Messages.{err_malformed_msg, ServerReply, nc_server_reply_err}
use libnetconf.Messages.Create.{nc_err}
use libnetconf.Io.Read.{Result, ok, error, fault, stuck}
use libnetconf.Io.Read.Core.{Stays}
use libnetconf.Io.Frame.{Framed, message, malformed, read_framed}
use libnetconf.Io.Frame.Core.{read_framed-Steady}
use libnetconf.Io.Message.{nc_write_msg, reply_msg}
use libnetconf.Io.Message.Core.{nc_write_msg-core}
use libnetconf.Io.Receive.{
  Received, received, overran, out_of_fuel, msg_type, no_args, if_invalid_keep, after_reply,
  reply_malformed, is_server_11, malformed_msg, classify, after_frame, nc_read_msg, Wait,
  wait_failed, wait_eof, wait_nothing, wait_events, poll_events_of, poll_ssh, poll_switch,
  nc_read_poll, after_poll, nc_read_msg_poll,
}

-- The session that is handed out has the fields of the one given.
abbrev pub StaysReceived : Session → Received → Type 0
StaysReceived s (received ty x s') = core s' ≡ core s
StaysReceived s overran = Unit {0}
StaysReceived s out_of_fuel = Unit {0}

if_invalid_keep-core :
    (s : Session) (st : Status) → s.status ≡ st → core (if_invalid_keep s) ≡ core s
if_invalid_keep-core s starting e = rw e refl
if_invalid_keep-core s closing e = rw e refl
if_invalid_keep-core s invalid e = rw e refl
if_invalid_keep-core s running e = rw e refl

after_reply-core :
    (s : Session) (r : Session × Bool) → core r.0 ≡ core s → core (after_reply r) ≡ core s
after_reply-core s (s', true) e = e
after_reply-core s (s', false) e = if_invalid_keep-core s' s'.status refl ∙ e

reply_malformed-core : (s : Session) → core (reply_malformed s) ≡ core s
reply_malformed-core s = go (nc_server_reply_err (nc_err err_malformed_msg no_args)) refl
  where
    go :
        (reply : Option ServerReply)
        → nc_server_reply_err (nc_err err_malformed_msg no_args) ≡ reply
        → core (reply_malformed s) ≡ core s
    go none e = rw (e, reply_malformed) refl
    go (some reply) e =
        rw (e, reply_malformed)
          (after_reply-core s (nc_write_msg s (reply_msg none reply))
            (nc_write_msg-core s (reply_msg none reply)))

malformed_msg-Stays : (s : Session) → StaysReceived s (malformed_msg s)
unfolding malformed_msg
malformed_msg-Stays s = elim (Bool-cases (is_server_11 s.side s.version)) [
  | inl b ↦ rw b (reply_malformed-core s)
  | inr b ↦ rw b refl
]

classify-Stays : (s : Session) (x : Option Elem) → StaysReceived s (classify s x)
unfolding classify
classify-Stays s none = malformed_msg-Stays s
classify-Stays s (some x) =
    elim (msg_type x)
      as (λ ty.
        StaysReceived s (elim ty as (λ y. Received) [
          | none ↦ malformed_msg s
          | some y ↦ received y (some x) s
        ])) [ none ↦ malformed_msg-Stays s | some ty ↦ refl ]

StaysReceived-later :
    (s s' : Session) (r : Received) → core s' ≡ core s → StaysReceived s' r → StaysReceived s r
StaysReceived-later s s' (received ty x s2) e k = k ∙ e
StaysReceived-later s s' overran e k = tt
StaysReceived-later s s' out_of_fuel e k = tt

module _ (parse_mem : Bytes → Option Elem) where
  after_frame-Stays :
      (s : Session) (r : Result Framed) → Stays s r → StaysReceived s (after_frame parse_mem r)
  unfolding after_frame
  after_frame-Stays s (ok (message m) s' t) e =
      StaysReceived-later s s' (classify s' (parse_mem m)) e (classify-Stays s' (parse_mem m))
  after_frame-Stays s (ok malformed s' t) e =
      StaysReceived-later s s' (malformed_msg s') e (malformed_msg-Stays s')
  after_frame-Stays s (error s') e = e
  after_frame-Stays s fault e = tt
  after_frame-Stays s stuck e = tt

  pub nc_read_msg-Stays :
      (fuel read_timeout : ℕ) (s : Session)
      → StaysReceived s (nc_read_msg parse_mem fuel read_timeout s)
  unfolding nc_read_msg
  nc_read_msg-Stays fuel read_timeout s = elim (Bool-cases (is_live s.status)) [
    | inl b ↦ rw b (
        after_frame-Stays s (read_framed fuel s.version s read_timeout)
          (read_framed-Steady fuel s.version s read_timeout))
    | inr b ↦ rw b refl
  ]

  poll_events_of-core : (s : Session) (w : Wait) → core (poll_events_of s w).0 ≡ core s
  unfolding poll_events_of
  poll_events_of-core s wait_failed = refl
  poll_events_of-core s wait_eof = refl
  poll_events_of-core s wait_nothing = refl
  poll_events_of-core s (wait_events true err) = refl
  poll_events_of-core s (wait_events false true) = refl
  poll_events_of-core s (wait_events false false) = refl

  poll_switch-core :
      (ti : TransportImpl) (s : Session) (w : Wait) → core (poll_switch ti s w).0 ≡ core s
  unfolding poll_ssh
  poll_switch-core ti_none s w = refl
  poll_switch-core ti_fd s w = poll_events_of-core s w
  poll_switch-core ti_libssh s wait_failed = refl
  poll_switch-core ti_libssh s wait_eof = refl
  poll_switch-core ti_libssh s wait_nothing = refl
  poll_switch-core ti_libssh s (wait_events hup err) = refl
  poll_switch-core ti_openssl s w = poll_events_of-core s w

  nc_read_poll-core : (s : Session) (w : Wait) → core (nc_read_poll s w).0 ≡ core s
  unfolding nc_read_poll
  nc_read_poll-core s w = elim (Bool-cases (is_live s.status)) [
    | inl b ↦ rw b (poll_switch-core s.ti_type s w)
    | inr b ↦ rw b refl
  ]

  after_poll-Stays :
      (fuel read_timeout : ℕ) (s : Session) (r : Session × Option Bool)
      → core r.0 ≡ core s
      → StaysReceived s (after_poll parse_mem fuel read_timeout r)
  after_poll-Stays fuel read_timeout s (s', none) e = e
  after_poll-Stays fuel read_timeout s (s', some false) e = e
  after_poll-Stays fuel read_timeout s (s', some true) e =
      StaysReceived-later s s' (nc_read_msg parse_mem fuel read_timeout s') e
        (nc_read_msg-Stays fuel read_timeout s')

  -- Waiting for a message and reading it changes a session's status, the reason of its end and its
  -- message count at most, beside the transport.
  pub nc_read_msg_poll-Stays :
      (fuel read_timeout : ℕ) (s : Session) (w : Wait)
      → StaysReceived s (nc_read_msg_poll parse_mem fuel read_timeout s w)
  unfolding nc_read_msg_poll
  nc_read_msg_poll-Stays fuel read_timeout s w = elim (Bool-cases (is_live s.status)) [
    | inl b ↦ rw b (after_poll-Stays fuel read_timeout s (nc_read_poll s w) (nc_read_poll-core s w))
    | inr b ↦ rw b refl
  ]
