-- ===== src/Session.antt =====
-- The session object: src/session.h, src/netconf.h and `struct nc_session` of src/session_p.h.
-- The transport is the operating system's or a library's. It enters as what it will answer:
-- `incoming` lists the results of the coming read calls, `attempts` those of the coming write
-- calls, and `outgoing` collects the bytes that the peer is sent. `replies` and `notifs` are the
-- client's queues of messages.
pub mod Xml
pub mod Core
pub mod Lock
use libnetconf.Common.{ℕ, Bool, true, false, List, Option}
use libnetconf.Common.Bytes.{Bytes}
use libnetconf.Session.Xml.{Elem}

pub data Status : Type 0 where
  starting closing invalid running : Status

pub data TermReason : Type 0 where
  term_none closed killed dropped timed_out bad_hello other : TermReason

pub data Side : Type 0 where
  client server : Side

pub data Version : Type 0 where
  version_10 version_11 : Version

pub data TransportImpl : Type 0 where
  ti_none ti_fd ti_libssh ti_openssl : TransportImpl

-- What a read call finds. `packet b bs` are bytes at hand, of which a call takes what it asked
-- for and leaves the rest. `would_block` is EAGAIN, SSH_AGAIN or SSL_ERROR_WANT_READ;
-- `interrupted` is EINTR; `no_bytes eof` is the result 0, with what ssh_channel_is_eof() says
-- or, if `eof`, SSL_ERROR_ZERO_RETURN; `broken` is any other failure.
pub data Arrival : Type 0 where
  packet : ℕ → Bytes → Arrival
  would_block interrupted broken : Arrival
  no_bytes : Bool → Arrival

-- One poll() of a socket: EINTR, another error, or the events; `hung_up` is POLLHUP or POLLERR.
pub data Poll : Type 0 where
  poll_interrupted poll_failed : Poll
  poll_events : (hung_up : Bool) → Poll

-- The result of the write call itself.
pub data Taken : Type 0 where
  all_taken write_failed : Taken
  part_taken : ℕ → Taken

-- What one `nc_write` meets: the polls before it, the state of an SSH channel, the write call.
pub record Attempt : Type 0 where
  pub polls : List Poll
  pub channel_closed : Bool
  pub channel_eof : Bool
  pub taken : Taken

pub record Session : Type 0 where
  pub status : Status
  pub term_reason : TermReason
  pub side : Side
  pub id : ℕ
  pub version : Version
  pub ti_type : TransportImpl
  pub msgid : ℕ
  pub cpblts : List Bytes
  pub session_start : ℕ
  pub last_rpc : ℕ
  pub incoming : List Arrival
  pub attempts : List Attempt
  pub outgoing : Bytes
  pub replies : List Elem
  pub notifs : List Elem

-- `(status == NC_STATUS_RUNNING) || (status == NC_STATUS_STARTING)`, the guard of all transfers.
abbrev pub is_live : Status → Bool
is_live running = true
is_live starting = true
is_live closing = false
is_live invalid = false

-- What every fatal transfer error does to the session.
abbrev pub terminate : Session → TermReason → Session
terminate s why = record s { status = invalid; term_reason = why }
