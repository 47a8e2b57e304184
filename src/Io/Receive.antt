-- ===== src/Io/Receive.antt =====
-- nc_read_msg, nc_read_poll and nc_read_msg_poll of src/io.c. libyang's lyxml_parse_mem is the
-- parameter `parse_mem`, NULL being `none`; `read_timeout` is the build's NC_READ_TIMEOUT.
pub mod Kinds
pub mod Core
use libnetconf.Common.{ℕ, Bool, true, false, List, [], ◌∷◌, Option, none, some, if◌then◌else◌, ◌&&◌}
use libnetconf.Common.Bytes.{Bytes, codes, bytes_eq}
use libnetconf.Session.{
  Session, Status, invalid, starting, closing, running, Side, client, server, Version, version_10,
  version_11, TransportImpl, ti_none, ti_fd, ti_libssh, ti_openssl, TermReason, other, dropped,
  is_live, terminate,
}
use libnetconf.Session.Xml.{Elem, name_of, ns_of}
use libnetconf.Messages.{err_malformed_msg, type_rpc, rpl_error, nc_server_reply_err}
use libnetconf.Messages.Create.{nc_err, ErrArgs}
use libnetconf.Io.Read.{Result, ok, error, fault, stuck}
use libnetconf.Io.Frame.{read_framed, message, malformed}
use libnetconf.Io.Message.{nc_write_msg, reply_msg, ns_base, ns_notif}

-- NC_MSG_TYPE.
pub data MsgType : Type 0 where
  msg_error msg_wouldblock msg_none msg_hello msg_bad_hello msg_rpc msg_reply : MsgType
  msg_reply_err_msgid msg_notif : MsgType

-- The type, the message's root element, and the session; or no C result.
pub data Received : Type 0 where
  received : MsgType → Option Elem → Session → Received
  overran : Received
  out_of_fuel : Received

-- The type by the root element; `none` is the jump to `malformed_msg`.
unfoldable pub msg_type : Elem → Option MsgType
msg_type x = elim (ns_of x) [
  | none ↦ none
  | some ns ↦
      if bytes_eq ns ns_base
      then (if bytes_eq (name_of x) (codes "rpc")
          then some msg_rpc
          else (if bytes_eq (name_of x) (codes "rpc-reply")
              then some msg_reply
              else (if bytes_eq (name_of x) (codes "hello") then some msg_hello else none)))
      else (if bytes_eq ns ns_notif
          then (if bytes_eq (name_of x) (codes "notification") then some msg_notif else none)
          else none)
]

-- nc_err(NC_ERR_MALFORMED_MSG) takes no further argument.
abbrev pub no_args : ErrArgs
no_args = record { type_arg = type_rpc; arg1 = none; arg2 = none; sid_arg = 0 }

abbrev pub if_invalid_keep : Session → Session
if_invalid_keep s = elim s.status [
  | invalid ↦ s
  | starting ↦ terminate s other
  | closing ↦ terminate s other
  | running ↦ terminate s other
]

-- What follows the attempt to write the error reply.
abbrev pub after_reply : Session × Bool → Session
after_reply (s, true) = s
after_reply (s, false) = if_invalid_keep s

abbrev pub reply_malformed : Session → Session
reply_malformed s = elim (nc_server_reply_err (nc_err err_malformed_msg no_args)) [
  | none ↦ s
  | some reply ↦ after_reply (nc_write_msg s (reply_msg none reply))
]

abbrev pub is_server_11 : Side → Version → Bool
is_server_11 server version_11 = true
is_server_11 server version_10 = false
is_server_11 client v = false

-- The label `malformed_msg`: a server of version 1.1 sends an error reply.
unfoldable pub malformed_msg : Session → Received
malformed_msg s =
    received msg_error none (if is_server_11 s.side s.version then reply_malformed s else s)

unfoldable pub classify : Session → Option Elem → Received
classify s none = malformed_msg s
classify s (some x) = elim (msg_type x) [
  | none ↦ malformed_msg s
  | some ty ↦ received ty (some x) s
]

module _ (parse_mem : Bytes → Option Elem) where
  -- Behind the switch over the version.
  unfoldable pub after_frame : Result libnetconf.Io.Frame.Framed → Received
  after_frame (ok (message m) s t) = classify s (parse_mem m)
  after_frame (ok malformed s t) = malformed_msg s
  after_frame (error s) = received msg_error none s
  after_frame fault = overran
  after_frame stuck = out_of_fuel

  unfoldable pub nc_read_msg : (fuel read_timeout : ℕ) → Session → Received
  nc_read_msg fuel read_timeout s =
      if is_live s.status
      then after_frame (read_framed fuel s.version s read_timeout)
      else received msg_error none s

-- What the wait for input gives: of ssh_channel_poll_timeout() SSH_ERROR, SSH_EOF, data or none;
-- of poll() an error, nothing, or events with POLLHUP and POLLERR as given.
pub data Wait : Type 0 where
  wait_failed wait_eof wait_nothing : Wait
  wait_events : (hup err : Bool) → Wait

-- `none` is -1, `some false` is 0 and `some true` is positive.
unfoldable pub poll_events_of : Session → Wait → Session × Option Bool
poll_events_of s wait_failed = (terminate s other, none)
poll_events_of s wait_eof = (s, some false)
poll_events_of s wait_nothing = (s, some false)
poll_events_of s (wait_events hup err) =
    if hup
    then (terminate s dropped, none)
    else (if err then (terminate s other, none) else (s, some true))

-- On SSH the events are made up: POLLIN alone.
unfoldable pub poll_ssh : Session → Wait → Session × Option Bool
poll_ssh s wait_failed = (terminate s other, none)
poll_ssh s wait_eof = (terminate s dropped, none)
poll_ssh s wait_nothing = (s, some false)
poll_ssh s (wait_events hup err) = (s, some true)

abbrev pub poll_switch : TransportImpl → Session → Wait → Session × Option Bool
poll_switch ti_none s w = (s, none)
poll_switch ti_fd s w = poll_events_of s w
poll_switch ti_libssh s w = poll_ssh s w
poll_switch ti_openssl s w = poll_events_of s w

unfoldable pub nc_read_poll : Session → Wait → Session × Option Bool
nc_read_poll s w = if is_live s.status then poll_switch s.ti_type s w else (s, none)

abbrev pub after_poll :
    (parse_mem : Bytes → Option Elem) (fuel read_timeout : ℕ) → Session × Option Bool → Received
after_poll parse_mem fuel read_timeout (s, none) = received msg_error none s
after_poll parse_mem fuel read_timeout (s, some false) = received msg_wouldblock none s
after_poll parse_mem fuel read_timeout (s, some true) = nc_read_msg parse_mem fuel read_timeout s

unfoldable pub nc_read_msg_poll :
    (parse_mem : Bytes → Option Elem) (fuel read_timeout : ℕ) → Session → Wait → Received
nc_read_msg_poll parse_mem fuel read_timeout s w =
    if is_live s.status
    then after_poll parse_mem fuel read_timeout (nc_read_poll s w)
    else received msg_error none s
