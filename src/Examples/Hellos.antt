-- ===== src/Examples/Hellos.antt =====
-- Hello messages.
use libnetconf.Common.{
  ◌≤◌, ◌<◌, ◌^◌, ◌≡◌, refl, true, false, [], ◌∷◌, some, none, arith, Option, if◌then◌else◌,
}
use libnetconf.Common.Bytes.{Bytes, codes, bytes_eq, ends_with}
use libnetconf.Common.Decimal.{read_digits, skip_spaces}
use libnetconf.Session.{Session, version_10, packet, client}
use libnetconf.Session.Xml.{Elem, elem, nil, cons, children_of}
use libnetconf.Io.Message.{ns_base, nc_write_msg, plan, write_piece, write_pieces}
use libnetconf.Io.Receive.{
  received, msg_hello, wait_events, nc_read_msg_poll, nc_read_poll, poll_events_of, nc_read_msg,
  after_frame, classify, msg_type,
}
use libnetconf.Io.Read.{nc_read_until, until_loop, nc_read, read_loop, receive, push_back}
use libnetconf.Io.Frame.{read_framed}
use libnetconf.Io.Write.{
  nc_write, nc_write_clb, write_live, write_switch, nc_session_is_connected,
  nc_write_starttag_and_msg, nc_write_endtag, nc_write_clb_flush, put, nc_write_clb_end,
  escape_loop, escape_byte,
}
use libnetconf.Hello.{
  base_10, base_11, is_base, detect, cpblts_loop, parse_cpblts, behind_digits, strtoll, session_id,
  client_loop, Outcome, outcome, no_result, client_switch, server_switch, nc_handshake,
  nc_send_client_hello, nc_recv_client_hello,
}
use libnetconf.Hello.Versions.{all_capability}
use libnetconf.Hello.Accepted.{served, base_children, server_switch-served}
use libnetconf.Hello.Handshake.{nc_handshake-id}
use libnetconf.Examples.{session_with}

abbrev capability : Bytes → Elem
capability content = elem (codes "capability") (some ns_base) [] content nil

abbrev both_versions : Elem
both_versions =
    elem (codes "capabilities") (some ns_base) [] []
      (cons (capability base_11) (cons (capability base_10) nil))

abbrev server_hello : Elem
server_hello =
    elem (codes "hello") (some ns_base) [] []
      (cons both_versions (cons (elem (codes "session-id") (some ns_base) [] (codes "42") nil) nil))

abbrev new_session : Session
new_session = record (session_with []) { id = 0 }

all_named : all_capability (children_of both_versions) ≡ true
unfolding is_base bytes_eq
all_named = refl

server_switch-served_example :
    server_switch (received msg_hello (some server_hello) new_session)
    ≡ served (base_children (children_of server_hello)) new_session
server_switch-served_example = server_switch-served server_hello new_session

-- A client's handshake, with a server that greets it by a short text.
abbrev hello_text : Bytes
hello_text = codes "<hello/>"

abbrev parse_hello : Bytes → Option Elem
parse_hello m = if bytes_eq m hello_text then some server_hello else none

abbrev new_client : Session
new_client = record (session_with (packet 60 (codes "hello/>]]>]]>") ∷ [])) {
  side = client;
  version = version_10;
  id = 0;
}

abbrev session_in : Outcome → Session
session_in (outcome ty s) = s
session_in no_result = new_client

abbrev greeted_client : Session
greeted_client = session_in (nc_handshake parse_hello 99 1 (wait_events false false) [] new_client)

shaken :
    nc_handshake parse_hello 99 1 (wait_events false false) [] new_client
    ≡ outcome msg_hello greeted_client
unfolding nc_handshake nc_send_client_hello nc_recv_client_hello client_switch client_loop is_base
    bytes_eq parse_cpblts cpblts_loop detect session_id strtoll skip_spaces read_digits
    behind_digits nc_write_msg plan nc_write_clb_end nc_write_clb_flush write_pieces write_piece
    nc_write_clb put nc_write_starttag_and_msg nc_write write_live nc_session_is_connected
    write_switch nc_write_endtag escape_loop escape_byte nc_read_msg_poll nc_read_poll
    poll_events_of nc_read_msg after_frame classify msg_type read_framed nc_read_until until_loop
    nc_read read_loop receive push_back ends_with
shaken = refl

nc_handshake-id_example : (1 ≤ greeted_client.id) × (greeted_client.id < 2 ^ 32)
nc_handshake-id_example =
    nc_handshake-id parse_hello 99 1 (wait_events false false) [] new_client greeted_client refl
      (omega arith) shaken
