-- ===== src/Examples/Receiving.antt =====
-- A client: its queues, and an error reply from the server's writing to the client's result.
use libnetconf.Common.{
  ℕ, ◌≡◌, refl, false, List, [], ◌∷◌, ◌++◌, All, Option, none, some, map, arith, if◌then◌else◌,
}
use libnetconf.Common.Bytes.{Bytes, codes, bytes_eq, ends_with}
use libnetconf.Common.Decimal.{print_dec, strtoul}
use libnetconf.Session.{Session, packet, client}
use libnetconf.Session.Xml.{Elem, attrs_of}
use libnetconf.Session.Lock.{Mutex, after, pthread_ok, locked, nc_timedlock}
use libnetconf.Messages.{ServerError, type_app, err_bad_elem, rpl_error}
use libnetconf.Io.Read.Exact.{IsReady}
use libnetconf.Io.Write.{
  nc_write, nc_write_clb, write_live, write_switch, nc_session_is_connected,
  nc_write_starttag_and_msg, nc_write_endtag, nc_write_clb_flush, put, nc_write_clb_end,
  escape_loop, escape_byte,
}
use libnetconf.Io.Write.Up.{IsUp}
use libnetconf.Io.Write.Buffered.{escape}
use libnetconf.Io.Message.{
  Piece, Message, reply_msg, plan, reply_plan, reply_body, nc_write_msg, write_piece, write_pieces,
  nc_write_error, rest_pieces, info_pieces,
}
use libnetconf.Io.Message.Replied.{reply_pieces, reply_xml}
use libnetconf.Io.Message.Wire.{IsSized, IsCarried}
use libnetconf.Client.Rpc.{Rpc, rpc_discard}
use libnetconf.Client.Reply.{Libyang, reply_error, got, parse_reply}
use libnetconf.Client.Reply.Parsed.{IsSent, error_reply, received_error, parse_reply-error_reply}
use libnetconf.Client.Reply.Delivered.{input, nc_write_msg-nc_recv_reply}
use libnetconf.Client.Reply.{nc_recv_reply}
use libnetconf.Client.Reply.Answered.{IsAnswer, is_reply, nc_recv_reply-IsAnswer}
use libnetconf.Client.Queues.Runs.{Log, run, run_conserves}
use libnetconf.Client.Queues.{get_msg, dequeue, enqueue, hand_out, reply_type}
use libnetconf.Io.Receive.{
  msg_reply, nc_read_msg_poll, nc_read_poll, poll_events_of, nc_read_msg, after_frame, classify,
  msg_type,
}
use libnetconf.Io.Frame.{read_framed, chunk_loop}
use libnetconf.Io.Read.{
  nc_read_chunk, nc_read_until, until_loop, nc_read, read_loop, receive, push_back,
}
use libnetconf.Examples.{session_with}

abbrev leaf_error : ServerError
leaf_error = record {
  type = type_app;
  tag = err_bad_elem;
  apptag = none;
  path = none;
  message = some (codes "Not a leaf");
  message_lang = some (codes "en");
  sid = none;
  attr = [];
  elems = codes "leaf" ∷ [];
  ns = [];
  others = [];
}

abbrev server_session : Session
server_session = session_with []

abbrev leaf_reply : Message
leaf_reply = reply_msg (some (codes " message-id=\"1\"" ∷ [])) (rpl_error (leaf_error ∷ []))

abbrev leaf_pieces : List Piece
leaf_pieces = reply_pieces (codes " message-id=\"1\"" ∷ []) (leaf_error ∷ [])

abbrev leaf_xml : Bytes
leaf_xml = reply_xml (codes " message-id=\"1\"" ∷ []) (leaf_error ∷ [])

server-IsUp : IsUp server_session
server-IsUp = record { live = refl; connected = refl; in_order = refl }

leaf-IsSized : All IsSized leaf_pieces
unfolding nc_write_error rest_pieces info_pieces
leaf-IsSized = ground arith

leaf-IsCarried : IsCarried server_session.version leaf_xml
leaf-IsCarried e = absurd cc

abbrev leaf_text : Bytes
leaf_text =
    codes
      "<rpc-reply message-id=\"1\"><rpc-error><error-type>application</error-type><error-tag>bad-element</error-tag><error-severity>error</error-severity><error-message xml:lang=\"en\">Not a leaf</error-message><error-info><bad-element>leaf</bad-element></error-info></rpc-error></rpc-reply>"

-- Behind the first byte.
abbrev leaf_rest : Bytes
leaf_rest = codes "#280" ++ (10 ∷ (leaf_text ++ (10 ∷ 35 ∷ 35 ∷ 10 ∷ [])))

leaf_wire :
    (nc_write_msg server_session leaf_reply).0.outgoing
    ≡ server_session.outgoing ++ (10 ∷ leaf_rest)
unfolding nc_write_msg plan reply_plan reply_body nc_write_clb_end nc_write_clb_flush write_pieces
    write_piece nc_write_clb put nc_write_starttag_and_msg nc_write write_live
    nc_session_is_connected write_switch nc_write_endtag print_dec nc_write_error rest_pieces
    info_pieces escape_loop escape_byte
leaf_wire = refl

abbrev client_session : Session
client_session = record (session_with (packet 10 leaf_rest ∷ [])) { side = client }

client-IsReady : IsReady client_session 1 ((10 ∷ leaf_rest) ++ [])
client-IsReady = record {
  live = refl;
  connected = refl;
  sound = (refl, tt);
  to_come = refl;
  patient = omega arith;
  in_range = omega arith;
}

abbrev id_attrs : List (Bytes × Bytes)
id_attrs = (codes "message-id", codes "1") ∷ []

abbrev leaf_elem : Elem
leaf_elem = error_reply id_attrs ((leaf_error, []) ∷ [])

abbrev parse_leaf : Bytes → Option Elem
parse_leaf m = if bytes_eq m leaf_text then some leaf_elem else none

-- The value of the first attribute of the name.
abbrev lookup : List (Bytes × Bytes) → Bytes → Option Bytes
lookup [] name = none
lookup (a ∷ as') name = let later = lookup as' name in if bytes_eq a.0 name then some a.1 else later

abbrev attr : Elem → Bytes → Option Bytes
attr x = lookup (attrs_of x)

-- A libyang that parses nothing.
abbrev no_yang : Libyang ℕ ℕ ℕ
no_yang = record {
  data_schema = λ d. none;
  parse_rpc = λ x opts. none;
  parse_getconfig = λ xs opts. none;
  parse_get = λ xs opts. none;
  parse_rpcreply = λ xs opts s. none;
  parse_notif = λ xs. none;
  getschema_node = none;
  has_type = λ opts. false;
  cleared = λ opts. opts;
}

abbrev free_mutex : Mutex
free_mutex = record { timedlock = λ ms. pthread_ok; trylock = pthread_ok; lock = pthread_ok }

abbrev discard : Rpc ℕ
discard = rpc_discard 0

leaf-IsSent : All IsSent ((leaf_error, []) ∷ [])
leaf-IsSent = (((λ e. absurd cc), (λ e. absurd cc), tt, λ e. refl), tt)

leaf_parsed : parse_leaf leaf_xml ≡ some leaf_elem
unfolding bytes_eq escape escape_byte
leaf_parsed = refl

free_locked : nc_timedlock free_mutex (after 5) ≡ locked
unfolding nc_timedlock
free_locked = refl

leaf_id : attr leaf_elem (codes "message-id") ≡ some (codes "1")
unfolding bytes_eq
leaf_id = refl

id_one : strtoul (codes "1") ≡ 1
unfolding strtoul
id_one = refl

nc_write_msg-nc_recv_reply_example :
    (peer' : Session) × (nc_recv_reply no_yang attr parse_leaf 999 1 client_session free_mutex
        (after 5)
        input
        discard
        1
        0
      ≡ got msg_reply
          (some (reply_error (map (received_error no_yang attr) ((leaf_error, []) ∷ []))))
          peer')
nc_write_msg-nc_recv_reply_example =
    nc_write_msg-nc_recv_reply attr parse_leaf no_yang server_session
      (codes " message-id=\"1\"" ∷ []) (10 ∷ leaf_rest) [] client_session 999 1 id_attrs
      (leaf_error, []) [] free_mutex (after 5) discard 0 0 (codes "1") server-IsUp leaf-IsSized
      leaf-IsCarried leaf_wire refl client-IsReady (omega arith) leaf_parsed leaf-IsSent refl refl
      refl free_locked refl leaf_id id_one

parse_reply-error_reply_example :
    parse_reply no_yang attr leaf_elem discard 0
    ≡ some (reply_error (map (received_error no_yang attr) ((leaf_error, []) ∷ [])))
parse_reply-error_reply_example =
    parse_reply-error_reply no_yang attr id_attrs (leaf_error, []) [] discard 0 leaf-IsSent

nc_recv_reply-IsAnswer_example : IsAnswer is_reply (
    nc_recv_reply no_yang attr parse_leaf 999 1 client_session free_mutex
      (after 5)
      input
      discard
      1
      0)
nc_recv_reply-IsAnswer_example =
    nc_recv_reply-IsAnswer no_yang attr parse_leaf 999 1 client_session free_mutex (after 5) input
      discard 0 0

-- The reply comes while a notification is waited for, and is then taken from the queue.
abbrev two_calls : List libnetconf.Client.Queues.Runs.Call
two_calls =
    record { msgid = 0; mutex = free_mutex; timeout = after 5; wait = input }
    ∷ record { msgid = 1; mutex = free_mutex; timeout = after 5; wait = input }
    ∷ []

abbrev after_calls : Log
after_calls = record {
  notifs_out = [];
  replies_out = leaf_elem ∷ [];
  notifs_in = [];
  replies_in = leaf_elem ∷ [];
  final = record client_session { incoming = [] };
}

two_run : run attr parse_leaf 999 1 two_calls client_session ≡ some after_calls
unfolding run get_msg nc_timedlock dequeue enqueue hand_out reply_type nc_read_msg_poll nc_read_poll
    poll_events_of nc_read_msg after_frame classify msg_type read_framed chunk_loop nc_read_chunk
    nc_read_until until_loop nc_read read_loop receive push_back bytes_eq strtoul ends_with
two_run = refl

run_conserves_example :
    (after_calls.notifs_out ++ after_calls.final.notifs
      ≡ client_session.notifs ++ after_calls.notifs_in)
    × (after_calls.replies_out ++ after_calls.final.replies
        ≡ client_session.replies ++ after_calls.replies_in)
run_conserves_example =
    run_conserves attr parse_leaf 999 1 two_calls client_session after_calls two_run
