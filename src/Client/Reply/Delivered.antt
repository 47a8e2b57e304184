-- ===== src/Client/Reply/Delivered.antt =====
-- From nc_write_msg of the server to nc_recv_reply of the client.
use libnetconf.Common.{
  ℕ, suc, ◌<◌, ◌≡◌, refl, sym, subst, ◌∙◌, ap, true, false, List, [], ◌∷◌, ◌++◌, map, All, Option,
  none, some, ◌==◌, ==_iff, ◌&&◌,
}
use libnetconf.Common.Bytes.{Bytes, codes, bytes_eq}
use libnetconf.Common.Decimal.{strtoul}
use libnetconf.Session.{
  Session, running, client, TransportImpl, ti_none, ti_fd, ti_libssh, ti_openssl, is_live,
}
use libnetconf.Session.Xml.{Elem}
use libnetconf.Io.Read.Stream.{has_transport}
use libnetconf.Session.Lock.{Mutex, Timeout, locked, nc_timedlock}
use libnetconf.Io.Read.Stream.{weight}
use libnetconf.Io.Read.Exact.{IsReady}
use libnetconf.Messages.{ServerError, rpl_error}
use libnetconf.Io.Message.{nc_write_msg, reply_msg}
use libnetconf.Io.Message.Replied.{
  IsKnown, reply_pieces, reply_xml, plan-rpl_error, document-reply_pieces,
}
use libnetconf.Io.Message.Wire.{document, IsSized, IsCarried}
use libnetconf.Io.Write.Up.{IsUp}
use libnetconf.Io.Receive.{
  received, msg_reply, msg_type, Wait, wait_events, nc_read_msg, nc_read_poll, poll_events_of,
  poll_ssh, nc_read_msg_poll, poll_switch,
}
use libnetconf.Io.Receive.Kinds.{nc_write_msg-nc_read_msg}
use libnetconf.Client.Rpc.{Rpc}
use libnetconf.Client.Queues.{dequeue, enqueue, reply_type, hand_out, get_msg}
use libnetconf.Client.Reply.{
  Libyang, ClientReply, reply_error, is_running, is_client, got, got_reply, parse_reply,
  nc_recv_reply,
}
use libnetconf.Client.Reply.Parsed.{
  Sent, IsSent, error_reply, received_error, parse_reply-error_reply,
}

-- Input at hand on a transport.
abbrev pub input : Wait
input = wait_events false false

poll_switch-input :
    (ti : TransportImpl) (s : Session)
    → has_transport ti ≡ true
    → poll_switch ti s input ≡ (s, some true)
unfolding poll_events_of poll_ssh
poll_switch-input ti_none s h = absurd cc
poll_switch-input ti_fd s h = refl
poll_switch-input ti_libssh s h = refl
poll_switch-input ti_openssl s h = refl

nc_read_poll-input :
    (s : Session)
    → is_live s.status ≡ true
    → has_transport s.ti_type ≡ true
    → nc_read_poll s input ≡ (s, some true)
unfolding nc_read_poll
nc_read_poll-input s e h = rw e (poll_switch-input s.ti_type s h)

error_reply-msg_type :
    (attrs : List (Bytes × Bytes)) (es : List Sent)
    → msg_type (error_reply attrs es) ≡ some msg_reply
unfolding msg_type bytes_eq
error_reply-msg_type attrs es = refl

abbrev pub server_error : Sent → ServerError
server_error (e, others) = e

sent-IsKnown : (es : List Sent) → All IsSent es → All IsKnown (map server_error es)
sent-IsKnown [] h = tt
sent-IsKnown ((e, others) ∷ es) ((k, l, n, o), h) = ((k, l), sent-IsKnown es h)

no_replies : (k : ℕ) (s : Session) → s.replies ≡ [] → dequeue (suc k) s ≡ none
unfolding dequeue
no_replies k s e = rw e refl

module _ (get_attr : Elem → Bytes → Option Bytes) (parse_mem : Bytes → Option Elem) where
  nc_read_msg_poll-input :
      (fuel read_timeout : ℕ) (s : Session)
      → is_live s.status ≡ true
      → has_transport s.ti_type ≡ true
      → nc_read_msg_poll parse_mem fuel read_timeout s input
        ≡ nc_read_msg parse_mem fuel read_timeout s
  unfolding nc_read_msg_poll
  nc_read_msg_poll-input fuel read_timeout s e h = rw (e, nc_read_poll-input s e h) refl

  reply_type-right :
      (k : ℕ) (x : Elem) (str : Bytes)
      → get_attr x (codes "message-id") ≡ some str
      → strtoul str ≡ suc k
      → reply_type get_attr (suc k) x ≡ msg_reply
  unfolding reply_type
  reply_type-right k x str e h =
      let same : (strtoul str == suc k) ≡ true = (==_iff (strtoul str) (suc k)).1 h in
      rw (e, same, reply_type) refl

  get_msg-reply :
      (fuel read_timeout : ℕ) (s s' : Session) (m : Mutex) (timeout : Timeout) (w : Wait) (k : ℕ)
      (x : Elem) (str : Bytes)
      → nc_timedlock m timeout ≡ locked
      → s.replies ≡ []
      → nc_read_msg_poll parse_mem fuel read_timeout s w ≡ received msg_reply (some x) s'
      → get_attr x (codes "message-id") ≡ some str
      → strtoul str ≡ suc k
      → get_msg get_attr parse_mem fuel read_timeout m timeout w (suc k) s
        ≡ received msg_reply (some x) s'
  unfolding get_msg enqueue hand_out
  get_msg-reply fuel read_timeout s s' m timeout w k x str l e r a b =
      rw (l, no_replies k s e, r, get_msg)
        (ap (λ ty. received ty (some x) s') (reply_type-right k x str a b))

  module _ {Data Schema Options : Type 0} (yang : Libyang Data Schema Options) where
    recv :
        (fuel read_timeout : ℕ) (s s' : Session) (m : Mutex) (timeout : Timeout) (w : Wait)
        (rpc : Rpc Data) (k : ℕ) (opts : Options) (x : Elem) (reply : ClientReply Data)
        → s.status ≡ running
        → s.side ≡ client
        → yang.has_type opts ≡ false
        → get_msg get_attr parse_mem fuel read_timeout m timeout w (suc k) s
          ≡ received msg_reply (some x) s'
        → parse_reply yang get_attr x rpc (yang.cleared opts) ≡ some reply
        → nc_recv_reply yang get_attr parse_mem fuel read_timeout s m timeout w rpc (suc k) opts
          ≡ got msg_reply (some reply) s'
    unfolding nc_recv_reply got_reply
    recv fuel read_timeout s s' m timeout w rpc k opts x reply a b c d e =
        let up : (is_running s.status && is_client s.side) ≡ true = rw (a, b) refl in
        rw (c, up, d, e) refl

    -- A server on a transport in order answers an RPC with errors of known types and tags, whose
    -- text is below 2 ^ 64 - 1 bytes in each piece and can be framed for the version. A running
    -- client of the same version, which no one else uses and whose queue of replies is empty, has
    -- the input at hand, however cut, and libyang reads the XML of RFC 6241 for these errors
    -- (`reply_xml`) as the reply's element, with the message id that is asked for. Then
    -- nc_recv_reply gives the errors, with all that they say but their bad attributes
    -- (`received_error`).
    pub nc_write_msg-nc_recv_reply :
        (s : Session) (printed_attrs : List Bytes) (out ys : Bytes) (peer : Session)
        (fuel read_timeout : ℕ) (attrs : List (Bytes × Bytes)) (e : Sent) (es : List Sent)
        (m : Mutex) (timeout : Timeout) (rpc : Rpc Data) (k : ℕ) (opts : Options) (str : Bytes)
        → IsUp s
        → All IsSized (reply_pieces printed_attrs (map server_error (e ∷ es)))
        → IsCarried s.version (reply_xml printed_attrs (map server_error (e ∷ es)))
        → (nc_write_msg s
            (reply_msg (some printed_attrs) (rpl_error (map server_error (e ∷ es))))).0.outgoing
          ≡ s.outgoing ++ out
        → peer.version ≡ s.version
        → IsReady peer read_timeout (out ++ ys)
        → weight peer.incoming < fuel
        → parse_mem (reply_xml printed_attrs (map server_error (e ∷ es)))
          ≡ some (error_reply attrs (e ∷ es))
        → All IsSent (e ∷ es)
        → peer.status ≡ running
        → peer.side ≡ client
        → peer.replies ≡ []
        → nc_timedlock m timeout ≡ locked
        → yang.has_type opts ≡ false
        → get_attr (error_reply attrs (e ∷ es)) (codes "message-id") ≡ some str
        → strtoul str ≡ suc k
        → (peer' : Session) × (nc_recv_reply yang get_attr parse_mem fuel read_timeout peer m
              timeout input rpc
              (suc k)
              opts
            ≡ got msg_reply
                (some (reply_error (map (received_error yang get_attr) (e ∷ es))))
                peer')
    nc_write_msg-nc_recv_reply s printed_attrs out ys peer fuel read_timeout attrs e es m timeout
          rpc k opts str up sized carried o v ready w parsed sent a b c l t attr id =
        let errors = map server_error (e ∷ es) in
        let ps = reply_pieces printed_attrs errors in
        let text : document ps ≡ reply_xml printed_attrs errors =
          document-reply_pieces printed_attrs errors (sent-IsKnown (e ∷ es) sent) in
        let (peer', left, r, after) =
          nc_write_msg-nc_read_msg parse_mem s (reply_msg (some printed_attrs) (rpl_error errors))
            ps out ys peer fuel read_timeout (error_reply attrs (e ∷ es)) msg_reply up
            (plan-rpl_error s printed_attrs errors) sized
            (subst (IsCarried s.version) (sym text) carried) o v ready w
            (ap parse_mem text ∙ parsed) (error_reply-msg_type attrs (e ∷ es)) in
        (
          peer',
          recv fuel read_timeout peer peer' m timeout input rpc k opts (error_reply attrs (e ∷ es))
              _ a b t
              (get_msg-reply fuel read_timeout peer peer' m timeout input k _ str l c
                (nc_read_msg_poll-input fuel read_timeout peer ready.live ready.connected ∙ r) attr
                id)
              (parse_reply-error_reply yang get_attr attrs e es rpc (yang.cleared opts) sent),
        )
