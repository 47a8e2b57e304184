-- ===== src/Hello/Handshake.antt =====
-- The number of a client's session behind nc_handshake of src/session.c.
use libnetconf.Common.{
  ℕ, ◌≤◌, ◌<◌, ◌^◌, ◌≡◌, sym, ap, ◌∙◌, subst, Bool, true, false, List, [], ◌∷◌, none, if◌then◌else◌,
  Option,
}
use libnetconf.Common.Bytes.{Bytes}
use libnetconf.Session.{Session, client}
use libnetconf.Session.Xml.{Elem}
use libnetconf.Io.Message.{nc_write_msg, hello_msg}
use libnetconf.Io.Message.Core.{nc_write_msg-core}
use libnetconf.Io.Receive.{
  msg_hello, msg_error, Received, received, overran, out_of_fuel, Wait, nc_read_msg_poll,
}
use libnetconf.Io.Receive.Core.{StaysReceived, nc_read_msg_poll-Stays}
use libnetconf.Hello.{
  outcome, nc_recv_client_hello, nc_send_client_hello, nc_handshake, after_send, send_hello,
  base_10, base_11,
}
use libnetconf.Hello.Accepted.{IsId, ReadsId, client_switch-id}

StaysReceived-ReadsId : (s : Session) (r : Received) → StaysReceived s r → IsId s.id → ReadsId r
StaysReceived-ReadsId s (received ty x s') e h = subst IsId (sym (ap (λ c. c.1) e)) h
StaysReceived-ReadsId s overran e h = tt
StaysReceived-ReadsId s out_of_fuel e h = tt

module _ (parse_mem : Bytes → Option Elem) (fuel read_timeout : ℕ) (w : Wait) where
  nc_recv_client_hello-id :
      (s s' : Session)
      → IsId s.id
      → nc_recv_client_hello parse_mem fuel read_timeout w s ≡ outcome msg_hello s'
      → (1 ≤ s'.id) × (s'.id < 2 ^ 32)
  unfolding nc_recv_client_hello
  nc_recv_client_hello-id s s' h e =
      let r = nc_read_msg_poll parse_mem fuel read_timeout s w in
      client_switch-id r s'
        (StaysReceived-ReadsId s r (nc_read_msg_poll-Stays parse_mem fuel read_timeout s w) h) e

  sent_client_hello :
      (s s1 s' : Session) (ok : Bool)
      → IsId s1.id
      → after_send parse_mem fuel read_timeout w client (s1, if ok then msg_hello else msg_error)
        ≡ outcome msg_hello s'
      → (1 ≤ s'.id) × (s'.id < 2 ^ 32)
  sent_client_hello s s1 s' true h e = nc_recv_client_hello-id s1 s' h e
  sent_client_hello s s1 s' false h e = absurd cc

  -- A handshake of a client that succeeds, on a session whose number is a uint32_t, leaves it with
  -- a number from 1 to 2 ^ 32 - 1.
  pub nc_handshake-id :
      (cpblts : List Bytes) (s s' : Session)
      → s.side ≡ client
      → s.id < 2 ^ 32
      → nc_handshake parse_mem fuel read_timeout w cpblts s ≡ outcome msg_hello s'
      → (1 ≤ s'.id) × (s'.id < 2 ^ 32)
  unfolding nc_handshake nc_send_client_hello
  nc_handshake-id cpblts s s' c h e =
      let m = hello_msg (base_10 ∷ base_11 ∷ []) none in
      let same : s.id ≡ (nc_write_msg s m).0.id = sym (ap (λ x. x.1) (nc_write_msg-core s m)) in
      sent_client_hello s (nc_write_msg s m).0 s' (nc_write_msg s m).1 (subst IsId same h) (
        ap
          (λ d.
            after_send parse_mem fuel read_timeout w d
              (send_hello parse_mem fuel read_timeout w d cpblts s))
          (sym c)
        ∙ e)
