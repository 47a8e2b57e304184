-- ===== src/Client/Reply/Answered.antt =====
-- What nc_recv_reply and nc_recv_notif return.
use libnetconf.Common.{
  ℕ, zero, suc, ◌≡◌, refl, Bool, true, false, Option, none, some, Bool-cases, inl, inr, ◌==◌,
  if◌then◌else◌, ◌&&◌,
}
use libnetconf.Common.Bytes.{Bytes, codes}
use libnetconf.Common.Decimal.{strtoul}
use libnetconf.Session.{Session}
use libnetconf.Session.Xml.{Elem}
use libnetconf.Session.Lock.{
  Mutex, Timeout, Locking, locked, lock_timeout, lock_failed, nc_timedlock,
}
use libnetconf.Io.Receive.{
  MsgType, msg_reply, msg_reply_err_msgid, msg_notif, Received, received, overran, out_of_fuel,
  Wait,
}
use libnetconf.Client.Queues.{dequeue, enqueue, reply_type, hand_out, from_queue_or_wire, get_msg}
use libnetconf.Client.Rpc.{Rpc}
use libnetconf.Client.Reply.{
  Libyang, ClientReply, Got, got, got_unset, got_nothing, got_reply, got_notif, nc_recv_reply,
  nc_recv_notif, reply_or_error, notif_of, parse_notif, is_running, is_client,
}
use libnetconf.Client.Reply.WithElem.{HasElem, nc_read_msg_poll-HasElem, dequeue-HasElem}

-- The result is set exactly with the types of `set`, and no unset pointer is read.
abbrev pub IsAnswer : {R : Type 0} → (MsgType → Bool) → Got R → Type 0
IsAnswer set (got ty none s) = set ty ≡ false
IsAnswer set (got ty (some r) s) = set ty ≡ true
IsAnswer set got_unset = ⊥
IsAnswer set got_nothing = Unit {0}

abbrev pub is_reply : MsgType → Bool
is_reply msg_reply = true
is_reply msg_reply_err_msgid = true
is_reply _ = false

abbrev pub is_notif : MsgType → Bool
is_notif msg_notif = true
is_notif _ = false

module _ {Data Schema Options : Type 0} (yang : Libyang Data Schema Options) where
  module _ (get_attr : Elem → Bytes → Option Bytes) (parse_mem : Bytes → Option Elem) where
    reply_or_error-IsAnswer :
        (ty : MsgType) (r : Option (ClientReply Data)) (s : Session)
        → is_reply ty ≡ true
        → IsAnswer is_reply (reply_or_error yang get_attr parse_mem ty r s)
    reply_or_error-IsAnswer ty none s h = refl
    reply_or_error-IsAnswer ty (some r) s h = h

    got_reply-IsAnswer :
        (rpc : Rpc Data) (opts : Options) (k : ℕ) (x : Elem) (s : Session)
        → IsAnswer is_reply (
            got_reply yang get_attr parse_mem rpc opts
              (received (reply_type get_attr (suc k) x) (some x) s))
    unfolding reply_type got_reply
    got_reply-IsAnswer rpc opts k x s = go (get_attr x (codes "message-id"))
      where
        go :
            (a : Option Bytes)
            → IsAnswer is_reply (
                got_reply yang get_attr parse_mem rpc opts (
                  received
                    (elim a as (λ z. MsgType) [
                      | none ↦ msg_reply_err_msgid
                      | some str ↦ if strtoul str == suc k then msg_reply else msg_reply_err_msgid
                    ])
                    (some x)
                    s))
        go none = reply_or_error-IsAnswer msg_reply_err_msgid _ s refl
        go (some str) = elim (Bool-cases (strtoul str == suc k)) [
          | inl b ↦ rw b (reply_or_error-IsAnswer msg_reply _ s refl)
          | inr b ↦ rw b (reply_or_error-IsAnswer msg_reply_err_msgid _ s refl)
        ]

    handed_reply :
        (rpc : Rpc Data) (opts : Options) (k : ℕ) (r : Received)
        → HasElem r
        → IsAnswer is_reply (
            got_reply yang get_attr parse_mem rpc opts
              (hand_out get_attr (suc k) (enqueue (suc k) r)))
    unfolding enqueue hand_out got_reply
    handed_reply rpc opts k (received msg_reply (some x) s) h = got_reply-IsAnswer rpc opts k x s
    handed_reply rpc opts k (received msg_reply none s) h = h
    handed_reply rpc opts k (received msg_notif none s) h = absurd h
    handed_reply rpc opts k (received msg_notif (some x) s) h = refl
    handed_reply rpc opts k (received msg_reply_err_msgid x s) h = absurd h
    handed_reply rpc opts k (received _ x s) h = refl
    handed_reply rpc opts k overran h = tt
    handed_reply rpc opts k out_of_fuel h = tt

    notif_of-IsAnswer :
        (t : Option Bytes) (d : Option Data) (s : Session)
        → IsAnswer is_notif (notif_of yang get_attr parse_mem t d s)
    notif_of-IsAnswer none d s = refl
    notif_of-IsAnswer (some t) none s = refl
    notif_of-IsAnswer (some t) (some d) s = refl

    parse_notif-IsAnswer :
        (x : Elem) (s : Session) → IsAnswer is_notif (parse_notif yang get_attr parse_mem x s)
    unfolding parse_notif
    parse_notif-IsAnswer x s = notif_of-IsAnswer _ _ s

    handed_notif :
        (r : Received)
        → HasElem r
        → IsAnswer is_notif
            (got_notif yang get_attr parse_mem (hand_out get_attr zero (enqueue zero r)))
    unfolding enqueue hand_out got_notif
    handed_notif (received msg_notif (some x) s) h = parse_notif-IsAnswer x s
    handed_notif (received msg_notif none s) h = h
    handed_notif (received msg_reply none s) h = absurd h
    handed_notif (received msg_reply (some x) s) h = refl
    handed_notif (received msg_reply_err_msgid x s) h = absurd h
    handed_notif (received _ x s) h = refl
    handed_notif overran h = tt
    handed_notif out_of_fuel h = tt

    module _ (fuel read_timeout : ℕ) where
      from-HasElem :
          (msgid : ℕ) (s : Session) (w : Wait) (d : Option Received)
          → dequeue msgid s ≡ d
          → HasElem (from_queue_or_wire get_attr parse_mem fuel read_timeout d s w)
      from-HasElem msgid s w none e = nc_read_msg_poll-HasElem parse_mem fuel read_timeout s w
      from-HasElem msgid s w (some r) e = dequeue-HasElem msgid s r e

      got_msg_reply :
          (rpc : Rpc Data) (opts : Options) (s : Session) (m : Mutex) (timeout : Timeout) (w : Wait)
          (k : ℕ)
          → IsAnswer is_reply (
              got_reply yang get_attr parse_mem rpc opts
                (get_msg get_attr parse_mem fuel read_timeout m timeout w (suc k) s))
      unfolding get_msg got_reply
      got_msg_reply rpc opts s m timeout w k = go (nc_timedlock m timeout) refl
        where
          go :
              (l : Locking)
              → nc_timedlock m timeout ≡ l
              → IsAnswer is_reply (
                  got_reply yang get_attr parse_mem rpc opts
                    (get_msg get_attr parse_mem fuel read_timeout m timeout w (suc k) s))
          go locked e =
              rw (e, get_msg)
                (handed_reply rpc opts k _ (from-HasElem (suc k) s w (dequeue (suc k) s) refl))
          go lock_timeout e = rw (e, get_msg) refl
          go lock_failed e = rw (e, get_msg) refl

      got_msg_notif :
          (s : Session) (m : Mutex) (timeout : Timeout) (w : Wait)
          → IsAnswer is_notif (
              got_notif yang get_attr parse_mem
                (get_msg get_attr parse_mem fuel read_timeout m timeout w zero s))
      unfolding get_msg got_notif
      got_msg_notif s m timeout w = go (nc_timedlock m timeout) refl
        where
          go :
              (l : Locking)
              → nc_timedlock m timeout ≡ l
              → IsAnswer is_notif (
                  got_notif yang get_attr parse_mem
                    (get_msg get_attr parse_mem fuel read_timeout m timeout w zero s))
          go locked e =
              rw (e, get_msg) (handed_notif _ (from-HasElem zero s w (dequeue zero s) refl))
          go lock_timeout e = rw (e, get_msg) refl
          go lock_failed e = rw (e, get_msg) refl

      -- For a message id other than 0, nc_recv_reply sets the reply exactly where it returns
      -- NC_MSG_REPLY or NC_MSG_REPLY_ERR_MSGID, and reads no unset pointer.
      pub nc_recv_reply-IsAnswer :
          (s : Session) (m : Mutex) (timeout : Timeout) (w : Wait) (rpc : Rpc Data) (k : ℕ)
          (opts : Options)
          → IsAnswer is_reply (
              nc_recv_reply yang get_attr parse_mem fuel read_timeout s m timeout w rpc
                (suc k)
                opts)
      unfolding nc_recv_reply
      nc_recv_reply-IsAnswer s m timeout w rpc k opts = elim (Bool-cases (yang.has_type opts)) [
        | inl b ↦ rw b refl
        | inr b ↦ elim (Bool-cases (is_running s.status && is_client s.side)) [
          | inl c ↦ rw (b, c) (got_msg_reply rpc (yang.cleared opts) s m timeout w k)
          | inr c ↦ rw (b, c) refl
        ]
      ]

      -- nc_recv_notif sets the notification exactly where it returns NC_MSG_NOTIF, and reads no
      -- unset pointer.
      pub nc_recv_notif-IsAnswer :
          (s : Session) (m : Mutex) (timeout : Timeout) (w : Wait)
          → IsAnswer is_notif
              (nc_recv_notif yang get_attr parse_mem fuel read_timeout s m timeout w)
      unfolding nc_recv_notif
      nc_recv_notif-IsAnswer s m timeout w =
          elim (Bool-cases (is_running s.status && is_client s.side)) [
            | inl c ↦ rw c (got_msg_notif s m timeout w)
            | inr c ↦ rw c refl
          ]
