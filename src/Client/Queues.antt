-- ===== src/Client/Queues.antt =====
-- get_msg of src/session_client.c: the queues of messages that came while another kind was waited
-- for. `msgid` is 0 where a notification is wanted.
pub mod Kept
pub mod Runs
pub mod Ends
use libnetconf.Common.{ℕ, zero, suc, ◌==◌, if◌then◌else◌, List, [], ◌∷◌, ◌++◌, Option, none, some}
use libnetconf.Common.Bytes.{Bytes, codes}
use libnetconf.Common.Decimal.{strtoul}
use libnetconf.Session.{Session}
use libnetconf.Session.Xml.{Elem}
use libnetconf.Session.Lock.{
  Mutex, Timeout, Locking, locked, lock_timeout, lock_failed, nc_timedlock,
}
use libnetconf.Io.Receive.{
  MsgType, msg_error, msg_wouldblock, msg_none, msg_hello, msg_bad_hello, msg_rpc, msg_reply,
  msg_reply_err_msgid, msg_notif, Received, received, overran, out_of_fuel, Wait, nc_read_msg_poll,
}

-- The first message of the queue that is asked for, taken off it.
unfoldable pub dequeue : ℕ → Session → Option Received
dequeue zero s = elim s.notifs [
  | [] ↦ none
  | x ∷ rest ↦ some (received msg_notif (some x) (record s { notifs = rest }))
]
dequeue (suc k) s = elim s.replies [
  | [] ↦ none
  | x ∷ rest ↦ some (received msg_reply (some x) (record s { replies = rest }))
]

-- A message of the other kind goes behind its queue.
unfoldable pub enqueue : ℕ → Received → Received
enqueue zero (received msg_reply (some x) s) =
    received msg_reply (some x) (record s { replies = s.replies ++ (x ∷ []) })
enqueue (suc k) (received msg_notif (some x) s) =
    received msg_notif (some x) (record s { notifs = s.notifs ++ (x ∷ []) })
enqueue msgid r = r

-- lyxml_get_attr() without a namespace is the parameter `get_attr`.
module _ (get_attr : Elem → Bytes → Option Bytes) where
  unfoldable pub reply_type : ℕ → Elem → MsgType
  reply_type msgid x = elim (get_attr x (codes "message-id")) [
    | none ↦ msg_reply_err_msgid
    | some str ↦ if strtoul str == msgid then msg_reply else msg_reply_err_msgid
  ]

  -- The switch over the type; where `*msg` is not set there is no element.
  unfoldable pub hand_out : ℕ → Received → Received
  hand_out zero (received msg_notif x s) = received msg_notif x s
  hand_out (suc k) (received msg_notif x s) = received msg_notif none s
  hand_out (suc k) (received msg_reply (some x) s) = received (reply_type (suc k) x) (some x) s
  hand_out msgid (received msg_hello x s) = received msg_error none s
  hand_out msgid (received msg_rpc x s) = received msg_error none s
  hand_out msgid (received ty x s) = received ty none s
  hand_out msgid overran = overran
  hand_out msgid out_of_fuel = out_of_fuel

  module _ (parse_mem : Bytes → Option Elem) (fuel read_timeout : ℕ) where
    abbrev pub from_queue_or_wire : Option Received → Session → Wait → Received
    from_queue_or_wire none s w = nc_read_msg_poll parse_mem fuel read_timeout s w
    from_queue_or_wire (some r) s w = r

    unfoldable pub get_msg : Mutex → Timeout → Wait → ℕ → Session → Received
    get_msg m timeout w msgid s = elim (nc_timedlock m timeout) [
      | lock_failed ↦ received msg_error none s
      | lock_timeout ↦ received msg_wouldblock none s
      | locked ↦ hand_out msgid (enqueue msgid (from_queue_or_wire (dequeue msgid s) s w))
    ]
