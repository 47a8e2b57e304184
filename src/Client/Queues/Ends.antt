-- ===== src/Client/Queues/Ends.antt =====
-- get_msg of src/session_client.c returns.
use libnetconf.Common.{
  ℕ, zero, suc, ◌<◌, ◌≡◌, refl, subst, Bool, true, false, Option, none, some, List, [], ◌∷◌,
  Bool-cases, inl, inr,
}
use libnetconf.Common.Bytes.{Bytes}
use libnetconf.Session.{Session, is_live, TransportImpl, ti_none, ti_fd, ti_libssh, ti_openssl}
use libnetconf.Session.Xml.{Elem}
use libnetconf.Session.Lock.{
  Mutex, Timeout, Locking, locked, lock_timeout, lock_failed, nc_timedlock,
}
use libnetconf.Io.Read.Total.{budget}
use libnetconf.Io.Receive.{
  msg_reply, msg_notif, Received, received, overran, out_of_fuel, Wait, wait_failed, wait_eof,
  wait_nothing, wait_events, poll_events_of, poll_ssh, poll_switch, nc_read_poll, nc_read_msg,
  nc_read_msg_poll, after_poll,
}
use libnetconf.Io.Receive.Kinds.{IsSensible, nc_read_msg-IsSensible}
use libnetconf.Client.Queues.{dequeue, enqueue, hand_out, get_msg}

-- A result, or an overrun chunk buffer.
abbrev pub HasEnded : Received → Type 0
HasEnded (received ty x s) = Unit {0}
HasEnded overran = Unit {0}
HasEnded out_of_fuel = ⊥

IsSensible→HasEnded : (r : Received) → IsSensible r → HasEnded r
IsSensible→HasEnded (received ty x s) h = tt
IsSensible→HasEnded overran h = tt
IsSensible→HasEnded out_of_fuel h = h

poll_events_of-incoming : (s : Session) (w : Wait) → (poll_events_of s w).0.incoming ≡ s.incoming
unfolding poll_events_of
poll_events_of-incoming s wait_failed = refl
poll_events_of-incoming s wait_eof = refl
poll_events_of-incoming s wait_nothing = refl
poll_events_of-incoming s (wait_events true err) = refl
poll_events_of-incoming s (wait_events false true) = refl
poll_events_of-incoming s (wait_events false false) = refl

poll_switch-incoming :
    (ti : TransportImpl) (s : Session) (w : Wait) → (poll_switch ti s w).0.incoming ≡ s.incoming
unfolding poll_ssh
poll_switch-incoming ti_none s w = refl
poll_switch-incoming ti_fd s w = poll_events_of-incoming s w
poll_switch-incoming ti_libssh s wait_failed = refl
poll_switch-incoming ti_libssh s wait_eof = refl
poll_switch-incoming ti_libssh s wait_nothing = refl
poll_switch-incoming ti_libssh s (wait_events hup err) = refl
poll_switch-incoming ti_openssl s w = poll_events_of-incoming s w

nc_read_poll-incoming : (s : Session) (w : Wait) → (nc_read_poll s w).0.incoming ≡ s.incoming
unfolding nc_read_poll
nc_read_poll-incoming s w = elim (Bool-cases (is_live s.status)) [
  | inl b ↦ rw b (poll_switch-incoming s.ti_type s w)
  | inr b ↦ rw b refl
]

notif-HasEnded :
    (s : Session) (r : Received) (l : List Elem)
    → s.notifs ≡ l
    → dequeue zero s ≡ some r
    → HasEnded r
unfolding dequeue
notif-HasEnded s r [] e h = let now : dequeue zero s ≡ none = rw (e, dequeue) refl in absurd cc
notif-HasEnded s r (x ∷ rest) e h =
    let taken : Received = received msg_notif (some x) (record s { notifs = rest }) in
    let now : dequeue zero s ≡ some taken = rw (e, dequeue) refl in
    let same : taken ≡ r = cc in subst HasEnded same tt

reply-HasEnded :
    (k : ℕ) (s : Session) (r : Received) (l : List Elem)
    → s.replies ≡ l
    → dequeue (suc k) s ≡ some r
    → HasEnded r
unfolding dequeue
reply-HasEnded k s r [] e h = let now : dequeue (suc k) s ≡ none = rw (e, dequeue) refl in absurd cc
reply-HasEnded k s r (x ∷ rest) e h =
    let taken : Received = received msg_reply (some x) (record s { replies = rest }) in
    let now : dequeue (suc k) s ≡ some taken = rw (e, dequeue) refl in
    let same : taken ≡ r = cc in subst HasEnded same tt

dequeue-HasEnded : (msgid : ℕ) (s : Session) (r : Received) → dequeue msgid s ≡ some r → HasEnded r
dequeue-HasEnded zero s r e = notif-HasEnded s r s.notifs refl e
dequeue-HasEnded (suc k) s r e = reply-HasEnded k s r s.replies refl e

module _ (parse_mem : Bytes → Option Elem) (fuel read_timeout : ℕ) where
  after_poll-HasEnded :
      (s : Session) (p : Session × Option Bool)
      → p.0.incoming ≡ s.incoming
      → budget s read_timeout < fuel
      → read_timeout < 65536
      → HasEnded (after_poll parse_mem fuel read_timeout p)
  after_poll-HasEnded s (s', none) e b t = tt
  after_poll-HasEnded s (s', some false) e b t = tt
  after_poll-HasEnded s (s', some true) e b t =
      IsSensible→HasEnded (nc_read_msg parse_mem fuel read_timeout s')
        (nc_read_msg-IsSensible parse_mem fuel read_timeout s' (rw e b) t)

  nc_read_msg_poll-HasEnded :
      (s : Session) (w : Wait)
      → budget s read_timeout < fuel
      → read_timeout < 65536
      → HasEnded (nc_read_msg_poll parse_mem fuel read_timeout s w)
  unfolding nc_read_msg_poll
  nc_read_msg_poll-HasEnded s w b t = elim (Bool-cases (is_live s.status)) [
    | inl e ↦ rw e (after_poll-HasEnded s (nc_read_poll s w) (nc_read_poll-incoming s w) b t)
    | inr e ↦ rw e tt
  ]

  module _ (get_attr : Elem → Bytes → Option Bytes) where
    handed-HasEnded :
        (msgid : ℕ) (r : Received)
        → HasEnded r
        → HasEnded (hand_out get_attr msgid (enqueue msgid r))
    unfolding hand_out enqueue
    handed-HasEnded zero (received msg_reply (some x) s) h = tt
    handed-HasEnded zero (received msg_reply none s) h = tt
    handed-HasEnded zero (received msg_notif x s) h = tt
    handed-HasEnded zero (received _ x s) h = tt
    handed-HasEnded (suc k) (received msg_notif (some x) s) h = tt
    handed-HasEnded (suc k) (received msg_notif none s) h = tt
    handed-HasEnded (suc k) (received msg_reply (some x) s) h = tt
    handed-HasEnded (suc k) (received msg_reply none s) h = tt
    handed-HasEnded (suc k) (received _ x s) h = tt
    handed-HasEnded zero overran h = tt
    handed-HasEnded (suc k) overran h = tt
    handed-HasEnded zero out_of_fuel h = h
    handed-HasEnded (suc k) out_of_fuel h = h

    -- With fuel for the arrivals and the timeout, a timeout below 2 ^ 16, get_msg returns, unless a
    -- chunk overran.
    pub get_msg-HasEnded :
        (m : Mutex) (timeout : Timeout) (w : Wait) (msgid : ℕ) (s : Session)
        → budget s read_timeout < fuel
        → read_timeout < 65536
        → HasEnded (get_msg get_attr parse_mem fuel read_timeout m timeout w msgid s)
    unfolding get_msg
    get_msg-HasEnded m timeout w msgid s b t =
        go (nc_timedlock m timeout) refl (dequeue msgid s) refl
      where
        go :
            (l : Locking)
            → nc_timedlock m timeout ≡ l
            → (d : Option Received) → dequeue msgid s ≡ d
            → HasEnded (get_msg get_attr parse_mem fuel read_timeout m timeout w msgid s)
        go locked e (some r) h =
            rw (e, h, get_msg) (handed-HasEnded msgid r (dequeue-HasEnded msgid s r h))
        go locked e none h =
            rw (e, h, get_msg) (handed-HasEnded msgid _ (nc_read_msg_poll-HasEnded s w b t))
        go lock_timeout e d h = rw (e, get_msg) tt
        go lock_failed e d h = rw (e, get_msg) tt
