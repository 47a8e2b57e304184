-- ===== src/Client/Reply/WithElem.antt =====
-- Messages that get_msg of src/session_client.c takes from its queues or from the wire come with
-- their elements.
use libnetconf.Common.{
  ℕ, zero, suc, ◌≡◌, refl, subst, Bool, true, false, List, [], ◌∷◌, Option, none, some, Bool-cases,
  inl, inr,
}
use libnetconf.Common.Bytes.{Bytes}
use libnetconf.Session.{Session, is_live}
use libnetconf.Session.Xml.{Elem}
use libnetconf.Io.Read.{Result, ok, error, fault, stuck}
use libnetconf.Io.Frame.{Framed, message, malformed, read_framed}
use libnetconf.Io.Receive.{
  msg_reply, msg_reply_err_msgid, msg_notif, Received, received, Wait, malformed_msg, classify,
  after_frame, after_poll, nc_read_poll, nc_read_msg, nc_read_msg_poll,
}
use libnetconf.Io.Receive.Kinds.{IsSensible, classify-IsSensible}
use libnetconf.Client.Queues.{dequeue}

-- A reply or a notification comes with its element.
abbrev pub HasElem : Received → Type 0
HasElem (received msg_reply none s) = ⊥
HasElem (received msg_notif none s) = ⊥
HasElem (received msg_reply_err_msgid x s) = ⊥
HasElem _ = Unit {0}

IsSensible→HasElem : (r : Received) → IsSensible r → HasElem r
IsSensible→HasElem (received msg_reply none s) h = absurd cc
IsSensible→HasElem (received msg_notif none s) h = absurd cc
IsSensible→HasElem (received msg_reply_err_msgid none s) h = absurd cc
IsSensible→HasElem (received msg_reply_err_msgid (some x) s) h = h
IsSensible→HasElem (received msg_reply (some x) s) h = tt
IsSensible→HasElem (received msg_notif (some x) s) h = tt
IsSensible→HasElem _ h = tt

module _ (parse_mem : Bytes → Option Elem) where
  after_frame-HasElem : (r : Result Framed) → HasElem (after_frame parse_mem r)
  unfolding after_frame malformed_msg
  after_frame-HasElem (ok (message m) s t) =
      IsSensible→HasElem (classify s (parse_mem m)) (classify-IsSensible s (parse_mem m))
  after_frame-HasElem (ok malformed s t) = tt
  after_frame-HasElem (error s) = tt
  after_frame-HasElem fault = tt
  after_frame-HasElem stuck = tt

  nc_read_msg-HasElem :
      (fuel read_timeout : ℕ) (s : Session) → HasElem (nc_read_msg parse_mem fuel read_timeout s)
  unfolding nc_read_msg
  nc_read_msg-HasElem fuel read_timeout s = elim (Bool-cases (is_live s.status)) [
    | inl e ↦ rw e (after_frame-HasElem (read_framed fuel s.version s read_timeout))
    | inr e ↦ rw e tt
  ]

  after_poll-HasElem :
      (fuel read_timeout : ℕ) (p : Session × Option Bool)
      → HasElem (after_poll parse_mem fuel read_timeout p)
  after_poll-HasElem fuel read_timeout (s, none) = tt
  after_poll-HasElem fuel read_timeout (s, some false) = tt
  after_poll-HasElem fuel read_timeout (s, some true) = nc_read_msg-HasElem fuel read_timeout s

  pub nc_read_msg_poll-HasElem :
      (fuel read_timeout : ℕ) (s : Session) (w : Wait)
      → HasElem (nc_read_msg_poll parse_mem fuel read_timeout s w)
  unfolding nc_read_msg_poll
  nc_read_msg_poll-HasElem fuel read_timeout s w = elim (Bool-cases (is_live s.status)) [
    | inl e ↦ rw e (after_poll-HasElem fuel read_timeout (nc_read_poll s w))
    | inr e ↦ rw e tt
  ]

dequeued_notif :
    (s : Session) (r : Received) (l : List Elem)
    → s.notifs ≡ l
    → dequeue zero s ≡ some r
    → HasElem r
unfolding dequeue
dequeued_notif s r [] e h = let now : dequeue zero s ≡ none = rw (e, dequeue) refl in absurd cc
dequeued_notif s r (x ∷ rest) e h =
    let taken : Received = received msg_notif (some x) (record s { notifs = rest }) in
    let now : dequeue zero s ≡ some taken = rw (e, dequeue) refl in
    let same : taken ≡ r = cc in subst HasElem same tt

dequeued_reply :
    (k : ℕ) (s : Session) (r : Received) (l : List Elem)
    → s.replies ≡ l
    → dequeue (suc k) s ≡ some r
    → HasElem r
unfolding dequeue
dequeued_reply k s r [] e h = let now : dequeue (suc k) s ≡ none = rw (e, dequeue) refl in absurd cc
dequeued_reply k s r (x ∷ rest) e h =
    let taken : Received = received msg_reply (some x) (record s { replies = rest }) in
    let now : dequeue (suc k) s ≡ some taken = rw (e, dequeue) refl in
    let same : taken ≡ r = cc in subst HasElem same tt

pub dequeue-HasElem :
    (msgid : ℕ) (s : Session) (r : Received) → dequeue msgid s ≡ some r → HasElem r
dequeue-HasElem zero s r e = dequeued_notif s r s.notifs refl e
dequeue-HasElem (suc k) s r e = dequeued_reply k s r s.replies refl e
