-- ===== src/Client/Queues/Kept.antt =====
-- No message of a client is lost, doubled, or overtaken by one of its kind.
use libnetconf.Common.{
  ℕ, zero, suc, ◌≡◌, refl, sym, ◌∙◌, ap, List, [], ◌∷◌, ◌++◌, append-nil, Option, none, some,
  if◌then◌else◌, ◌==◌, subst, Bool-cases, inl, inr,
}
use libnetconf.Common.Bytes.{Bytes, codes}
use libnetconf.Common.Decimal.{strtoul}
use libnetconf.Session.{Session}
use libnetconf.Session.Core.{core}
use libnetconf.Session.Xml.{Elem}
use libnetconf.Io.Receive.{
  MsgType, msg_reply, msg_reply_err_msgid, msg_notif, Received, received, overran, out_of_fuel,
}
use libnetconf.Io.Receive.Core.{StaysReceived}
use libnetconf.Client.Queues.{dequeue, enqueue, reply_type, hand_out}

-- What a call of get_msg gives to its caller.
abbrev pub notif_out : ℕ → Received → List Elem
notif_out zero (received msg_notif (some x) s) = x ∷ []
notif_out msgid r = []

abbrev pub reply_out : ℕ → Received → List Elem
reply_out (suc k) (received msg_reply (some x) s) = x ∷ []
reply_out (suc k) (received msg_reply_err_msgid (some x) s) = x ∷ []
reply_out msgid r = []

-- What it reads from the wire.
abbrev pub notif_in : Received → List Elem
notif_in (received msg_notif (some x) s) = x ∷ []
notif_in r = []

abbrev pub reply_in : Received → List Elem
reply_in (received msg_reply (some x) s) = x ∷ []
reply_in r = []

-- What came before goes out before; what goes not out is in the queue.
abbrev pub Conserves : ℕ → Session → List Elem → List Elem → Received → Type 0
Conserves msgid s notifs replies (received ty x s') =
    (notif_out msgid (received ty x s') ++ s'.notifs ≡ s.notifs ++ notifs)
    × (reply_out msgid (received ty x s') ++ s'.replies ≡ s.replies ++ replies)
Conserves msgid s notifs replies overran = Unit {0}
Conserves msgid s notifs replies out_of_fuel = Unit {0}

module _ (get_attr : Elem → Bytes → Option Bytes) where
  reply_type_out :
      (k : ℕ) (x : Elem) (s : Session)
      → reply_out (suc k) (received (reply_type get_attr (suc k) x) (some x) s) ≡ x ∷ []
  unfolding reply_type
  reply_type_out k x s = go (get_attr x (codes "message-id"))
    where
      go :
          (a : Option Bytes)
          → reply_out (suc k) (
              received
                (elim a as (λ z. MsgType) [
                  | none ↦ msg_reply_err_msgid
                  | some str ↦ if strtoul str == suc k then msg_reply else msg_reply_err_msgid
                ])
                (some x)
                s)
            ≡ x ∷ []
      go none = refl
      go (some str) = elim (Bool-cases (strtoul str == suc k)) [
        | inl b ↦ rw b refl
        | inr b ↦ rw b refl
      ]

  -- A message from a queue.
  from_notifs :
      (s : Session) (r : Received) (l : List Elem)
      → s.notifs ≡ l
      → dequeue zero s ≡ some r
      → Conserves zero s [] [] (hand_out get_attr zero (enqueue zero r))
  unfolding dequeue hand_out enqueue
  from_notifs s r [] e h = let now : dequeue zero s ≡ none = rw (e, dequeue) refl in absurd cc
  from_notifs s r (x ∷ rest) e h =
      let taken : Received = received msg_notif (some x) (record s { notifs = rest }) in
      let now : dequeue zero s ≡ some taken = rw (e, dequeue) refl in
      let same : taken ≡ r = cc in
      subst (λ y. Conserves zero s [] [] (hand_out get_attr zero (enqueue zero y))) same
        (sym e ∙ sym (append-nil s.notifs), sym (append-nil s.replies))

  from_replies :
      (k : ℕ) (s : Session) (r : Received) (l : List Elem)
      → s.replies ≡ l
      → dequeue (suc k) s ≡ some r
      → Conserves (suc k) s [] [] (hand_out get_attr (suc k) (enqueue (suc k) r))
  unfolding dequeue hand_out enqueue
  from_replies k s r [] e h = let now : dequeue (suc k) s ≡ none = rw (e, dequeue) refl in absurd cc
  from_replies k s r (x ∷ rest) e h =
      let s' : Session = record s { replies = rest } in
      let taken : Received = received msg_reply (some x) s' in
      let now : dequeue (suc k) s ≡ some taken = rw (e, dequeue) refl in
      let same : taken ≡ r = cc in
      subst (λ y. Conserves (suc k) s [] [] (hand_out get_attr (suc k) (enqueue (suc k) y))) same
        (
          sym (append-nil s.notifs),
          ap (λ l. l ++ rest) (reply_type_out k x s') ∙ sym e ∙ sym (append-nil s.replies),
        )

  pub from_queue :
      (msgid : ℕ) (s : Session) (r : Received)
      → dequeue msgid s ≡ some r
      → Conserves msgid s [] [] (hand_out get_attr msgid (enqueue msgid r))
  from_queue zero s r = from_notifs s r s.notifs refl
  from_queue (suc k) s r = from_replies k s r s.replies refl

  no_notifs : (s : Session) (l : List Elem) → s.notifs ≡ l → dequeue zero s ≡ none → s.notifs ≡ []
  unfolding dequeue
  no_notifs s [] e h = e
  no_notifs s (x ∷ rest) e h =
      let now : dequeue zero s ≡ some (received msg_notif (some x) (record s { notifs = rest })) =
        rw (e, dequeue) refl in
      absurd cc

  no_replies :
      (k : ℕ) (s : Session) (l : List Elem)
      → s.replies ≡ l
      → dequeue (suc k) s ≡ none
      → s.replies ≡ []
  unfolding dequeue
  no_replies k s [] e h = e
  no_replies k s (x ∷ rest) e h =
      let now : dequeue (suc k) s
          ≡ some (received msg_reply (some x) (record s { replies = rest })) =
        rw (e, dequeue) refl in
      absurd cc

  same_queues :
      (s s' : Session)
      → core s' ≡ core s
      → (s'.notifs ≡ s.notifs ++ []) × (s'.replies ≡ s.replies ++ [])
  same_queues s s' k =
      (ap (λ c. c.8) k ∙ sym (append-nil s.notifs), ap (λ c. c.7) k ∙ sym (append-nil s.replies))

  first_and_last :
      (x : Elem) (now before : List Elem)
      → now ≡ before
      → before ≡ []
      → x ∷ now ≡ before ++ (x ∷ [])
  first_and_last x now before e h = ap (◌∷◌ x) (e ∙ h) ∙ sym (ap (λ l. l ++ (x ∷ [])) h)

  -- A message from the wire, when the queue is empty.
  pub from_wire :
      (msgid : ℕ) (s : Session) (r : Received)
      → dequeue msgid s ≡ none
      → StaysReceived s r
      → Conserves msgid s (notif_in r) (reply_in r) (hand_out get_attr msgid (enqueue msgid r))
  unfolding hand_out enqueue
  from_wire zero s overran e k = tt
  from_wire (suc i) s overran e k = tt
  from_wire zero s out_of_fuel e k = tt
  from_wire (suc i) s out_of_fuel e k = tt
  from_wire zero s (received msg_notif (some x) s') e k = (
    first_and_last x s'.notifs s.notifs (ap (λ c. c.8) k) (no_notifs s s.notifs refl e),
    (same_queues s s' k).1,
  )
  from_wire zero s (received msg_reply (some x) s') e k =
      ((same_queues s s' k).0, ap (λ c. c.7 ++ (x ∷ [])) k)
  from_wire zero s (received ty x s') e k = same_queues s s' k
  from_wire (suc i) s (received msg_notif (some x) s') e k =
      (ap (λ c. c.8 ++ (x ∷ [])) k, (same_queues s s' k).1)
  from_wire (suc i) s (received msg_reply (some x) s') e k = (
    (same_queues s s' k).0,
    ap (λ l. l ++ s'.replies) (reply_type_out i x s')
        ∙ first_and_last x s'.replies s.replies (ap (λ c. c.7) k) (no_replies i s s.replies refl e),
  )
  from_wire (suc i) s (received ty x s') e k = same_queues s s' k
