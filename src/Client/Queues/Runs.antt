-- ===== src/Client/Queues/Runs.antt =====
-- Any row of calls of get_msg.
use libnetconf.Common.{
  ℕ, zero, suc, ◌≡◌, refl, sym, ◌∙◌, ap, List, [], ◌∷◌, ◌++◌, append_assoc, append-nil, Option,
  none, some, Option-cases, inl, inr, subst,
}
use libnetconf.Common.Bytes.{Bytes}
use libnetconf.Session.{Session}
use libnetconf.Session.Xml.{Elem}
use libnetconf.Session.Lock.{
  Mutex, Timeout, Locking, locked, lock_timeout, lock_failed, nc_timedlock,
}
use libnetconf.Io.Receive.{
  msg_error, msg_wouldblock, Received, received, overran, out_of_fuel, Wait, nc_read_msg_poll,
}
use libnetconf.Io.Receive.Core.{nc_read_msg_poll-Stays}
use libnetconf.Client.Queues.{dequeue, get_msg}
use libnetconf.Client.Queues.Kept.{
  notif_out, reply_out, notif_in, reply_in, Conserves, from_queue, from_wire,
}

-- A call: the message id, or 0 for a notification; the lock and the wire as it finds them.
pub record Call : Type 0 where
  pub msgid : ℕ
  pub mutex : Mutex
  pub timeout : Timeout
  pub wait : Wait

-- What a row of calls has handed out and read from the wire, and the session behind it.
pub record Log : Type 0 where
  pub notifs_out : List Elem
  pub replies_out : List Elem
  pub notifs_in : List Elem
  pub replies_in : List Elem
  pub final : Session

abbrev pub no_calls : Session → Log
no_calls s = record {
  notifs_out = [];
  replies_out = [];
  notifs_in = [];
  replies_in = [];
  final = s;
}

module _ (get_attr : Elem → Bytes → Option Bytes) (parse_mem : Bytes → Option Elem) where
  module _ (fuel read_timeout : ℕ) where
    -- What the call reads from the wire, if it does.
    abbrev pub read_when : Locking → Option Received → Session → Wait → Option Received
    read_when locked none s w = some (nc_read_msg_poll parse_mem fuel read_timeout s w)
    read_when locked (some r) s w = none
    read_when lock_timeout d s w = none
    read_when lock_failed d s w = none

    abbrev pub read_by : Call → Session → Option Received
    read_by c s = read_when (nc_timedlock c.mutex c.timeout) (dequeue c.msgid s) s c.wait

    abbrev pub call : Call → Session → Received
    call c s = get_msg get_attr parse_mem fuel read_timeout c.mutex c.timeout c.wait c.msgid s

    abbrev pub ins : (Received → List Elem) → Option Received → List Elem
    ins f none = []
    ins f (some r) = f r

    -- A call without a result ends the row with none.
    abbrev pub add : Call → Option Received → Received → Log → Log
    add c read g l = record {
      notifs_out = notif_out c.msgid g ++ l.notifs_out;
      replies_out = reply_out c.msgid g ++ l.replies_out;
      notifs_in = ins notif_in read ++ l.notifs_in;
      replies_in = ins reply_in read ++ l.replies_in;
      final = l.final;
    }

    abbrev pub session_of : Received → Option Session
    session_of (received ty x s) = some s
    session_of overran = none
    session_of out_of_fuel = none

    unfoldable pub run : List Call → Session → Option Log
    run [] s = some (no_calls s)
    run (c ∷ cs) s = elim (session_of (call c s)) [
      | none ↦ none
      | some s' ↦ elim (run cs s') [
        | none ↦ none
        | some l ↦ some (add c (read_by c s) (call c s) l)
      ]
    ]

    in_a_row :
        (out outs left middle queue new news : List Elem)
        → out ++ middle ≡ queue ++ new
        → outs ++ left ≡ middle ++ news
        → (out ++ outs) ++ left ≡ queue ++ (new ++ news)
    in_a_row out outs left middle queue new news k l =
        append_assoc out outs left
        ∙ ap (◌++◌ out) l
        ∙ sym (append_assoc out middle news)
        ∙ ap (λ x. x ++ news) k
        ∙ append_assoc queue new news

    no_message :
        (msgid : ℕ) (s : Session)
        → Conserves msgid s [] [] (received msg_wouldblock none s)
          × Conserves msgid s [] [] (received msg_error none s)
    no_message zero s = (
      (sym (append-nil s.notifs), sym (append-nil s.replies)),
      (sym (append-nil s.notifs), sym (append-nil s.replies)),
    )
    no_message (suc k) s = (
      (sym (append-nil s.notifs), sym (append-nil s.replies)),
      (sym (append-nil s.notifs), sym (append-nil s.replies)),
    )

    call-Conserves :
        (c : Call) (s : Session)
        → Conserves c.msgid s (ins notif_in (read_by c s)) (ins reply_in (read_by c s)) (call c s)
    unfolding get_msg
    call-Conserves c s = go (nc_timedlock c.mutex c.timeout) refl (dequeue c.msgid s) refl
      where
        go :
            (l : Locking)
            → nc_timedlock c.mutex c.timeout ≡ l
            → (d : Option Received) → dequeue c.msgid s ≡ d
            → Conserves c.msgid s
                (ins notif_in (read_by c s))
                (ins reply_in (read_by c s))
                (call c s)
        go locked e (some r) h = rw (e, h, get_msg) (from_queue get_attr c.msgid s r h)
        go locked e none h =
            rw (e, h, get_msg)
              (from_wire get_attr c.msgid s _ h
                (nc_read_msg_poll-Stays parse_mem fuel read_timeout s c.wait))
        go lock_timeout e d h = rw (e, get_msg) (no_message c.msgid s).0
        go lock_failed e d h = rw (e, get_msg) (no_message c.msgid s).1

    -- A row of calls: what was in a queue, and then what came from the wire, has been handed out,
    -- and then what is in the queue; each message once, and in the order in which it came.
    pub run_conserves :
        (cs : List Call) (s : Session) (l : Log)
        → run cs s ≡ some l
        → (l.notifs_out ++ l.final.notifs ≡ s.notifs ++ l.notifs_in)
          × (l.replies_out ++ l.final.replies ≡ s.replies ++ l.replies_in)
    unfolding run
    run_conserves [] s l e =
        let same : no_calls s ≡ l = cc in
        subst
          (λ (y : Log).
            (y.notifs_out ++ y.final.notifs ≡ s.notifs ++ y.notifs_in)
            × (y.replies_out ++ y.final.replies ≡ s.replies ++ y.replies_in))
          same (sym (append-nil s.notifs), sym (append-nil s.replies))
    run_conserves (c ∷ cs) s l e =
        go (λ s' m z. run_conserves cs s' m z) (call c s) refl (call-Conserves c s)
      where
        Holds : Log → Type 0
        Holds y =
            (y.notifs_out ++ y.final.notifs ≡ s.notifs ++ y.notifs_in)
            × (y.replies_out ++ y.final.replies ≡ s.replies ++ y.replies_in)

        Later : Type 0
        Later =
            (s' : Session) (m : Log)
            → run cs s' ≡ some m
            → (m.notifs_out ++ m.final.notifs ≡ s'.notifs ++ m.notifs_in)
              × (m.replies_out ++ m.final.replies ≡ s'.replies ++ m.replies_in)

        go :
            Later
            → (g : Received) → call c s ≡ g
            → Conserves c.msgid s (ins notif_in (read_by c s)) (ins reply_in (read_by c s)) g
            → Holds l
        go ih overran h k = let now : run (c ∷ cs) s ≡ none = rw (h, run) refl in absurd cc
        go ih out_of_fuel h k = let now : run (c ∷ cs) s ≡ none = rw (h, run) refl in absurd cc
        go ih (received ty x s') h k = elim (Option-cases (run cs s')) [
          | inl z ↦
              let d : session_of (call c s) ≡ some s' = ap session_of h in
              let now : run (c ∷ cs) s ≡ none = rw (d, z, run) refl in absurd cc
          | inr (m, z) ↦
              let d : session_of (call c s) ≡ some s' = ap session_of h in
              let sum : Log = add c (read_by c s) (call c s) m in
              let now : run (c ∷ cs) s ≡ some sum = rw (d, z, run) refl in
              let same : sum ≡ l = cc in
              let later = ih s' m z in
              subst Holds same (
                subst (λ g. Holds (add c (read_by c s) g m)) (sym h)
                  (
                    in_a_row _ m.notifs_out m.final.notifs s'.notifs s.notifs _ m.notifs_in k.0
                        later.0,
                    in_a_row _ m.replies_out m.final.replies s'.replies s.replies _ m.replies_in k.1
                        later.1,
                  ))
        ]
