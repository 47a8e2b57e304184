-- ===== src/Server/Polling.antt =====
-- nc_ps_poll of src/session_server.c as it is built without NC_ENABLED_SSH. `store` holds the
-- session of every pointer.
pub mod Tame
pub mod Others
pub mod Ended
use libnetconf.Common.{
  ℕ, zero, suc, ◌+◌, Bool, true, false, not, ◌&&◌, ◌||◌, leb, ◌==◌, if◌then◌else◌, List, [], ◌∷◌,
  Option, none, some,
}
use libnetconf.Common.Bytes.{Bytes}
use libnetconf.Session.{
  Session, invalid, TermReason, term_none, closed, killed, dropped, timed_out, bad_hello, other,
  terminate,
}
use libnetconf.Session.Xml.{Elem}
use libnetconf.Session.Lock.{
  Mutex, Timeout, Locking, locked, lock_timeout, lock_failed, nc_timedlock,
}
use libnetconf.Server.Poll.{Entry, Slot, is_running}
use libnetconf.Server.Serve.{
  Flags, no_flags, only_error, Store, update, Program, RecvRpc, recv_rpc, recv_nothing, ServerRpc,
  nc_recv_rpc, nc_send_reply,
}

-- The fields of `revents`.
abbrev pub has_event : Entry → Bool
has_event e = e.hup || (e.err || e.inp)

-- The results of poll(): negative, 0, or the new events of each descriptor: POLLHUP or POLLNVAL,
-- POLLERR, POLLIN.
pub data Polled : Type 0 where
  poll_failed poll_timeout : Polled
  poll_ready : List (Bool × Bool × Bool) → Polled

abbrev pub with_events : List (Bool × Bool × Bool) → List Slot → List Slot
with_events [] slots = slots
with_events (r ∷ rs) [] = []
with_events (r ∷ rs) (none ∷ slots) = none ∷ with_events rs slots
with_events (r ∷ rs) (some e ∷ slots) =
    some (record e { hup = r.0; err = r.1; inp = r.2 }) ∷ with_events rs slots

-- `status` and `term_reason` of the session behind a pointer, and the result.
pub data PollResult : Type 0 where
  polled : Flags → Option ℕ → List Slot → Store → PollResult
  poll_undefined poll_nothing : PollResult

abbrev pub lost : Flags
lost = record no_flags { session_term = true; session_error = true }

-- What the first loop finds.
pub data Scan : Type 0 where
  scan_not_running scan_idle : ℕ → Scan
  scan_event scan_none scan_unwritten : Scan

module _ (idle_timeout cur_time : ℕ) (store : Store) where
  abbrev pub is_idle : Session → Bool
  is_idle s = not (idle_timeout == 0) && leb cur_time (s.last_rpc + idle_timeout)

  unfoldable pub scan : List Slot → Scan
  scan [] = scan_none
  scan (none ∷ rest) = scan_unwritten
  scan (some e ∷ rest) =
      let later = scan rest in
      if not (is_running (store e.session).status)
      then scan_not_running e.session
      else (if is_idle (store e.session)
          then scan_idle e.session
          else (if has_event e then scan_event else later))

-- What the second loop finds; of `pick_input` the slots with POLLIN cleared, and whether a later
-- one has an event.
pub data Pick : Type 0 where
  pick_closed pick_broken : ℕ → Pick
  pick_input : ℕ → List Slot → Option Bool → Pick
  pick_none pick_unwritten : Pick

-- There is an event; `none` where a slot that was never written is read.
abbrev pub any_event : List Slot → Option Bool
any_event [] = some false
any_event (none ∷ rest) = none
any_event (some e ∷ rest) = let later = any_event rest in if has_event e then some true else later

abbrev pub clear_events : Entry → Entry
clear_events e = record e { hup = false; err = false; inp = false }

abbrev pub behind : Slot → Pick → Pick
behind x (pick_input h slots more) = pick_input h (x ∷ slots) more
behind x p = p

unfoldable pub pick : List Slot → Pick
pick [] = pick_none
pick (none ∷ rest) = pick_unwritten
pick (some e ∷ rest) =
    let later = behind (some e) (pick rest) in
    if e.hup
    then pick_closed e.session
    else (if e.err
        then pick_broken e.session
        else (if e.inp
            then pick_input e.session (some (clear_events e) ∷ rest) (any_event rest)
            else later))

-- `term_reason & (NC_SESSION_TERM_CLOSED | NC_SESSION_TERM_KILLED)`: the reasons are numbered from
-- 0, so this is an `and` with 3.
abbrev pub has_low_bits : TermReason → Bool
has_low_bits term_none = false
has_low_bits closed = true
has_low_bits killed = true
has_low_bits dropped = true
has_low_bits timed_out = false
has_low_bits bad_hello = true
has_low_bits other = true

-- The flags behind a reply: those of nc_send_reply and of a session that has ended.
unfoldable pub served_flags : Session → Flags → Flags
served_flags s f = if is_running s.status then record f { rpc = true } else record f {
  rpc = true;
  session_term = true;
  session_error = not (has_low_bits s.term_reason);
}

-- Those of a session that has ended while an RPC was read.
unfoldable pub unserved_flags : Session → Flags → Flags
unserved_flags s f =
    if is_running s.status then f else record f { session_term = true; session_error = true }

module _ {Data : Type 0} (prog : Program Data) (parse_mem : Bytes → Option Elem) where
  module _ (fuel read_timeout new_time : ℕ) where
    abbrev pub or_undefined : Option Bool → Flags → ℕ → List Slot → Store → PollResult
    or_undefined none f h slots store = poll_undefined
    or_undefined (some more) f h slots store =
        polled (record f { pending = more }) (some h) slots store

    abbrev pub with_tree :
        ℕ → List Slot → Option Bool → Store → Elem → Option Data → Flags → Session → PollResult
    with_tree h slots more store root none f s =
        polled (unserved_flags s f) (some h) slots (update h s store)
    with_tree h slots more store root (some d) f s =
        let (g, store1) =
          nc_send_reply prog root d h (update h (record s { last_rpc = new_time }) store) in
        or_undefined more (served_flags (store1 h) g) h slots store1

    abbrev pub answer : ℕ → List Slot → Option Bool → Store → RecvRpc Data → PollResult
    answer h slots more store recv_nothing = poll_nothing
    answer h slots more store (recv_rpc f none s) =
        polled (unserved_flags s f) (some h) slots (update h s store)
    answer h slots more store (recv_rpc f (some r) s) =
        with_tree h slots more store r.root r.tree f s

    -- The session with input: its lock, the RPC, the reply.
    unfoldable pub serve : Locking → ℕ → List Slot → Option Bool → Store → PollResult
    serve lock_failed h slots more store = polled only_error (some h) slots store
    serve lock_timeout h slots more store =
        polled (record no_flags { timeout = true }) (some h) slots store
    serve locked h slots more store =
        answer h slots more store (nc_recv_rpc prog parse_mem fuel read_timeout (store h))

    module _ (mutex : ℕ → Mutex) (timeout : Timeout) where
      unfoldable pub after_pick : List Slot → Store → Pick → PollResult
      after_pick slots store (pick_closed h) =
          polled lost (some h) slots (update h (terminate (store h) dropped) store)
      after_pick slots store (pick_broken h) =
          polled lost (some h) slots (update h (terminate (store h) other) store)
      after_pick slots store pick_none = polled only_error none slots store
      after_pick slots store pick_unwritten = poll_undefined
      after_pick slots store (pick_input h slots' more) =
          serve (nc_timedlock (mutex h) timeout) h slots' more store

      abbrev pub after_poll : List Slot → Store → Polled → PollResult
      after_poll slots store poll_failed = polled only_error none slots store
      after_poll slots store poll_timeout =
          polled (record no_flags { timeout = true }) none slots store
      after_poll slots store (poll_ready rs) =
          after_pick (with_events rs slots) store (pick (with_events rs slots))

      -- With events left over there is no poll().
      unfoldable pub after_scan : List Slot → Store → Polled → Scan → PollResult
      after_scan slots store p (scan_not_running h) = polled only_error (some h) slots store
      after_scan slots store p (scan_idle h) =
          polled lost (some h) slots (update h (terminate (store h) timed_out) store)
      after_scan slots store p scan_event = after_pick slots store (pick slots)
      after_scan slots store p scan_none = after_poll slots store p
      after_scan slots store p scan_unwritten = poll_undefined

      unfoldable pub nc_ps_poll :
          (idle_timeout cur_time : ℕ) (ps_locked : Bool) → Polled → List Slot → Store → PollResult
      nc_ps_poll idle_timeout cur_time ps_locked p [] store = polled only_error none [] store
      nc_ps_poll idle_timeout cur_time false p (x ∷ xs) store =
          polled only_error none (x ∷ xs) store
      nc_ps_poll idle_timeout cur_time true p (x ∷ xs) store =
          after_scan (x ∷ xs) store p (scan idle_timeout cur_time store (x ∷ xs))
