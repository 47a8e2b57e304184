-- ===== src/Server/Polling/Others.antt =====
-- nc_ps_poll of src/session_server.c leaves the other sessions alone.
use libnetconf.Common.{
  ℕ, ◌≡◌, refl, ap, ◌∙◌, Bool, true, false, if◌then◌else◌, List, [], ◌∷◌, Option, none, some,
}
use libnetconf.Common.Bytes.{Bytes}
use libnetconf.Server.Polling.Tame.{
  AreTame, KeepsOthers, unchanged, updated, served_flags-rpc, nc_send_reply-KeepsOthers,
}
use libnetconf.Session.{terminate, dropped, other, timed_out}
use libnetconf.Session.Xml.{Elem}
use libnetconf.Session.Lock.{
  Mutex, Timeout, Locking, locked, lock_timeout, lock_failed, nc_timedlock,
}
use libnetconf.Server.Poll.{Entry, Slot}
use libnetconf.Server.Serve.{Store, update, Program, RecvRpc, recv_rpc, recv_nothing, nc_send_reply}
use libnetconf.Server.Polling.{
  any_event, clear_events, Polled, poll_failed, poll_timeout, poll_ready, with_events, PollResult,
  polled, poll_undefined, poll_nothing, Scan, scan_not_running, scan_idle, scan_event, scan_none,
  scan_unwritten, scan, Pick, pick_closed, pick_broken, pick_input, pick_none, pick_unwritten, pick,
  behind, serve, after_pick, after_scan, nc_ps_poll, answer, with_tree, after_poll, served_flags,
}

-- The pointers of the slots.
abbrev pub pointers : List Slot → List (Option ℕ)
pointers [] = []
pointers (none ∷ rest) = none ∷ pointers rest
pointers (some e ∷ rest) = some e.session ∷ pointers rest

-- The sessions are where they were, and what may have changed of them.
abbrev pub IsLocal : List Slot → Store → PollResult → Type 0
IsLocal slots store (polled f none slots' store') =
    (pointers slots' ≡ pointers slots) × ((k : ℕ) → store' k ≡ store k)
IsLocal slots store (polled f (some h) slots' store') =
    (pointers slots' ≡ pointers slots) × KeepsOthers f h store store'
IsLocal slots store poll_undefined = Unit {0}
IsLocal slots store poll_nothing = Unit {0}

pointers-with_events :
    (rs : List (Bool × Bool × Bool)) (slots : List Slot)
    → pointers (with_events rs slots) ≡ pointers slots
pointers-with_events [] slots = refl
pointers-with_events (r ∷ rs) [] = refl
pointers-with_events (r ∷ rs) (none ∷ slots) = ap (◌∷◌ none) (pointers-with_events rs slots)
pointers-with_events (r ∷ rs) (some e ∷ slots) =
    ap (◌∷◌ (some e.session)) (pointers-with_events rs slots)

-- The slots that are picked from keep their pointers.
abbrev KeepsPointers : List Slot → Pick → Type 0
KeepsPointers slots (pick_input h slots' more) = pointers slots' ≡ pointers slots
KeepsPointers slots _ = Unit {0}

KeepsPointers-behind :
    (e : Entry) (rest : List Slot) (p : Pick)
    → KeepsPointers rest p
    → KeepsPointers (some e ∷ rest) (behind (some e) p)
KeepsPointers-behind e rest (pick_input h slots more) k = ap (◌∷◌ (some e.session)) k
KeepsPointers-behind e rest (pick_closed h) k = tt
KeepsPointers-behind e rest (pick_broken h) k = tt
KeepsPointers-behind e rest pick_none k = tt
KeepsPointers-behind e rest pick_unwritten k = tt

picked-KeepsPointers :
    (e : Entry) (rest : List Slot) (hup err inp : Bool)
    → KeepsPointers rest (pick rest)
    → KeepsPointers (some e ∷ rest) (
        if hup
        then pick_closed e.session
        else (if err
            then pick_broken e.session
            else (if inp
                then pick_input e.session (some (clear_events e) ∷ rest) (any_event rest)
                else behind (some e) (pick rest))))
picked-KeepsPointers e rest true err inp k = tt
picked-KeepsPointers e rest false true inp k = tt
picked-KeepsPointers e rest false false true k = refl
picked-KeepsPointers e rest false false false k = KeepsPointers-behind e rest (pick rest) k

pick-KeepsPointers : (slots : List Slot) → KeepsPointers slots (pick slots)
unfolding pick
pick-KeepsPointers [] = tt
pick-KeepsPointers (none ∷ rest) = tt
pick-KeepsPointers (some e ∷ rest) =
    picked-KeepsPointers e rest e.hup e.err e.inp (pick-KeepsPointers rest)

module _ {Data : Type 0} (prog : Program Data) (tame : AreTame prog)
    (parse_mem : Bytes → Option Elem) where
  module _ (fuel read_timeout new_time : ℕ) where
    answer-IsLocal :
        (h : ℕ) (slots slots' : List Slot) (more : Option Bool) (store : Store) (r : RecvRpc Data)
        → pointers slots' ≡ pointers slots
        → IsLocal slots store
            (answer prog parse_mem fuel read_timeout new_time h slots' more store r)
    answer-IsLocal h slots slots' more store recv_nothing e = tt
    answer-IsLocal h slots slots' more store (recv_rpc f none s) e = (e, updated h s store)
    answer-IsLocal h slots slots' more store (recv_rpc f (some r) s) e = go r.tree more
      where
        go :
            (d : Option Data) (m : Option Bool)
            → IsLocal slots store
                (with_tree prog parse_mem fuel read_timeout new_time h slots' m store r.root d f s)
        go none m = (e, updated h s store)
        go (some d) none = tt
        go (some d) (some m) =
            let s1 = record s { last_rpc = new_time } in
            let (g, store1) = nc_send_reply prog r.root d h (update h s1 store) in
            (
              e,
              nc_send_reply-KeepsOthers prog tame
                  (record (served_flags (store1 h) g) { pending = m }) r.root d h s1 store
                  (served_flags-rpc (store1 h) g),
            )

    serve-IsLocal :
        (l : Locking) (h : ℕ) (slots slots' : List Slot) (more : Option Bool) (store : Store)
        → pointers slots' ≡ pointers slots
        → IsLocal slots store
            (serve prog parse_mem fuel read_timeout new_time l h slots' more store)
    unfolding serve
    serve-IsLocal locked h slots slots' more store e = answer-IsLocal h slots slots' more store _ e
    serve-IsLocal lock_timeout h slots slots' more store e =
        (e, λ k n. unchanged (store k) (store k) refl)
    serve-IsLocal lock_failed h slots slots' more store e =
        (e, λ k n. unchanged (store k) (store k) refl)

    module _ (mutex : ℕ → Mutex) (timeout : Timeout) where
      after_pick-IsLocal :
          (slots given : List Slot) (store : Store) (p : Pick)
          → pointers given ≡ pointers slots
          → KeepsPointers given p
          → IsLocal slots store
              (after_pick prog parse_mem fuel read_timeout new_time mutex timeout given store p)
      unfolding after_pick
      after_pick-IsLocal slots given store (pick_closed h) e k =
          (e, updated h (terminate (store h) dropped) store)
      after_pick-IsLocal slots given store (pick_broken h) e k =
          (e, updated h (terminate (store h) other) store)
      after_pick-IsLocal slots given store (pick_input h slots' more) e k =
          serve-IsLocal (nc_timedlock (mutex h) timeout) h slots slots' more store (k ∙ e)
      after_pick-IsLocal slots given store pick_none e k = (e, λ i. refl)
      after_pick-IsLocal slots given store pick_unwritten e k = tt

      after_poll-IsLocal :
          (slots : List Slot) (store : Store) (p : Polled)
          → IsLocal slots store
              (after_poll prog parse_mem fuel read_timeout new_time mutex timeout slots store p)
      after_poll-IsLocal slots store poll_failed = (refl, λ k. refl)
      after_poll-IsLocal slots store poll_timeout = (refl, λ k. refl)
      after_poll-IsLocal slots store (poll_ready rs) =
          after_pick-IsLocal slots (with_events rs slots) store (pick (with_events rs slots))
            (pointers-with_events rs slots) (pick-KeepsPointers (with_events rs slots))

      after_scan-IsLocal :
          (slots : List Slot) (store : Store) (p : Polled) (c : Scan)
          → IsLocal slots store
              (after_scan prog parse_mem fuel read_timeout new_time mutex timeout slots store p c)
      unfolding after_scan
      after_scan-IsLocal slots store p (scan_not_running h) =
          (refl, λ k n. unchanged (store k) (store k) refl)
      after_scan-IsLocal slots store p (scan_idle h) =
          (refl, updated h (terminate (store h) timed_out) store)
      after_scan-IsLocal slots store p scan_event =
          after_pick-IsLocal slots slots store (pick slots) refl (pick-KeepsPointers slots)
      after_scan-IsLocal slots store p scan_none = after_poll-IsLocal slots store p
      after_scan-IsLocal slots store p scan_unwritten = tt

      -- If the callbacks do to other sessions than the one of the RPC at most what
      -- nc_session_set_term_reason does, then of all sessions nc_ps_poll changes at most the one
      -- that it reports and, where it reports NC_PSPOLL_RPC, the `term_reason` of others; and every
      -- slot keeps its session. Unless an unwritten slot is read or a chunk overran.
      pub nc_ps_poll-IsLocal :
          (idle_timeout cur_time : ℕ) (ps_locked : Bool) (p : Polled) (slots : List Slot)
          (store : Store)
          → IsLocal slots store (
              nc_ps_poll prog parse_mem fuel read_timeout new_time mutex timeout idle_timeout
                cur_time ps_locked p slots store)
      unfolding nc_ps_poll
      nc_ps_poll-IsLocal idle_timeout cur_time ps_locked p [] store = (refl, λ k. refl)
      nc_ps_poll-IsLocal idle_timeout cur_time false p (x ∷ xs) store = (refl, λ k. refl)
      nc_ps_poll-IsLocal idle_timeout cur_time true p (x ∷ xs) store =
          after_scan-IsLocal (x ∷ xs) store p (scan idle_timeout cur_time store (x ∷ xs))
