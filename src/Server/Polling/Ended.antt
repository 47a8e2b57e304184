-- ===== src/Server/Polling/Ended.antt =====
-- The idle timeout of nc_ps_poll of src/session_server.c.
use libnetconf.Common.{
  ℕ, ◌+◌, ◌<◌, ◌≤◌, ◌≡◌, ◌≢◌, ◌⊎◌, refl, ap, ◌∙◌, true, false, leb, ◌==◌, List, [], ◌∷◌, ◌++◌, All,
  Option, none, some, arith, Bool-cases, inl, inr,
}
use libnetconf.Common.Bytes.{Bytes}
use libnetconf.Session.{terminate, timed_out}
use libnetconf.Session.Xml.{Elem}
use libnetconf.Session.Lock.{Mutex, Timeout}
use libnetconf.Server.Poll.{Entry, is_running}
use libnetconf.Server.Poll.Deleted.{written}
use libnetconf.Server.Serve.{no_flags, Store, update, Program}
use libnetconf.Server.Polling.{
  has_event, poll_timeout, PollResult, polled, lost, Scan, scan_idle, scan_none, scan, after_scan,
  nc_ps_poll,
}

module _ (idle_timeout cur_time : ℕ) (store : Store) where
  -- A session that runs and has no event.
  abbrev pub IsQuiet : Entry → Type 0
  IsQuiet e = (is_running (store e.session).status ≡ true) × (has_event e ≡ false)

  -- Its last RPC is longer ago than the idle timeout, or not.
  abbrev pub IsStale : Entry → Type 0
  IsStale e = (store e.session).last_rpc + idle_timeout < cur_time

  abbrev pub IsRecent : Entry → Type 0
  IsRecent e = cur_time ≤ (store e.session).last_rpc + idle_timeout

  -- The first of the sessions that is recent, behind stale ones.
  abbrev pub FirstRecent : List Entry → Entry → Type 0
  FirstRecent es e =
      (xs : List Entry) × (ys : List Entry) × (es ≡ xs ++ (e ∷ ys)) × All IsStale xs × IsRecent e

  abbrev Scanned : List Entry → Scan → Type 0
  Scanned es r =
      (All IsStale es × (r ≡ scan_none))
      ⊎ ((e : Entry) × FirstRecent es e × (r ≡ scan_idle e.session))

  scan-Scanned :
      (es : List Entry)
      → idle_timeout ≢ 0
      → All IsQuiet es
      → Scanned es (scan idle_timeout cur_time store (written es))
  unfolding scan
  scan-Scanned [] z q = inl (tt, refl)
  scan-Scanned (e ∷ es) z ((r, n), q) =
      let on : (idle_timeout == 0) ≡ false = ground (arith, z) in
      elim (Bool-cases (leb cur_time ((store e.session).last_rpc + idle_timeout))) [
        | inl b ↦ inr (e, ([], es, refl, tt, ground (arith, b)), rw (r, on, b) refl)
        | inr b ↦
            let here : scan idle_timeout cur_time store (written (e ∷ es))
                ≡ scan idle_timeout cur_time store (written es) =
              rw (r, on, b, n) refl in
            elim (scan-Scanned es z q) [
              | inl (s, k) ↦ inl ((ground (arith, b), s), here ∙ k)
              | inr (f, (xs, ys, l, s, t), k) ↦
                  inr (f, (e ∷ xs, ys, ap (◌∷◌ e) l, (ground (arith, b), s), t), here ∙ k)
            ]
      ]

  -- nc_ps_poll leaves all sessions alone, and they are stale; or it ends the first recent one.
  abbrev pub EndsRecent : List Entry → PollResult → Type 0
  EndsRecent es r =
      (All IsStale es × (r ≡ polled (record no_flags { timeout = true }) none (written es) store))
      ⊎ ((e : Entry) × FirstRecent es e
          × (r
              ≡ polled lost (some e.session) (written es)
                  (update e.session (terminate (store e.session) timed_out) store)))

  module _ {Data : Type 0} (prog : Program Data) (parse_mem : Bytes → Option Elem) where
    -- Where all sessions run without an event, poll() times out and there is an idle timeout,
    -- nc_ps_poll ends the first session whose last RPC is not longer ago than the idle timeout, as
    -- timed out. It ends none exactly where the last RPC of each is longer ago.
    pub nc_ps_poll-EndsRecent :
        (fuel read_timeout new_time : ℕ) (mutex : ℕ → Mutex) (timeout : Timeout) (x : Entry)
        (es : List Entry)
        → idle_timeout ≢ 0
        → All IsQuiet (x ∷ es)
        → EndsRecent (x ∷ es) (
            nc_ps_poll prog parse_mem fuel read_timeout new_time mutex timeout idle_timeout cur_time
              true poll_timeout
              (written (x ∷ es))
              store)
    unfolding nc_ps_poll after_scan
    nc_ps_poll-EndsRecent fuel read_timeout new_time mutex timeout x es z q =
        let slots = written (x ∷ es) in
        let behind : (c : Scan) → PollResult =
          after_scan prog parse_mem fuel read_timeout new_time mutex timeout slots store
            poll_timeout in
        elim (scan-Scanned (x ∷ es) z q) [
          | inl (s, k) ↦ inl (s, ap behind k)
          | inr (e, f, k) ↦ inr (e, f, ap behind k)
        ]
