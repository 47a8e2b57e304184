-- ===== src/Examples/Polling.antt =====
-- A pollsession with two sessions, and one RPC.
use libnetconf.Common.{
  ℕ, ◌≡◌, refl, subst, true, false, List, [], ◌∷◌, ◌++◌, All, flatten, Option, none, some, arith,
  ◌==◌, if◌then◌else◌,
}
use libnetconf.Common.Bytes.{Bytes, codes}
use libnetconf.Session.{Session, closing}
use libnetconf.Session.Xml.{Elem, elem, nil}
use libnetconf.Session.Lock.{Locking, locked, Mutex, after, pthread_ok}
use libnetconf.Messages.{rpl_ok, blank}
use libnetconf.Io.Frame.{frames, endtag}
use libnetconf.Io.Frame.Decode.{IsChunk}
use libnetconf.Io.Write.Up.{sent}
use libnetconf.Io.Message.{Piece, reply_msg, plan, reply_plan, reply_body, writes, lit, raw}
use libnetconf.Io.Message.Wire.{document}
use libnetconf.Server.Poll.{
  Entry, Slot, entry_of, nc_ps_add_session, nc_ps_del_session, nc_ps_clear, clear_loop, remove_at,
  done,
}
use libnetconf.Server.Poll.Deleted.{written, nc_ps_add_session-nc_ps_del_session}
use libnetconf.Server.Poll.Cleared.{IsCleared, nc_ps_clear-IsCleared}
use libnetconf.Server.Serve.{Store, update, Callback, Program, nc_send_reply, no_flags, ended}
use libnetconf.Server.Serve.Answered.{nc_send_reply-frames}
use libnetconf.Server.Polling.{poll_timeout, poll_ready, nc_ps_poll}
use libnetconf.Server.Polling.Others.{IsLocal, nc_ps_poll-IsLocal}
use libnetconf.Server.Polling.Tame.{OnlyReason, AreTame}
use libnetconf.Server.Polling.Ended.{EndsRecent, nc_ps_poll-EndsRecent}
use libnetconf.Examples.{session_with, parse_ok_reply}

abbrev two_entries : List Entry
two_entries = entry_of 1 5 ∷ entry_of 2 6 ∷ []

abbrev same_fd : Session → ℕ
same_fd s = 7

nc_ps_add_session-nc_ps_del_session_example :
    (slots : List Slot) × (nc_ps_add_session same_fd true true 3
        (session_with [])
        (written two_entries)
      ≡ done (slots, true))
    × (nc_ps_del_session true true 3 slots ≡ done (written two_entries, true))
nc_ps_add_session-nc_ps_del_session_example =
    nc_ps_add_session-nc_ps_del_session same_fd 3 (session_with []) two_entries refl (omega arith)
      (omega arith, (omega arith, tt))

-- The first session runs, the second is closing.
abbrev two_sessions : Store
two_sessions h = if h == 1 then session_with [] else record (session_with []) { status = closing }

abbrev free_locks : ℕ → Option Locking
free_locks h = some locked

-- The closing session is taken out and not freed.
clear_closing :
    nc_ps_clear two_sessions free_locks 3 true false (written two_entries)
    ≡ some (done (some (entry_of 1 5) ∷ [], []))
unfolding nc_ps_clear clear_loop remove_at
clear_closing = refl

nc_ps_clear-IsCleared_example :
    IsCleared two_sessions free_locks two_entries
      (nc_ps_clear two_sessions free_locks 3 true false (written two_entries))
nc_ps_clear-IsCleared_example =
    nc_ps_clear-IsCleared two_sessions free_locks 3 two_entries (omega arith)
      ((omega arith, tt), (tt, tt))

abbrev ok_callback : Callback ℕ
ok_callback d h store = (some rpl_ok, store)

-- Every RPC is parsed, and answered with <ok/>.
abbrev ok_program : Program ℕ
ok_program = record {
  parse_rpc = λ xs. some 0;
  libyang_error = blank;
  print_attrs = λ x. codes " message-id=\"1\"" ∷ [];
  schema_clb = λ d. some ok_callback;
  global_clb = none;
}

abbrev rpc_elem : Elem
rpc_elem = elem (codes "rpc") none [] [] nil

abbrev ok_pieces : List Piece
ok_pieces =
    lit "<rpc-reply" 10
    ∷ raw (codes " message-id=\"1\"")
    ∷ lit ">" 1
    ∷ lit "<ok/>" 5
    ∷ lit "</rpc-reply>" 12
    ∷ []

ok_plan :
    plan (session_with []) (reply_msg (some (ok_program.print_attrs rpc_elem)) rpl_ok)
    ≡ writes ok_pieces true
unfolding plan reply_plan reply_body
ok_plan = refl

abbrev one_session : Store
one_session h = session_with []

nc_send_reply-frames_example :
    (chunks : List Bytes) × (nc_send_reply ok_program rpc_elem 0 1 one_session ≡ (
      no_flags,
      update 1
          (ended ok_program (
            sent
              (session_with [])
              (frames (session_with []).version chunks ++ endtag (session_with []).version)))
          one_session,
    ))
    × (flatten chunks ≡ document ok_pieces)
    × All IsChunk chunks
nc_send_reply-frames_example =
    nc_send_reply-frames ok_program rpc_elem 0 1 one_session one_session rpl_ok ok_pieces refl
      (record { live = refl; connected = refl; in_order = refl }) ok_plan
      (omega arith, (omega arith, (omega arith, (omega arith, (omega arith, tt)))))

abbrev free_mutex : ℕ → Mutex
free_mutex h = record { timedlock = λ ms. pthread_ok; trylock = pthread_ok; lock = pthread_ok }

ok_program-AreTame : AreTame ok_program
ok_program-AreTame = record {
  of_schema = λ d clb e d' h store k n.
      let same : ok_callback ≡ clb = cc in
      subst (λ c. OnlyReason (store k) ((c d' h store).1 k)) same refl;
  of_all = λ clb e. absurd cc;
}

nc_ps_poll-IsLocal_example : IsLocal (written two_entries) two_sessions (
    nc_ps_poll ok_program parse_ok_reply 99 1 50 free_mutex
      (after 5)
      0
      50
      true
      (poll_ready ((true, false, false) ∷ []))
      (written two_entries)
      two_sessions)
nc_ps_poll-IsLocal_example =
    nc_ps_poll-IsLocal ok_program ok_program-AreTame parse_ok_reply 99 1 50 free_mutex (after 5) 0
      50 true (poll_ready ((true, false, false) ∷ [])) (written two_entries) two_sessions

-- The last RPC of the first session was long ago, that of the second a moment ago.
abbrev busy : Store
busy h = record (session_with []) { last_rpc = if h == 1 then 2 else 49 }

nc_ps_poll-EndsRecent_example : EndsRecent 30 50 busy two_entries (
    nc_ps_poll ok_program parse_ok_reply 99 1 50 free_mutex
      (after 5)
      30
      50
      true
      poll_timeout
      (written two_entries)
      busy)
nc_ps_poll-EndsRecent_example =
    nc_ps_poll-EndsRecent 30 50 busy ok_program parse_ok_reply 99 1 50 free_mutex (after 5)
      (entry_of 1 5) (entry_of 2 6 ∷ []) (omega arith) ((refl, refl), ((refl, refl), tt))
