-- ===== src/Examples/Locking.antt =====
-- Three threads that want one pollsession.
use libnetconf.Common.{◌⊎◌, ℕ, ◌-◌, ◌==◌, ltb, ◌≡◌, refl, true, false, List, [], ◌∷◌, some, arith}
use libnetconf.Server.Lock.{our_id, enter, is_turn, leave}
use libnetconf.Server.Lock.Ring.{entries}
use libnetconf.Server.Lock.Threads.{
  outside, waiting, holding, System, Event, arrives, acquires, gives_up, idle_system, assign, steps,
  step, arrive, acquire, give_up, release, releases,
}
use libnetconf.Server.Lock.Ordered.{IsOrdered, idle_system-IsOrdered}
use libnetconf.Server.Lock.Exclusion.{steps-IsOrdered, lock_exclusive}
use libnetconf.Server.Lock.Progress.{lock_progress}
use libnetconf.Server.Lock.Faults.{lock_timed_out, lock_stranded}

abbrev three_arrive : List Event
three_arrive = arrives 1 ∷ acquires 1 ∷ arrives 2 ∷ arrives 3 ∷ []

-- Thread 1 holds the pollsession, 2 and 3 wait.
abbrev contended : System
contended = record {
  ring = record { queue = 0 ∷ 1 ∷ 2 ∷ 0 ∷ 0 ∷ 0 ∷ []; queue_begin = 0; queue_len = 3 };
  stranded = false;
  phase = λ u.
      assign 3 (waiting 2)
        (assign 2 (waiting 1) (assign 1 (holding 0) (assign 1 (waiting 0) (λ t. outside)))) u;
}

reached : steps idle_system three_arrive ≡ some contended
unfolding steps step arrive acquire enter is_turn our_id
reached = refl

lock_exclusive_example : ◌≡◌ {A = ℕ} 1 1
lock_exclusive_example =
    lock_exclusive contended three_arrive 1 1 0 0 (tt, (tt, (tt, (tt, tt)))) reached refl refl

contended-IsOrdered : IsOrdered contended
contended-IsOrdered =
    steps-IsOrdered idle_system contended three_arrive (tt, (tt, (tt, (tt, tt))))
      idle_system-IsOrdered reached

-- Thread 3 has given up.
abbrev given_up : System
given_up = record {
  ring = record { queue = 0 ∷ 1 ∷ 2 ∷ 0 ∷ 0 ∷ 0 ∷ []; queue_begin = 1; queue_len = 2 };
  stranded = true;
  phase = assign 3 outside contended.phase;
}

third : step contended (gives_up 3) ≡ some given_up
unfolding step give_up leave
third = refl

-- The others go on: 2 does not get the pollsession, and 1 releases it.
abbrev released : System
released = record {
  ring = record { queue = 0 ∷ 1 ∷ 2 ∷ 0 ∷ 0 ∷ 0 ∷ []; queue_begin = 2; queue_len = 1 };
  stranded = true;
  phase = assign 1 outside given_up.phase;
}

first_out : steps given_up (releases 1 ∷ []) ≡ some released
unfolding steps step release leave
first_out = refl

lock_timed_out_example :
    (entries given_up.ring ≡ 1 ∷ 2 ∷ [])
    × ((u j : ℕ) → released.phase u ≡ holding j → contended.phase u ≡ holding j)
lock_timed_out_example =
    lock_timed_out contended given_up released 3 2 0 (1 ∷ 2 ∷ []) (releases 1 ∷ [])
      contended-IsOrdered refl refl refl third first_out

-- Six threads inside, of which 1 holds the pollsession.
abbrev full : System
full = record {
  ring = record { queue = 0 ∷ 1 ∷ 2 ∷ 3 ∷ 4 ∷ 5 ∷ []; queue_begin = 0; queue_len = 6 };
  stranded = false;
  phase = λ t. elim (t == 1) [
    | true ↦ holding 0
    | false ↦ elim (ltb t 7) [ true ↦ waiting (t - 1) | false ↦ outside ]
  ];
}

seventh : step full (arrives 7) ≡ some (record full { stranded = true })
unfolding step arrive enter
seventh = refl

nothing_more : steps (record full { stranded = true }) [] ≡ some (record full { stranded = true })
unfolding steps
nothing_more = refl

lock_stranded_example : full.phase 1 ≡ holding 0
lock_stranded_example =
    lock_stranded full (record full { stranded = true }) (record full { stranded = true }) 7 1 0 []
      refl refl refl seventh nothing_more refl

lock_progress_example :
    (t : ℕ) × (id : ℕ) × (contended.phase t ≡ holding id
      ⊎ (step contended (acquires t)
          ≡ some (record contended { phase = assign t (holding id) contended.phase })))
lock_progress_example =
    lock_progress contended three_arrive (tt, (tt, (tt, (tt, tt)))) reached refl (λ e. omega arith)
