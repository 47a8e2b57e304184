-- ===== src/Server/Lock/Threads.antt =====
-- Threads that call nc_ps_lock and nc_ps_unlock (src/session_server.c) on one pollsession, as
-- steps: each step is what a thread does while it holds the mutex `ps->lock`.
use libnetconf.Common.{
  ℕ, ◌≡◌, refl, List, [], ◌∷◌, Option, none, some, Bool, true, false, ◌==◌, if◌then◌else◌,
}
use libnetconf.Server.Lock.{Queue, empty_queue, enter, is_turn, leave}

-- Where a thread is: not in the pollsession, in the loop of nc_ps_lock, or between a successful
-- nc_ps_lock and its nc_ps_unlock. The number is its `our_id`.
pub data Phase : Type 0 where
  outside : Phase
  waiting : ℕ → Phase
  holding : ℕ → Phase

-- `stranded`: a thread has returned from nc_ps_lock without unlocking `ps->lock`.
pub record System : Type 0 where
  pub ring : Queue
  pub stranded : Bool
  pub phase : ℕ → Phase

-- The thread that each step is of.
pub data Event : Type 0 where
  arrives : ℕ → Event
  acquires : ℕ → Event
  gives_up : ℕ → Event
  releases : ℕ → Event

abbrev pub assign : ℕ → Phase → (ℕ → Phase) → ℕ → Phase
assign t p f u = if u == t then p else f u

abbrev pub idle_system : System
idle_system = record { ring = empty_queue; stranded = false; phase = λ t. outside }

-- "Pollsession queue too small" returns with the mutex locked.
abbrev pub arrived : System → ℕ → Option (ℕ × Queue) → System
arrived s t none = record s { stranded = true }
arrived s t (some (id, q)) = record s { ring = q; phase = assign t (waiting id) s.phase }

-- With the mutex stranded nc_ps_lock fails at its timeout.
unfoldable pub arrive : System → ℕ → Phase → Option System
arrive s t outside = if s.stranded then some s else some (arrived s t (enter s.ring))
arrive s t (waiting id) = none
arrive s t (holding id) = none

-- The wait returns with the mutex locked again, which a stranded mutex never lets it.
unfoldable pub acquire : System → ℕ → Phase → Option System
acquire s t outside = none
acquire s t (waiting id) =
    if s.stranded
    then none
    else if is_turn s.ring id
    then some (record s { phase = assign t (holding id) s.phase })
    else none
acquire s t (holding id) = none

-- A wait that times out is not tested again, and returns with the mutex locked.
unfoldable pub give_up : System → ℕ → Phase → Option System
give_up s t outside = none
give_up s t (waiting id) =
    if s.stranded
    then none
    else some (record s { ring = leave s.ring; stranded = true; phase = assign t outside s.phase })
give_up s t (holding id) = none

-- nc_ps_unlock moves the queue even when it does not get the mutex.
unfoldable pub release : System → ℕ → Phase → Option System
release s t outside = none
release s t (waiting id) = none
release s t (holding id) = some (record s { ring = leave s.ring; phase = assign t outside s.phase })

-- `none`: the thread cannot take that step.
unfoldable pub step : System → Event → Option System
step s (arrives t) = arrive s t (s.phase t)
step s (acquires t) = acquire s t (s.phase t)
step s (gives_up t) = give_up s t (s.phase t)
step s (releases t) = release s t (s.phase t)

-- The steps of `es`, one after the other.
unfoldable pub steps : System → List Event → Option System
steps s [] = some s
steps s (e ∷ es) = elim (step s e) [ none ↦ none | some s1 ↦ steps s1 es ]

pub steps_cons :
    (s s1 : System) (e : Event) (es : List Event)
    → step s e ≡ some s1
    → steps s (e ∷ es) ≡ steps s1 es
unfolding steps
steps_cons s s1 e es h = rw (h, steps) refl

pub steps_nil : (s : System) → steps s [] ≡ some s
unfolding steps
steps_nil s = refl
