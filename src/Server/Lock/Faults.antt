-- ===== src/Server/Lock/Faults.antt =====
-- The two ways in which nc_ps_lock leaves the mutex of the pollsession locked: a wait that times
-- out, and a queue that is full.
use libnetconf.Common.{
  ℕ, ◌≡◌, ◌≢◌, inl, inr, refl, sym, ◌∙◌, ap, List, [], ◌∷◌, ==_iff, none, some, true, false, subst,
  Option-cases,
}
use libnetconf.Server.Lock.{Queue, queue_size, at, is_turn, leave}
use libnetconf.Server.Lock.Ring.{IsQueue, entries}
use libnetconf.Server.Lock.Order.{enter_full, leave-entries}
use libnetconf.Server.Lock.Ordered.{IsIn, IsOrdered, assign_cases, IsIn-len}
use libnetconf.Server.Lock.Threads.{
  Phase, outside, waiting, holding, System, Event, arrives, acquires, gives_up, releases, assign,
  arrive, acquire, release, give_up, step, steps,
}

assign-other : (t u : ℕ) (p : Phase) (f : ℕ → Phase) → u ≢ t → assign t p f u ≡ f u
assign-other t u p f h = elim (assign_cases t u p f) [ inl (k, a) ↦ absurd (h k) | inr (k, a) ↦ a ]

pub assign_self : (t : ℕ) (p : Phase) (f : ℕ → Phase) → assign t p f t ≡ p
assign_self t p f = elim (assign_cases t t p f) [ inl (k, a) ↦ a | inr (k, a) ↦ absurd (k refl) ]

-- The first entry has the turn.
pub is_turn-first :
    (q : Queue) (i : ℕ) (rest : List ℕ) → IsQueue q → entries q ≡ i ∷ rest → is_turn q i ≡ true
unfolding is_turn
is_turn-first q i rest w e =
    let inside : q.queue_len ≢ 0 = IsIn-len q i (subst (IsIn i) (sym e) (inl refl)) in
    let first = (leave-entries q w inside).0 in
    let front : at q.queue q.queue_begin ≡ i = cc in (==_iff _ _).1 front

gave_up :
    (s : System) (v k : ℕ)
    → s.stranded ≡ false
    → s.phase v ≡ waiting k
    → step s (gives_up v)
      ≡ some (record s { ring = leave s.ring; stranded = true; phase = assign v outside s.phase })
unfolding step give_up
gave_up s v k f h = rw (h, f) refl

pub acquired :
    (s : System) (u j : ℕ)
    → s.stranded ≡ false
    → s.phase u ≡ waiting j
    → is_turn s.ring j ≡ true
    → step s (acquires u) ≡ some (record s { phase = assign u (holding j) s.phase })
unfolding step acquire
acquired s u j f h k = rw (h, f, k) refl

-- A thread that arrives when the queue is full fails with the mutex locked.
strands :
    (s : System) (t : ℕ)
    → s.stranded ≡ false
    → s.phase t ≡ outside
    → s.ring.queue_len ≡ queue_size
    → step s (arrives t) ≡ some (record s { stranded = true })
unfolding step arrive
strands s t f h e = rw (h, f, enter_full s.ring e) refl

-- What a step can change once the mutex is stranded.
record Withers (s s' : System) : Type 0 where
  stays : s'.stranded ≡ true
  no_more : (u j : ℕ) → s'.phase u ≡ holding j → s.phase u ≡ holding j

module _ (s s' : System) (t : ℕ) (f : s.stranded ≡ true) where
  arrive-Withers : (p : Phase) → arrive s t p ≡ some s' → Withers s s'
  unfolding arrive
  arrive-Withers outside e =
      let now : arrive s t outside ≡ some s = rw f refl in
      let same : s ≡ s' = cc in subst (Withers s) same (record { stays = f; no_more = λ u j h. h })
  arrive-Withers (waiting id) e = absurd cc
  arrive-Withers (holding id) e = absurd cc

  acquire-none : (p : Phase) → acquire s t p ≢ some s'
  unfolding acquire
  acquire-none outside e = absurd cc
  acquire-none (waiting id) e = let now : acquire s t (waiting id) ≡ none = rw f refl in absurd cc
  acquire-none (holding id) e = absurd cc

  give_up-none : (p : Phase) → give_up s t p ≢ some s'
  unfolding give_up
  give_up-none outside e = absurd cc
  give_up-none (waiting id) e = let now : give_up s t (waiting id) ≡ none = rw f refl in absurd cc
  give_up-none (holding id) e = absurd cc

  release-Withers : (p : Phase) → release s t p ≡ some s' → Withers s s'
  unfolding release
  release-Withers outside e = absurd cc
  release-Withers (waiting id) e = absurd cc
  release-Withers (holding id) e =
      let s1 : System = record s { ring = leave s.ring; phase = assign t outside s.phase } in
      let same : s1 ≡ s' = cc in
      subst (Withers s) same (record {
        stays = f;
        no_more = λ u j h. elim (assign_cases t u outside s.phase) [
          | inl (k, a) ↦ absurd cc
          | inr (k, a) ↦ sym a ∙ h
        ];
      })

step-Withers : (s s' : System) (e : Event) → s.stranded ≡ true → step s e ≡ some s' → Withers s s'
unfolding step
step-Withers s s' (arrives t) f e = arrive-Withers s s' t f (s.phase t) e
step-Withers s s' (acquires t) f e = absurd (acquire-none s s' t f (s.phase t) e)
step-Withers s s' (gives_up t) f e = absurd (give_up-none s s' t f (s.phase t) e)
step-Withers s s' (releases t) f e = release-Withers s s' t f (s.phase t) e

steps-Withers :
    (s s' : System) (es : List Event) → s.stranded ≡ true → steps s es ≡ some s' → Withers s s'
unfolding steps
steps-Withers s s' [] f r =
    let same : s ≡ s' = cc in subst (Withers s) same (record { stays = f; no_more = λ u j h. h })
steps-Withers s s' (e ∷ es) f r = elim (Option-cases (step s e)) [
  | inl none_left ↦ let now : steps s (e ∷ es) ≡ none = rw (none_left, steps) refl in absurd cc
  | inr (s1, one) ↦
      let now : steps s (e ∷ es) ≡ steps s1 es = rw (one, steps) refl in
      let first = step-Withers s s1 e f one in
      let rest = steps-Withers s1 s' es first.stays (sym now ∙ r) in
      record { stays = rest.stays; no_more = λ u j h. first.no_more u j (rest.no_more u j h) }
]

-- After a thread has arrived when the queue was full, no thread gets the pollsession any more,
-- whatever the threads do: who holds it held it before.
pub lock_stranded :
    (s s1 s' : System) (t u j : ℕ) (es : List Event)
    → s.stranded ≡ false
    → s.phase t ≡ outside
    → s.ring.queue_len ≡ queue_size
    → step s (arrives t) ≡ some s1
    → steps s1 es ≡ some s'
    → s'.phase u ≡ holding j
    → s.phase u ≡ holding j
lock_stranded s s1 s' t u j es f h full a r k =
    let now : step s (arrives t) ≡ some (record s { stranded = true }) = strands s t f h full in
    let same : record s { stranded = true } ≡ s1 = cc in
    let withers = steps-Withers s1 s' es (sym (ap (λ x. x.stranded) same)) r in
    ap (λ x. x.phase u) same ∙ withers.no_more u j k

timed_out_phase :
    (s : System) (v u j : ℕ) → assign v outside s.phase u ≡ holding j → s.phase u ≡ holding j
timed_out_phase s v u j h = elim (assign_cases v u outside s.phase) [
  | inl (k, a) ↦ absurd cc
  | inr (k, a) ↦ sym a ∙ h
]

-- When the wait of a thread `v` times out, the entry that nc_ps_lock removes is the first of the
-- queue, that of the thread that holds the pollsession if there is one, and the mutex is left
-- locked: no thread gets the pollsession any more, whatever the threads do.
pub lock_timed_out :
    (s s1 s' : System) (v k i : ℕ) (rest : List ℕ) (es : List Event)
    → IsOrdered s
    → s.stranded ≡ false
    → s.phase v ≡ waiting k
    → entries s.ring ≡ i ∷ rest
    → step s (gives_up v) ≡ some s1
    → steps s1 es ≡ some s'
    → (entries s1.ring ≡ rest) × ((u j : ℕ) → s'.phase u ≡ holding j → s.phase u ≡ holding j)
lock_timed_out s s1 s' v k i rest es w f h e a r =
    let s2 : System = record s {
      ring = leave s.ring;
      stranded = true;
      phase = assign v outside s.phase;
    } in
    let same : s2 ≡ s1 = let now = gave_up s v k f h in cc in
    let inside : s.ring.queue_len ≢ 0 = IsIn-len s.ring i (subst (IsIn i) (sym e) (inl refl)) in
    let left = leave-entries s.ring w.queue inside in
    let second : entries (leave s.ring) ≡ rest = cc in
    let withers = steps-Withers s1 s' es (sym (ap (λ x. x.stranded) same)) r in
    (
      ap (λ x. entries x.ring) (sym same) ∙ second,
      λ u j x. timed_out_phase s v u j (ap (λ x. x.phase u) same ∙ withers.no_more u j x),
    )
