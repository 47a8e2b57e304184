-- ===== src/Server/Lock/Progress.antt =====
-- While somebody is in the queue of a pollsession, somebody holds it or can get it.
use libnetconf.Common.{
  ℕ, zero, suc, ◌+◌, ◌%◌, ◌<◌, ◌≡◌, ◌≢◌, ◌⊎◌, inl, inr, refl, sym, ◌∙◌, ap, subst, List, [], ◌∷◌,
  ◌++◌, false, none, some, All, arith, Bool-cases, Option-cases,
}
use libnetconf.Server.Lock.{Queue, at, our_id, enter, is_turn, leave}
use libnetconf.Server.Lock.Ring.{IsQueue, entries, run}
use libnetconf.Server.Lock.Order.{enter-entries, enter_full, leave-entries, len_cases}
use libnetconf.Server.Lock.Ordered.{
  number, IsIn, IsIn-ne, IsOrdered, assign_cases, IsIn-len, idle_system-IsOrdered, number_kept,
}
use libnetconf.Server.Lock.Exclusion.{IsPatient, step-IsOrdered, len_bound}
use libnetconf.Server.Lock.Faults.{acquired, is_turn-first, assign_self}
use libnetconf.Server.Lock.Threads.{
  Phase, outside, waiting, holding, System, Event, arrives, acquires, gives_up, releases, assign,
  idle_system, arrived, arrive, acquire, release, step, steps, steps_cons,
}

-- Each entry is the number of a thread.
abbrev pub IsOwned : System → Type 0
IsOwned s = (id : ℕ) → IsIn id (entries s.ring) → (t : ℕ) × (number (s.phase t) ≡ some id)

IsIn-last-cases : (x y : ℕ) (xs : List ℕ) → IsIn x (xs ++ (y ∷ [])) → IsIn x xs ⊎ (x ≡ y)
IsIn-last-cases x y [] (inl e) = inr e
IsIn-last-cases x y [] (inr m) = absurd m
IsIn-last-cases x y (z ∷ xs) (inl e) = inl (inl e)
IsIn-last-cases x y (z ∷ xs) (inr m) = elim (IsIn-last-cases x y xs m) [
  | inl k ↦ inl (inr k)
  | inr e ↦ inr e
]

run-later : (n a d : ℕ) → d + n < 255 → All (λ x. x ≢ a % 256) (run (a + 1 + d) n)
run-later zero a d h = tt
run-later (suc n) a d h =
    let other : (a + 1 + d) % 256 ≢ a % 256 = λ e. omega arith in
    let moved : a + 1 + (d + 1) ≡ a + 1 + d + 1 = omega arith in
    (
      other,
      subst (λ b. All (λ x. x ≢ a % 256) (run b n)) moved (run-later n a (d + 1) (omega arith)),
    )

-- The first entry is not there twice.
first_once :
    (q : Queue) (id : ℕ) (rest : List ℕ)
    → IsQueue q
    → entries q ≡ id ∷ rest
    → All (λ x. x ≢ id) rest
first_once q id rest w e = elim (len_cases q.queue_len) [
  | inl z ↦ let nothing : entries q ≡ [] = rw z refl in absurd cc
  | inr (m, k) ↦
      let numbers : entries q ≡ (w.first % 256) ∷ run (w.first + 1) m =
        w.consecutive ∙ ap (run w.first) k in
      let head : id ≡ w.first % 256 = cc in
      let follows : rest ≡ run (w.first + 1) m = cc in
      let same : w.first + 1 ≡ w.first + 1 + 0 = omega arith in
      let tail : rest ≡ run (w.first + 1 + 0) m = follows ∙ ap (λ a. run a m) same in
      let b = w.bounded in
      subst (All (λ x. x ≢ id)) (sym tail) (
        subst (λ y. All (λ x. x ≢ y) (run (w.first + 1 + 0) m)) (sym head)
          (run-later m w.first 0 (omega arith)))
]

entered-IsOwned :
    (s : System) (t : ℕ) (q' : Queue)
    → IsOwned s
    → s.phase t ≡ outside
    → entries q' ≡ entries s.ring ++ (our_id s.ring ∷ [])
    → IsOwned (record s { ring = q'; phase = assign t (waiting (our_id s.ring)) s.phase })
entered-IsOwned s t q' own out e id m =
    elim (IsIn-last-cases id (our_id s.ring) (entries s.ring) (subst (IsIn id) e m)) [
      | inl k ↦
          let (u, h) = own id k in
          elim (assign_cases t u (waiting (our_id s.ring)) s.phase) [
            | inl (same, a) ↦ let was : s.phase u ≡ outside = ap s.phase same ∙ out in absurd cc
            | inr (other, a) ↦ (u, ap number a ∙ h)
          ]
      | inr k ↦ (t, ap number (assign_self t (waiting (our_id s.ring)) s.phase) ∙ ap some (sym k))
    ]

arrived-IsOwned :
    (s : System) (t : ℕ)
    → IsOrdered s
    → IsOwned s
    → s.phase t ≡ outside
    → IsOwned (arrived s t (enter s.ring))
arrived-IsOwned s t w own out = elim (len_bound s.ring.queue_len w.queue.bounded) [
  | inl h ↦
      let (q', e, appended, fresh, wq) = enter-entries s.ring w.queue h in
      rw e (entered-IsOwned s t q' own out appended)
  | inr h ↦ rw (enter_full s.ring h) own
]

left-IsOwned :
    (s : System) (t id : ℕ)
    → IsOrdered s
    → IsOwned s
    → s.phase t ≡ holding id
    → IsOwned (record s { ring = leave s.ring; phase = assign t outside s.phase })
left-IsOwned s t id w own e j m =
    let mine : number (s.phase t) ≡ some id = ap number e in
    let left = leave-entries s.ring w.queue (IsIn-len s.ring id (w.present t id mine)) in
    let ahead = w.foremost t id e in
    let front : at s.ring.queue s.ring.queue_begin ≡ id = cc in
    let first : entries s.ring ≡ id ∷ entries (leave s.ring) =
      left.0 ∙ ap (λ x. x ∷ entries (leave s.ring)) front in
    let other_id : j ≢ id =
      IsIn-ne j id (entries (leave s.ring))
        (first_once s.ring id (entries (leave s.ring)) w.queue first) m in
    let (u, h) = own j (subst (IsIn j) (sym first) (inr m)) in
    elim (assign_cases t u outside s.phase) [
      | inl (same, a) ↦
          let both : some j ≡ some id = sym h ∙ ap (λ x. number (s.phase x)) same ∙ mine in
          absurd (other_id cc)
      | inr (other, a) ↦ (u, ap number a ∙ h)
    ]

acquired-IsOwned :
    (s : System) (t id : ℕ)
    → IsOwned s
    → s.phase t ≡ waiting id
    → IsOwned (record s { phase = assign t (holding id) s.phase })
acquired-IsOwned s t id own e j m = let (u, h) = own j m in (u, number_kept t u id s.phase e ∙ h)

module _ (s s' : System) (t : ℕ) (w : IsOrdered s) (own : IsOwned s) where
  arrive-IsOwned : (p : Phase) → s.phase t ≡ p → arrive s t p ≡ some s' → IsOwned s'
  unfolding arrive
  arrive-IsOwned outside k e = elim (Bool-cases s.stranded) [
    | inl b ↦
        let now : arrive s t outside ≡ some s = rw b refl in
        let same : s ≡ s' = cc in subst IsOwned same own
    | inr b ↦
        let now : arrive s t outside ≡ some (arrived s t (enter s.ring)) = rw b refl in
        let same : arrived s t (enter s.ring) ≡ s' = cc in
        subst IsOwned same (arrived-IsOwned s t w own k)
  ]
  arrive-IsOwned (waiting id) k e = absurd cc
  arrive-IsOwned (holding id) k e = absurd cc

  acquire-IsOwned : (p : Phase) → s.phase t ≡ p → acquire s t p ≡ some s' → IsOwned s'
  unfolding acquire
  acquire-IsOwned outside k e = absurd cc
  acquire-IsOwned (waiting id) k e = elim (Bool-cases s.stranded) [
    | inl b ↦ let now : acquire s t (waiting id) ≡ none = rw b refl in absurd cc
    | inr b ↦ elim (Bool-cases (is_turn s.ring id)) [
      | inl c ↦
          let s1 : System = record s { phase = assign t (holding id) s.phase } in
          let now : acquire s t (waiting id) ≡ some s1 = rw (b, c) refl in
          let same : s1 ≡ s' = cc in subst IsOwned same (acquired-IsOwned s t id own k)
      | inr c ↦ let now : acquire s t (waiting id) ≡ none = rw (b, c) refl in absurd cc
    ]
  ]
  acquire-IsOwned (holding id) k e = absurd cc

  release-IsOwned : (p : Phase) → s.phase t ≡ p → release s t p ≡ some s' → IsOwned s'
  unfolding release
  release-IsOwned outside k e = absurd cc
  release-IsOwned (waiting id) k e = absurd cc
  release-IsOwned (holding id) k e =
      let s1 : System = record s { ring = leave s.ring; phase = assign t outside s.phase } in
      let same : s1 ≡ s' = cc in subst IsOwned same (left-IsOwned s t id w own k)

step-IsOwned :
    (s s' : System) (e : Event)
    → IsOrdered s
    → IsOwned s
    → IsPatient e
    → step s e ≡ some s'
    → IsOwned s'
unfolding step
step-IsOwned s s' (arrives t) w own p e = arrive-IsOwned s s' t w own (s.phase t) refl e
step-IsOwned s s' (acquires t) w own p e = acquire-IsOwned s s' t w own (s.phase t) refl e
step-IsOwned s s' (gives_up t) w own p e = absurd p
step-IsOwned s s' (releases t) w own p e = release-IsOwned s s' t w own (s.phase t) refl e

steps-IsOwned :
    (s s' : System) (es : List Event)
    → All IsPatient es
    → IsOrdered s
    → IsOwned s
    → steps s es ≡ some s'
    → IsOrdered s' × IsOwned s'
unfolding steps
steps-IsOwned s s' [] p w own r =
    let same : s ≡ s' = cc in (subst IsOrdered same w, subst IsOwned same own)
steps-IsOwned s s' (e ∷ es) p w own r = elim (Option-cases (step s e)) [
  | inl none_left ↦ let now : steps s (e ∷ es) ≡ none = rw (none_left, steps) refl in absurd cc
  | inr (s1, one) ↦
      steps-IsOwned s1 s' es p.1 (step-IsOrdered s s1 e w p.0 one)
        (step-IsOwned s s1 e w own p.0 one) (sym (steps_cons s s1 e es one) ∙ r)
]

idle_system-IsOwned : IsOwned idle_system
idle_system-IsOwned id m = absurd m

number_cases : (p : Phase) (id : ℕ) → number p ≡ some id → (p ≡ holding id) ⊎ (p ≡ waiting id)
number_cases outside id e = absurd cc
number_cases (waiting j) id e = inr cc
number_cases (holding j) id e = inl cc

-- No deadlock: after any steps of the threads, as long as no wait has timed out and the mutex is
-- not stranded, if the queue is not empty then a thread holds the pollsession or can take the
-- step by which it gets it.
pub lock_progress :
    (s : System) (es : List Event)
    → All IsPatient es
    → steps idle_system es ≡ some s
    → s.stranded ≡ false
    → s.ring.queue_len ≢ 0
    → (t : ℕ) × (id : ℕ) × (s.phase t ≡ holding id
        ⊎ (step s (acquires t) ≡ some (record s { phase = assign t (holding id) s.phase })))
lock_progress s es p r f ne =
    let (w, own) = steps-IsOwned idle_system s es p idle_system-IsOrdered idle_system-IsOwned r in
    let id = at s.ring.queue s.ring.queue_begin in
    let first = (leave-entries s.ring w.queue ne).0 in
    let (t, h) = own id (subst (IsIn id) (sym first) (inl refl)) in
    elim (number_cases (s.phase t) id h) [
      | inl k ↦ (t, id, inl k)
      | inr k ↦
          let turn = is_turn-first s.ring id (entries (leave s.ring)) w.queue first in
          (t, id, inr (acquired s t id f k turn))
    ]
