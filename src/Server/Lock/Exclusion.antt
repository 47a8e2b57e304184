-- ===== src/Server/Lock/Exclusion.antt =====
-- Between nc_ps_lock and nc_ps_unlock a thread is alone, as long as no wait times out.
use libnetconf.Common.{
  ℕ, ◌≤◌, ◌<◌, ◌≡◌, ◌≢◌, ◌⊎◌, inl, inr, refl, sym, ◌∙◌, ap, List, [], ◌∷◌, ◌++◌, none, some, arith,
  All, subst, Bool-cases, Option-cases,
}
use libnetconf.Server.Lock.{Queue, queue_size, our_id, enter, is_turn, leave}
use libnetconf.Server.Lock.Ring.{IsQueue, entries}
use libnetconf.Server.Lock.Order.{enter-entries, enter_full}
use libnetconf.Server.Lock.Ordered.{
  number, IsIn, IsOrdered, IsIn-append, IsIn-last, IsIn-ne, assign_cases, acquired-IsOrdered,
  left-IsOrdered, idle_system-IsOrdered,
}
use libnetconf.Server.Lock.Threads.{
  Phase, outside, waiting, holding, System, Event, arrives, acquires, gives_up, releases, assign,
  idle_system, arrived, arrive, acquire, release, step, steps,
}

-- A thread that enters stands behind the ones inside.
entered-IsOrdered :
    (s : System) (t : ℕ) (q' : Queue)
    → IsOrdered s
    → s.phase t ≡ outside
    → entries q' ≡ entries s.ring ++ (our_id s.ring ∷ [])
    → All (λ x. x ≢ our_id s.ring) (entries s.ring)
    → IsQueue q'
    → IsOrdered (record s { ring = q'; phase = assign t (waiting (our_id s.ring)) s.phase })
entered-IsOrdered s t q' w out e fresh wq =
    let id = our_id s.ring in
    let there : (u j : ℕ) → number (s.phase u) ≡ some j → j ≢ id =
      λ u j k. IsIn-ne j id (entries s.ring) fresh (w.present u j k) in
    let cases = λ (u : ℕ). assign_cases t u (waiting id) s.phase in
    record {
      queue = wq;
      present = λ u j k. elim (cases u) [
        | inl (same, a) ↦
            let mine : id ≡ j = cc in
            subst (IsIn j) (sym e) (
              subst (λ x. IsIn j (entries s.ring ++ (x ∷ []))) (sym mine)
                (IsIn-last j (entries s.ring)))
        | inr (other, a) ↦
            subst (IsIn j) (sym e)
              (IsIn-append j (entries s.ring) (id ∷ []) (w.present u j (sym (ap number a) ∙ k)))
      ];
      unshared = λ u v j k l. elim (cases u) [
        | inl (same, a) ↦ elim (cases v) [
          | inl (same', a') ↦ same ∙ sym same'
          | inr (other', a') ↦ absurd (there v j (sym (ap number a') ∙ l) cc)
        ]
        | inr (other, a) ↦ elim (cases v) [
          | inl (same', a') ↦ absurd (there u j (sym (ap number a) ∙ k) cc)
          | inr (other', a') ↦ w.unshared u v j (sym (ap number a) ∙ k) (sym (ap number a') ∙ l)
        ]
      ];
      foremost = λ u j k. elim (cases u) [
        | inl (same, a) ↦ absurd cc
        | inr (other, a) ↦
            let ahead = w.foremost u j (sym a ∙ k) in
            (ahead.0 ++ (id ∷ []), e ∙ ap (λ x. x ++ (id ∷ [])) ahead.1)
      ];
    }

pub len_bound : (n : ℕ) → n ≤ queue_size → (n < queue_size) ⊎ (n ≡ queue_size)
len_bound n h = ground arith

arrived-IsOrdered :
    (s : System) (t : ℕ)
    → IsOrdered s
    → s.phase t ≡ outside
    → IsOrdered (arrived s t (enter s.ring))
arrived-IsOrdered s t w out = elim (len_bound s.ring.queue_len w.queue.bounded) [
  | inl h ↦
      let (q', e, appended, fresh, wq) = enter-entries s.ring w.queue h in
      rw e (entered-IsOrdered s t q' w out appended fresh wq)
  | inr h ↦ rw (enter_full s.ring h) (record {
    queue = w.queue;
    present = w.present;
    unshared = w.unshared;
    foremost = w.foremost;
  })
]

-- A step of a thread, a wait's timeout excepted.
abbrev pub IsPatient : Event → Type 0
IsPatient (gives_up t) = ⊥
IsPatient e = Unit {0}

module _ (s s' : System) (t : ℕ) (w : IsOrdered s) where
  arrive-IsOrdered : (p : Phase) → s.phase t ≡ p → arrive s t p ≡ some s' → IsOrdered s'
  unfolding arrive
  arrive-IsOrdered outside k e = elim (Bool-cases s.stranded) [
    | inl b ↦
        let now : arrive s t outside ≡ some s = rw b refl in
        let same : s ≡ s' = cc in subst IsOrdered same w
    | inr b ↦
        let now : arrive s t outside ≡ some (arrived s t (enter s.ring)) = rw b refl in
        let same : arrived s t (enter s.ring) ≡ s' = cc in
        subst IsOrdered same (arrived-IsOrdered s t w k)
  ]
  arrive-IsOrdered (waiting id) k e = absurd cc
  arrive-IsOrdered (holding id) k e = absurd cc

  acquire-IsOrdered : (p : Phase) → s.phase t ≡ p → acquire s t p ≡ some s' → IsOrdered s'
  unfolding acquire
  acquire-IsOrdered outside k e = absurd cc
  acquire-IsOrdered (waiting id) k e = elim (Bool-cases s.stranded) [
    | inl b ↦ let now : acquire s t (waiting id) ≡ none = rw b refl in absurd cc
    | inr b ↦ elim (Bool-cases (is_turn s.ring id)) [
      | inl c ↦
          let now : acquire s t (waiting id)
              ≡ some (record s { phase = assign t (holding id) s.phase }) =
            rw (b, c) refl in
          let same : record s { phase = assign t (holding id) s.phase } ≡ s' = cc in
          subst IsOrdered same (acquired-IsOrdered s t id w k c)
      | inr c ↦ let now : acquire s t (waiting id) ≡ none = rw (b, c) refl in absurd cc
    ]
  ]
  acquire-IsOrdered (holding id) k e = absurd cc

  release-IsOrdered : (p : Phase) → s.phase t ≡ p → release s t p ≡ some s' → IsOrdered s'
  unfolding release
  release-IsOrdered outside k e = absurd cc
  release-IsOrdered (waiting id) k e = absurd cc
  release-IsOrdered (holding id) k e =
      let same : record s { ring = leave s.ring; phase = assign t outside s.phase } ≡ s' = cc in
      subst IsOrdered same (left-IsOrdered s t id w k)

pub step-IsOrdered :
    (s s' : System) (e : Event) → IsOrdered s → IsPatient e → step s e ≡ some s' → IsOrdered s'
unfolding step
step-IsOrdered s s' (arrives t) w p e = arrive-IsOrdered s s' t w (s.phase t) refl e
step-IsOrdered s s' (acquires t) w p e = acquire-IsOrdered s s' t w (s.phase t) refl e
step-IsOrdered s s' (gives_up t) w p e = absurd p
step-IsOrdered s s' (releases t) w p e = release-IsOrdered s s' t w (s.phase t) refl e

pub steps-IsOrdered :
    (s s' : System) (es : List Event)
    → All IsPatient es
    → IsOrdered s
    → steps s es ≡ some s'
    → IsOrdered s'
unfolding steps
steps-IsOrdered s s' [] p w r = let same : s ≡ s' = cc in subst IsOrdered same w
steps-IsOrdered s s' (e ∷ es) p w r = elim (Option-cases (step s e)) [
  | inl none_left ↦ let now : steps s (e ∷ es) ≡ none = rw (none_left, steps) refl in absurd cc
  | inr (s1, one) ↦
      let now : steps s (e ∷ es) ≡ steps s1 es = rw (one, steps) refl in
      let rest : steps s1 es ≡ some s' = sym now ∙ r in
      steps-IsOrdered s1 s' es p.1 (step-IsOrdered s s1 e w p.0 one) rest
]

-- Mutual exclusion: whatever the threads of a pollsession do that begins with none inside, as long
-- as no wait times out, at most one of them is between its nc_ps_lock and its nc_ps_unlock.
pub lock_exclusive :
    (s : System) (es : List Event) (t u i j : ℕ)
    → All IsPatient es
    → steps idle_system es ≡ some s
    → s.phase t ≡ holding i
    → s.phase u ≡ holding j
    → t ≡ u
lock_exclusive s es t u i j p r h k =
    let w = steps-IsOrdered idle_system s es p idle_system-IsOrdered r in
    let (rest, e) = w.foremost t i h in
    let (rest', e') = w.foremost u j k in
    let same : i ≡ j = cc in w.unshared t u j (ap number h ∙ ap some same) (ap number k)
