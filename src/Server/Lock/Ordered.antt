-- ===== src/Server/Lock/Ordered.antt =====
-- The invariant of the threads of a pollsession, and the steps that keep it: all but a wait that
-- times out.
use libnetconf.Common.{
  ℕ, ◌≡◌, ◌≢◌, ◌⊎◌, inl, inr, refl, sym, ◌∙◌, ap, List, [], ◌∷◌, ◌++◌, ◌==◌, ==_iff, Option, none,
  some, arith, true, All, subst, Bool-cases,
}
use libnetconf.Server.Lock.{Queue, at, is_turn, leave}
use libnetconf.Server.Lock.Ring.{IsQueue, entries, entries_from}
use libnetconf.Server.Lock.Order.{leave-entries, empty_queue-IsQueue}
use libnetconf.Server.Lock.Threads.{Phase, outside, waiting, holding, System, assign, idle_system}

abbrev pub IsIn : ℕ → List ℕ → Type 0
IsIn x [] = ⊥
IsIn x (y ∷ ys) = (x ≡ y) ⊎ IsIn x ys

abbrev pub number : Phase → Option ℕ
number outside = none
number (waiting id) = some id
number (holding id) = some id

-- Each thread inside has an entry of its own, and who holds the pollsession has the first.
pub record IsOrdered (s : System) : Type 0 where
  pub queue : IsQueue s.ring
  pub present : (t id : ℕ) → number (s.phase t) ≡ some id → IsIn id (entries s.ring)
  pub unshared : (t u id : ℕ) → number (s.phase t) ≡ some id → number (s.phase u) ≡ some id → t ≡ u
  pub foremost : (t id : ℕ) → s.phase t ≡ holding id → (rest : List ℕ) × entries s.ring ≡ id ∷ rest

pub IsIn-append : (x : ℕ) (xs ys : List ℕ) → IsIn x xs → IsIn x (xs ++ ys)
IsIn-append x [] ys m = absurd m
IsIn-append x (y ∷ xs) ys (inl e) = inl e
IsIn-append x (y ∷ xs) ys (inr m) = inr (IsIn-append x xs ys m)

pub IsIn-last : (x : ℕ) (xs : List ℕ) → IsIn x (xs ++ (x ∷ []))
IsIn-last x [] = inl refl
IsIn-last x (y ∷ xs) = inr (IsIn-last x xs)

pub IsIn-ne : (x y : ℕ) (xs : List ℕ) → All (λ z. z ≢ y) xs → IsIn x xs → x ≢ y
IsIn-ne x y [] a m k = m
IsIn-ne x y (z ∷ xs) a (inl e) k = a.0 (sym e ∙ k)
IsIn-ne x y (z ∷ xs) a (inr m) k = IsIn-ne x y xs a.1 m k

pub assign_cases :
    (t u : ℕ) (p : Phase) (f : ℕ → Phase)
    → ((u ≡ t) × assign t p f u ≡ p) ⊎ ((u ≢ t) × assign t p f u ≡ f u)
assign_cases t u p f = elim (Bool-cases (u == t)) [
  | inl e ↦ inl ((==_iff u t).0 e, rw e refl)
  | inr e ↦ let other : u ≢ t = λ k. ground (arith, ==_iff u t) in inr (other, rw e refl)
]

pub idle_system-IsOrdered : IsOrdered idle_system
idle_system-IsOrdered = record {
  queue = empty_queue-IsQueue;
  present = λ t id e. absurd cc;
  unshared = λ t u id e. absurd cc;
  foremost = λ t id e. absurd cc;
}

-- acquiring changes no thread's number
pub number_kept :
    (t u id : ℕ) (f : ℕ → Phase)
    → f t ≡ waiting id
    → number (assign t (holding id) f u) ≡ number (f u)
number_kept t u id f e = elim (assign_cases t u (holding id) f) [
  | inl (k, a) ↦ ap number a ∙ sym (ap (λ v. number (f v)) k ∙ ap number e)
  | inr (k, a) ↦ ap number a
]

pub IsIn-len : (q : Queue) (id : ℕ) → IsIn id (entries q) → q.queue_len ≢ 0
IsIn-len q id m e = absurd (subst (λ n. IsIn id (entries_from q.queue q.queue_begin n)) e m)

pub is_turn-head :
    (s : System) (id : ℕ)
    → IsQueue s.ring
    → IsIn id (entries s.ring)
    → is_turn s.ring id ≡ true
    → (rest : List ℕ) × entries s.ring ≡ id ∷ rest
unfolding is_turn
is_turn-head s id w m e =
    let front : at s.ring.queue s.ring.queue_begin ≡ id = (==_iff _ _).0 e in
    let first = (leave-entries s.ring w (IsIn-len s.ring id m)).0 in
    (entries (leave s.ring), first ∙ ap (λ x. x ∷ entries (leave s.ring)) front)

pub acquired-IsOrdered :
    (s : System) (t id : ℕ)
    → IsOrdered s
    → s.phase t ≡ waiting id
    → is_turn s.ring id ≡ true
    → IsOrdered (record s { phase = assign t (holding id) s.phase })
acquired-IsOrdered s t id w e turn =
    let kept : (u : ℕ) → number (assign t (holding id) s.phase u) ≡ number (s.phase u) =
      λ u. number_kept t u id s.phase e in
    record {
      queue = w.queue;
      present = λ u j k. w.present u j (sym (kept u) ∙ k);
      unshared = λ u v j k l. w.unshared u v j (sym (kept u) ∙ k) (sym (kept v) ∙ l);
      foremost = λ u j k. elim (assign_cases t u (holding id) s.phase) [
        | inl (same, a) ↦
            let numbers : id ≡ j = cc in
            subst (λ x. (rest : List ℕ) × entries s.ring ≡ x ∷ rest) numbers
              (is_turn-head s id w.queue (w.present t id (ap number e)) turn)
        | inr (other, a) ↦ w.foremost u j (sym a ∙ k)
      ];
    }

-- Who leaves takes the first entry along; the others keep theirs.
pub left-IsOrdered :
    (s : System) (t id : ℕ)
    → IsOrdered s
    → s.phase t ≡ holding id
    → IsOrdered (record s { ring = leave s.ring; phase = assign t outside s.phase })
left-IsOrdered s t id w e =
    let mine : number (s.phase t) ≡ some id = ap number e in
    let first = w.foremost t id e in
    let some_left = IsIn-len s.ring id (w.present t id mine) in
    let left = leave-entries s.ring w.queue some_left in
    let front : at s.ring.queue s.ring.queue_begin ≡ id = cc in
    let gone : (u : ℕ)
        → number (assign t outside s.phase u) ≢ none
        → (u ≢ t) × assign t outside s.phase u ≡ s.phase u =
      λ u k. elim (assign_cases t u outside s.phase) [
        | inl (same, a) ↦ absurd (k (ap number a))
        | inr c ↦ c
      ] in
    let before : (u j : ℕ)
        → number (assign t outside s.phase u) ≡ some j
        → (u ≢ t) × number (s.phase u) ≡ some j =
      λ u j k. let c = gone u (λ n. absurd cc) in (c.0, sym (ap number c.1) ∙ k) in
    record {
      queue = left.1;
      present = λ u j k.
          let b = before u j k in
          elim (subst (IsIn j) left.0 (w.present u j b.1)) [
            | inl same ↦ absurd (b.0 (w.unshared u t j b.1 (mine ∙ ap some (sym (same ∙ front)))))
            | inr m ↦ m
          ];
      unshared = λ u v j k l. w.unshared u v j (before u j k).1 (before v j l).1;
      foremost = λ u j k.
          let b = before u j (ap number k) in
          let c = gone u (λ n. absurd cc) in
          let ahead = w.foremost u j (sym c.1 ∙ k) in
          let same : j ≡ id = cc in absurd (b.0 (w.unshared u t j b.1 (mine ∙ ap some (sym same))));
    }
