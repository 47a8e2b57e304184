-- ===== src/Server/Lock/Order.antt =====
-- What entering the queue and leaving it do to its entries.
use libnetconf.Common.{
  ℕ, zero, suc, ◌+◌, ◌%◌, ◌<◌, ◌≡◌, ◌≢◌, ◌⊎◌, inl, inr, refl, sym, ◌∙◌, ap, [], ◌∷◌, ◌++◌, ◌==◌,
  none, some, arith, false, All, subst,
}
use libnetconf.Server.Lock.{Queue, queue_size, empty_queue, at, our_id, enter, leave, queue_last}
use libnetconf.Server.Lock.Ring.{
  IsQueue, entries, entries_from, next, run, run-fresh, our_id_next, run-append, entries-entered,
  length-set, entered, next_lt,
}

pub empty_queue-IsQueue : IsQueue empty_queue
empty_queue-IsQueue = record {
  sized = refl;
  begins = omega arith;
  bounded = omega arith;
  first = 0;
  consecutive = refl;
}

pub len_cases : (n : ℕ) → (n ≡ 0) ⊎ ((m : ℕ) × n ≡ suc m)
len_cases zero = inl refl
len_cases (suc m) = inr (m, refl)

our_id_empty : (q : Queue) → q.queue_len ≡ 0 → our_id q ≡ 0
unfolding our_id
our_id_empty q e = rw e refl

-- The entries are consecutive, and the new number is the one after them.
our_id-consecutive :
    (q : Queue)
    → IsQueue q
    → (a : ℕ) × entries q ≡ run a q.queue_len × our_id q ≡ (a + q.queue_len) % 256
our_id-consecutive q w = elim (len_cases q.queue_len) [
  | inl e ↦
      let none_yet : entries q ≡ run 0 q.queue_len = rw e refl in
      let zeroth : our_id q ≡ (0 + q.queue_len) % 256 = our_id_empty q e ∙ omega arith in
      (0, none_yet, zeroth)
  | inr m ↦ (w.first, w.consecutive, our_id_next q w m.0 m.1)
]

our_id-fresh :
    (q : Queue) → IsQueue q → q.queue_len < queue_size → All (λ x. x ≢ our_id q) (entries q)
our_id-fresh q w h =
    let c = our_id-consecutive q w in
    let b = w.bounded in rw (c.1, c.2) (run-fresh q.queue_len c.0 (omega arith))

entered-IsQueue : (q : Queue) → IsQueue q → q.queue_len < queue_size → IsQueue (entered q)
entered-IsQueue q w h =
    let c = our_id-consecutive q w in
    let e : q.queue_len + 1 ≡ suc q.queue_len = omega arith in
    record {
      sized = length-set q.queue (queue_last q (q.queue_len + 1)) (our_id q) ∙ w.sized;
      begins = w.begins;
      bounded = omega arith;
      first = c.0;
      consecutive =
          entries-entered q w h
          ∙ (λ i. c.1 i ++ (c.2 i ∷ []))
          ∙ run-append c.0 q.queue_len
          ∙ ap (run c.0) (sym e);
    }

enter-entered : (q : Queue) → q.queue_len < queue_size → enter q ≡ some (our_id q, entered q)
unfolding enter
enter-entered q h = let test : (q.queue_len == queue_size) ≡ false = ground arith in rw test

-- nc_ps_lock's entry, where the ring is not full: the thread's number, in no entry yet, goes
-- behind the entries that are there.
pub enter-entries :
    (q : Queue)
    → IsQueue q
    → q.queue_len < queue_size
    → (q' : Queue) × enter q ≡ some (our_id q, q')
      × entries q' ≡ entries q ++ (our_id q ∷ [])
      × All (λ x. x ≢ our_id q) (entries q)
      × IsQueue q'
enter-entries q w h =
    (entered q, enter-entered q h, entries-entered q w h, our_id-fresh q w h, entered-IsQueue q w h)

leave-len : (q : Queue) (m : ℕ) → IsQueue q → q.queue_len ≡ suc m → (q.queue_len + 255) % 256 ≡ m
leave-len q m w e = let b = w.bounded in omega arith

-- Leaving a ring that is not empty removes the first entry and no other, and it is a queue again.
pub leave-entries :
    (q : Queue)
    → IsQueue q
    → q.queue_len ≢ 0
    → (entries q ≡ at q.queue q.queue_begin ∷ entries (leave q)) × IsQueue (leave q)
unfolding leave
leave-entries q w h = elim (len_cases q.queue_len) [
  | inl e ↦ absurd (h e)
  | inr (m, e) ↦
      let less : (q.queue_len + 255) % 256 ≡ m = leave-len q m w e in
      let before : entries_from q.queue q.queue_begin (suc m) ≡ run w.first (suc m) =
        subst (λ n. entries_from q.queue q.queue_begin n ≡ run w.first n) e w.consecutive in
      let after : entries_from q.queue (next q.queue_begin) m ≡ run (w.first + 1) m = cc in
      (
        rw (less, e) refl,
        record {
          sized = w.sized;
          begins = next_lt q.queue_begin w.begins;
          bounded = let b = w.bounded in omega arith;
          first = w.first + 1;
          consecutive = rw less after;
        },
      )
]

-- The ring that is full.
pub enter_full : (q : Queue) → q.queue_len ≡ queue_size → enter q ≡ none
unfolding enter
enter_full q e = rw e refl
