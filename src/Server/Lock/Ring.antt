-- ===== src/Server/Lock/Ring.antt =====
-- The ring buffer is a first-in first-out queue of distinct numbers.
use libnetconf.Common.{
  ℕ, zero, suc, ◌+◌, ◌-◌, ◌%◌, ◌≤◌, ◌<◌, ◌≡◌, ◌≢◌, refl, ◌∙◌, ap, List, [], ◌∷◌, ◌++◌, length, set,
  ltb, ◌==◌, if◌then◌else◌, arith, false, All, subst,
}
use libnetconf.Server.Lock.{Queue, queue_size, at, wrap, queue_last, our_id}

abbrev pub next : ℕ → ℕ
next b = if ltb b (queue_size - 1) then b + 1 else 0

-- The entries from index `b` on, the first in line first.
abbrev pub entries_from : List ℕ → ℕ → ℕ → List ℕ
entries_from q b zero = []
entries_from q b (suc n) = at q b ∷ entries_from q (next b) n

abbrev pub entries : Queue → List ℕ
entries q = entries_from q.queue q.queue_begin q.queue_len

-- `n` consecutive numbers of a uint8_t.
abbrev pub run : ℕ → ℕ → List ℕ
run a zero = []
run a (suc n) = (a % 256) ∷ run (a + 1) n

pub record IsQueue (q : Queue) : Type 0 where
  pub sized : length q.queue ≡ queue_size
  pub begins : q.queue_begin < queue_size
  pub bounded : q.queue_len ≤ queue_size
  pub first : ℕ
  pub consecutive : entries q ≡ run first q.queue_len

at-set_self : (q : List ℕ) (i v : ℕ) → i < length q → at (set q i v) i ≡ v
at-set_self [] i v h = absurd (omega arith)
at-set_self (x ∷ q) zero v h = refl
at-set_self (x ∷ q) (suc i) v h = at-set_self q i v (omega arith)

at-set_ne : (q : List ℕ) (i j v : ℕ) → i ≢ j → at (set q i v) j ≡ at q j
at-set_ne [] i j v h = refl
at-set_ne (x ∷ q) zero zero v h = absurd (h refl)
at-set_ne (x ∷ q) zero (suc j) v h = refl
at-set_ne (x ∷ q) (suc i) zero v h = refl
at-set_ne (x ∷ q) (suc i) (suc j) v h = at-set_ne q i j v (λ e. h (ap suc e))

pub length-set : (q : List ℕ) (i v : ℕ) → length (set q i v) ≡ length q
length-set [] i v = refl
length-set (x ∷ q) zero v = refl
length-set (x ∷ q) (suc i) v = ap suc (length-set q i v)

wrap-next : (b n : ℕ) → b < queue_size → n + 1 < queue_size → wrap (b + suc n) ≡ wrap (next b + n)
wrap-next b n h k = ground arith

wrap_ne : (b n : ℕ) → b < queue_size → n + 1 < queue_size → wrap (b + suc n) ≢ b
wrap_ne b n h k = ground arith

pub next_lt : (b : ℕ) → b < queue_size → next b < queue_size
next_lt b h = ground arith

-- Writing behind the last entry appends.
entries_from-set :
    (n : ℕ) (q : List ℕ) (b v : ℕ)
    → b < queue_size
    → n < queue_size
    → length q ≡ queue_size
    → entries_from (set q (wrap (b + n)) v) b (suc n) ≡ entries_from q b n ++ (v ∷ [])
entries_from-set zero q b v h k l =
    let e : wrap (b + 0) ≡ b = ground arith in
    rw e (ap (λ x. x ∷ []) (at-set_self q b v (omega arith)))
entries_from-set (suc n) q b v h k l =
    let head : at (set q (wrap (b + suc n)) v) b ≡ at q b =
      at-set_ne q (wrap (b + suc n)) b v (wrap_ne b n h (omega arith)) in
    let rest : entries_from (set q (wrap (b + suc n)) v) (next b) (suc n)
        ≡ entries_from q (next b) n ++ (v ∷ []) =
      ap (λ i. entries_from (set q i v) (next b) (suc n)) (wrap-next b n h (omega arith))
      ∙ entries_from-set n q (next b) v (next_lt b h) (omega arith) l in
    λ i. head i ∷ rest i

-- An entry of consecutive ones.
pub at-run :
    (i n : ℕ) (q : List ℕ) (b a : ℕ)
    → b < queue_size
    → n ≤ queue_size
    → i < n
    → entries_from q b n ≡ run a n
    → at q (wrap (b + i)) ≡ (a + i) % 256
at-run i zero q b a h k l e = absurd (omega arith)
at-run zero (suc n) q b a h k l e =
    let w : wrap (b + 0) ≡ b = ground arith in
    let first : at q b ≡ a % 256 = cc in rw w (first ∙ omega arith)
at-run (suc i) (suc n) q b a h k l e =
    let more : entries_from q (next b) n ≡ run (a + 1) n = cc in
    ap (at q) (wrap-next b i h (omega arith))
    ∙ at-run i n q (next b) (a + 1) (next_lt b h) (omega arith) (omega arith) more
    ∙ omega arith

pub run-append : (a n : ℕ) → run a n ++ (((a + n) % 256) ∷ []) ≡ run a (suc n)
run-append a zero = ap (λ x. (x % 256) ∷ []) (omega arith)
run-append a (suc n) =
    let moved : (a + suc n) % 256 ≡ ((a + 1) + n) % 256 = omega arith in
    rw moved (ap (◌∷◌ (a % 256)) (run-append (a + 1) n))

-- The new number is not among the ones before it.
pub run-fresh : (n a : ℕ) → n < 256 → All (λ x. x ≢ (a + n) % 256) (run a n)
run-fresh zero a h = tt
run-fresh (suc n) a h =
    let moved : ((a + 1) + n) % 256 ≡ (a + suc n) % 256 = omega arith in
    let other : a % 256 ≢ (a + suc n) % 256 = λ e. omega arith in
    (
      other,
      subst (λ id. All (λ x. x ≢ id) (run (a + 1) n)) moved (run-fresh n (a + 1) (omega arith)),
    )

abbrev pub entered : Queue → Queue
entered q = record q {
  queue = set q.queue (queue_last q (q.queue_len + 1)) (our_id q);
  queue_len = q.queue_len + 1;
}

pub queue_last-entered :
    (q : Queue)
    → IsQueue q
    → q.queue_len < queue_size
    → queue_last q (q.queue_len + 1) ≡ wrap (q.queue_begin + q.queue_len)
queue_last-entered q w h =
    let b = w.begins in
    let e : (q.queue_begin + (q.queue_len + 1) - 1) % 256 ≡ q.queue_begin + q.queue_len =
      omega arith in
    ap wrap e

queue_last_now :
    (q : Queue) (m : ℕ)
    → IsQueue q
    → q.queue_len ≡ suc m
    → queue_last q q.queue_len ≡ wrap (q.queue_begin + m)
queue_last_now q m w e =
    let b = w.begins in
    let l = w.bounded in
    let k : (q.queue_begin + q.queue_len - 1) % 256 ≡ q.queue_begin + m = omega arith in ap wrap k

-- The new number continues the numbers in the queue.
pub our_id_next :
    (q : Queue) (w : IsQueue q) (m : ℕ)
    → q.queue_len ≡ suc m
    → our_id q ≡ (w.first + q.queue_len) % 256
unfolding our_id
our_id_next q w m e =
    let test : (q.queue_len == 0) ≡ false = ground arith in
    let consec = w.consecutive in
    let last : at q.queue (wrap (q.queue_begin + m)) ≡ (w.first + m) % 256 =
      at-run m q.queue_len q.queue q.queue_begin w.first w.begins w.bounded (omega arith)
        w.consecutive in
    let where_ = queue_last_now q m w e in rw (test, where_, last) (omega arith)

pub entries-entered :
    (q : Queue)
    → IsQueue q
    → q.queue_len < queue_size
    → entries (entered q) ≡ entries q ++ (our_id q ∷ [])
entries-entered q w h =
    let e : q.queue_len + 1 ≡ suc q.queue_len = omega arith in
    rw (queue_last-entered q w h, e)
      (entries_from-set q.queue_len q.queue q.queue_begin (our_id q) w.begins h w.sized)
