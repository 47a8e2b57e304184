-- ===== src/Server/Lock.antt =====
-- The queue that orders the threads of a pollsession: the ring buffer of `struct nc_pollsession`
-- (src/session_p.h), and what nc_ps_lock and nc_ps_unlock of src/session_server.c do to it. The
-- numbers are uint8_t.
pub mod Ring
pub mod Order
pub mod Threads
pub mod Ordered
pub mod Exclusion
pub mod Faults
pub mod Progress
use libnetconf.Common.{
  ℕ, zero, suc, ◌+◌, ◌-◌, ◌%◌, List, [], ◌∷◌, ltb, ◌==◌, if◌then◌else◌, Option, none, some, set,
  Bool,
}

-- NC_PS_QUEUE_SIZE.
abbrev pub queue_size : ℕ
queue_size = 6

pub record Queue : Type 0 where
  pub queue : List ℕ
  pub queue_begin : ℕ
  pub queue_len : ℕ

-- calloc().
abbrev pub empty_queue : Queue
empty_queue = record { queue = 0 ∷ 0 ∷ 0 ∷ 0 ∷ 0 ∷ 0 ∷ []; queue_begin = 0; queue_len = 0 }

abbrev pub at : List ℕ → ℕ → ℕ
at [] i = 0
at (x ∷ xs) zero = x
at (x ∷ xs) (suc i) = at xs i

-- `if (queue_last > NC_PS_QUEUE_SIZE - 1) queue_last -= NC_PS_QUEUE_SIZE;`
abbrev pub wrap : ℕ → ℕ
wrap i = if ltb (queue_size - 1) i then i - queue_size else i

-- The index of the last of `len` entries.
abbrev pub queue_last : Queue → ℕ → ℕ
queue_last q len = wrap ((q.queue_begin + len - 1) % 256)

-- A value that no entry has: one more than the last.
unfoldable pub our_id : Queue → ℕ
our_id q = if q.queue_len == 0 then 0 else (at q.queue (queue_last q q.queue_len) + 1) % 256

-- nc_ps_lock up to the wait. `none` is "Pollsession queue too small".
unfoldable pub enter : Queue → Option (ℕ × Queue)
enter q =
    if q.queue_len == queue_size
    then none
    else some (
      our_id q,
      record q {
        queue = set q.queue (queue_last q (q.queue_len + 1)) (our_id q);
        queue_len = q.queue_len + 1;
      },
    )

-- The test of the wait.
unfoldable pub is_turn : Queue → ℕ → Bool
is_turn q id = at q.queue q.queue_begin == id

-- Removing the first entry: nc_ps_unlock, and nc_ps_lock where its wait fails.
unfoldable pub leave : Queue → Queue
leave q = record q {
  queue_begin = if ltb q.queue_begin (queue_size - 1) then q.queue_begin + 1 else 0;
  queue_len = (q.queue_len + 255) % 256;
}
