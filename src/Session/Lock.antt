-- ===== src/Session/Lock.antt =====
-- nc_timedlock of src/session.c.
use libnetconf.Common.{ℕ}

-- What a call of the pthread library returns: 0, ETIMEDOUT, or another number (EBUSY is one).
pub data PthreadResult : Type 0 where
  pthread_ok pthread_timedout pthread_error : PthreadResult

-- The calls that a mutex may get, and what each would return.
pub record Mutex : Type 0 where
  pub timedlock : ℕ → PthreadResult
  pub trylock : PthreadResult
  pub lock : PthreadResult

-- An `int` of milliseconds: positive, 0, or negative.
pub data Timeout : Type 0 where
  after : ℕ → Timeout
  at_once forever : Timeout

-- 1, 0 and -1.
pub data Locking : Type 0 where
  locked lock_timeout lock_failed : Locking

abbrev pub lock_result : PthreadResult → Locking
lock_result pthread_ok = locked
lock_result pthread_timedout = lock_timeout
lock_result pthread_error = lock_failed

unfoldable pub nc_timedlock : Mutex → Timeout → Locking
nc_timedlock m (after ms) = lock_result (m.timedlock ms)
nc_timedlock m at_once = lock_result m.trylock
nc_timedlock m forever = lock_result m.lock
