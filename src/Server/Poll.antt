-- ===== src/Server/Poll.antt =====
-- The sessions of a pollsession: nc_ps_new, nc_ps_add_session, nc_ps_del_session,
-- nc_ps_session_count and nc_ps_clear of src/session_server.c. A `struct nc_session *` is a number.
-- The results of nc_ps_lock and nc_ps_unlock are arguments, `true` being 0. Allocation succeeds.
pub mod Slots
pub mod Deleted
pub mod Apart
pub mod Cleared
use libnetconf.Common.{
  ℕ, zero, suc, ◌+◌, ◌-◌, ◌%◌, ◌^◌, Bool, true, false, ◌&&◌, ltb, ◌==◌, if◌then◌else◌, List, [],
  ◌∷◌, ◌++◌, Option, none, some, length, take, set, get_elem?,
}
use libnetconf.Session.{Session, Status, running, closing, TransportImpl, ti_none}
use libnetconf.Session.Lock.{Locking, locked, lock_timeout, lock_failed}

-- A session and its `struct pollfd`: the descriptor, and whether `revents` has POLLHUP or
-- POLLNVAL, POLLERR, and POLLIN.
pub record Entry : Type 0 where
  pub session : ℕ
  pub fd : ℕ
  pub hup : Bool
  pub err : Bool
  pub inp : Bool

-- What stands at an index of `sessions` and `pfds`; `none` is memory that was never written.
abbrev pub Slot : Type 0
Slot = Option Entry

-- The result of a function, or undefined behaviour: it reads a slot that was never written, reads
-- a session that was freed, or writes outside the arrays.
pub data Done (A : Type 0) : Type 0 where
  done : A → Done A
  undefined : Done A

-- `sessions` and `pfds` up to `session_count`.
abbrev pub nc_ps_new : List Slot
nc_ps_new = []

abbrev pub has_fd : TransportImpl → Bool
has_fd ti_none = false
has_fd _ = true

abbrev pub entry_of : ℕ → ℕ → Entry
entry_of h fd = record { session = h; fd = fd; hup = false; err = false; inp = false }

-- `fd_of` is the descriptor: a field of the transport, ssh_get_fd() or SSL_get_rfd(). The count
-- is a uint16_t.
unfoldable pub nc_ps_add_session :
    (fd_of : Session → ℕ) (locked unlocked : Bool)
    → ℕ
    → Session
    → List Slot
    → Done (List Slot × Bool)
nc_ps_add_session fd_of false unlocked h s slots = done (slots, false)
nc_ps_add_session fd_of true unlocked h s slots =
    if (length slots + 1) % 2 ^ 16 == 0
    then undefined
    else (if has_fd s.ti_type
        then done (slots ++ (some (entry_of h (fd_of s)) ∷ []), unlocked)
        else done (slots ++ (none ∷ []), false))

-- The last slot goes to the index.
unfoldable pub remove_at : ℕ → List Slot → List Slot
remove_at i slots =
    let n = length slots - 1 in
    if ltb i n
    then elim (get_elem? slots n) [ none ↦ slots | some last ↦ take n (set slots i last) ]
    else take n slots

-- The index of the session, from `i` on.
unfoldable pub find : ℕ → ℕ → List Slot → Done (Option ℕ)
find h i [] = done none
find h i (none ∷ rest) = undefined
find h i (some e ∷ rest) =
    let later = find h (suc i) rest in if e.session == h then done (some i) else later

abbrev pub remove_found : List Slot → Done (Option ℕ) → Done (List Slot × Bool)
remove_found slots undefined = undefined
remove_found slots (done none) = done (slots, false)
remove_found slots (done (some i)) = done (remove_at i slots, true)

-- _nc_ps_del_session with the index -1.
unfoldable pub del_session : ℕ → List Slot → Done (List Slot × Bool)
del_session h slots = remove_found slots (find h 0 slots)

abbrev pub and_unlock : Bool → Done (List Slot × Bool) → Done (List Slot × Bool)
and_unlock unlocked undefined = undefined
and_unlock unlocked (done (slots, ok)) = done (slots, ok && unlocked)

unfoldable pub nc_ps_del_session :
    (locked unlocked : Bool) → ℕ → List Slot → Done (List Slot × Bool)
nc_ps_del_session false unlocked h slots = done (slots, false)
nc_ps_del_session true unlocked h slots = and_unlock unlocked (del_session h slots)

-- -1 as a uint16_t where the lock fails.
unfoldable pub nc_ps_session_count : (locked : Bool) → List Slot → ℕ
nc_ps_session_count false slots = 2 ^ 16 - 1
nc_ps_session_count true slots = length slots

abbrev pub is_running : Status → Bool
is_running running = true
is_running _ = false

abbrev pub elem_of : ℕ → List ℕ → Bool
elem_of h [] = false
elem_of h (x ∷ xs) = if x == h then true else elem_of h xs

-- nc_session_free, of src/session.c, frees a session unless it is being freed already, has no
-- `ti_lock` or fails to lock it. A lock that times out does not matter.
abbrev pub frees_session : Status → Option Locking → Bool
frees_session closing lock = false
frees_session status none = false
frees_session status (some lock_failed) = false
frees_session status (some _) = true

-- `lock` is what nc_session_free gets of nc_timedlock() for the `ti_lock` of a session, if it has
-- one.
module _ (store : ℕ → Session) (lock : ℕ → Option Locking) where
  -- The sessions that nc_session_free frees of one.
  abbrev pub freeing : ℕ → List ℕ
  freeing h = if frees_session (store h).status (lock h) then h ∷ [] else []

  -- The loop of nc_ps_clear without `all`: the slots left and the sessions that were freed, in
  -- order. `none` is no result within the fuel.
  unfoldable pub clear_loop : (fuel i : ℕ) → List Slot → List ℕ → Option (Done (List Slot × List ℕ))
  clear_loop zero i slots freed = none
  clear_loop (suc fuel) i slots freed = elim (get_elem? slots i) [
    | none ↦ some (done (slots, freed))
    | some none ↦ some undefined
    | some (some e) ↦
        if elem_of e.session freed
        then some undefined
        else elim (is_running (store e.session).status) [
          | true ↦ clear_loop fuel (suc i) slots freed
          | false ↦ clear_loop fuel i (remove_at i slots) (freed ++ freeing e.session)
        ]
  ]

  -- Where a session is there a second time the freed one is read.
  unfoldable pub clear_all : List Slot → List ℕ → Done (List Slot × List ℕ)
  clear_all [] freed = done ([], freed)
  clear_all (none ∷ rest) freed = undefined
  clear_all (some e ∷ rest) freed =
      let more = clear_all rest (freed ++ freeing e.session) in
      if elem_of e.session freed then undefined else more

unfoldable pub nc_ps_clear :
    (store : ℕ → Session) (lock : ℕ → Option Locking) (fuel : ℕ) (ps_locked everything : Bool)
    → List Slot
    → Option (Done (List Slot × List ℕ))
nc_ps_clear store lock fuel false everything slots = some (done (slots, []))
nc_ps_clear store lock fuel true true slots = some (clear_all store lock slots [])
nc_ps_clear store lock fuel true false slots = clear_loop store lock fuel 0 slots []
