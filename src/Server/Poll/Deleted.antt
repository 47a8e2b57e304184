-- ===== src/Server/Poll/Deleted.antt =====
-- nc_ps_add_session and nc_ps_del_session of src/session_server.c.
use mathlib.Core.List.{Permᴰ}
use mathlib.Core.List.Permᴰ
use libnetconf.Common.{
  ℕ, suc, ◌+◌, ◌%◌, ◌^◌, ◌<◌, ◌≡◌, ◌≢◌, refl, sym, ap, ◌∙◌, subst, true, false, ◌==◌, List, [], ◌∷◌,
  ◌++◌, All, none, some, length, arith,
}
use libnetconf.Session.{Session, ti_none}
use libnetconf.Server.Poll.{
  Entry, Slot, done, undefined, has_fd, entry_of, nc_ps_add_session, remove_at, find, remove_found,
  del_session, nc_ps_del_session, and_unlock,
}
use libnetconf.Server.Poll.Slots.{remove_at-Permᴰ, remove_at_last}

abbrev pub written : List Entry → List Slot
written [] = []
written (e ∷ es) = some e ∷ written es

abbrev pub IsOf : ℕ → Entry → Type 0
IsOf h e = e.session ≢ h

length-written : (es : List Entry) → length (written es) ≡ length es
length-written [] = refl
length-written (e ∷ es) = ap suc (length-written es)

pub written-append : (xs ys : List Entry) → written (xs ++ ys) ≡ written xs ++ written ys
written-append [] ys = refl
written-append (x ∷ xs) ys = ap (◌∷◌ (some x)) (written-append xs ys)

find_at :
    (h i : ℕ) (xs : List Entry) (e : Entry) (rest : List Slot)
    → All (IsOf h) xs
    → e.session ≡ h
    → find h i (written xs ++ (some e ∷ rest)) ≡ done (some (i + length (written xs)))
unfolding find
find_at h i [] e rest k p = ground arith
find_at h i (x ∷ xs) e rest k p =
    let other : (x.session == h) ≡ false = ground (arith, k.0) in
    let next : suc i + length (written xs) ≡ i + suc (length (written xs)) = omega arith in
    rw other (find_at h (suc i) xs e rest k.1 p ∙ ap (λ n. done (some n)) next)

find_unwritten :
    (h i : ℕ) (xs : List Entry) (rest : List Slot)
    → All (IsOf h) xs
    → find h i (written xs ++ (none ∷ rest)) ≡ undefined
unfolding find
find_unwritten h i [] rest k = refl
find_unwritten h i (x ∷ xs) rest k =
    let other : (x.session == h) ≡ false = ground (arith, k.0) in
    rw other (find_unwritten h (suc i) xs rest k.1)

find_absent : (h i : ℕ) (xs : List Entry) → All (IsOf h) xs → find h i (written xs) ≡ done none
unfolding find
find_absent h i [] k = refl
find_absent h i (x ∷ xs) k =
    let other : (x.session == h) ≡ false = ground (arith, k.0) in
    rw other (find_absent h (suc i) xs k.1)

del_session_at :
    (h : ℕ) (xs : List Entry) (e : Entry) (rest : List Slot)
    → All (IsOf h) xs
    → e.session ≡ h
    → del_session h (written xs ++ (some e ∷ rest))
      ≡ done (remove_at (length (written xs)) (written xs ++ (some e ∷ rest)), true)
unfolding del_session
del_session_at h xs e rest k p =
    let from_zero : 0 + length (written xs) ≡ length (written xs) = omega arith in
    ap (remove_found (written xs ++ (some e ∷ rest)))
      (find_at h 0 xs e rest k p ∙ ap (λ n. done (some n)) from_zero)

-- A session is deleted at its first place; the others stay, in some order. One that is not there
-- is refused.
pub nc_ps_del_session-Permᴰ :
    (h : ℕ) (xs : List Entry) (e : Entry) (ys : List Entry)
    → All (IsOf h) xs
    → e.session ≡ h
    → (slots : List Slot) × (nc_ps_del_session true true h (written (xs ++ (e ∷ ys)))
        ≡ done (slots, true))
      × Permᴰ slots (written (xs ++ ys))
unfolding nc_ps_del_session
nc_ps_del_session-Permᴰ h xs e ys k p =
    let (zs, r, perm) = remove_at-Permᴰ (written xs) (some e) (written ys) in
    (
      written xs ++ zs,
      ap (λ l. nc_ps_del_session true true h l) (written-append xs (e ∷ ys))
          ∙ ap (and_unlock true) (del_session_at h xs e (written ys) k p)
          ∙ ap (λ l. done (l, true)) r,
      subst (Permᴰ (written xs ++ zs)) (sym (written-append xs ys))
          (Permᴰ.append_left (written xs) perm),
    )

-- Adding a session on a transport and deleting it again leaves the others as they were.
pub nc_ps_add_session-nc_ps_del_session :
    (fd_of : Session → ℕ) (h : ℕ) (s : Session) (es : List Entry)
    → has_fd s.ti_type ≡ true
    → length es + 1 < 2 ^ 16
    → All (IsOf h) es
    → (slots : List Slot) × (nc_ps_add_session fd_of true true h s (written es)
        ≡ done (slots, true))
      × (nc_ps_del_session true true h slots ≡ done (written es, true))
unfolding nc_ps_add_session nc_ps_del_session
nc_ps_add_session-nc_ps_del_session fd_of h s es t l k =
    let room : ((length (written es) + 1) % 2 ^ 16 == 0) ≡ false =
      ground (arith, length-written es) in
    (
      written es ++ (some (entry_of h (fd_of s)) ∷ []),
      rw (room, t) refl,
      ap (and_unlock true) (
          del_session_at h es (entry_of h (fd_of s)) [] k refl
          ∙ ap (λ l. done (l, true)) (remove_at_last (written es) (some (entry_of h (fd_of s))))),
    )

-- Adding a session without a transport fails, and yet leaves a slot that was never written: to
-- look for a session that is not there is then undefined.
pub nc_ps_add_session_unwritten :
    (fd_of : Session → ℕ) (h other : ℕ) (s : Session) (es : List Entry)
    → s.ti_type ≡ ti_none
    → length es + 1 < 2 ^ 16
    → All (IsOf other) es
    → (slots : List Slot) × (nc_ps_add_session fd_of true true h s (written es)
        ≡ done (slots, false))
      × (nc_ps_del_session true true other slots ≡ undefined)
unfolding nc_ps_add_session nc_ps_del_session del_session
nc_ps_add_session_unwritten fd_of h other s es t l k =
    let room : ((length (written es) + 1) % 2 ^ 16 == 0) ≡ false =
      ground (arith, length-written es) in
    (written es ++ (none ∷ []), rw (room, t) refl, rw (find_unwritten other 0 es [] k) refl)
