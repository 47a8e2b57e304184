-- ===== src/Server/Poll/Cleared.antt =====
-- nc_ps_clear of src/session_server.c, of the sessions that do not run.
use mathlib.Core.List.{Permᴰ}
use mathlib.Core.List.Permᴰ
use libnetconf.Common.{
  ℕ, zero, suc, ◌<◌, ◌≡◌, refl, sym, ap, ◌∙◌, subst, true, false, List, [], ◌∷◌, ◌++◌, All,
  All-append, Option, some, length, length-append, arith, append_assoc, append-nil, Bool-cases, inl,
  inr,
}
use libnetconf.Session.{Session}
use libnetconf.Session.Lock.{Locking}
use libnetconf.Server.Poll.{
  Entry, Slot, Done, done, remove_at, is_running, elem_of, frees_session, freeing, clear_loop,
  nc_ps_clear,
}
use libnetconf.Server.Poll.Slots.{get_elem_middle, get_elem_end}
use libnetconf.Server.Poll.Deleted.{written, written-append}
use libnetconf.Server.Poll.Apart.{
  IsNot, AreApart, Permᴰ-All, Permᴰ-AreApart, elem_of_last, remove_at-written,
}

module _ (store : ℕ → Session) (lock : ℕ → Option Locking) where
  abbrev pub Runs : Entry → Type 0
  Runs e = is_running (store e.session).status ≡ true

  abbrev pub RunsNot : Entry → Type 0
  RunsNot e = is_running (store e.session).status ≡ false

  -- Those of the sessions taken out that nc_session_free frees.
  abbrev pub freed_of : List Entry → List ℕ
  freed_of [] = []
  freed_of (e ∷ es) = freeing store lock e.session ++ freed_of es

  freed_of-last :
      (es : List Entry) (y : Entry)
      → freed_of (es ++ (y ∷ [])) ≡ freed_of es ++ freeing store lock y.session
  freed_of-last [] y = append-nil (freeing store lock y.session)
  freed_of-last (e ∷ es) y =
      ap (◌++◌ (freeing store lock e.session)) (freed_of-last es y)
      ∙ sym
          (append_assoc (freeing store lock e.session) (freed_of es) (freeing store lock y.session))

  elem_of-freeing :
      (z : ℕ) (xs : List ℕ) (h : ℕ)
      → elem_of z xs ≡ false
      → elem_of z (xs ++ (h ∷ [])) ≡ false
      → elem_of z (xs ++ freeing store lock h) ≡ false
  elem_of-freeing z xs h a b = elim (Bool-cases (frees_session (store h).status (lock h))) [
    | inl e ↦ rw e b
    | inr e ↦ rw (e, append-nil xs) a
  ]

  -- Of `es` those that run are left and the others are taken out, of which those are freed, once
  -- each, that nc_session_free frees.
  abbrev pub IsCleared : List Entry → Option (Done (List Slot × List ℕ)) → Type 0
  IsCleared es r =
      (left : List Entry) × (gone : List Entry) × (r ≡ some (done (written left, freed_of gone)))
      × All Runs left
      × All RunsNot gone
      × Permᴰ (left ++ gone) es

  abbrev IsFresh : List Entry → Entry → Type 0
  IsFresh gone y = elem_of y.session (freed_of gone) ≡ false

  still_new :
      (gone : List Entry) (y : Entry) (zs : List Entry)
      → All (IsFresh gone) zs
      → All (IsNot y) zs
      → All (IsFresh (gone ++ (y ∷ []))) zs
  still_new gone y [] h k = tt
  still_new gone y (z ∷ zs) h k = (
    rw (freed_of-last gone y) (
        elem_of-freeing z.session (freed_of gone) y.session h.0
          (elem_of_last z.session (freed_of gone) y.session h.0 k.0)),
    still_new gone y zs h.1 k.1,
  )

  freed_next :
      (xs ys zs gone : List Entry) (y : Entry)
      → Permᴰ zs ys
      → Permᴰ (xs ++ (zs ++ (gone ++ (y ∷ [])))) (xs ++ ((y ∷ ys) ++ gone))
  freed_next xs ys zs gone y p = Permᴰ.append_left xs (
      Permᴰ.trans (Permᴰ.append_right (gone ++ (y ∷ [])) p) (
        subst (λ l. Permᴰ l ((y ∷ ys) ++ gone)) (append_assoc ys gone (y ∷ []))
          (Permᴰ.append_comm (ys ++ gone) (y ∷ []))))

  step_end :
      (fuel : ℕ) (slots : List Slot) (freed : List ℕ)
      → clear_loop store lock (suc fuel) (length slots) (slots ++ []) freed
        ≡ some (done (slots, freed))
  unfolding clear_loop
  step_end fuel slots freed =
      rw (append-nil slots, get_elem_end slots, clear_loop)
        (ap (λ z. some (done (z, freed))) (append-nil slots))

  step_run :
      (fuel : ℕ) (slots : List Slot) (y : Entry) (rest : List Slot) (freed : List ℕ)
      → elem_of y.session freed ≡ false
      → is_running (store y.session).status ≡ true
      → clear_loop store lock (suc fuel) (length slots) (slots ++ (some y ∷ rest)) freed
        ≡ clear_loop store lock fuel (suc (length slots)) (slots ++ (some y ∷ rest)) freed
  unfolding clear_loop
  step_run fuel slots y rest freed e b =
      rw (get_elem_middle slots (some y) rest, e, b, clear_loop) refl

  step_stop :
      (fuel : ℕ) (slots : List Slot) (y : Entry) (rest : List Slot) (freed : List ℕ)
      → elem_of y.session freed ≡ false
      → is_running (store y.session).status ≡ false
      → clear_loop store lock (suc fuel) (length slots) (slots ++ (some y ∷ rest)) freed
        ≡ clear_loop store lock fuel
            (length slots)
            (remove_at (length slots) (slots ++ (some y ∷ rest)))
            (freed ++ freeing store lock y.session)
  unfolding clear_loop
  step_stop fuel slots y rest freed e b =
      rw (get_elem_middle slots (some y) rest, e, b, clear_loop) refl

  new_at_first : (es : List Entry) → All (IsFresh []) es
  new_at_first [] = tt
  new_at_first (e ∷ es) = (refl, new_at_first es)

  clear_loop-IsCleared :
      (fuel : ℕ) (xs ys gone : List Entry)
      → length ys < fuel
      → All Runs xs
      → All RunsNot gone
      → AreApart ys
      → All (IsFresh gone) ys
      → IsCleared (xs ++ (ys ++ gone)) (
          clear_loop store lock fuel
            (length (written xs))
            (written xs ++ written ys)
            (freed_of gone))
  clear_loop-IsCleared zero xs ys gone l r s a f = absurd (omega arith)
  clear_loop-IsCleared (suc fuel) xs [] gone l r s a f =
      (xs, gone, step_end fuel (written xs) (freed_of gone), r, s, Permᴰ.refl (xs ++ gone))
  clear_loop-IsCleared (suc fuel) xs (y ∷ ys) gone l r s a f =
      elim (Bool-cases (is_running (store y.session).status)) [
        | inl b ↦
            let list : written xs ++ (some y ∷ written ys)
                ≡ written (xs ++ (y ∷ [])) ++ written ys =
              sym (append_assoc (written xs) (some y ∷ []) (written ys))
              ∙ ap (λ z. z ++ written ys) (sym (written-append xs (y ∷ []))) in
            let index : suc (length (written xs)) ≡ length (written (xs ++ (y ∷ []))) = omega (
              arith,
              ap length (written-append xs (y ∷ [])),
              length-append (written xs) (some y ∷ []),
            ) in
            let (left, gone', e, r', s', p) =
              clear_loop-IsCleared fuel (xs ++ (y ∷ [])) ys gone (omega arith)
                (All-append Runs xs (y ∷ []) r (b, tt)) s a.1 f.1 in
            (
              left,
              gone',
              step_run fuel (written xs) y (written ys) (freed_of gone) f.0 b
                  ∙ ap
                      (λ n.
                        clear_loop store lock fuel n (written xs ++ (some y ∷ written ys))
                          (freed_of gone))
                      index
                  ∙ ap
                      (λ z.
                        clear_loop store lock fuel (length (written (xs ++ (y ∷ [])))) z
                          (freed_of gone))
                      list
                  ∙ e,
              r',
              s',
              subst (Permᴰ (left ++ gone')) (append_assoc xs (y ∷ []) (ys ++ gone)) p,
            )
        | inr b ↦
            let (zs, e0, p0, n0) = remove_at-written xs y ys in
            let (left, gone', e, r', s', p) =
              clear_loop-IsCleared fuel xs zs (gone ++ (y ∷ [])) (omega arith) r
                (All-append RunsNot gone (y ∷ []) s (b, tt)) (Permᴰ-AreApart (Permᴰ.symm p0) a.1)
                (still_new gone y zs (Permᴰ-All (IsFresh gone) (Permᴰ.symm p0) f.1)
                  (Permᴰ-All (IsNot y) (Permᴰ.symm p0) a.0)) in
            (
              left,
              gone',
              step_stop fuel (written xs) y (written ys) (freed_of gone) f.0 b
                  ∙ ap
                      (λ z.
                        clear_loop store lock fuel (length (written xs)) z
                          (freed_of gone ++ freeing store lock y.session))
                      e0
                  ∙ ap (clear_loop store lock fuel (length (written xs)) (written xs ++ written zs))
                      (sym (freed_of-last gone y))
                  ∙ e,
              r',
              s',
              Permᴰ.trans p (freed_next xs ys zs gone y p0),
            )
      ]

  -- With more fuel than sessions, none of which is there twice, nc_ps_clear without `all` ends: the
  -- sessions that run are left in some order, each other one is taken out, and of those every one is
  -- freed, once, but the ones that nc_session_free returns from at once: that are closing, or whose
  -- `ti_lock` is missing or cannot be locked.
  pub nc_ps_clear-IsCleared :
      (fuel : ℕ) (es : List Entry)
      → length es < fuel
      → AreApart es
      → IsCleared es (nc_ps_clear store lock fuel true false (written es))
  unfolding nc_ps_clear
  nc_ps_clear-IsCleared fuel es l a =
      subst (λ z. IsCleared z (clear_loop store lock fuel 0 (written es) [])) (append-nil es)
        (clear_loop-IsCleared fuel [] es [] l tt tt a (new_at_first es))
