-- ===== src/Server/Polling/Tame.antt =====
-- The callbacks that nc_send_reply of src/session_server.c calls, and the other sessions.
use libnetconf.Common.{
  ℕ, ◌≡◌, ◌≢◌, refl, true, false, ◌==◌, Option, none, some, arith, subst, sym, Bool-cases, inl, inr,
}
use libnetconf.Session.{Session}
use libnetconf.Session.Xml.{Elem}
use libnetconf.Server.Poll.{is_running}
use libnetconf.Server.Serve.{
  Flags, Store, update, Callback, Program, ask_global, ask, nc_send_reply,
}
use libnetconf.Server.Polling.{served_flags}

-- The same session but for `term_reason`.
abbrev pub OnlyReason : Session → Session → Type 0
OnlyReason s s' = s' ≡ record s { term_reason = s'.term_reason }

-- A callback does to other sessions than the RPC's at most what nc_session_set_term_reason does.
abbrev pub IsTame : {Data : Type 0} → Callback Data → Type 0
IsTame {Data} clb =
    (d : Data) (h : ℕ) (store : Store) (k : ℕ) → k ≢ h → OnlyReason (store k) ((clb d h store).1 k)

-- The callbacks of the operations, and the global one.
pub record AreTame {Data : Type 0} (prog : Program Data) : Type 0 where
  pub of_schema : (d : Data) (clb : Callback Data) → prog.schema_clb d ≡ some clb → IsTame clb
  pub of_all : (clb : Callback Data) → prog.global_clb ≡ some clb → IsTame clb

-- The other sessions keep all but their `term_reason`, and without an RPC that as well.
abbrev pub KeepsOthers : Flags → ℕ → Store → Store → Type 0
KeepsOthers f h store store' =
    (k : ℕ) → k ≢ h → OnlyReason (store k) (store' k) × (f.rpc ≡ false → store' k ≡ store k)

pub update_other :
    (h : ℕ) (s : Session) (store : Store) (k : ℕ) → k ≢ h → update h s store k ≡ store k
update_other h s store k n = let differ : (k == h) ≡ false = ground (arith, n) in rw differ refl

pub unchanged : {P : Type 0} → (s s' : Session) → s' ≡ s → OnlyReason s s' × (P → s' ≡ s)
unchanged s s' e = (subst (OnlyReason s) (sym e) refl, λ p. e)

pub updated :
    {P : Type 0}
    → (h : ℕ) (s : Session) (store : Store) (k : ℕ) → k ≢ h
    → OnlyReason (store k) (update h s store k) × (P → update h s store k ≡ store k)
updated h s store k n = unchanged (store k) (update h s store k) (update_other h s store k n)

pub served_flags-rpc : (s : Session) (f : Flags) → (served_flags s f).rpc ≡ true
unfolding served_flags
served_flags-rpc s f = elim (Bool-cases (is_running s.status)) [
  | inl b ↦ rw b refl
  | inr b ↦ rw b refl
]

module _ {Data : Type 0} (prog : Program Data) (tame : AreTame prog) where
  ask_global-others :
      (second : Option (Callback Data)) (d : Data) (h : ℕ) (store : Store) (k : ℕ)
      → prog.global_clb ≡ second
      → k ≢ h
      → OnlyReason (store k) ((ask_global prog second d h store).1 k)
  ask_global-others (some clb) d h store k e n = tame.of_all clb e d h store k n
  ask_global-others none d h store k e n = refl

  ask-others :
      (o : Option (Callback Data)) (d : Data) (h : ℕ) (store : Store) (k : ℕ)
      → prog.schema_clb d ≡ o
      → k ≢ h
      → OnlyReason (store k) ((ask prog o d h store).1 k)
  ask-others (some clb) d h store k e n = tame.of_schema d clb e d h store k n
  ask-others none d h store k e n = ask_global-others prog.global_clb d h store k refl n

  nc_send_reply-others :
      (root : Elem) (d : Data) (h : ℕ) (store : Store) (k : ℕ)
      → k ≢ h
      → OnlyReason (store k) ((nc_send_reply prog root d h store).1 k)
  unfolding nc_send_reply
  nc_send_reply-others root d h store k n =
      subst (OnlyReason (store k))
        (sym (update_other h _ (ask prog (prog.schema_clb d) d h store).1 k n))
        (ask-others (prog.schema_clb d) d h store k refl n)

  pub nc_send_reply-KeepsOthers :
      (f : Flags) (root : Elem) (d : Data) (h : ℕ) (s : Session) (store : Store)
      → f.rpc ≡ true
      → KeepsOthers f h store (nc_send_reply prog root d h (update h s store)).1
  nc_send_reply-KeepsOthers f root d h s store t k n = (
    subst (λ x. OnlyReason x ((nc_send_reply prog root d h (update h s store)).1 k))
        (update_other h s store k n) (nc_send_reply-others root d h (update h s store) k n),
    λ r. absurd cc,
  )
