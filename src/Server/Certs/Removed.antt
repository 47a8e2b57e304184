-- ===== src/Server/Certs/Removed.antt =====
-- Removal from the cert-to-name list, and the list after any calls.
use libnetconf.Common.{
  ℕ, ◌≢◌, ◌≡◌, refl, ◌∙◌, sym, subst, inl, inr, Bool, true, false, ◌||◌, if◌then◌else◌, List, [],
  ◌∷◌, ◌++◌, append_assoc, append-nil, All, some, none, Option, arith, Bool-cases,
}
use libnetconf.Common.Bytes.{Bytes}
use libnetconf.Server.Certs.{
  Ctn, MapType, unknown, Wanted, fits_name, is_wanted, is_any, free_all, del_loop,
  nc_server_tls_add_ctn, nc_server_tls_del_ctn,
}
use libnetconf.Server.Certs.Sorted.{
  AtLeast, IsSorted, nc_server_tls_add_ctn-IsSorted, nc_server_tls_add_ctn-Placed,
}

-- The entries that are not asked for, in their order.
abbrev pub kept : Wanted → List Ctn → List Ctn
kept w [] = []
kept w (c ∷ cs) = let rest = kept w cs in if is_wanted w c then rest else c ∷ rest

abbrev pub any_wanted : Wanted → List Ctn → Bool
any_wanted w [] = false
any_wanted w (c ∷ cs) = is_wanted w c || any_wanted w cs

del_loop_lem :
    (w : Wanted) (before cs : List Ctn) (ret : Bool)
    → del_loop w before cs ret ≡ (before ++ kept w cs, ret || any_wanted w cs)
unfolding del_loop
del_loop_lem w before [] ret = ground (arith, append-nil before)
del_loop_lem w before (c ∷ cs) ret = ground (
  arith,
  del_loop_lem w before cs true,
  del_loop_lem w (before ++ (c ∷ [])) cs ret,
  append_assoc before (c ∷ []) (kept w cs),
)

is_wanted_any :
    (w : Wanted) (c : Ctn)
    → is_any w.id w.fingerprint w.map_type w.name ≡ true
    → is_wanted w c ≡ true
unfolding is_wanted
is_wanted_any w c h = ground arith

wanted_all :
    (w : Wanted) (cs : List Ctn)
    → is_any w.id w.fingerprint w.map_type w.name ≡ true
    → ◌≡◌ {A = List Ctn × Bool} ([], free_all cs) (kept w cs, any_wanted w cs)
wanted_all w [] h = refl
wanted_all w (c ∷ cs) h = ground (arith, is_wanted_any w c, wanted_all w cs)

-- nc_server_tls_del_ctn leaves the entries that are not asked for, in their order, and its result
-- is 0 exactly when an entry is asked for. An argument that is negative, NULL or 0 asks for any
-- value, and all of them together empty the list.
pub nc_server_tls_del_ctn-kept :
    (w : Wanted) (cs : List Ctn) → nc_server_tls_del_ctn w cs ≡ (kept w cs, any_wanted w cs)
unfolding nc_server_tls_del_ctn
nc_server_tls_del_ctn-kept w cs = ground (arith, wanted_all w cs, del_loop_lem w [] cs false)

pub All-kept : (P : Ctn → Type 0) (w : Wanted) (cs : List Ctn) → All P cs → All P (kept w cs)
All-kept P w [] h = tt
All-kept P w (c ∷ cs) h = elim (Bool-cases (is_wanted w c)) [
  | inl b ↦ rw b (All-kept P w cs h.1)
  | inr b ↦ rw b (h.0, All-kept P w cs h.1)
]

pub kept-IsSorted : (w : Wanted) (cs : List Ctn) → IsSorted cs → IsSorted (kept w cs)
kept-IsSorted w [] s = tt
kept-IsSorted w (c ∷ cs) s = elim (Bool-cases (is_wanted w c)) [
  | inl b ↦ rw b (kept-IsSorted w cs s.1)
  | inr b ↦ rw b (All-kept (AtLeast c.id) w cs s.0, kept-IsSorted w cs s.1)
]

-- A call of one of the two functions, from any endpoint.
pub data CtnCall : Type 0 where
  add_ctn : ℕ → Option Bytes → MapType → Option Bytes → CtnCall
  del_ctn : Wanted → CtnCall

abbrev pub call_ctn : CtnCall → List Ctn → List Ctn
call_ctn (add_ctn id fingerprint m name) cs = (nc_server_tls_add_ctn id fingerprint m name cs).0
call_ctn (del_ctn w) cs = (nc_server_tls_del_ctn w cs).0

abbrev pub call_ctns : List CtnCall → List Ctn → List Ctn
call_ctns [] cs = cs
call_ctns (x ∷ xs) cs = call_ctns xs (call_ctn x cs)

call_ctn-IsSorted : (x : CtnCall) (cs : List Ctn) → IsSorted cs → IsSorted (call_ctn x cs)
call_ctn-IsSorted (add_ctn id f m name) cs s = nc_server_tls_add_ctn-IsSorted id f m name cs s
call_ctn-IsSorted (del_ctn w) cs s =
    subst (λ r. IsSorted r.0) (sym (nc_server_tls_del_ctn-kept w cs)) (kept-IsSorted w cs s)

-- After any calls of nc_server_tls_add_ctn and nc_server_tls_del_ctn, whatever their arguments, a
-- list that was sorted by id is sorted by id.
pub call_ctns-IsSorted :
    (xs : List CtnCall) (cs : List Ctn) → IsSorted cs → IsSorted (call_ctns xs cs)
call_ctns-IsSorted [] cs s = s
call_ctns-IsSorted (x ∷ xs) cs s = call_ctns-IsSorted xs (call_ctn x cs) (call_ctn-IsSorted x cs s)

abbrev pub HasOtherId : ℕ → Ctn → Type 0
HasOtherId n c = c.id ≢ n

-- Any entry of the id.
abbrev pub with_id : ℕ → Wanted
with_id id = record { id = some id; fingerprint = none; map_type = unknown; name = none }

kept-others : (id : ℕ) (cs : List Ctn) → All (HasOtherId id) cs → kept (with_id id) cs ≡ cs
unfolding is_wanted
kept-others id [] h = refl
kept-others id (c ∷ cs) h = ground (arith, kept-others id cs)

kept-middle :
    (id : ℕ) (new : Ctn) (xs ys : List Ctn)
    → new.id ≡ id
    → All (HasOtherId id) (xs ++ ys)
    → (kept (with_id id) (xs ++ (new ∷ ys)) ≡ xs ++ ys)
      × (any_wanted (with_id id) (xs ++ (new ∷ ys)) ≡ true)
unfolding is_wanted
kept-middle id new [] ys e h = ground (arith, kept-others id ys)
kept-middle id new (x ∷ xs) ys e h = ground (arith, kept-middle id new xs ys)

-- An entry that is added to a sorted list without its id is removed again by its id: the list is as
-- it was, and the result is 0.
pub nc_server_tls_del_ctn-nc_server_tls_add_ctn :
    (id : ℕ) (f : Bytes) (m : MapType) (name : Option Bytes) (cs : List Ctn)
    → fits_name m name ≡ true
    → IsSorted cs
    → All (HasOtherId id) cs
    → nc_server_tls_del_ctn (with_id id) (nc_server_tls_add_ctn id (some f) m name cs).0
      ≡ (cs, true)
nc_server_tls_del_ctn-nc_server_tls_add_ctn id f m name cs h s o =
    let (_, (before, after, e, r, lo, hi), _) = nc_server_tls_add_ctn-Placed id f m name cs h s in
    let new : Ctn = record { id = id; fingerprint = f; map_type = m; name = name } in
    let (k, w) = kept-middle id new before after refl (subst (All (HasOtherId id)) e o) in
    nc_server_tls_del_ctn-kept (with_id id) _ ∙ rw (r, k, w, e) refl
