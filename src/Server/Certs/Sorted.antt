-- ===== src/Server/Certs/Sorted.antt =====
-- The place of a new entry in the cert-to-name list.
use libnetconf.Common.{
  ℕ, ◌<◌, ◌≤◌, ◌≡◌, refl, sym, subst, ap, inl, inr, ◌⊎◌, true, false, ltb, leb, List, [], ◌∷◌, ◌++◌,
  All, some, none, Option, arith, Bool-cases,
}
use libnetconf.Common.Bytes.{Bytes}
use libnetconf.Server.Certs.{
  Ctn, MapType, fits_name, insert_after, insert_ctn, nc_server_tls_add_ctn,
}

abbrev pub UpTo : ℕ → Ctn → Type 0
UpTo n c = c.id ≤ n

abbrev pub Above : ℕ → Ctn → Type 0
Above n c = n < c.id

abbrev pub AtLeast : ℕ → Ctn → Type 0
AtLeast n c = n ≤ c.id

-- By id, equal ones allowed.
abbrev pub IsSorted : List Ctn → Type 0
IsSorted [] = Unit {0}
IsSorted (c ∷ cs) = All (AtLeast c.id) cs × IsSorted cs

-- `new` stands in the list behind all entries of its id or less, and before all of a greater id.
abbrev pub Placed : Ctn → List Ctn → List Ctn → Type 0
Placed new cs r =
    (before after : List Ctn) × (cs ≡ before ++ after)
    × (r ≡ before ++ (new ∷ after))
    × All (UpTo new.id) before
    × All (Above new.id) after

AtLeast-Above : (a n : ℕ) (cs : List Ctn) → n < a → All (AtLeast a) cs → All (Above n) cs
AtLeast-Above a n [] l h = tt
AtLeast-Above a n (c ∷ cs) l h = (omega arith, AtLeast-Above a n cs l h.1)

Above-AtLeast : (n : ℕ) (cs : List Ctn) → All (Above n) cs → All (AtLeast n) cs
Above-AtLeast n [] h = tt
Above-AtLeast n (c ∷ cs) h = (omega arith, Above-AtLeast n cs h.1)

Placed-cons :
    (new c : Ctn) (cs r : List Ctn) → c.id ≤ new.id → Placed new cs r → Placed new (c ∷ cs) (c ∷ r)
Placed-cons new c cs r l (before, after, e, f, lo, hi) =
    (c ∷ before, after, ap (◌∷◌ c) e, ap (◌∷◌ c) f, (l, lo), hi)

insert_after-Placed :
    (new c : Ctn) (rest : List Ctn)
    → c.id ≤ new.id
    → IsSorted rest
    → Placed new (c ∷ rest) (insert_after new c rest)
unfolding insert_after
insert_after-Placed new c [] l s = (c ∷ [], [], refl, refl, (l, tt), tt)
insert_after-Placed new c (next ∷ rest) l s = elim (Bool-cases (leb next.id new.id)) [
  | inl b ↦ rw b (
      Placed-cons new c (next ∷ rest) (insert_after new next rest) l
        (insert_after-Placed new next rest (ground arith) s.1))
  | inr b ↦
      let above : new.id < next.id = ground arith in
      rw b (
        c ∷ [],
        next ∷ rest,
        refl,
        refl,
        (l, tt),
        (above, AtLeast-Above next.id new.id rest above s.0),
      )
]

pub insert_ctn-Placed :
    (new : Ctn) (cs : List Ctn) → IsSorted cs → Placed new cs (insert_ctn new cs)
unfolding insert_ctn
insert_ctn-Placed new [] s = ([], [], refl, refl, tt, tt)
insert_ctn-Placed new (c ∷ cs) s = elim (Bool-cases (ltb new.id c.id)) [
  | inl b ↦
      let above : new.id < c.id = ground arith in
      rw b ([], c ∷ cs, refl, refl, tt, (above, AtLeast-Above c.id new.id cs above s.0))
  | inr b ↦ rw b (insert_after-Placed new c cs (ground arith) s.1)
]

All_left : (P : Ctn → Type 0) (xs ys : List Ctn) → All P (xs ++ ys) → All P xs × All P ys
All_left P [] ys h = (tt, h)
All_left P (x ∷ xs) ys h = let (a, b) = All_left P xs ys h.1 in ((h.0, a), b)

All_middle :
    (P : Ctn → Type 0) (new : Ctn) (xs ys : List Ctn)
    → P new
    → All P (xs ++ ys)
    → All P (xs ++ (new ∷ ys))
All_middle P new [] ys p h = (p, h)
All_middle P new (x ∷ xs) ys p h = (h.0, All_middle P new xs ys p h.1)

insert-IsSorted :
    (new : Ctn) (before after : List Ctn)
    → All (UpTo new.id) before
    → All (Above new.id) after
    → IsSorted (before ++ after)
    → IsSorted (before ++ (new ∷ after))
insert-IsSorted new [] after lo hi s = (Above-AtLeast new.id after hi, s)
insert-IsSorted new (x ∷ xs) after lo hi s =
    (All_middle (AtLeast x.id) new xs after lo.0 s.0, insert-IsSorted new xs after lo.1 hi s.1)

pub insert_ctn-IsSorted : (new : Ctn) (cs : List Ctn) → IsSorted cs → IsSorted (insert_ctn new cs)
insert_ctn-IsSorted new cs s =
    let (before, after, e, f, lo, hi) = insert_ctn-Placed new cs s in
    subst IsSorted (sym f) (insert-IsSorted new before after lo hi (subst IsSorted e s))

-- Whatever the arguments, the list stays sorted.
pub nc_server_tls_add_ctn-IsSorted :
    (id : ℕ) (fingerprint : Option Bytes) (m : MapType) (name : Option Bytes) (cs : List Ctn)
    → IsSorted cs
    → IsSorted (nc_server_tls_add_ctn id fingerprint m name cs).0
unfolding nc_server_tls_add_ctn
nc_server_tls_add_ctn-IsSorted id none m name cs s = s
nc_server_tls_add_ctn-IsSorted id (some f) m name cs s = elim (Bool-cases (fits_name m name)) [
  | inl b ↦ rw b (insert_ctn-IsSorted _ cs s)
  | inr b ↦ rw b s
]

-- In a sorted list, an entry with a fingerprint and a mapping that fits its name is put behind all
-- entries of its id or a smaller one and before all of a greater id, the others keeping their
-- order, and the result is 0; the list is sorted again.
pub nc_server_tls_add_ctn-Placed :
    (id : ℕ) (f : Bytes) (m : MapType) (name : Option Bytes) (cs : List Ctn)
    → fits_name m name ≡ true
    → IsSorted cs
    → ((nc_server_tls_add_ctn id (some f) m name cs).1 ≡ true)
      × Placed
          (record { id = id; fingerprint = f; map_type = m; name = name })
          cs
          (nc_server_tls_add_ctn id (some f) m name cs).0
      × IsSorted (nc_server_tls_add_ctn id (some f) m name cs).0
unfolding nc_server_tls_add_ctn
nc_server_tls_add_ctn-Placed id f m name cs h s =
    rw h (refl, insert_ctn-Placed _ cs s, insert_ctn-IsSorted _ cs s)

-- Without a fingerprint, or with a mapping that does not fit the name, the result is -1 and the
-- list is unchanged.
pub nc_server_tls_add_ctn_refused :
    (id : ℕ) (fingerprint : Option Bytes) (m : MapType) (name : Option Bytes) (cs : List Ctn)
    → (fingerprint ≡ none) ⊎ (fits_name m name ≡ false)
    → nc_server_tls_add_ctn id fingerprint m name cs ≡ (cs, false)
unfolding nc_server_tls_add_ctn
nc_server_tls_add_ctn_refused id none m name cs h = refl
nc_server_tls_add_ctn_refused id (some f) m name cs (inl e) = cc
nc_server_tls_add_ctn_refused id (some f) m name cs (inr e) = rw e

abbrev pub HasName : Ctn → Type 0
HasName c = fits_name c.map_type c.name ≡ true

-- Whatever the arguments, exactly the entries with a specified mapping have a name, if it was so.
pub nc_server_tls_add_ctn-HasName :
    (id : ℕ) (fingerprint : Option Bytes) (m : MapType) (name : Option Bytes) (cs : List Ctn)
    → IsSorted cs
    → All HasName cs
    → All HasName (nc_server_tls_add_ctn id fingerprint m name cs).0
unfolding nc_server_tls_add_ctn
nc_server_tls_add_ctn-HasName id none m name cs s h = h
nc_server_tls_add_ctn-HasName id (some f) m name cs s h = elim (Bool-cases (fits_name m name)) [
  | inr b ↦ rw b h
  | inl b ↦
      let new : Ctn = record { id = id; fingerprint = f; map_type = m; name = name } in
      let (before, after, e, r, _, _) = insert_ctn-Placed new cs s in
      rw (b, r) (All_middle HasName new before after b (subst (All HasName) e h))
]
