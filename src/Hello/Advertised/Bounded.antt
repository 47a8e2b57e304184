-- ===== src/Hello/Advertised/Bounded.antt =====
-- The capabilities of modules, in the buffer of 512 bytes of nc_server_get_cpblts.
use libnetconf.Common.{
  ◌+◌, ◌<◌, ◌≤◌, ◌≡◌, inl, inr, Bool, true, false, not, ltb, leb, List, [], ◌∷◌, ◌++◌, All, Option,
  none, some, arith, Bool-cases, length, length-append, if◌then◌else◌,
}
use libnetconf.Common.Bytes.{Bytes, codes, bytes_eq}
use libnetconf.Server.Poll.{Done, done, undefined}
use libnetconf.Hello.Advertised.{
  Child, yang_module, other_child, text_if, Seen, nothing_seen, see, see_leaf, with_rev,
  add_features, listed_features, module_cpblt, put_cpblt, all_three, complete, module_cpblts,
}

abbrev pub Short : Bytes → Type 0
Short b = length b < 512

-- A value of a leaf: three such and what stands between them fit the buffer.
abbrev pub ShortLeaf : Bytes × Bytes → Type 0
ShortLeaf (n, v) = length v < 160

abbrev pub ShortChild : Child → Type 0
ShortChild (yang_module leaves) = All ShortLeaf leaves
ShortChild other_child = Unit {0}

abbrev pub ShortOption : Option Bytes → Type 0
ShortOption none = Unit {0}
ShortOption (some v) = length v < 160

pub record ShortSeen (s : Seen) : Type 0 where
  ns : ShortOption s.ns
  name : ShortOption s.name
  rev : ShortOption s.rev

if-ShortSeen : (b : Bool) (x y : Seen) → ShortSeen x → ShortSeen y → ShortSeen (if b then x else y)
if-ShortSeen true x y h k = h
if-ShortSeen false x y h k = k

see_leaf-ShortSeen :
    (s : Seen) (n v : Bytes) → ShortSeen s → length v < 160 → ShortSeen (see_leaf s n v)
see_leaf-ShortSeen s n v h k =
    if-ShortSeen (bytes_eq n (codes "namespace")) _ _
      (record { ns = k; name = h.name; rev = h.rev })
      (if-ShortSeen (bytes_eq n (codes "name")) _ _ (record { ns = h.ns; name = k; rev = h.rev })
        (if-ShortSeen (bytes_eq n (codes "revision")) _ _
          (record { ns = h.ns; name = h.name; rev = k })
          (if-ShortSeen (bytes_eq n (codes "feature")) _ _
            (record { ns = h.ns; name = h.name; rev = h.rev }) h)))

see-ShortSeen :
    (s : Seen) (leaves : List (Bytes × Bytes))
    → ShortSeen s
    → All ShortLeaf leaves
    → ShortSeen (see s leaves)
unfolding see
see-ShortSeen s [] h a = h
see-ShortSeen s ((n, v) ∷ rest) h a =
    see-ShortSeen (see_leaf s n v) rest (see_leaf-ShortSeen s n v h a.0) a.1

length-text_if : (b : Bool) → length (text_if b (codes ",")) ≤ 1
length-text_if true = omega arith
length-text_if false = omega arith

add_features-Short :
    (first : Bool) (str : Bytes) (fs : List Bytes) → Short str → Short (add_features first str fs)
unfolding add_features
add_features-Short first str [] h = h
add_features-Short first str (f ∷ fs) h = elim (Bool-cases (leb 512 (length str + 1 + length f))) [
  | inl b ↦ rw b h
  | inr b ↦
      let comma = text_if (not first) (codes ",") in
      let fits : length str + 1 + length f < 512 = ground arith in
      rw b (
        add_features-Short false (str ++ (comma ++ f)) fs (
          omega (
            arith,
            length-append str (comma ++ f),
            length-append comma f,
            length-text_if (not first),
          )))
]

-- Defined, and without a text of 512 bytes or more.
abbrev pub ReturnsShort : Done Bytes → Type 0
ReturnsShort (done c) = Short c
ReturnsShort undefined = ⊥

abbrev pub AllShort : Done (List Bytes) → Type 0
AllShort (done cs) = All Short cs
AllShort undefined = ⊥

length-with_rev : (r : Bytes) → length (with_rev r) ≤ 10 + length r
length-with_rev [] = omega arith
length-with_rev (c ∷ cs) = omega arith

listed_features-Short :
    (str : Bytes) (fs : List Bytes) → length str < 502 → ReturnsShort (listed_features str fs)
listed_features-Short str [] h = omega arith
listed_features-Short str (f ∷ fs) h =
    let room : ltb (length str + 10) 512 ≡ true = ground arith in
    rw room (
      add_features-Short true (str ++ codes "&features=") (f ∷ fs)
        (omega (arith, length-append str (codes "&features="))))

module_cpblt-Short :
    (ns name rev : Bytes) (fs : List Bytes)
    → length ns < 160
    → length name < 160
    → length rev < 160
    → ReturnsShort (module_cpblt ns name rev fs)
unfolding module_cpblt
module_cpblt-Short ns name rev fs a b c =
    let str = ns ++ (codes "?module=" ++ (name ++ with_rev rev)) in
    let bound : length str < 502 = omega (
      arith,
      length-append ns (codes "?module=" ++ (name ++ with_rev rev)),
      length-append (codes "?module=") (name ++ with_rev rev),
      length-append name (with_rev rev),
      length-with_rev rev,
    ) in
    let room : ltb (length str) 512 ≡ true = ground arith in
    rw room (listed_features-Short str fs bound)

put_cpblt-Short :
    (c : Done Bytes) (r : Done (List Bytes))
    → ReturnsShort c
    → AllShort r
    → AllShort (put_cpblt c r)
put_cpblt-Short undefined r h k = h
put_cpblt-Short (done c) undefined h k = k
put_cpblt-Short (done c) (done cs) h k = (h, k)

pub nothing-ShortSeen : ShortSeen nothing_seen
nothing-ShortSeen = record { ns = tt; name = tt; rev = tt }

abbrev ShortThree : Option (Bytes × Bytes × Bytes) → Type 0
ShortThree none = Unit {0}
ShortThree (some (a, b, c)) = (length a < 160) × (length b < 160) × (length c < 160)

all_three-Short :
    (a b c : Option Bytes)
    → ShortOption a
    → ShortOption b
    → ShortOption c
    → ShortThree (all_three a b c)
all_three-Short (some a) (some b) (some c) h k l = (h, k, l)
all_three-Short (some a) (some b) none h k l = tt
all_three-Short (some a) none c h k l = tt
all_three-Short none b c h k l = tt

pub module_cpblts-Short :
    (s : Seen) (children : List Child)
    → ShortSeen s
    → All ShortChild children
    → AllShort (module_cpblts s children)
unfolding module_cpblts
module_cpblts-Short s [] h a = tt
module_cpblts-Short s (other_child ∷ rest) h a = module_cpblts-Short s rest h a.1
module_cpblts-Short s (yang_module leaves ∷ rest) h a =
    let seen = see-ShortSeen s leaves h a.0 in
    of_three (complete (see s leaves)) (all_three-Short _ _ _ (seen.ns) (seen.name) (seen.rev))
      (module_cpblts-Short (see s leaves) rest seen a.1)
      (module_cpblts-Short nothing_seen rest nothing-ShortSeen a.1)
  where
    of_three :
        (o : Option (Bytes × Bytes × Bytes))
        → ShortThree o
        → AllShort (module_cpblts (see s leaves) rest)
        → AllShort (module_cpblts nothing_seen rest)
        → AllShort (elim o [
          | none ↦ module_cpblts (see s leaves) rest
          | some (ns, name, rev) ↦
              put_cpblt
                (module_cpblt ns name rev (see s leaves).features)
                (module_cpblts nothing_seen rest)
        ])
    of_three none t x y = x
    of_three (some (ns, name, rev)) t x y =
        put_cpblt-Short (module_cpblt ns name rev (see s leaves).features)
          (module_cpblts nothing_seen rest)
          (module_cpblt-Short ns name rev (see s leaves).features t.0 t.1 t.2) y
