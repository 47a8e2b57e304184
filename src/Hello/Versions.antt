-- ===== src/Hello/Versions.antt =====
-- Which version parse_cpblts chooses.
use libnetconf.Common.{
  ◌≡◌, inl, inr, refl, sym, ◌∙◌, ap, Bool, true, false, List, [], ◌∷◌, ◌++◌, append-nil,
  append_assoc, Option, none, some, ◌||◌, ◌&&◌, if◌then◌else◌, arith, Bool-cases,
}
use libnetconf.Common.Bytes.{Bytes, codes, bytes_eq, bytes_eq→eq}
use libnetconf.Session.{Version, version_10, version_11}
use libnetconf.Session.Xml.{Elem, Elems, nil, cons, name_of, content_of, children_of}
use libnetconf.Hello.{is_base, base_10, base_11, detect, cpblts_loop, parse_cpblts}

-- The capabilities: the contents of the children in the base namespace.
abbrev pub capabilities : Elems → List Bytes
capabilities nil = []
capabilities (cons x rest) =
    let more = capabilities rest in if is_base x then content_of x ∷ more else more

abbrev pub offers : Bytes → List Bytes → Bool
offers b [] = false
offers b (c ∷ cs) = bytes_eq c b || offers b cs

-- The highest version offered.
abbrev pub highest : List Bytes → Option Version
highest cs =
    if offers base_11 cs
    then some version_11
    else (if offers base_10 cs then some version_10 else none)

-- No child in the base namespace has another name than <capability>.
abbrev pub all_capability : Elems → Bool
all_capability nil = true
all_capability (cons x rest) =
    let more = all_capability rest in
    if is_base x then bytes_eq (name_of x) (codes "capability") && more else more

-- The higher of a version and those offered.
abbrev best : Option Version → List Bytes → Option Version
best (some version_11) cs = some version_11
best (some version_10) cs = if offers base_11 cs then some version_11 else some version_10
best none cs = highest cs

bases_differ : (c : Bytes) → bytes_eq c base_11 ≡ true → bytes_eq c base_10 ≡ false
unfolding bytes_eq
bases_differ c h = ap (λ x. bytes_eq x base_10) (bytes_eq→eq c base_11 h)

best-detect :
    (ver : Option Version) (c : Bytes) (cs : List Bytes)
    → best (detect ver c) cs ≡ best ver (c ∷ cs)
unfolding detect
best-detect none c cs = ground (arith, bases_differ c)
best-detect (some version_10) c cs = ground (arith, bases_differ c)
best-detect (some version_11) c cs = ground (arith, bases_differ c)

best-nil : (ver : Option Version) → best ver [] ≡ ver
best-nil none = refl
best-nil (some version_10) = refl
best-nil (some version_11) = refl

cpblts_loop-capability :
    (x : Elem) (rest : Elems) (ver : Option Version) (list : List Bytes)
    → is_base x ≡ true
    → bytes_eq (name_of x) (codes "capability") ≡ true
    → cpblts_loop (cons x rest) ver list
      ≡ cpblts_loop rest (detect ver (content_of x)) (list ++ (content_of x ∷ []))
unfolding cpblts_loop
cpblts_loop-capability x rest ver list b c = rw (b, c, cpblts_loop) refl

cpblts_loop-best :
    (xs : Elems) (ver : Option Version) (list : List Bytes)
    → all_capability xs ≡ true
    → cpblts_loop xs ver list ≡ (list ++ capabilities xs, best ver (capabilities xs))
unfolding cpblts_loop
cpblts_loop-best nil ver list h =
    ap {B = List Bytes × Option Version} (λ l. (l, ver)) (sym (append-nil list))
    ∙ ap {B = List Bytes × Option Version} (λ v. (list ++ [], v)) (sym (best-nil ver))
cpblts_loop-best (cons x rest) ver list h = elim (Bool-cases (is_base x)) [
  | inl b ↦ elim (Bool-cases (bytes_eq (name_of x) (codes "capability"))) [
    | inl c ↦
        let tail : all_capability rest ≡ true = ground arith in
        let more =
          cpblts_loop-best rest (detect ver (content_of x)) (list ++ (content_of x ∷ [])) tail in
        cpblts_loop-capability x rest ver list b c
        ∙ (more ∙ (λ i. (
          append_assoc list (content_of x ∷ []) (capabilities rest) i,
          best-detect ver (content_of x) (capabilities rest) i,
        )))
        ∙ sym (rw b refl)
    | inr c ↦ absurd (ground arith)
  ]
  | inr b ↦
      let tail : all_capability rest ≡ true = ground arith in
      let skip : cpblts_loop (cons x rest) ver list ≡ cpblts_loop rest ver list =
        rw (b, cpblts_loop) refl in
      let none_here : capabilities (cons x rest) ≡ capabilities rest = rw b refl in
      skip
      ∙ cpblts_loop-best rest ver list tail
      ∙ (λ i. (list ++ sym none_here i, best ver (sym none_here i)))
]

-- parse_cpblts stores the capabilities and chooses the highest version that is among them; where
-- there is none, it fails. This holds if the children in the base namespace are <capability>
-- elements.
pub parse_cpblts-highest :
    (x : Elem)
    → all_capability (children_of x) ≡ true
    → parse_cpblts x ≡ (capabilities (children_of x), highest (capabilities (children_of x)))
unfolding parse_cpblts
parse_cpblts-highest x h = cpblts_loop-best (children_of x) none [] h
