-- ===== src/Hello/Advertised/Fixed.antt =====
-- The capabilities that are no modules, and the whole list, in the buffer of 512 bytes of
-- nc_server_get_cpblts.
use libnetconf.Common.{
  ℕ, ◌+◌, ◌<◌, ◌≤◌, ◌≡◌, refl, sym, subst, inl, inr, Bool, true, false, ◌&&◌, not, ltb, ◌==◌, List,
  [], ◌∷◌, ◌++◌, All, All-append, some, arith, Bool-cases, length, length-append, if◌then◌else◌,
}
use libnetconf.Common.Bytes.{Bytes, codes, bytes_eq}
use libnetconf.Server.Poll.{Done, done, undefined}
use libnetconf.Hello.{base_10, base_11}
use libnetconf.Hello.Advertised.{
  CapabOpts, YangCtx, Child, yang_module, bit, capability, given, basic_text, also_text, but_last,
  text_if, nc_server_set_capab_withdefaults, netconf_cpblts, wd_cpblts, notif_cpblts, nothing_seen,
  see, with_rev, module_cpblt, module_cpblts, all_cpblts, of_yanglib, nc_server_get_cpblts,
}
use libnetconf.Hello.Advertised.Bounded.{
  Short, ShortChild, AllShort, module_cpblts-Short, nothing-ShortSeen,
}

given-Short : (b : Bool) (c : Bytes) → length c < 400 → All Short (given b c)
given-Short true c h =
    (omega (arith, length-append (codes "urn:ietf:params:netconf:capability:") c), tt)
given-Short false c h = tt

netconf_cpblts-Short : (ctx : YangCtx) → All Short (netconf_cpblts ctx)
unfolding netconf_cpblts
netconf_cpblts-Short ctx = elim (Bool-cases (ctx.has_module (codes "ietf-netconf"))) [
  | inr b ↦ rw b tt
  | inl b ↦
      let on : Bytes → Bool = ctx.feature (codes "ietf-netconf") in
      rw b (
        All-append Short (given (on (codes "writable-running")) (codes "writable-running:1.0")) _
          (given-Short _ _ (omega arith))
          (All-append Short (given (on (codes "candidate")) (codes "candidate:1.0")) _
            (given-Short _ _ (omega arith))
            (All-append Short
              (given (on (codes "candidate") && on (codes "confirmed-commit"))
                (codes "confirmed-commit:1.1"))
              _ (given-Short _ _ (omega arith))
              (All-append Short
                (given (on (codes "rollback-on-error")) (codes "rollback-on-error:1.0")) _
                (given-Short _ _ (omega arith))
                (All-append Short (given (on (codes "validate")) (codes "validate:1.1")) _
                  (given-Short _ _ (omega arith))
                  (All-append Short (given (on (codes "startup")) (codes "startup:1.0")) _
                    (given-Short _ _ (omega arith))
                    (All-append Short (given (on (codes "url")) (codes "url:1.0")) _
                      (given-Short _ _ (omega arith))
                      (given-Short (on (codes "xpath")) (codes "xpath:1.0") (omega arith)))))))))
]

length-but_last : (s : Bytes) → length (but_last s) ≤ length s
unfolding but_last
length-but_last [] = omega arith
length-but_last (c ∷ []) = omega arith
length-but_last (c ∷ d ∷ cs) = omega (arith, length-but_last (d ∷ cs))

length-if : (b : Bool) (t : Bytes) → length (text_if b t) ≤ length t
length-if true t = omega arith
length-if false t = omega arith

length-also_text : (m : ℕ) → length (also_text m) ≤ 60
length-also_text m =
    let a = text_if (bit 1 m) (codes "report-all,") in
    let b = text_if (bit 2 m) (codes "report-all-tagged,") in
    let c = text_if (bit 4 m) (codes "trim,") in
    let d = text_if (bit 8 m) (codes "explicit,") in
    omega (
      arith,
      length-append a (b ++ (c ++ d)),
      length-append b (c ++ d),
      length-append c d,
      length-if (bit 1 m) (codes "report-all,"),
      length-if (bit 2 m) (codes "report-all-tagged,"),
      length-if (bit 4 m) (codes "trim,"),
      length-if (bit 8 m) (codes "explicit,"),
    )

length-choice :
    (b : Bool) (t u : Bytes) → length t ≤ 40 → length u ≤ 40 → length (if b then t else u) ≤ 40
length-choice true t u h k = h
length-choice false t u h k = k

length-basic_text : (m : ℕ) → length (basic_text m) ≤ 40
length-basic_text m = length-choice (m == 1) (codes "?basic-mode=report-all") _ (omega arith) (
    length-choice (m == 4) (codes "?basic-mode=trim") _ (omega arith)
      (length-choice (m == 8) (codes "?basic-mode=explicit") [] (omega arith) (omega arith)))

wd_text-Short :
    (m n : ℕ)
    → Short (
        but_last (
          capability (codes "with-defaults:1.0")
          ++ (basic_text m ++ (codes "&also-supported=" ++ also_text n))))
wd_text-Short m n =
    let rest = basic_text m ++ (codes "&also-supported=" ++ also_text n) in
    omega (
      arith,
      length-but_last (capability (codes "with-defaults:1.0") ++ rest),
      length-append (capability (codes "with-defaults:1.0")) rest,
      length-append (basic_text m) (codes "&also-supported=" ++ also_text n),
      length-append (codes "&also-supported=") (also_text n),
      length-basic_text m,
      length-also_text n,
    )

if-Short :
    (b : Bool) (xs ys : List Bytes) → All Short xs → All Short ys → All Short (if b then xs else ys)
if-Short true xs ys h k = h
if-Short false xs ys h k = k

wd_cpblts-Short : (ctx : YangCtx) (o : CapabOpts) → All Short (wd_cpblts ctx o)
unfolding wd_cpblts
wd_cpblts-Short ctx o =
    if-Short (ctx.has_module (codes "ietf-netconf-with-defaults") && not (o.wd_basic_mode == 0)) _
      []
      (if-Short (o.wd_also_supported == 0) [] _ tt
        (wd_text-Short o.wd_basic_mode o.wd_also_supported, tt))
      tt

notif_cpblts-Short : (ctx : YangCtx) (o : CapabOpts) → All Short (notif_cpblts ctx o)
unfolding notif_cpblts
notif_cpblts-Short ctx o =
    if-Short (ctx.has_module (codes "nc-notifications")) _ []
      (All-append Short (given true (codes "notification:1.0"))
        (given o.interleave_capab (codes "interleave:1.0"))
        (given-Short true (codes "notification:1.0") (omega arith))
        (given-Short o.interleave_capab (codes "interleave:1.0") (omega arith)))
      tt

all_cpblts-Short :
    (before : List Bytes) (r : Done (List Bytes))
    → All Short before
    → AllShort r
    → (cs : List Bytes) × (all_cpblts before r ≡ done (some cs)) × All Short cs
all_cpblts-Short before undefined h k = absurd k
all_cpblts-Short before (done cs) h k = (before ++ cs, refl, All-append Short before cs h k)

-- Where ietf-yang-library has no value of 160 bytes or more in a module, nc_server_get_cpblts does
-- not write beyond its buffer of 512 bytes, and gives capabilities that are shorter than that.
pub nc_server_get_cpblts-Short :
    (o : CapabOpts) (ctx : YangCtx) (children : List Child)
    → ctx.yanglib ≡ some children
    → All ShortChild children
    → (cs : List Bytes) × (nc_server_get_cpblts o (some ctx) ≡ done (some cs)) × All Short cs
unfolding nc_server_get_cpblts
nc_server_get_cpblts-Short o ctx children e a =
    let rest =
      All-append Short (wd_cpblts ctx o) (notif_cpblts ctx o) (wd_cpblts-Short ctx o)
        (notif_cpblts-Short ctx o) in
    let before =
      All-append Short (netconf_cpblts ctx) (wd_cpblts ctx o ++ notif_cpblts ctx o)
        (netconf_cpblts-Short ctx) rest in
    subst (λ y. (cs : List Bytes) × (of_yanglib o ctx y ≡ done (some cs)) × All Short cs) (sym e)
      (all_cpblts-Short
        (base_10 ∷ base_11 ∷ (netconf_cpblts ctx ++ (wd_cpblts ctx o ++ notif_cpblts ctx o)))
        (module_cpblts nothing_seen children) (omega arith, (omega arith, before))
        (module_cpblts-Short nothing_seen children nothing-ShortSeen a))

-- Where the first module of ietf-yang-library has a namespace and a name that need 504 bytes or
-- more, nc_server_get_cpblts writes beyond its buffer.
pub nc_server_get_cpblts_overruns :
    (o : CapabOpts) (ctx : YangCtx) (ns name rev : Bytes) (rest : List Child)
    → ctx.yanglib
      ≡ some (
          yang_module
            ((codes "name", name) ∷ (codes "revision", rev) ∷ (codes "namespace", ns) ∷ [])
          ∷ rest)
    → 504 ≤ length ns + length name
    → nc_server_get_cpblts o (some ctx) ≡ undefined
unfolding nc_server_get_cpblts module_cpblts module_cpblt see bytes_eq
nc_server_get_cpblts_overruns o ctx ns name rev rest e h =
    let over : ltb (length (ns ++ (codes "?module=" ++ (name ++ with_rev rev)))) 512 ≡ false =
      ground (
        arith,
        length-append ns (codes "?module=" ++ (name ++ with_rev rev)),
        length-append name (with_rev rev),
      ) in
    rw (e, over) refl

-- After a basic mode alone was set, which nc_server_set_capab_withdefaults accepts, no
-- with-defaults capability is advertised, whatever the context.
wd_cpblts-nc_server_set_capab_withdefaults :
    (ctx : YangCtx) (basic : ℕ) (o o' : CapabOpts)
    → nc_server_set_capab_withdefaults basic 0 o ≡ (o', true)
    → wd_cpblts ctx o' ≡ []
unfolding wd_cpblts nc_server_set_capab_withdefaults
wd_cpblts-nc_server_set_capab_withdefaults ctx basic o o' h = ground arith
