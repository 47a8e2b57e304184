-- ===== src/Hello/Advertised.antt =====
-- The capabilities of a server: nc_server_get_cpblts of src/session.c, and the settings of
-- src/session_server.c that it reads. What libyang's context says is an argument: whether a
-- module is there, whether a feature of it is on, and the data of ietf-yang-library.
pub mod Bounded
pub mod Fixed
pub mod Agreed
use libnetconf.Common.{
  ℕ, ◌+◌, ◌/◌, ◌%◌, Bool, true, false, ◌&&◌, ◌||◌, not, ltb, leb, ◌==◌, if◌then◌else◌, List, [],
  ◌∷◌, ◌++◌, Option, none, some, length,
}
use libnetconf.Common.Bytes.{Bytes, codes, bytes_eq}
use libnetconf.Server.Poll.{Done, done, undefined}
use libnetconf.Hello.{base_10, base_11}

-- Of `server_opts`: NC_WD_MODE by its number, and a sum of such.
pub record CapabOpts : Type 0 where
  pub wd_basic_mode : ℕ
  pub wd_also_supported : ℕ
  pub interleave_capab : Bool

abbrev pub bit : ℕ → ℕ → Bool
bit k n = n / k % 2 == 1

-- The settings, and whether the result is 0.
unfoldable pub nc_server_set_capab_withdefaults : ℕ → ℕ → CapabOpts → CapabOpts × Bool
nc_server_set_capab_withdefaults basic also o =
    if basic == 0 || basic == 2
    then (o, false)
    else (if not (also == 0) && not (bit 1 also || (bit 2 also || (bit 4 also || bit 8 also)))
        then (o, false)
        else (record o { wd_basic_mode = basic; wd_also_supported = also }, true))

-- A <module> of ietf-yang-library by the names and values of its children, or another node.
pub data Child : Type 0 where
  yang_module : List (Bytes × Bytes) → Child
  other_child : Child

pub record YangCtx : Type 0 where
  pub has_module : Bytes → Bool
  pub feature : Bytes → Bytes → Bool
  pub yanglib : Option (List Child)

abbrev pub capability : Bytes → Bytes
capability name = codes "urn:ietf:params:netconf:capability:" ++ name

abbrev pub given : Bool → Bytes → List Bytes
given true c = capability c ∷ []
given false c = []

-- The capabilities that stand for features of ietf-netconf.
unfoldable pub netconf_cpblts : YangCtx → List Bytes
netconf_cpblts ctx =
    let on : Bytes → Bool = ctx.feature (codes "ietf-netconf") in
    if ctx.has_module (codes "ietf-netconf")
    then given (on (codes "writable-running")) (codes "writable-running:1.0")
      ++ (given (on (codes "candidate")) (codes "candidate:1.0")
          ++ (given (on (codes "candidate") && on (codes "confirmed-commit"))
                (codes "confirmed-commit:1.1")
              ++ (given (on (codes "rollback-on-error")) (codes "rollback-on-error:1.0")
                  ++ (given (on (codes "validate")) (codes "validate:1.1")
                      ++ (given (on (codes "startup")) (codes "startup:1.0")
                          ++ (given (on (codes "url")) (codes "url:1.0")
                              ++ given (on (codes "xpath")) (codes "xpath:1.0")))))))
    else []

abbrev pub basic_text : ℕ → Bytes
basic_text m =
    if m == 1
    then codes "?basic-mode=report-all"
    else (if m == 4
        then codes "?basic-mode=trim"
        else (if m == 8 then codes "?basic-mode=explicit" else []))

abbrev pub text_if : Bool → Bytes → Bytes
text_if true t = t
text_if false t = []

-- The modes, each with a comma behind it.
abbrev pub also_text : ℕ → Bytes
also_text also =
    text_if (bit 1 also) (codes "report-all,")
    ++ (text_if (bit 2 also) (codes "report-all-tagged,")
        ++ (text_if (bit 4 also) (codes "trim,") ++ text_if (bit 8 also) (codes "explicit,")))

-- `str[strlen(str) - 1] = '\\0'`.
unfoldable pub but_last : Bytes → Bytes
but_last [] = []
but_last (c ∷ []) = []
but_last (c ∷ d ∷ cs) = c ∷ but_last (d ∷ cs)

unfoldable pub wd_cpblts : YangCtx → CapabOpts → List Bytes
wd_cpblts ctx o =
    if ctx.has_module (codes "ietf-netconf-with-defaults") && not (o.wd_basic_mode == 0)
    then (if o.wd_also_supported == 0
        then []
        else but_last (
            capability (codes "with-defaults:1.0")
            ++ (basic_text o.wd_basic_mode
                ++ (codes "&also-supported=" ++ also_text o.wd_also_supported)))
          ∷ [])
    else []

unfoldable pub notif_cpblts : YangCtx → CapabOpts → List Bytes
notif_cpblts ctx o =
    if ctx.has_module (codes "nc-notifications")
    then given true (codes "notification:1.0") ++ given o.interleave_capab (codes "interleave:1.0")
    else []

-- The variables `ns`, `name`, `rev` and `features`, which a module without one of the first three
-- leaves to the next.
pub record Seen : Type 0 where
  pub ns : Option Bytes
  pub name : Option Bytes
  pub rev : Option Bytes
  pub features : List Bytes

abbrev pub nothing_seen : Seen
nothing_seen = record { ns = none; name = none; rev = none; features = [] }

abbrev pub see_leaf : Seen → Bytes → Bytes → Seen
see_leaf s n v =
    if bytes_eq n (codes "namespace")
    then record s { ns = some v }
    else (if bytes_eq n (codes "name")
        then record s { name = some v }
        else (if bytes_eq n (codes "revision")
            then record s { rev = some v }
            else (if bytes_eq n (codes "feature")
                then record s { features = s.features ++ (v ∷ []) }
                else s)))

unfoldable pub see : Seen → List (Bytes × Bytes) → Seen
see s [] = s
see s ((n, v) ∷ rest) = see (see_leaf s n v) rest

abbrev pub with_rev : Bytes → Bytes
with_rev [] = []
with_rev (c ∷ cs) = codes "&revision=" ++ (c ∷ cs)

-- The loop over the features, behind a text: it ends where the next one would not fit the 512 bytes
-- of `str`.
unfoldable pub add_features : Bool → Bytes → List Bytes → Bytes
add_features first str [] = str
add_features first str (f ∷ fs) =
    let str' = str ++ (text_if (not first) (codes ",") ++ f) in
    let more = add_features false str' fs in
    if leb 512 (length str + 1 + length f) then str else more

abbrev pub listed_features : Bytes → List Bytes → Done Bytes
listed_features str [] = done str
listed_features str (f ∷ fs) =
    if ltb (length str + 10) 512
    then done (add_features true (str ++ codes "&features=") (f ∷ fs))
    else undefined

-- The capability of a module; it is undefined behaviour to write beyond the 512 bytes.
unfoldable pub module_cpblt : Bytes → Bytes → Bytes → List Bytes → Done Bytes
module_cpblt ns name rev features =
    let str = ns ++ (codes "?module=" ++ (name ++ with_rev rev)) in
    if ltb (length str) 512 then listed_features str features else undefined

abbrev pub put_cpblt : Done Bytes → Done (List Bytes) → Done (List Bytes)
put_cpblt undefined rest = undefined
put_cpblt (done c) undefined = undefined
put_cpblt (done c) (done cs) = done (c ∷ cs)

abbrev pub all_three : Option Bytes → Option Bytes → Option Bytes → Option (Bytes × Bytes × Bytes)
all_three (some a) (some b) (some c) = some (a, b, c)
all_three (some a) (some b) none = none
all_three (some a) none c = none
all_three none b c = none

abbrev pub complete : Seen → Option (Bytes × Bytes × Bytes)
complete s = all_three s.ns s.name s.rev

unfoldable pub module_cpblts : Seen → List Child → Done (List Bytes)
module_cpblts seen [] = done []
module_cpblts seen (other_child ∷ rest) = module_cpblts seen rest
module_cpblts seen (yang_module leaves ∷ rest) =
    let s = see seen leaves in
    elim (complete s) [
      | none ↦ module_cpblts s rest
      | some (ns, name, rev) ↦
          put_cpblt (module_cpblt ns name rev s.features) (module_cpblts nothing_seen rest)
    ]

abbrev pub all_cpblts : List Bytes → Done (List Bytes) → Done (Option (List Bytes))
all_cpblts before undefined = undefined
all_cpblts before (done cs) = done (some (before ++ cs))

abbrev pub of_yanglib : CapabOpts → YangCtx → Option (List Child) → Done (Option (List Bytes))
of_yanglib o ctx none = done none
of_yanglib o ctx (some children) =
    all_cpblts (base_10 ∷ base_11 ∷ (netconf_cpblts ctx ++ (wd_cpblts ctx o ++ notif_cpblts ctx o)))
      (module_cpblts nothing_seen children)

-- The texts before the final NULL; `none` is the result NULL.
unfoldable pub nc_server_get_cpblts : CapabOpts → Option YangCtx → Done (Option (List Bytes))
nc_server_get_cpblts o none = done none
nc_server_get_cpblts o (some ctx) = of_yanglib o ctx ctx.yanglib
