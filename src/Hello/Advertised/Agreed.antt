-- ===== src/Hello/Advertised/Agreed.antt =====
-- The version that a client chooses from the capabilities of a server of this library.
use libnetconf.Common.{◌≡◌, refl, ap, ◌∙◌, true, List, ◌∷◌, ◌++◌, Option, none, some}
use libnetconf.Common.Bytes.{Bytes, bytes_eq}
use libnetconf.Session.{version_11}
use libnetconf.Session.Xml.{Elem, children_of}
use libnetconf.Server.Poll.{Done, done, undefined}
use libnetconf.Hello.{base_10, base_11, parse_cpblts}
use libnetconf.Hello.Versions.{capabilities, highest, all_capability, parse_cpblts-highest}
use libnetconf.Hello.Advertised.{
  CapabOpts, YangCtx, Child, netconf_cpblts, wd_cpblts, notif_cpblts, nothing_seen, module_cpblts,
  all_cpblts, of_yanglib, nc_server_get_cpblts,
}

of_yanglib-bases :
    (o : CapabOpts) (ctx : YangCtx) (y : Option (List Child)) (cs : List Bytes)
    → of_yanglib o ctx y ≡ done (some cs)
    → (rest : List Bytes) × (cs ≡ base_10 ∷ base_11 ∷ rest)
of_yanglib-bases o ctx none cs e = cc
of_yanglib-bases o ctx (some children) cs e = with_modules (module_cpblts nothing_seen children) e
  where
    before : List Bytes
    before = netconf_cpblts ctx ++ (wd_cpblts ctx o ++ notif_cpblts ctx o)

    with_modules :
        (r : Done (List Bytes))
        → all_cpblts (base_10 ∷ base_11 ∷ before) r ≡ done (some cs)
        → (rest : List Bytes) × (cs ≡ base_10 ∷ base_11 ∷ rest)
    with_modules undefined k = cc
    with_modules (done ms) k = (before ++ ms, cc)

nc_server_get_cpblts-bases :
    (o : CapabOpts) (ctx : Option YangCtx) (cs : List Bytes)
    → nc_server_get_cpblts o ctx ≡ done (some cs)
    → (rest : List Bytes) × (cs ≡ base_10 ∷ base_11 ∷ rest)
unfolding nc_server_get_cpblts
nc_server_get_cpblts-bases o none cs e = cc
nc_server_get_cpblts-bases o (some ctx) cs e = of_yanglib-bases o ctx ctx.yanglib cs e

highest_11 : (rest : List Bytes) → highest (base_10 ∷ base_11 ∷ rest) ≡ some version_11
unfolding bytes_eq
highest_11 rest = refl

-- A client that receives the capabilities which nc_server_get_cpblts gives, as the contents of
-- <capability> elements, chooses version 1.1, whatever the server's settings and its context.
pub parse_cpblts-nc_server_get_cpblts :
    (o : CapabOpts) (ctx : Option YangCtx) (cs : List Bytes) (x : Elem)
    → nc_server_get_cpblts o ctx ≡ done (some cs)
    → all_capability (children_of x) ≡ true
    → capabilities (children_of x) ≡ cs
    → parse_cpblts x ≡ (cs, some version_11)
parse_cpblts-nc_server_get_cpblts o ctx cs x e h k =
    let (rest, f) = nc_server_get_cpblts-bases o ctx cs e in
    parse_cpblts-highest x h ∙ rw (k, f) (ap (λ v. (base_10 ∷ base_11 ∷ rest, v)) (highest_11 rest))
