-- ===== src/Examples/Advertising.antt =====
-- The capabilities of a server, and the theorems about them.
use libnetconf.Common.{◌≡◌, refl, false, All, List, [], ◌∷◌, some, arith, true}
use libnetconf.Common.Bytes.{Bytes, codes, bytes_eq}
use libnetconf.Session.{version_11}
use libnetconf.Session.Xml.{Elem, elem, nil, cons}
use libnetconf.Server.Poll.{done}
use libnetconf.Io.Message.{ns_base}
use libnetconf.Hello.{base_10, base_11, is_base, parse_cpblts}
use libnetconf.Hello.Versions.{capabilities, all_capability}
use libnetconf.Hello.Advertised.{
  CapabOpts, YangCtx, Child, yang_module, netconf_cpblts, wd_cpblts, notif_cpblts, see,
  module_cpblt, module_cpblts, nc_server_get_cpblts,
}
use libnetconf.Hello.Advertised.Agreed.{parse_cpblts-nc_server_get_cpblts}
use libnetconf.Hello.Advertised.Fixed.{nc_server_get_cpblts-Short}
use libnetconf.Hello.Advertised.Bounded.{Short}

abbrev no_defaults : CapabOpts
no_defaults = record { wd_basic_mode = 1; wd_also_supported = 0; interleave_capab = false }

abbrev one_module : List Child
one_module =
    yang_module
      ((codes "name", codes "m") ∷ (codes "revision", []) ∷ (codes "namespace", codes "urn:m") ∷ [])
    ∷ []

-- A context without the modules that stand for capabilities.
abbrev small_ctx : YangCtx
small_ctx = record { has_module = λ m. false; feature = λ m f. false; yanglib = some one_module }

abbrev advertised : List Bytes
advertised = base_10 ∷ base_11 ∷ codes "urn:m?module=m" ∷ []

small_cpblts : nc_server_get_cpblts no_defaults (some small_ctx) ≡ done (some advertised)
unfolding nc_server_get_cpblts netconf_cpblts wd_cpblts notif_cpblts module_cpblts see module_cpblt
    bytes_eq
small_cpblts = refl

abbrev cpblt : Bytes → Elem
cpblt c = elem (codes "capability") (some ns_base) [] c nil

abbrev hello_cpblts : Elem
hello_cpblts =
    elem (codes "capabilities") (some ns_base) [] []
      (cons (cpblt base_10) (cons (cpblt base_11) (cons (cpblt (codes "urn:m?module=m")) nil)))

hello_capabilities :
    all_capability
      (cons (cpblt base_10) (cons (cpblt base_11) (cons (cpblt (codes "urn:m?module=m")) nil)))
    ≡ true
unfolding is_base bytes_eq
hello_capabilities = refl

hello_advertises :
    capabilities
      (cons (cpblt base_10) (cons (cpblt base_11) (cons (cpblt (codes "urn:m?module=m")) nil)))
    ≡ advertised
unfolding is_base bytes_eq
hello_advertises = refl

parse_cpblts-nc_server_get_cpblts_example :
    parse_cpblts hello_cpblts ≡ (advertised, some version_11)
parse_cpblts-nc_server_get_cpblts_example =
    parse_cpblts-nc_server_get_cpblts no_defaults (some small_ctx) advertised hello_cpblts
      small_cpblts hello_capabilities hello_advertises

nc_server_get_cpblts-Short_example :
    (cs : List Bytes) × (nc_server_get_cpblts no_defaults (some small_ctx) ≡ done (some cs))
    × All Short cs
nc_server_get_cpblts-Short_example =
    nc_server_get_cpblts-Short no_defaults small_ctx one_module refl
      ((omega arith, (omega arith, (omega arith, tt))), tt)
