-- ===== src/Server/Certs.antt =====
-- The cert-to-name list of src/session_server_tls.c: `struct nc_ctn`, nc_server_tls_add_ctn and
-- nc_server_tls_del_ctn. A `const char *` that is NULL is `none`. Allocation succeeds.
pub mod Sorted
pub mod Removed
pub mod Names
pub mod Users
use libnetconf.Common.{
  ℕ, Bool, true, false, ◌&&◌, ltb, leb, ◌==◌, if◌then◌else◌, List, [], ◌∷◌, ◌++◌, Option, none,
  some,
}
use libnetconf.Common.Bytes.{Bytes, bytes_eq}

-- NC_TLS_CTN_MAPTYPE, `unknown` being 0.
pub data MapType : Type 0 where
  unknown : MapType
  specified : MapType
  san_rfc822_name : MapType
  san_dns_name : MapType
  san_ip_address : MapType
  san_any : MapType
  common_name : MapType

pub record Ctn : Type 0 where
  pub id : ℕ
  pub fingerprint : Bytes
  pub map_type : MapType
  pub name : Option Bytes

abbrev pub map_type_code : MapType → ℕ
map_type_code unknown = 0
map_type_code specified = 1
map_type_code san_rfc822_name = 2
map_type_code san_dns_name = 3
map_type_code san_ip_address = 4
map_type_code san_any = 5
map_type_code common_name = 6

abbrev pub map_type_eq : MapType → MapType → Bool
map_type_eq m m' = map_type_code m == map_type_code m'

-- Exactly NC_TLS_CTN_SPECIFIED comes with a name, and no mapping is 0.
abbrev pub fits_name : MapType → Option Bytes → Bool
fits_name unknown name = false
fits_name specified none = false
fits_name specified (some n) = true
fits_name m none = true
fits_name m (some n) = false

-- The loop of nc_server_tls_add_ctn: `ctn`, and what `ctn->next` leads to.
unfoldable pub insert_after : Ctn → Ctn → List Ctn → List Ctn
insert_after new ctn [] = ctn ∷ new ∷ []
insert_after new ctn (next ∷ rest) =
    let further = ctn ∷ insert_after new next rest in
    if leb next.id new.id then further else ctn ∷ new ∷ next ∷ rest

unfoldable pub insert_ctn : Ctn → List Ctn → List Ctn
insert_ctn new [] = new ∷ []
insert_ctn new (first ∷ rest) =
    if ltb new.id first.id then new ∷ first ∷ rest else insert_after new first rest

-- The list, and whether the result is 0.
unfoldable pub nc_server_tls_add_ctn :
    ℕ → Option Bytes → MapType → Option Bytes → List Ctn → List Ctn × Bool
nc_server_tls_add_ctn id none map_type name ctns = (ctns, false)
nc_server_tls_add_ctn id (some fingerprint) map_type name ctns =
    if fits_name map_type name
    then (
      insert_ctn (record { id = id; fingerprint = fingerprint; map_type = map_type; name = name })
          ctns,
      true,
    )
    else (ctns, false)

-- What nc_server_tls_del_ctn is asked for; an `id` of `none` is a negative one.
pub record Wanted : Type 0 where
  pub id : Option ℕ
  pub fingerprint : Option Bytes
  pub map_type : MapType
  pub name : Option Bytes

abbrev pub id_fits : Option ℕ → ℕ → Bool
id_fits none id = true
id_fits (some i) id = id == i

abbrev pub fingerprint_fits : Option Bytes → Bytes → Bool
fingerprint_fits none f = true
fingerprint_fits (some g) f = bytes_eq f g

abbrev pub map_type_fits : MapType → MapType → Bool
map_type_fits unknown m = true
map_type_fits want m = map_type_eq m want

abbrev pub name_fits : Option Bytes → Option Bytes → Bool
name_fits none n = true
name_fits (some want) none = false
name_fits (some want) (some n) = bytes_eq n want

unfoldable pub is_wanted : Wanted → Ctn → Bool
is_wanted w c =
    id_fits w.id c.id
    && (fingerprint_fits w.fingerprint c.fingerprint
        && (map_type_fits w.map_type c.map_type && name_fits w.name c.name))

abbrev pub is_any : Option ℕ → Option Bytes → MapType → Option Bytes → Bool
is_any none none unknown none = true
is_any _ _ _ _ = false

-- The first loop: whether `ret` became 0.
abbrev pub free_all : List Ctn → Bool
free_all [] = false
free_all (c ∷ cs) = true

-- The second loop, with the entries up to `prev`: the list, and whether `ret` became 0.
unfoldable pub del_loop : Wanted → List Ctn → List Ctn → Bool → List Ctn × Bool
del_loop w before [] ret = (before, ret)
del_loop w before (ctn ∷ rest) ret = elim (is_wanted w ctn) [
  | true ↦ del_loop w before rest true
  | false ↦ del_loop w (before ++ (ctn ∷ [])) rest ret
]

-- The list, and whether the result is 0.
unfoldable pub nc_server_tls_del_ctn : Wanted → List Ctn → List Ctn × Bool
nc_server_tls_del_ctn w ctns =
    if is_any w.id w.fingerprint w.map_type w.name
    then ([], free_all ctns)
    else del_loop w [] ctns false
