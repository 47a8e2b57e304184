-- ===== src/Server/Options/Deleted.antt =====
-- Deleting several keys, or all endpoints of a transport.

use mathlib.Core.List.Permᴰ
use libnetconf.Common.{
  ◌≡◌, ◌≢◌, refl, true, false, List, [], ◌∷◌, ◌++◌, All, Option, none, some, inl, inr, ◌⊎◌,
}
use libnetconf.Common.Bytes.{Bytes}
use libnetconf.Session.{TransportImpl, ti_none, ti_fd, ti_libssh, ti_openssl}
use libnetconf.Server.Swap.Kept.{Is, TakenOut, any, swap_remove-TakenOut, non_empty}
use libnetconf.Server.Swap.Skipped.{swap_remove_keeps}
use libnetconf.Server.Endpoints.{Authkey, Endpt, removes, nc_server_del_endpt}
use libnetconf.Server.Options.Ssh.{is_key, any_key, del_keys}

all_keys : (ks : List Authkey) → All (Is (is_key none none)) ks
unfolding is_key
all_keys [] = tt
all_keys (k ∷ ks) = (refl, all_keys ks)

any_key-any :
    (ks : List Authkey) → (any_key ks ≡ non_empty ks) × (any_key ks ≡ any (is_key none none) ks)
unfolding is_key
any_key-any [] = (refl, refl)
any_key-any (k ∷ ks) = (refl, refl)

-- nc_server_ssh_del_authkey takes out only keys of the path and the user name that are asked for
-- (NULL asks for any), the others stay in some order, and its result is 0 exactly when a key was
-- asked for.
pub del_keys-TakenOut :
    (path username : Option Bytes) (ks : List Authkey)
    → TakenOut (is_key path username) ks (del_keys path username ks)
      × ((del_keys path username ks).1 ≡ any (is_key path username) ks)
unfolding del_keys
del_keys-TakenOut none none ks =
    ((ks, Permᴰ.refl ks, all_keys ks, (any_key-any ks).0), (any_key-any ks).1)
del_keys-TakenOut none (some username) ks =
    swap_remove-TakenOut (is_key none (some username)) false ks
del_keys-TakenOut (some path) username ks =
    swap_remove-TakenOut (is_key (some path) username) false ks

-- Where a path or a user name is given and the first key is to be deleted, the last of two or more
-- keys is kept, even if it is to be deleted too.
pub del_keys_keeps :
    (path username : Option Bytes) (k : Authkey) (ks : List Authkey) (l : Authkey)
    → (path ≢ none) ⊎ (username ≢ none)
    → is_key path username k ≡ true
    → (rest : List Authkey) × (del_keys path username (k ∷ (ks ++ (l ∷ []))) ≡ (l ∷ rest, true))
unfolding del_keys
del_keys_keeps none none k ks l (inl h) e = absurd (h refl)
del_keys_keeps none none k ks l (inr h) e = absurd (h refl)
del_keys_keeps none (some username) k ks l h e =
    swap_remove_keeps (is_key none (some username)) k ks l e
del_keys_keeps (some path) username k ks l h e =
    swap_remove_keeps (is_key (some path) username) k ks l e

-- Without a name, where the first endpoint is of the transport, the last of two or more endpoints
-- is kept, even if it is of that transport too.
pub nc_server_del_endpt_keeps :
    (ti : TransportImpl) (e : Endpt) (es : List Endpt) (l : Endpt)
    → ti ≢ ti_none
    → e.ti ≡ ti
    → (rest : List Endpt) × (nc_server_del_endpt none ti (e ∷ (es ++ (l ∷ []))) ≡ (l ∷ rest, true))
unfolding nc_server_del_endpt
nc_server_del_endpt_keeps ti_none e es l h k = absurd (h refl)
nc_server_del_endpt_keeps ti_fd e es l h k = swap_remove_keeps (removes none ti_fd) e es l (rw k)
nc_server_del_endpt_keeps ti_libssh e es l h k =
    swap_remove_keeps (removes none ti_libssh) e es l (rw k)
nc_server_del_endpt_keeps ti_openssl e es l h k =
    swap_remove_keeps (removes none ti_openssl) e es l (rw k)
