-- ===== src/Server/Endpoints.antt =====
-- The endpoints of a server: nc_server_endpt_lock, nc_server_add_endpt_listen,
-- nc_server_endpt_set_address_port and nc_server_del_endpt of src/session_server.c. The arrays
-- `endpts` and `binds`, of one length, are one list. What nc_sock_listen returns is an argument,
-- `none` being -1. A name is a text, `none` where it is NULL. Allocation succeeds.
pub mod Keyed
pub mod Table
pub mod Deleted
use libnetconf.Common.{
  ℕ, ◌+◌, ◌%◌, ◌^◌, Bool, true, false, ◌&&◌, ◌||◌, not, ◌==◌, if◌then◌else◌, List, [], ◌∷◌, ◌++◌,
  Option, none, some, length,
}
use libnetconf.Common.Bytes.{Bytes, bytes_eq}
use libnetconf.Session.{TransportImpl, ti_none, ti_fd, ti_libssh, ti_openssl}
use libnetconf.Server.Poll.{Done, done, undefined}
use libnetconf.Server.Certs.{Ctn}
use libnetconf.Server.Swap.{swap_remove}

pub record Authkey : Type 0 where
  pub path : Bytes
  pub username : Bytes

-- `struct nc_server_ssh_opts`; `sshbind` is the number of a bind object of libssh.
pub record SshOpts : Type 0 where
  pub sshbind : Option ℕ
  pub authkeys : List Authkey
  pub auth_methods : ℕ
  pub auth_attempts : ℕ
  pub auth_timeout : ℕ

-- A TLS context of OpenSSL, and whether it verifies that the client has a certificate.
pub record SslCtx : Type 0 where
  pub handle : ℕ
  pub verifies : Bool

-- `struct nc_server_tls_opts`; `crl_store` is the number of a store of OpenSSL.
pub record TlsOpts : Type 0 where
  pub tls_ctx : Option SslCtx
  pub crl_store : Option ℕ
  pub ctn : List Ctn

-- What the `void *` leads to.
pub data TiOpts : Type 0 where
  ssh_opts : SshOpts → TiOpts
  tls_opts : TlsOpts → TiOpts
  no_opts : TiOpts

-- `struct nc_endpt` and `struct nc_bind` at one index.
pub record Endpt : Type 0 where
  pub name : Bytes
  pub address : Bytes
  pub port : ℕ
  pub sock : ℕ
  pub ti : TransportImpl
  pub ti_opts : TiOpts

abbrev pub ti_code : TransportImpl → ℕ
ti_code ti_none = 0
ti_code ti_fd = 1
ti_code ti_libssh = 2
ti_code ti_openssl = 3

-- The test by which an endpoint is searched for.
unfoldable pub is_endpt : Bytes → TransportImpl → Endpt → Bool
is_endpt name ti e = ti_code e.ti == ti_code ti && bytes_eq e.name name

abbrev pub find_endpt : (Endpt → Bool) → List Endpt → Option Endpt
find_endpt test [] = none
find_endpt test (e ∷ es) = let rest = find_endpt test es in if test e then some e else rest

-- The endpoint that is locked.
unfoldable pub nc_server_endpt_lock : Bytes → TransportImpl → List Endpt → Option Endpt
nc_server_endpt_lock name ti es = find_endpt (is_endpt name ti) es

abbrev pub default_ssh_opts : SshOpts
default_ssh_opts = record {
  sshbind = none;
  authkeys = [];
  auth_methods = 7;
  auth_attempts = 3;
  auth_timeout = 10;
}

abbrev pub default_tls_opts : TlsOpts
default_tls_opts = record { tls_ctx = none; crl_store = none; ctn = [] }

abbrev pub new_opts : TransportImpl → TiOpts
new_opts ti_libssh = ssh_opts default_ssh_opts
new_opts ti_openssl = tls_opts default_tls_opts
new_opts ti = no_opts

abbrev pub new_endpt : Bytes → Bytes → ℕ → TransportImpl → ℕ → Endpt
new_endpt name address port ti sock = record {
  name = name;
  address = address;
  port = port;
  sock = sock;
  ti = ti;
  ti_opts = new_opts ti;
}

-- `++endpt_count` wraps around at 2 ^ 16: nc_realloc to 0 bytes leaves no room for the write.
abbrev pub append_endpt : Endpt → List Endpt → Done (List Endpt × Bool)
append_endpt e es = if (length es + 1) % 2 ^ 16 == 0 then undefined else done (es ++ (e ∷ []), true)

abbrev pub listen_result :
    Bytes → Bytes → ℕ → TransportImpl → List Endpt → Option ℕ → Done (List Endpt × Bool)
listen_result name address port ti es none = done (es, false)
listen_result name address port ti es (some sock) =
    append_endpt (new_endpt name address port ti sock) es

abbrev pub add_unique :
    (nc_sock_listen : Bytes → ℕ → Option ℕ)
    → Bytes
    → Bytes
    → ℕ
    → TransportImpl
    → List Endpt
    → Option Endpt
    → Done (List Endpt × Bool)
add_unique nc_sock_listen name address port ti es (some e) = done (es, false)
add_unique nc_sock_listen name address port ti es none =
    listen_result name address port ti es (nc_sock_listen address port)

-- The endpoints, and whether the result is 0.
unfoldable pub nc_server_add_endpt_listen :
    (nc_sock_listen : Bytes → ℕ → Option ℕ)
    → Option Bytes
    → Option Bytes
    → ℕ
    → TransportImpl
    → List Endpt
    → Done (List Endpt × Bool)
nc_server_add_endpt_listen nc_sock_listen none address port ti es = done (es, false)
nc_server_add_endpt_listen nc_sock_listen (some name) none port ti es = done (es, false)
nc_server_add_endpt_listen nc_sock_listen (some name) (some address) port ti es =
    if port == 0
    then done (es, false)
    else add_unique nc_sock_listen name address port ti es (find_endpt (is_endpt name ti) es)

-- A change of the endpoint that is locked: it is the first one that is found.
abbrev pub change : (Endpt → Bool) → (Endpt → Endpt) → List Endpt → List Endpt
change test f [] = []
change test f (e ∷ es) = let rest = e ∷ change test f es in if test e then f e ∷ es else rest

abbrev pub set_listening :
    (Endpt → Bool) → (ℕ → Endpt → Endpt) → List Endpt → Option ℕ → List Endpt × Bool
set_listening test f es none = (es, false)
set_listening test f es (some sock) = (change test (f sock) es, true)

-- The guard on `address` and `port`, with what is listened on and what is set.
abbrev pub set_one :
    (nc_sock_listen : Bytes → ℕ → Option ℕ)
    → (Endpt → Bool)
    → Option Bytes
    → ℕ
    → List Endpt
    → Endpt
    → List Endpt × Bool
set_one nc_sock_listen test (some address) port es e =
    set_listening test (λ sock e. record e { sock = sock; address = address }) es
      (nc_sock_listen address e.port)
set_one nc_sock_listen test none port es e =
    set_listening test (λ sock e. record e { sock = sock; port = port }) es
      (nc_sock_listen e.address port)

abbrev pub is_null : Option Bytes → Bool
is_null none = true
is_null (some a) = false

abbrev pub set_locked :
    (nc_sock_listen : Bytes → ℕ → Option ℕ)
    → (Endpt → Bool)
    → Option Bytes
    → ℕ
    → List Endpt
    → Option Endpt
    → List Endpt × Bool
set_locked nc_sock_listen test address port es none = (es, false)
set_locked nc_sock_listen test address port es (some e) =
    set_one nc_sock_listen test address port es e

unfoldable pub nc_server_endpt_set_address_port :
    (nc_sock_listen : Bytes → ℕ → Option ℕ)
    → Option Bytes
    → Option Bytes
    → ℕ
    → TransportImpl
    → List Endpt
    → List Endpt × Bool
nc_server_endpt_set_address_port nc_sock_listen none address port ti es = (es, false)
nc_server_endpt_set_address_port nc_sock_listen (some name) address port ti es =
    if (is_null address && port == 0)
      || ((not (is_null address) && not (port == 0)) || ti_code ti == 0)
    then (es, false)
    else set_locked nc_sock_listen (is_endpt name ti) address port es
        (nc_server_endpt_lock name ti es)

abbrev pub removes : Option Bytes → TransportImpl → Endpt → Bool
removes none ti e = ti_code e.ti == ti_code ti
removes (some name) ti e = ti_code e.ti == ti_code ti && bytes_eq e.name name

abbrev pub any_endpt : List Endpt → Bool
any_endpt [] = false
any_endpt (e ∷ es) = true

-- The endpoints, and whether the result is 0. The loop ends after the first removal where a name is
-- given.
unfoldable pub nc_server_del_endpt : Option Bytes → TransportImpl → List Endpt → List Endpt × Bool
nc_server_del_endpt name ti es =
    if is_null name && ti_code ti == 0
    then ([], any_endpt es)
    else swap_remove (removes name ti) (not (is_null name)) es
