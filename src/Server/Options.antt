-- ===== src/Server/Options.antt =====
-- The configuration of a server: the functions of src/session_server_ssh.c and
-- src/session_server_tls.c on the options of an endpoint and on those for call home. The name of
-- an endpoint is not NULL. What libssh and OpenSSL return is an argument.
pub mod Ssh
pub mod Tls
pub mod Calls
pub mod Valid
pub mod Kept
pub mod Listed
pub mod Setters
pub mod Deleted
use libnetconf.Common.{ℕ, Bool, true, false, List, [], ◌∷◌, Option, none, some}
use libnetconf.Common.Bytes.{Bytes}
use libnetconf.Session.{ti_libssh, ti_openssl}
use libnetconf.Server.Poll.{Done, done, undefined}
use libnetconf.Server.Endpoints.{
  Endpt, SshOpts, TlsOpts, TiOpts, ssh_opts, tls_opts, no_opts, is_endpt, change,
  nc_server_endpt_lock, nc_server_add_endpt_listen, nc_server_endpt_set_address_port,
  nc_server_del_endpt, default_ssh_opts, default_tls_opts,
}

-- Of `server_opts`, `ssh_ch_opts` and `tls_ch_opts`.
pub record ServerOpts : Type 0 where
  pub endpts : List Endpt
  pub ssh_ch_opts : SshOpts
  pub tls_ch_opts : TlsOpts

abbrev pub initial : ServerOpts
initial = record { endpts = []; ssh_ch_opts = default_ssh_opts; tls_ch_opts = default_tls_opts }

-- The state, and whether the result is 0; of a function without a result, whether it was called on
-- options.
abbrev pub Result : Type 0
Result = Done (ServerOpts × Bool)

abbrev pub with_opts : TiOpts → Endpt → Endpt
with_opts o e = record e { ti_opts = o }

abbrev pub store_opts : Bytes → Endpt → ServerOpts → TiOpts × Bool → ServerOpts × Bool
store_opts name e s (o, ret) =
    (record s { endpts = change (is_endpt name e.ti) (with_opts o) s.endpts }, ret)

abbrev pub store_ssh : Bytes → Endpt → ServerOpts → Done (SshOpts × Bool) → Result
store_ssh name e s undefined = undefined
store_ssh name e s (done (o, ret)) = done (store_opts name e s (ssh_opts o, ret))

-- The `void *` is used as the options of SSH.
abbrev pub cast_ssh :
    Bytes → (SshOpts → Done (SshOpts × Bool)) → ServerOpts → Endpt → TiOpts → Result
cast_ssh name f s e (ssh_opts o) = store_ssh name e s (f o)
cast_ssh name f s e (tls_opts o) = undefined
cast_ssh name f s e no_opts = undefined

abbrev pub cast_tls : Bytes → (TlsOpts → TlsOpts × Bool) → ServerOpts → Endpt → TiOpts → Result
cast_tls name f s e (tls_opts o) =
    let (o', ret) = f o in done (store_opts name e s (tls_opts o', ret))
cast_tls name f s e (ssh_opts o) = undefined
cast_tls name f s e no_opts = undefined

abbrev pub locked_ssh :
    Bytes → (SshOpts → Done (SshOpts × Bool)) → ServerOpts → Option Endpt → Result
locked_ssh name f s none = done (s, false)
locked_ssh name f s (some e) = cast_ssh name f s e e.ti_opts

abbrev pub locked_tls : Bytes → (TlsOpts → TlsOpts × Bool) → ServerOpts → Option Endpt → Result
locked_tls name f s none = done (s, false)
locked_tls name f s (some e) = cast_tls name f s e e.ti_opts

-- Lock, call, unlock: the shape of the functions on an endpoint.
unfoldable pub on_ssh_endpt : Bytes → (SshOpts → Done (SshOpts × Bool)) → ServerOpts → Result
on_ssh_endpt name f s = locked_ssh name f s (nc_server_endpt_lock name ti_libssh s.endpts)

unfoldable pub on_tls_endpt : Bytes → (TlsOpts → TlsOpts × Bool) → ServerOpts → Result
on_tls_endpt name f s = locked_tls name f s (nc_server_endpt_lock name ti_openssl s.endpts)

abbrev pub store_ssh_ch : ServerOpts → Done (SshOpts × Bool) → Result
store_ssh_ch s undefined = undefined
store_ssh_ch s (done (o, ret)) = done (record s { ssh_ch_opts = o }, ret)

-- The shape of the functions on the options for call home.
unfoldable pub on_ssh_ch : (SshOpts → Done (SshOpts × Bool)) → ServerOpts → Result
on_ssh_ch f s = store_ssh_ch s (f s.ssh_ch_opts)

unfoldable pub on_tls_ch : (TlsOpts → TlsOpts × Bool) → ServerOpts → Result
on_tls_ch f s = let (o, ret) = f s.tls_ch_opts in done (record s { tls_ch_opts = o }, ret)

abbrev pub store_endpts : ServerOpts → Done (List Endpt × Bool) → Result
store_endpts s undefined = undefined
store_endpts s (done (es, ret)) = done (record s { endpts = es }, ret)

unfoldable pub nc_server_ssh_add_endpt_listen :
    (nc_sock_listen : Bytes → ℕ → Option ℕ) → Option Bytes → Option Bytes → ℕ → ServerOpts → Result
nc_server_ssh_add_endpt_listen nc_sock_listen name address port s =
    store_endpts s (nc_server_add_endpt_listen nc_sock_listen name address port ti_libssh s.endpts)

unfoldable pub nc_server_tls_add_endpt_listen :
    (nc_sock_listen : Bytes → ℕ → Option ℕ) → Option Bytes → Option Bytes → ℕ → ServerOpts → Result
nc_server_tls_add_endpt_listen nc_sock_listen name address port s =
    store_endpts s (nc_server_add_endpt_listen nc_sock_listen name address port ti_openssl s.endpts)

unfoldable pub nc_server_ssh_endpt_set_address :
    (nc_sock_listen : Bytes → ℕ → Option ℕ) → Option Bytes → Option Bytes → ServerOpts → Result
nc_server_ssh_endpt_set_address nc_sock_listen name address s =
    store_endpts s
      (done (nc_server_endpt_set_address_port nc_sock_listen name address 0 ti_libssh s.endpts))

unfoldable pub nc_server_ssh_endpt_set_port :
    (nc_sock_listen : Bytes → ℕ → Option ℕ) → Option Bytes → ℕ → ServerOpts → Result
nc_server_ssh_endpt_set_port nc_sock_listen name port s =
    store_endpts s
      (done (nc_server_endpt_set_address_port nc_sock_listen name none port ti_libssh s.endpts))

unfoldable pub nc_server_tls_endpt_set_address :
    (nc_sock_listen : Bytes → ℕ → Option ℕ) → Option Bytes → Option Bytes → ServerOpts → Result
nc_server_tls_endpt_set_address nc_sock_listen name address s =
    store_endpts s
      (done (nc_server_endpt_set_address_port nc_sock_listen name address 0 ti_openssl s.endpts))

unfoldable pub nc_server_tls_endpt_set_port :
    (nc_sock_listen : Bytes → ℕ → Option ℕ) → Option Bytes → ℕ → ServerOpts → Result
nc_server_tls_endpt_set_port nc_sock_listen name port s =
    store_endpts s
      (done (nc_server_endpt_set_address_port nc_sock_listen name none port ti_openssl s.endpts))

unfoldable pub nc_server_ssh_del_endpt : Option Bytes → ServerOpts → Result
nc_server_ssh_del_endpt name s = store_endpts s (done (nc_server_del_endpt name ti_libssh s.endpts))

unfoldable pub nc_server_tls_del_endpt : Option Bytes → ServerOpts → Result
nc_server_tls_del_endpt name s =
    store_endpts s (done (nc_server_del_endpt name ti_openssl s.endpts))
