-- ===== src/Server/Options/Ssh.antt =====
-- The options of SSH: the setters of src/session_server_ssh.c.
use libnetconf.Common.{
  ℕ, ◌+◌, ◌/◌, ◌%◌, ◌^◌, Bool, true, false, ◌&&◌, ◌==◌, if◌then◌else◌, List, [], ◌∷◌, ◌++◌, Option,
  none, some, length,
}
use libnetconf.Common.Bytes.{Bytes, bytes_eq}
use libnetconf.Server.Poll.{Done, done, undefined}
use libnetconf.Server.Swap.{swap_remove}
use libnetconf.Server.Endpoints.{Authkey, SshOpts}
use libnetconf.Server.Options.{ServerOpts, Result, on_ssh_endpt, on_ssh_ch}

-- The options and whether the result is 0.
abbrev pub SshResult : Type 0
SshResult = Done (SshOpts × Bool)

-- `sshbind` is there, or what ssh_bind_new returns is taken.
abbrev pub bind_or : Option ℕ → Option ℕ → Option ℕ
bind_or new (some b) = some b
bind_or new none = new

abbrev pub bound : SshOpts → Bool → Option ℕ → SshResult
bound o ok none = done (o, false)
bound o ok (some b) = done (record o { sshbind = some b }, ok)

-- `set` is whether ssh_bind_options_set takes the key.
unfoldable pub nc_server_ssh_set_hostkey :
    (ssh_bind_new : Option ℕ) (set : Bytes → Bool) → Option Bytes → SshOpts → SshResult
nc_server_ssh_set_hostkey ssh_bind_new set none o = done (o, false)
nc_server_ssh_set_hostkey ssh_bind_new set (some path) o =
    bound o (set path) (bind_or ssh_bind_new o.sshbind)

unfoldable pub nc_server_ssh_set_banner :
    (ssh_bind_new : Option ℕ) → Option Bytes → SshOpts → SshResult
nc_server_ssh_set_banner ssh_bind_new none o = done (o, false)
nc_server_ssh_set_banner ssh_bind_new (some banner) o =
    bound o true (bind_or ssh_bind_new o.sshbind)

-- The tests of NC_SSH_AUTH_PUBLICKEY, NC_SSH_AUTH_PASSWORD and NC_SSH_AUTH_INTERACTIVE.
abbrev pub no_method : ℕ → Bool
no_method m = m % 2 == 0 && (m / 2 % 2 == 0 && m / 4 % 2 == 0)

unfoldable pub nc_server_ssh_set_auth_methods : ℕ → SshOpts → SshResult
nc_server_ssh_set_auth_methods m o =
    if no_method m then done (o, false) else done (record o { auth_methods = m }, true)

unfoldable pub nc_server_ssh_set_auth_attempts : ℕ → SshOpts → SshResult
nc_server_ssh_set_auth_attempts n o =
    if n == 0 then done (o, false) else done (record o { auth_attempts = n }, true)

unfoldable pub nc_server_ssh_set_auth_timeout : ℕ → SshOpts → SshResult
nc_server_ssh_set_auth_timeout n o =
    if n == 0 then done (o, false) else done (record o { auth_timeout = n }, true)

-- `++authkey_count` wraps around at 2 ^ 16: nc_realloc to 0 bytes leaves no room for the write.
abbrev pub append_key : Authkey → SshOpts → SshResult
append_key k o =
    if (length o.authkeys + 1) % 2 ^ 16 == 0
    then undefined
    else done (record o { authkeys = o.authkeys ++ (k ∷ []) }, true)

unfoldable pub nc_server_ssh_add_authkey : Option Bytes → Option Bytes → SshOpts → SshResult
nc_server_ssh_add_authkey none username o = done (o, false)
nc_server_ssh_add_authkey (some path) none o = done (o, false)
nc_server_ssh_add_authkey (some path) (some username) o =
    append_key (record { path = path; username = username }) o

abbrev pub asked : Option Bytes → Bytes → Bool
asked none t = true
asked (some want) t = bytes_eq t want

unfoldable pub is_key : Option Bytes → Option Bytes → Authkey → Bool
is_key path username k = asked path k.path && asked username k.username

abbrev pub any_key : List Authkey → Bool
any_key [] = false
any_key (k ∷ ks) = true

-- The keys, and whether the result is 0.
unfoldable pub del_keys : Option Bytes → Option Bytes → List Authkey → List Authkey × Bool
del_keys none none ks = ([], any_key ks)
del_keys none (some username) ks = swap_remove (is_key none (some username)) false ks
del_keys (some path) username ks = swap_remove (is_key (some path) username) false ks

unfoldable pub nc_server_ssh_del_authkey : Option Bytes → Option Bytes → SshOpts → SshResult
nc_server_ssh_del_authkey path username o =
    let (ks, ret) = del_keys path username o.authkeys in done (record o { authkeys = ks }, ret)

unfoldable pub nc_server_ssh_clear_opts : SshOpts → SshResult
nc_server_ssh_clear_opts o = done (record o { sshbind = none; authkeys = [] }, true)

unfoldable pub nc_server_ssh_endpt_set_hostkey :
    (ssh_bind_new : Option ℕ) (set : Bytes → Bool) → Bytes → Option Bytes → ServerOpts → Result
nc_server_ssh_endpt_set_hostkey ssh_bind_new set name path s =
    on_ssh_endpt name (nc_server_ssh_set_hostkey ssh_bind_new set path) s

unfoldable pub nc_server_ssh_ch_set_hostkey :
    (ssh_bind_new : Option ℕ) (set : Bytes → Bool) → Option Bytes → ServerOpts → Result
nc_server_ssh_ch_set_hostkey ssh_bind_new set path s =
    on_ssh_ch (nc_server_ssh_set_hostkey ssh_bind_new set path) s

unfoldable pub nc_server_ssh_endpt_set_banner :
    (ssh_bind_new : Option ℕ) → Bytes → Option Bytes → ServerOpts → Result
nc_server_ssh_endpt_set_banner ssh_bind_new name banner s =
    on_ssh_endpt name (nc_server_ssh_set_banner ssh_bind_new banner) s

unfoldable pub nc_server_ssh_ch_set_banner :
    (ssh_bind_new : Option ℕ) → Option Bytes → ServerOpts → Result
nc_server_ssh_ch_set_banner ssh_bind_new banner s =
    on_ssh_ch (nc_server_ssh_set_banner ssh_bind_new banner) s

unfoldable pub nc_server_ssh_endpt_set_auth_methods : Bytes → ℕ → ServerOpts → Result
nc_server_ssh_endpt_set_auth_methods name m s =
    on_ssh_endpt name (nc_server_ssh_set_auth_methods m) s

unfoldable pub nc_server_ssh_ch_set_auth_methods : ℕ → ServerOpts → Result
nc_server_ssh_ch_set_auth_methods m s = on_ssh_ch (nc_server_ssh_set_auth_methods m) s

unfoldable pub nc_server_ssh_endpt_set_auth_attempts : Bytes → ℕ → ServerOpts → Result
nc_server_ssh_endpt_set_auth_attempts name n s =
    on_ssh_endpt name (nc_server_ssh_set_auth_attempts n) s

unfoldable pub nc_server_ssh_set_ch_auth_attempts : ℕ → ServerOpts → Result
nc_server_ssh_set_ch_auth_attempts n s = on_ssh_ch (nc_server_ssh_set_auth_attempts n) s

unfoldable pub nc_server_ssh_endpt_set_auth_timeout : Bytes → ℕ → ServerOpts → Result
nc_server_ssh_endpt_set_auth_timeout name n s =
    on_ssh_endpt name (nc_server_ssh_set_auth_timeout n) s

unfoldable pub nc_server_ssh_ch_set_auth_timeout : ℕ → ServerOpts → Result
nc_server_ssh_ch_set_auth_timeout n s = on_ssh_ch (nc_server_ssh_set_auth_timeout n) s

unfoldable pub nc_server_ssh_endpt_add_authkey :
    Bytes → Option Bytes → Option Bytes → ServerOpts → Result
nc_server_ssh_endpt_add_authkey name path username s =
    on_ssh_endpt name (nc_server_ssh_add_authkey path username) s

unfoldable pub nc_server_ssh_ch_add_authkey : Option Bytes → Option Bytes → ServerOpts → Result
nc_server_ssh_ch_add_authkey path username s = on_ssh_ch (nc_server_ssh_add_authkey path username) s

unfoldable pub nc_server_ssh_endpt_del_authkey :
    Bytes → Option Bytes → Option Bytes → ServerOpts → Result
nc_server_ssh_endpt_del_authkey name path username s =
    on_ssh_endpt name (nc_server_ssh_del_authkey path username) s

unfoldable pub nc_server_ssh_ch_del_authkey : Option Bytes → Option Bytes → ServerOpts → Result
nc_server_ssh_ch_del_authkey path username s = on_ssh_ch (nc_server_ssh_del_authkey path username) s

unfoldable pub nc_server_ssh_ch_clear_opts : ServerOpts → Result
nc_server_ssh_ch_clear_opts s = on_ssh_ch nc_server_ssh_clear_opts s
