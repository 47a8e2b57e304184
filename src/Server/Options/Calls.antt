-- ===== src/Server/Options/Calls.antt =====
-- Any call of the functions that configure a server.
pub mod Always
use libnetconf.Common.{ℕ, refl, Bool, Option, none, arith}
use libnetconf.Common.Bytes.{Bytes}
use libnetconf.Session.{ti_libssh, ti_openssl}
use libnetconf.Server.Poll.{done}
use libnetconf.Server.Certs.{MapType, Wanted}
use libnetconf.Server.Endpoints.{
  nc_server_add_endpt_listen, nc_server_endpt_set_address_port, nc_server_del_endpt,
}
use libnetconf.Server.Options
use libnetconf.Server.Options.{ServerOpts, Result, initial, store_endpts}
use libnetconf.Server.Options.Ssh
use libnetconf.Server.Options.Tls
use libnetconf.Server.Options.Tls.{opts_add_ctn, opts_del_ctn}
use libnetconf.Server.Options.Valid.{IsValid, HasRoom, Returns}
use libnetconf.Server.Options.Kept.{
  on_ssh_endpt-IsValid, on_tls_endpt-IsValid, on_ssh_ch-IsValid, on_tls_ch-IsValid,
}
use libnetconf.Server.Options.Listed.{
  store_endpts-IsValid, nc_server_add_endpt_listen-EndptsOk,
  nc_server_endpt_set_address_port-EndptsOk, nc_server_del_endpt-EndptsOk,
}
use libnetconf.Server.Options.Setters

-- A function with its arguments, and what libssh, OpenSSL and the system return to it.
pub data ServerCall : Type 0 where
  ssh_add_endpt_listen :
      (listens : Bytes → ℕ → Option ℕ) (name address : Option Bytes) (port : ℕ) → ServerCall
  ssh_endpt_set_address :
      (listens : Bytes → ℕ → Option ℕ) (name address : Option Bytes) → ServerCall
  ssh_endpt_set_port :
      (listens : Bytes → ℕ → Option ℕ) (name : Option Bytes) (port : ℕ) → ServerCall
  ssh_del_endpt : (name : Option Bytes) → ServerCall
  tls_add_endpt_listen :
      (listens : Bytes → ℕ → Option ℕ) (name address : Option Bytes) (port : ℕ) → ServerCall
  tls_endpt_set_address :
      (listens : Bytes → ℕ → Option ℕ) (name address : Option Bytes) → ServerCall
  tls_endpt_set_port :
      (listens : Bytes → ℕ → Option ℕ) (name : Option Bytes) (port : ℕ) → ServerCall
  tls_del_endpt : (name : Option Bytes) → ServerCall
  ssh_endpt_set_hostkey :
      (new : Option ℕ) (set : Bytes → Bool) (name : Bytes) (path : Option Bytes) → ServerCall
  ssh_ch_set_hostkey : (new : Option ℕ) (set : Bytes → Bool) (path : Option Bytes) → ServerCall
  ssh_endpt_set_banner : (new : Option ℕ) (name : Bytes) (banner : Option Bytes) → ServerCall
  ssh_ch_set_banner : (new : Option ℕ) (banner : Option Bytes) → ServerCall
  ssh_endpt_set_auth_methods : (name : Bytes) (m : ℕ) → ServerCall
  ssh_ch_set_auth_methods : (m : ℕ) → ServerCall
  ssh_endpt_set_auth_attempts : (name : Bytes) (n : ℕ) → ServerCall
  ssh_set_ch_auth_attempts : (n : ℕ) → ServerCall
  ssh_endpt_set_auth_timeout : (name : Bytes) (n : ℕ) → ServerCall
  ssh_ch_set_auth_timeout : (n : ℕ) → ServerCall
  ssh_endpt_add_authkey : (name : Bytes) (path username : Option Bytes) → ServerCall
  ssh_ch_add_authkey : (path username : Option Bytes) → ServerCall
  ssh_endpt_del_authkey : (name : Bytes) (path username : Option Bytes) → ServerCall
  ssh_ch_del_authkey : (path username : Option Bytes) → ServerCall
  ssh_ch_clear_opts : ServerCall
  tls_endpt_set_cert :
      (new : Option ℕ) (loads : Bytes → Bool) (name : Bytes) (text : Option Bytes) → ServerCall
  tls_ch_set_cert : (new : Option ℕ) (loads : Bytes → Bool) (text : Option Bytes) → ServerCall
  tls_endpt_set_cert_path :
      (new : Option ℕ) (loads : Bytes → Bool) (name : Bytes) (text : Option Bytes) → ServerCall
  tls_ch_set_cert_path : (new : Option ℕ) (loads : Bytes → Bool) (text : Option Bytes) → ServerCall
  tls_endpt_set_key :
      (new : Option ℕ) (loads : Bytes → Bool) (name : Bytes) (text : Option Bytes) → ServerCall
  tls_ch_set_key : (new : Option ℕ) (loads : Bytes → Bool) (text : Option Bytes) → ServerCall
  tls_endpt_set_key_path :
      (new : Option ℕ) (loads : Bytes → Bool) (name : Bytes) (text : Option Bytes) → ServerCall
  tls_ch_set_key_path : (new : Option ℕ) (loads : Bytes → Bool) (text : Option Bytes) → ServerCall
  tls_endpt_add_trusted_cert :
      (new : Option ℕ) (loads : Bytes → Bool) (name : Bytes) (text : Option Bytes) → ServerCall
  tls_ch_add_trusted_cert :
      (new : Option ℕ) (loads : Bytes → Bool) (text : Option Bytes) → ServerCall
  tls_endpt_add_trusted_cert_path :
      (new : Option ℕ) (loads : Bytes → Bool) (name : Bytes) (text : Option Bytes) → ServerCall
  tls_ch_add_trusted_cert_path :
      (new : Option ℕ) (loads : Bytes → Bool) (text : Option Bytes) → ServerCall
  tls_endpt_set_trusted_ca_paths :
      (new : Option ℕ) (loads : Bytes → Bool) (name : Bytes) (file dir : Option Bytes) → ServerCall
  tls_ch_set_trusted_ca_paths :
      (new : Option ℕ) (loads : Bytes → Bool) (file dir : Option Bytes) → ServerCall
  tls_endpt_clear_certs : (name : Bytes) → ServerCall
  tls_ch_clear_certs : ServerCall
  tls_endpt_set_crl_paths :
      (store : ℕ) (loads : Bytes → Bool) (name : Bytes) (file dir : Option Bytes) → ServerCall
  tls_ch_set_crl_paths : (store : ℕ) (loads : Bytes → Bool) (file dir : Option Bytes) → ServerCall
  tls_endpt_clear_crls : (name : Bytes) → ServerCall
  tls_ch_clear_crls : ServerCall
  tls_endpt_add_ctn :
      (name : Bytes) (id : ℕ) (fingerprint : Option Bytes) (m : MapType) (user : Option Bytes)
      → ServerCall
  tls_ch_add_ctn :
      (id : ℕ) (fingerprint : Option Bytes) (m : MapType) (user : Option Bytes) → ServerCall
  tls_endpt_del_ctn : (name : Bytes) (w : Wanted) → ServerCall
  tls_ch_del_ctn : (w : Wanted) → ServerCall
  tls_ch_clear_opts : ServerCall

-- What a call does.
unfoldable pub server_call : ServerCall → ServerOpts → Result
server_call (ssh_add_endpt_listen listens name address port) s =
    Options.nc_server_ssh_add_endpt_listen listens name address port s
server_call (ssh_endpt_set_address listens name address) s =
    Options.nc_server_ssh_endpt_set_address listens name address s
server_call (ssh_endpt_set_port listens name port) s =
    Options.nc_server_ssh_endpt_set_port listens name port s
server_call (ssh_del_endpt name) s = Options.nc_server_ssh_del_endpt name s
server_call (tls_add_endpt_listen listens name address port) s =
    Options.nc_server_tls_add_endpt_listen listens name address port s
server_call (tls_endpt_set_address listens name address) s =
    Options.nc_server_tls_endpt_set_address listens name address s
server_call (tls_endpt_set_port listens name port) s =
    Options.nc_server_tls_endpt_set_port listens name port s
server_call (tls_del_endpt name) s = Options.nc_server_tls_del_endpt name s
server_call (ssh_endpt_set_hostkey new set name path) s =
    Ssh.nc_server_ssh_endpt_set_hostkey new set name path s
server_call (ssh_ch_set_hostkey new set path) s = Ssh.nc_server_ssh_ch_set_hostkey new set path s
server_call (ssh_endpt_set_banner new name banner) s =
    Ssh.nc_server_ssh_endpt_set_banner new name banner s
server_call (ssh_ch_set_banner new banner) s = Ssh.nc_server_ssh_ch_set_banner new banner s
server_call (ssh_endpt_set_auth_methods name m) s =
    Ssh.nc_server_ssh_endpt_set_auth_methods name m s
server_call (ssh_ch_set_auth_methods m) s = Ssh.nc_server_ssh_ch_set_auth_methods m s
server_call (ssh_endpt_set_auth_attempts name n) s =
    Ssh.nc_server_ssh_endpt_set_auth_attempts name n s
server_call (ssh_set_ch_auth_attempts n) s = Ssh.nc_server_ssh_set_ch_auth_attempts n s
server_call (ssh_endpt_set_auth_timeout name n) s =
    Ssh.nc_server_ssh_endpt_set_auth_timeout name n s
server_call (ssh_ch_set_auth_timeout n) s = Ssh.nc_server_ssh_ch_set_auth_timeout n s
server_call (ssh_endpt_add_authkey name path username) s =
    Ssh.nc_server_ssh_endpt_add_authkey name path username s
server_call (ssh_ch_add_authkey path username) s = Ssh.nc_server_ssh_ch_add_authkey path username s
server_call (ssh_endpt_del_authkey name path username) s =
    Ssh.nc_server_ssh_endpt_del_authkey name path username s
server_call (ssh_ch_del_authkey path username) s = Ssh.nc_server_ssh_ch_del_authkey path username s
server_call ssh_ch_clear_opts s = Ssh.nc_server_ssh_ch_clear_opts s
server_call (tls_endpt_set_cert new loads name text) s =
    Tls.nc_server_tls_endpt_set_cert new loads name text s
server_call (tls_ch_set_cert new loads text) s = Tls.nc_server_tls_ch_set_cert new loads text s
server_call (tls_endpt_set_cert_path new loads name text) s =
    Tls.nc_server_tls_endpt_set_cert_path new loads name text s
server_call (tls_ch_set_cert_path new loads text) s =
    Tls.nc_server_tls_ch_set_cert_path new loads text s
server_call (tls_endpt_set_key new loads name text) s =
    Tls.nc_server_tls_endpt_set_key new loads name text s
server_call (tls_ch_set_key new loads text) s = Tls.nc_server_tls_ch_set_key new loads text s
server_call (tls_endpt_set_key_path new loads name text) s =
    Tls.nc_server_tls_endpt_set_key_path new loads name text s
server_call (tls_ch_set_key_path new loads text) s =
    Tls.nc_server_tls_ch_set_key_path new loads text s
server_call (tls_endpt_add_trusted_cert new loads name text) s =
    Tls.nc_server_tls_endpt_add_trusted_cert new loads name text s
server_call (tls_ch_add_trusted_cert new loads text) s =
    Tls.nc_server_tls_ch_add_trusted_cert new loads text s
server_call (tls_endpt_add_trusted_cert_path new loads name text) s =
    Tls.nc_server_tls_endpt_add_trusted_cert_path new loads name text s
server_call (tls_ch_add_trusted_cert_path new loads text) s =
    Tls.nc_server_tls_ch_add_trusted_cert_path new loads text s
server_call (tls_endpt_set_trusted_ca_paths new loads name file dir) s =
    Tls.nc_server_tls_endpt_set_trusted_ca_paths new loads name file dir s
server_call (tls_ch_set_trusted_ca_paths new loads file dir) s =
    Tls.nc_server_tls_ch_set_trusted_ca_paths new loads file dir s
server_call (tls_endpt_clear_certs name) s = Tls.nc_server_tls_endpt_clear_certs name s
server_call tls_ch_clear_certs s = Tls.nc_server_tls_ch_clear_certs s
server_call (tls_endpt_set_crl_paths store loads name file dir) s =
    Tls.nc_server_tls_endpt_set_crl_paths store loads name file dir s
server_call (tls_ch_set_crl_paths store loads file dir) s =
    Tls.nc_server_tls_ch_set_crl_paths store loads file dir s
server_call (tls_endpt_clear_crls name) s = Tls.nc_server_tls_endpt_clear_crls name s
server_call tls_ch_clear_crls s = Tls.nc_server_tls_ch_clear_crls s
server_call (tls_endpt_add_ctn name id fingerprint m user) s =
    Tls.nc_server_tls_endpt_add_ctn name id fingerprint m user s
server_call (tls_ch_add_ctn id fingerprint m user) s =
    Tls.nc_server_tls_ch_add_ctn id fingerprint m user s
server_call (tls_endpt_del_ctn name w) s = Tls.nc_server_tls_endpt_del_ctn name w s
server_call (tls_ch_del_ctn w) s = Tls.nc_server_tls_ch_del_ctn w s
server_call tls_ch_clear_opts s = Tls.nc_server_tls_ch_clear_opts s
