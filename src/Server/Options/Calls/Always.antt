-- ===== src/Server/Options/Calls/Always.antt =====
-- What every call that configures a server keeps.
use libnetconf.Common.{refl, none, arith}
use libnetconf.Session.{ti_libssh, ti_openssl}
use libnetconf.Server.Poll.{done}
use libnetconf.Server.Endpoints.{
  nc_server_add_endpt_listen, nc_server_endpt_set_address_port, nc_server_del_endpt,
}
use libnetconf.Server.Options
use libnetconf.Server.Options.{ServerOpts, Result, initial, store_endpts}
use libnetconf.Server.Options.Ssh
use libnetconf.Server.Options.Tls
use libnetconf.Server.Options.Tls.{opts_add_ctn, opts_del_ctn}
use libnetconf.Server.Options.Valid.{IsValid, HasRoom, Returns}
use libnetconf.Server.Options.Kept.{
  on_ssh_endpt-IsValid, on_tls_endpt-IsValid, on_ssh_ch-IsValid, on_tls_ch-IsValid,
}
use libnetconf.Server.Options.Listed.{
  store_endpts-IsValid, nc_server_add_endpt_listen-EndptsOk,
  nc_server_endpt_set_address_port-EndptsOk, nc_server_del_endpt-EndptsOk,
}
use libnetconf.Server.Options.Setters
use libnetconf.Server.Options.Calls.{
  ServerCall, server_call, ssh_add_endpt_listen, ssh_endpt_set_address, ssh_endpt_set_port,
  ssh_del_endpt, tls_add_endpt_listen, tls_endpt_set_address, tls_endpt_set_port, tls_del_endpt,
  ssh_endpt_set_hostkey, ssh_ch_set_hostkey, ssh_endpt_set_banner, ssh_ch_set_banner,
  ssh_endpt_set_auth_methods, ssh_ch_set_auth_methods, ssh_endpt_set_auth_attempts,
  ssh_set_ch_auth_attempts, ssh_endpt_set_auth_timeout, ssh_ch_set_auth_timeout,
  ssh_endpt_add_authkey, ssh_ch_add_authkey, ssh_endpt_del_authkey, ssh_ch_del_authkey,
  ssh_ch_clear_opts, tls_endpt_set_cert, tls_ch_set_cert, tls_endpt_set_cert_path,
  tls_ch_set_cert_path, tls_endpt_set_key, tls_ch_set_key, tls_endpt_set_key_path,
  tls_ch_set_key_path, tls_endpt_add_trusted_cert, tls_ch_add_trusted_cert,
  tls_endpt_add_trusted_cert_path, tls_ch_add_trusted_cert_path, tls_endpt_set_trusted_ca_paths,
  tls_ch_set_trusted_ca_paths, tls_endpt_clear_certs, tls_ch_clear_certs, tls_endpt_set_crl_paths,
  tls_ch_set_crl_paths, tls_endpt_clear_crls, tls_ch_clear_crls, tls_endpt_add_ctn, tls_ch_add_ctn,
  tls_endpt_del_ctn, tls_ch_del_ctn, tls_ch_clear_opts,
}

-- Each function that configures a server, with any arguments and any results of libssh, OpenSSL and
-- the system, has defined behaviour on a valid configuration whose counts of 16 bits can grow by
-- one, and leaves a valid one: no two endpoints share a name and transport, the options of each
-- have the type of its transport, each port and limit is positive, some SSH method is allowed, each
-- TLS context asks for a certificate, and each cert-to-name list is sorted with names exactly at
-- the specified mappings.
pub server_call-IsValid :
    (c : ServerCall) (s : ServerOpts) → IsValid s → HasRoom s → Returns IsValid (server_call c s)
unfolding server_call Ssh.nc_server_ssh_endpt_set_hostkey Ssh.nc_server_ssh_ch_set_hostkey
    Ssh.nc_server_ssh_endpt_set_banner Ssh.nc_server_ssh_ch_set_banner
    Ssh.nc_server_ssh_endpt_set_auth_methods Ssh.nc_server_ssh_ch_set_auth_methods
    Ssh.nc_server_ssh_endpt_set_auth_attempts Ssh.nc_server_ssh_set_ch_auth_attempts
    Ssh.nc_server_ssh_endpt_set_auth_timeout Ssh.nc_server_ssh_ch_set_auth_timeout
    Ssh.nc_server_ssh_endpt_add_authkey Ssh.nc_server_ssh_ch_add_authkey
    Ssh.nc_server_ssh_endpt_del_authkey Ssh.nc_server_ssh_ch_del_authkey
    Ssh.nc_server_ssh_ch_clear_opts Tls.nc_server_tls_endpt_set_cert Tls.nc_server_tls_ch_set_cert
    Tls.nc_server_tls_endpt_set_cert_path Tls.nc_server_tls_ch_set_cert_path
    Tls.nc_server_tls_endpt_set_key Tls.nc_server_tls_ch_set_key
    Tls.nc_server_tls_endpt_set_key_path Tls.nc_server_tls_ch_set_key_path
    Tls.nc_server_tls_endpt_add_trusted_cert Tls.nc_server_tls_ch_add_trusted_cert
    Tls.nc_server_tls_endpt_add_trusted_cert_path Tls.nc_server_tls_ch_add_trusted_cert_path
    Tls.nc_server_tls_endpt_set_trusted_ca_paths Tls.nc_server_tls_ch_set_trusted_ca_paths
    Tls.nc_server_tls_endpt_clear_certs Tls.nc_server_tls_ch_clear_certs
    Tls.nc_server_tls_endpt_set_crl_paths Tls.nc_server_tls_ch_set_crl_paths
    Tls.nc_server_tls_endpt_clear_crls Tls.nc_server_tls_ch_clear_crls
    Tls.nc_server_tls_endpt_add_ctn Tls.nc_server_tls_ch_add_ctn Tls.nc_server_tls_endpt_del_ctn
    Tls.nc_server_tls_ch_del_ctn Tls.nc_server_tls_ch_clear_opts
    Options.nc_server_ssh_add_endpt_listen Options.nc_server_ssh_endpt_set_address
    Options.nc_server_ssh_endpt_set_port Options.nc_server_ssh_del_endpt
    Options.nc_server_tls_add_endpt_listen Options.nc_server_tls_endpt_set_address
    Options.nc_server_tls_endpt_set_port Options.nc_server_tls_del_endpt
server_call-IsValid (ssh_add_endpt_listen f name address port) s v r =
    store_endpts-IsValid s (nc_server_add_endpt_listen f name address port ti_libssh s.endpts)
      (nc_server_add_endpt_listen-EndptsOk f name address port ti_libssh s.endpts r.count
        (refl, omega arith, omega arith) (v.apart, v.endpts))
      v
server_call-IsValid (ssh_endpt_set_address f name address) s v r =
    store_endpts-IsValid s
      (done (nc_server_endpt_set_address_port f name address 0 ti_libssh s.endpts))
      (nc_server_endpt_set_address_port-EndptsOk f name address 0 ti_libssh s.endpts
        (v.apart, v.endpts))
      v
server_call-IsValid (ssh_endpt_set_port f name port) s v r =
    store_endpts-IsValid s
      (done (nc_server_endpt_set_address_port f name none port ti_libssh s.endpts))
      (nc_server_endpt_set_address_port-EndptsOk f name none port ti_libssh s.endpts
        (v.apart, v.endpts))
      v
server_call-IsValid (ssh_del_endpt name) s v r =
    store_endpts-IsValid s (done (nc_server_del_endpt name ti_libssh s.endpts))
      (nc_server_del_endpt-EndptsOk name ti_libssh s.endpts (v.apart, v.endpts)) v
server_call-IsValid (tls_add_endpt_listen f name address port) s v r =
    store_endpts-IsValid s (nc_server_add_endpt_listen f name address port ti_openssl s.endpts)
      (nc_server_add_endpt_listen-EndptsOk f name address port ti_openssl s.endpts r.count
        (tt, tt, tt) (v.apart, v.endpts))
      v
server_call-IsValid (tls_endpt_set_address f name address) s v r =
    store_endpts-IsValid s
      (done (nc_server_endpt_set_address_port f name address 0 ti_openssl s.endpts))
      (nc_server_endpt_set_address_port-EndptsOk f name address 0 ti_openssl s.endpts
        (v.apart, v.endpts))
      v
server_call-IsValid (tls_endpt_set_port f name port) s v r =
    store_endpts-IsValid s
      (done (nc_server_endpt_set_address_port f name none port ti_openssl s.endpts))
      (nc_server_endpt_set_address_port-EndptsOk f name none port ti_openssl s.endpts
        (v.apart, v.endpts))
      v
server_call-IsValid (tls_del_endpt name) s v r =
    store_endpts-IsValid s (done (nc_server_del_endpt name ti_openssl s.endpts))
      (nc_server_del_endpt-EndptsOk name ti_openssl s.endpts (v.apart, v.endpts)) v
server_call-IsValid (ssh_endpt_set_hostkey new set name path) s v r =
    on_ssh_endpt-IsValid name (Ssh.nc_server_ssh_set_hostkey new set path) s
      (Setters.set_hostkey-Keeps new set path) v r
server_call-IsValid (ssh_ch_set_hostkey new set path) s v r =
    on_ssh_ch-IsValid (Ssh.nc_server_ssh_set_hostkey new set path) s
      (Setters.set_hostkey-Keeps new set path) v r
server_call-IsValid (ssh_endpt_set_banner new name banner) s v r =
    on_ssh_endpt-IsValid name (Ssh.nc_server_ssh_set_banner new banner) s
      (Setters.set_banner-Keeps new banner) v r
server_call-IsValid (ssh_ch_set_banner new banner) s v r =
    on_ssh_ch-IsValid (Ssh.nc_server_ssh_set_banner new banner) s
      (Setters.set_banner-Keeps new banner) v r
server_call-IsValid (ssh_endpt_set_auth_methods name m) s v r =
    on_ssh_endpt-IsValid name (Ssh.nc_server_ssh_set_auth_methods m) s
      (Setters.set_auth_methods-Keeps m) v r
server_call-IsValid (ssh_ch_set_auth_methods m) s v r =
    on_ssh_ch-IsValid (Ssh.nc_server_ssh_set_auth_methods m) s (Setters.set_auth_methods-Keeps m) v
      r
server_call-IsValid (ssh_endpt_set_auth_attempts name n) s v r =
    on_ssh_endpt-IsValid name (Ssh.nc_server_ssh_set_auth_attempts n) s
      (Setters.set_auth_attempts-Keeps n) v r
server_call-IsValid (ssh_set_ch_auth_attempts n) s v r =
    on_ssh_ch-IsValid (Ssh.nc_server_ssh_set_auth_attempts n) s (Setters.set_auth_attempts-Keeps n)
      v r
server_call-IsValid (ssh_endpt_set_auth_timeout name n) s v r =
    on_ssh_endpt-IsValid name (Ssh.nc_server_ssh_set_auth_timeout n) s
      (Setters.set_auth_timeout-Keeps n) v r
server_call-IsValid (ssh_ch_set_auth_timeout n) s v r =
    on_ssh_ch-IsValid (Ssh.nc_server_ssh_set_auth_timeout n) s (Setters.set_auth_timeout-Keeps n) v
      r
server_call-IsValid (ssh_endpt_add_authkey name path username) s v r =
    on_ssh_endpt-IsValid name (Ssh.nc_server_ssh_add_authkey path username) s
      (Setters.add_authkey-Keeps path username) v r
server_call-IsValid (ssh_ch_add_authkey path username) s v r =
    on_ssh_ch-IsValid (Ssh.nc_server_ssh_add_authkey path username) s
      (Setters.add_authkey-Keeps path username) v r
server_call-IsValid (ssh_endpt_del_authkey name path username) s v r =
    on_ssh_endpt-IsValid name (Ssh.nc_server_ssh_del_authkey path username) s
      (Setters.del_authkey-Keeps path username) v r
server_call-IsValid (ssh_ch_del_authkey path username) s v r =
    on_ssh_ch-IsValid (Ssh.nc_server_ssh_del_authkey path username) s
      (Setters.del_authkey-Keeps path username) v r
server_call-IsValid ssh_ch_clear_opts s v r =
    on_ssh_ch-IsValid Ssh.nc_server_ssh_clear_opts s Setters.ssh_clear_opts-Keeps v r
server_call-IsValid (tls_endpt_set_cert new loads name text) s v r =
    on_tls_endpt-IsValid name (Tls.nc_server_tls_set_cert new loads text) s
      (Setters.set_cert-Keeps new loads text) v
server_call-IsValid (tls_ch_set_cert new loads text) s v r =
    on_tls_ch-IsValid (Tls.nc_server_tls_set_cert new loads text) s
      (Setters.set_cert-Keeps new loads text) v
server_call-IsValid (tls_endpt_set_cert_path new loads name text) s v r =
    on_tls_endpt-IsValid name (Tls.nc_server_tls_set_cert_path new loads text) s
      (Setters.set_cert_path-Keeps new loads text) v
server_call-IsValid (tls_ch_set_cert_path new loads text) s v r =
    on_tls_ch-IsValid (Tls.nc_server_tls_set_cert_path new loads text) s
      (Setters.set_cert_path-Keeps new loads text) v
server_call-IsValid (tls_endpt_set_key new loads name text) s v r =
    on_tls_endpt-IsValid name (Tls.nc_server_tls_set_key new loads text) s
      (Setters.set_key-Keeps new loads text) v
server_call-IsValid (tls_ch_set_key new loads text) s v r =
    on_tls_ch-IsValid (Tls.nc_server_tls_set_key new loads text) s
      (Setters.set_key-Keeps new loads text) v
server_call-IsValid (tls_endpt_set_key_path new loads name text) s v r =
    on_tls_endpt-IsValid name (Tls.nc_server_tls_set_key_path new loads text) s
      (Setters.set_key_path-Keeps new loads text) v
server_call-IsValid (tls_ch_set_key_path new loads text) s v r =
    on_tls_ch-IsValid (Tls.nc_server_tls_set_key_path new loads text) s
      (Setters.set_key_path-Keeps new loads text) v
server_call-IsValid (tls_endpt_add_trusted_cert new loads name text) s v r =
    on_tls_endpt-IsValid name (Tls.nc_server_tls_add_trusted_cert new loads text) s
      (Setters.add_trusted_cert-Keeps new loads text) v
server_call-IsValid (tls_ch_add_trusted_cert new loads text) s v r =
    on_tls_ch-IsValid (Tls.nc_server_tls_add_trusted_cert new loads text) s
      (Setters.add_trusted_cert-Keeps new loads text) v
server_call-IsValid (tls_endpt_add_trusted_cert_path new loads name text) s v r =
    on_tls_endpt-IsValid name (Tls.nc_server_tls_add_trusted_cert_path new loads text) s
      (Setters.add_trusted_cert_path-Keeps new loads text) v
server_call-IsValid (tls_ch_add_trusted_cert_path new loads text) s v r =
    on_tls_ch-IsValid (Tls.nc_server_tls_add_trusted_cert_path new loads text) s
      (Setters.add_trusted_cert_path-Keeps new loads text) v
server_call-IsValid (tls_endpt_set_trusted_ca_paths new loads name file dir) s v r =
    on_tls_endpt-IsValid name (Tls.nc_server_tls_set_trusted_ca_paths new loads file dir) s
      (Setters.set_trusted_ca_paths-Keeps new loads file dir) v
server_call-IsValid (tls_ch_set_trusted_ca_paths new loads file dir) s v r =
    on_tls_ch-IsValid (Tls.nc_server_tls_set_trusted_ca_paths new loads file dir) s
      (Setters.set_trusted_ca_paths-Keeps new loads file dir) v
server_call-IsValid (tls_endpt_clear_certs name) s v r =
    on_tls_endpt-IsValid name Tls.nc_server_tls_clear_certs s Setters.clear_certs-Keeps v
server_call-IsValid tls_ch_clear_certs s v r =
    on_tls_ch-IsValid Tls.nc_server_tls_clear_certs s Setters.clear_certs-Keeps v
server_call-IsValid (tls_endpt_set_crl_paths store loads name file dir) s v r =
    on_tls_endpt-IsValid name (Tls.nc_server_tls_set_crl_paths store loads file dir) s
      (Setters.set_crl_paths-Keeps store loads file dir) v
server_call-IsValid (tls_ch_set_crl_paths store loads file dir) s v r =
    on_tls_ch-IsValid (Tls.nc_server_tls_set_crl_paths store loads file dir) s
      (Setters.set_crl_paths-Keeps store loads file dir) v
server_call-IsValid (tls_endpt_clear_crls name) s v r =
    on_tls_endpt-IsValid name Tls.nc_server_tls_clear_crls s Setters.clear_crls-Keeps v
server_call-IsValid tls_ch_clear_crls s v r =
    on_tls_ch-IsValid Tls.nc_server_tls_clear_crls s Setters.clear_crls-Keeps v
server_call-IsValid (tls_endpt_add_ctn name id fingerprint m user) s v r =
    on_tls_endpt-IsValid name (opts_add_ctn id fingerprint m user) s
      (Setters.add_ctn-Keeps id fingerprint m user) v
server_call-IsValid (tls_ch_add_ctn id fingerprint m user) s v r =
    on_tls_ch-IsValid (opts_add_ctn id fingerprint m user) s
      (Setters.add_ctn-Keeps id fingerprint m user) v
server_call-IsValid (tls_endpt_del_ctn name w) s v r =
    on_tls_endpt-IsValid name (opts_del_ctn w) s (Setters.del_ctn-Keeps w) v
server_call-IsValid (tls_ch_del_ctn w) s v r =
    on_tls_ch-IsValid (opts_del_ctn w) s (Setters.del_ctn-Keeps w) v
server_call-IsValid tls_ch_clear_opts s v r =
    on_tls_ch-IsValid Tls.nc_server_tls_clear_opts s Setters.tls_clear_opts-Keeps v
