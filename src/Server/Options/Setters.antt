-- ===== src/Server/Options/Setters.antt =====
-- Each setter of the options of SSH and of TLS keeps them valid.
use libnetconf.Common.{
  ℕ, ◌+◌, ◌^◌, ◌%◌, ◌≡◌, refl, sym, subst, Bool, false, true, ◌==◌, inl, inr, List, All, Option,
  none, some, arith, Bool-cases, length,
}
use libnetconf.Common.Bytes.{Bytes}
use libnetconf.Server.Certs.{Ctn, MapType, Wanted, nc_server_tls_del_ctn}
use libnetconf.Server.Certs.Sorted.{
  IsSorted, HasName, nc_server_tls_add_ctn-IsSorted, nc_server_tls_add_ctn-HasName,
}
use libnetconf.Server.Certs.Removed.{All-kept, kept-IsSorted, nc_server_tls_del_ctn-kept}
use libnetconf.Server.Endpoints.{SshOpts, SslCtx, TlsOpts}
use libnetconf.Server.Options.Ssh
use libnetconf.Server.Options.Ssh.{bound, bind_or, no_method}
use libnetconf.Server.Options.Tls
use libnetconf.Server.Options.Tls.{
  created, ctx_or, loaded, load_one, load_both, opts_add_ctn, opts_del_ctn, any_ctn,
}
use libnetconf.Server.Options.Valid.{SshOk, CtxOk, TlsOk, Returns}
use libnetconf.Server.Options.Kept.{KeepsSsh, KeepsTls}

bound-SshOk : (o : SshOpts) (ok : Bool) (b : Option ℕ) → SshOk o → Returns SshOk (bound o ok b)
bound-SshOk o ok none h = h
bound-SshOk o ok (some b) h = h

pub set_hostkey-Keeps :
    (new : Option ℕ) (set : Bytes → Bool) (path : Option Bytes)
    → KeepsSsh (Ssh.nc_server_ssh_set_hostkey new set path)
unfolding Ssh.nc_server_ssh_set_hostkey
set_hostkey-Keeps new set none o h m = h
set_hostkey-Keeps new set (some path) o h m = bound-SshOk o (set path) (bind_or new o.sshbind) h

pub set_banner-Keeps :
    (new : Option ℕ) (banner : Option Bytes) → KeepsSsh (Ssh.nc_server_ssh_set_banner new banner)
unfolding Ssh.nc_server_ssh_set_banner
set_banner-Keeps new none o h m = h
set_banner-Keeps new (some banner) o h m = bound-SshOk o true (bind_or new o.sshbind) h

pub set_auth_methods-Keeps : (m : ℕ) → KeepsSsh (Ssh.nc_server_ssh_set_auth_methods m)
unfolding Ssh.nc_server_ssh_set_auth_methods
set_auth_methods-Keeps m o h r = elim (Bool-cases (no_method m)) [
  | inl b ↦ rw b h
  | inr b ↦ rw b (b, h.1, h.2)
]

pub set_auth_attempts-Keeps : (n : ℕ) → KeepsSsh (Ssh.nc_server_ssh_set_auth_attempts n)
unfolding Ssh.nc_server_ssh_set_auth_attempts
set_auth_attempts-Keeps n o h r = elim (Bool-cases (n == 0)) [
  | inl b ↦ rw b h
  | inr b ↦ rw b (h.0, ground arith, h.2)
]

pub set_auth_timeout-Keeps : (n : ℕ) → KeepsSsh (Ssh.nc_server_ssh_set_auth_timeout n)
unfolding Ssh.nc_server_ssh_set_auth_timeout
set_auth_timeout-Keeps n o h r = elim (Bool-cases (n == 0)) [
  | inl b ↦ rw b h
  | inr b ↦ rw b (h.0, h.1, ground arith)
]

pub add_authkey-Keeps :
    (path username : Option Bytes) → KeepsSsh (Ssh.nc_server_ssh_add_authkey path username)
unfolding Ssh.nc_server_ssh_add_authkey
add_authkey-Keeps none username o h r = h
add_authkey-Keeps (some path) none o h r = h
add_authkey-Keeps (some path) (some username) o h r =
    let room : ((length o.authkeys + 1) % 2 ^ 16 == 0) ≡ false = ground arith in rw room h

pub del_authkey-Keeps :
    (path username : Option Bytes) → KeepsSsh (Ssh.nc_server_ssh_del_authkey path username)
unfolding Ssh.nc_server_ssh_del_authkey
del_authkey-Keeps path username o h r = h

pub ssh_clear_opts-Keeps : KeepsSsh Ssh.nc_server_ssh_clear_opts
unfolding Ssh.nc_server_ssh_clear_opts
ssh_clear_opts-Keeps o h r = h

loaded-TlsOk :
    (o : TlsOpts) (ok : Bool) (c : Option SslCtx) → CtxOk c → TlsOk o → TlsOk (loaded o ok c).0
loaded-TlsOk o ok none k h = h
loaded-TlsOk o ok (some c) k h = (k, h.1, h.2)

ctx_or-CtxOk : (new : Option ℕ) (c : Option SslCtx) → CtxOk c → CtxOk (ctx_or new c)
ctx_or-CtxOk new (some c) k = k
ctx_or-CtxOk none none k = k
ctx_or-CtxOk (some n) none k = refl

load_one-Keeps :
    (new : Option ℕ) (loads : Bytes → Bool) (text : Option Bytes)
    → KeepsTls (load_one new loads text)
load_one-Keeps new loads none o h = h
load_one-Keeps new loads (some text) o h =
    loaded-TlsOk o (loads text) (ctx_or new o.tls_ctx) (ctx_or-CtxOk new o.tls_ctx h.0) h

pub set_cert-Keeps :
    (new : Option ℕ) (loads : Bytes → Bool) (text : Option Bytes)
    → KeepsTls (Tls.nc_server_tls_set_cert new loads text)
unfolding Tls.nc_server_tls_set_cert
set_cert-Keeps new loads text o h = load_one-Keeps new loads text o h

pub set_cert_path-Keeps :
    (new : Option ℕ) (loads : Bytes → Bool) (text : Option Bytes)
    → KeepsTls (Tls.nc_server_tls_set_cert_path new loads text)
unfolding Tls.nc_server_tls_set_cert_path
set_cert_path-Keeps new loads text o h = load_one-Keeps new loads text o h

pub set_key-Keeps :
    (new : Option ℕ) (loads : Bytes → Bool) (text : Option Bytes)
    → KeepsTls (Tls.nc_server_tls_set_key new loads text)
unfolding Tls.nc_server_tls_set_key
set_key-Keeps new loads text o h = load_one-Keeps new loads text o h

pub set_key_path-Keeps :
    (new : Option ℕ) (loads : Bytes → Bool) (text : Option Bytes)
    → KeepsTls (Tls.nc_server_tls_set_key_path new loads text)
unfolding Tls.nc_server_tls_set_key_path
set_key_path-Keeps new loads text o h = load_one-Keeps new loads text o h

pub add_trusted_cert-Keeps :
    (new : Option ℕ) (loads : Bytes → Bool) (text : Option Bytes)
    → KeepsTls (Tls.nc_server_tls_add_trusted_cert new loads text)
unfolding Tls.nc_server_tls_add_trusted_cert
add_trusted_cert-Keeps new loads text o h = load_one-Keeps new loads text o h

pub add_trusted_cert_path-Keeps :
    (new : Option ℕ) (loads : Bytes → Bool) (text : Option Bytes)
    → KeepsTls (Tls.nc_server_tls_add_trusted_cert_path new loads text)
unfolding Tls.nc_server_tls_add_trusted_cert_path
add_trusted_cert_path-Keeps new loads text o h = load_one-Keeps new loads text o h

pub set_trusted_ca_paths-Keeps :
    (new : Option ℕ) (loads : Bytes → Bool) (file dir : Option Bytes)
    → KeepsTls (Tls.nc_server_tls_set_trusted_ca_paths new loads file dir)
unfolding Tls.nc_server_tls_set_trusted_ca_paths
set_trusted_ca_paths-Keeps new loads none none o h = h
set_trusted_ca_paths-Keeps new loads none (some dir) o h =
    loaded-TlsOk o (load_both loads none (some dir)) (ctx_or new o.tls_ctx)
      (ctx_or-CtxOk new o.tls_ctx h.0) h
set_trusted_ca_paths-Keeps new loads (some file) dir o h =
    loaded-TlsOk o (load_both loads (some file) dir) (ctx_or new o.tls_ctx)
      (ctx_or-CtxOk new o.tls_ctx h.0) h

pub clear_certs-Keeps : KeepsTls Tls.nc_server_tls_clear_certs
unfolding Tls.nc_server_tls_clear_certs
clear_certs-Keeps o h = (tt, h.1, h.2)

pub set_crl_paths-Keeps :
    (store : ℕ) (loads : Bytes → Bool) (file dir : Option Bytes)
    → KeepsTls (Tls.nc_server_tls_set_crl_paths store loads file dir)
unfolding Tls.nc_server_tls_set_crl_paths
set_crl_paths-Keeps store loads none none o h = h
set_crl_paths-Keeps store loads none (some dir) o h = h
set_crl_paths-Keeps store loads (some file) dir o h = h

pub clear_crls-Keeps : KeepsTls Tls.nc_server_tls_clear_crls
unfolding Tls.nc_server_tls_clear_crls
clear_crls-Keeps o h = h

pub add_ctn-Keeps :
    (id : ℕ) (fingerprint : Option Bytes) (m : MapType) (user : Option Bytes)
    → KeepsTls (opts_add_ctn id fingerprint m user)
add_ctn-Keeps id fingerprint m user o h = (
  h.0,
  nc_server_tls_add_ctn-IsSorted id fingerprint m user o.ctn h.1,
  nc_server_tls_add_ctn-HasName id fingerprint m user o.ctn h.1 h.2,
)

CtnsOk : List Ctn → Type 0
CtnsOk cs = IsSorted cs × All HasName cs

pub del_ctn-Keeps : (w : Wanted) → KeepsTls (opts_del_ctn w)
unfolding CtnsOk
del_ctn-Keeps w o h =
    let ok : CtnsOk (nc_server_tls_del_ctn w o.ctn).0 =
      subst (λ r. CtnsOk r.0) (sym (nc_server_tls_del_ctn-kept w o.ctn))
        (kept-IsSorted w o.ctn h.1, All-kept HasName w o.ctn h.2) in
    (h.0, ok.0, ok.1)

pub tls_clear_opts-Keeps : KeepsTls Tls.nc_server_tls_clear_opts
unfolding Tls.nc_server_tls_clear_opts Tls.nc_server_tls_clear_crls Tls.nc_server_tls_clear_certs
tls_clear_opts-Keeps o h =
    del_ctn-Keeps any_ctn (record o { tls_ctx = none; crl_store = none }) (tt, h.1, h.2)
