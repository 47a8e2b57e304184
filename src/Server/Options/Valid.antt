-- ===== src/Server/Options/Valid.antt =====
-- When the configuration is valid.
use libnetconf.Common.{◌+◌, ◌<◌, ◌^◌, ◌≡◌, Bool, true, false, All, Option, none, some, length}
use libnetconf.Session.{TransportImpl, ti_none, ti_fd, ti_libssh, ti_openssl}
use libnetconf.Server.Poll.{Done, done, undefined}
use libnetconf.Server.Certs.Sorted.{IsSorted, HasName}
use libnetconf.Server.Endpoints.{
  Endpt, SshOpts, SslCtx, TlsOpts, TiOpts, ssh_opts, tls_opts, no_opts,
}
use libnetconf.Server.Endpoints.Keyed.{AreApart}
use libnetconf.Server.Options.{ServerOpts}
use libnetconf.Server.Options.Ssh.{no_method}

-- At least one method, one attempt and one second.
abbrev pub SshOk : SshOpts → Type 0
SshOk o = (no_method o.auth_methods ≡ false) × (0 < o.auth_attempts) × (0 < o.auth_timeout)

abbrev pub CtxOk : Option SslCtx → Type 0
CtxOk none = Unit {0}
CtxOk (some c) = c.verifies ≡ true

-- A context asks the client for a certificate; the cert-to-name list is sorted, and exactly its
-- entries with a specified mapping have a name.
abbrev pub TlsOk : TlsOpts → Type 0
TlsOk o = CtxOk o.tls_ctx × IsSorted o.ctn × All HasName o.ctn

-- The `void *` has the type that the transport stands for.
abbrev pub OptsOk : TransportImpl → TiOpts → Type 0
OptsOk ti_libssh (ssh_opts o) = SshOk o
OptsOk ti_libssh (tls_opts o) = ⊥
OptsOk ti_libssh no_opts = ⊥
OptsOk ti_openssl (ssh_opts o) = ⊥
OptsOk ti_openssl (tls_opts o) = TlsOk o
OptsOk ti_openssl no_opts = ⊥
OptsOk ti_none o = ⊥
OptsOk ti_fd o = ⊥

abbrev pub EndptOk : Endpt → Type 0
EndptOk e = (0 < e.port) × OptsOk e.ti e.ti_opts

pub record IsValid (s : ServerOpts) : Type 0 where
  pub apart : AreApart s.endpts
  pub endpts : All EndptOk s.endpts
  pub ssh_ch : SshOk s.ssh_ch_opts
  pub tls_ch : TlsOk s.tls_ch_opts

-- The counts, of 16 bits, can grow by one.
abbrev pub SshRoom : SshOpts → Type 0
SshRoom o = length o.authkeys + 1 < 2 ^ 16

abbrev pub OptsRoom : TiOpts → Type 0
OptsRoom (ssh_opts o) = SshRoom o
OptsRoom (tls_opts o) = Unit {0}
OptsRoom no_opts = Unit {0}

abbrev pub EndptRoom : Endpt → Type 0
EndptRoom e = OptsRoom e.ti_opts

pub record HasRoom (s : ServerOpts) : Type 0 where
  pub count : length s.endpts + 1 < 2 ^ 16
  pub keys : All EndptRoom s.endpts
  pub ch_keys : SshRoom s.ssh_ch_opts

-- The behaviour is defined, and the new state is as it should be.
abbrev pub Returns : {A : Type 0} → (A → Type 0) → Done (A × Bool) → Type 0
Returns P (done (a, ret)) = P a
Returns P undefined = ⊥
