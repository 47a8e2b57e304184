-- ===== src/Server/Options/Tls.antt =====
-- The options of TLS: the setters of src/session_server_tls.c. The argument `ssl_ctx_new` is what
-- SSL_CTX_new returns; `loads` is whether OpenSSL reads what it is given and takes it.
use libnetconf.Common.{ℕ, Bool, true, false, ◌&&◌, Option, none, some}
use libnetconf.Common.Bytes.{Bytes}
use libnetconf.Server.Certs.{MapType, unknown, Wanted, nc_server_tls_add_ctn, nc_server_tls_del_ctn}
use libnetconf.Server.Endpoints.{SslCtx, TlsOpts}
use libnetconf.Server.Options.{ServerOpts, Result, on_tls_endpt, on_tls_ch}

-- SSL_CTX_new and SSL_CTX_set_verify, if there is no context.
abbrev pub created : Option ℕ → Option SslCtx
created none = none
created (some c) = some (record { handle = c; verifies = true })

abbrev pub ctx_or : Option ℕ → Option SslCtx → Option SslCtx
ctx_or ssl_ctx_new (some c) = some c
ctx_or ssl_ctx_new none = created ssl_ctx_new

abbrev pub loaded : TlsOpts → Bool → Option SslCtx → TlsOpts × Bool
loaded o ok none = (o, false)
loaded o ok (some c) = (record o { tls_ctx = some c }, ok)

-- The shape of the functions that load one file or text into the context.
abbrev pub load_one :
    (ssl_ctx_new : Option ℕ) (loads : Bytes → Bool) → Option Bytes → TlsOpts → TlsOpts × Bool
load_one ssl_ctx_new loads none o = (o, false)
load_one ssl_ctx_new loads (some text) o = loaded o (loads text) (ctx_or ssl_ctx_new o.tls_ctx)

unfoldable pub nc_server_tls_set_cert :
    (ssl_ctx_new : Option ℕ) (loads : Bytes → Bool) → Option Bytes → TlsOpts → TlsOpts × Bool
nc_server_tls_set_cert ssl_ctx_new loads text o = load_one ssl_ctx_new loads text o

unfoldable pub nc_server_tls_set_cert_path :
    (ssl_ctx_new : Option ℕ) (loads : Bytes → Bool) → Option Bytes → TlsOpts → TlsOpts × Bool
nc_server_tls_set_cert_path ssl_ctx_new loads text o = load_one ssl_ctx_new loads text o

unfoldable pub nc_server_tls_set_key :
    (ssl_ctx_new : Option ℕ) (loads : Bytes → Bool) → Option Bytes → TlsOpts → TlsOpts × Bool
nc_server_tls_set_key ssl_ctx_new loads text o = load_one ssl_ctx_new loads text o

unfoldable pub nc_server_tls_set_key_path :
    (ssl_ctx_new : Option ℕ) (loads : Bytes → Bool) → Option Bytes → TlsOpts → TlsOpts × Bool
nc_server_tls_set_key_path ssl_ctx_new loads text o = load_one ssl_ctx_new loads text o

unfoldable pub nc_server_tls_add_trusted_cert :
    (ssl_ctx_new : Option ℕ) (loads : Bytes → Bool) → Option Bytes → TlsOpts → TlsOpts × Bool
nc_server_tls_add_trusted_cert ssl_ctx_new loads text o = load_one ssl_ctx_new loads text o

unfoldable pub nc_server_tls_add_trusted_cert_path :
    (ssl_ctx_new : Option ℕ) (loads : Bytes → Bool) → Option Bytes → TlsOpts → TlsOpts × Bool
nc_server_tls_add_trusted_cert_path ssl_ctx_new loads text o = load_one ssl_ctx_new loads text o

-- `loads` is of the file, or of the directory.
abbrev pub load_opt : (loads : Bytes → Bool) → Option Bytes → Bool
load_opt loads none = true
load_opt loads (some path) = loads path

abbrev pub load_both : (loads : Bytes → Bool) → Option Bytes → Option Bytes → Bool
load_both loads file dir = load_opt loads file && load_opt loads dir

unfoldable pub nc_server_tls_set_trusted_ca_paths :
    (ssl_ctx_new : Option ℕ) (loads : Bytes → Bool)
    → Option Bytes
    → Option Bytes
    → TlsOpts
    → TlsOpts × Bool
nc_server_tls_set_trusted_ca_paths ssl_ctx_new loads none none o = (o, false)
nc_server_tls_set_trusted_ca_paths ssl_ctx_new loads none (some dir) o =
    loaded o (load_both loads none (some dir)) (ctx_or ssl_ctx_new o.tls_ctx)
nc_server_tls_set_trusted_ca_paths ssl_ctx_new loads (some file) dir o =
    loaded o (load_both loads (some file) dir) (ctx_or ssl_ctx_new o.tls_ctx)

unfoldable pub nc_server_tls_clear_certs : TlsOpts → TlsOpts × Bool
nc_server_tls_clear_certs o = (record o { tls_ctx = none }, true)

-- X509_STORE_new returns `store`.
abbrev pub store_or : ℕ → Option ℕ → Option ℕ
store_or store none = some store
store_or store (some old) = some old

unfoldable pub nc_server_tls_set_crl_paths :
    (store : ℕ) (loads : Bytes → Bool) → Option Bytes → Option Bytes → TlsOpts → TlsOpts × Bool
nc_server_tls_set_crl_paths store loads none none o = (o, false)
nc_server_tls_set_crl_paths store loads none (some dir) o =
    (record o { crl_store = store_or store o.crl_store }, load_both loads none (some dir))
nc_server_tls_set_crl_paths store loads (some file) dir o =
    (record o { crl_store = store_or store o.crl_store }, load_both loads (some file) dir)

unfoldable pub nc_server_tls_clear_crls : TlsOpts → TlsOpts × Bool
nc_server_tls_clear_crls o = (record o { crl_store = none }, true)

-- A call of nc_server_tls_add_ctn or nc_server_tls_del_ctn on the list of the options.
abbrev pub opts_add_ctn : ℕ → Option Bytes → MapType → Option Bytes → TlsOpts → TlsOpts × Bool
opts_add_ctn id fingerprint m name o =
    let (ctn, ret) = nc_server_tls_add_ctn id fingerprint m name o.ctn in
    (record o { ctn = ctn }, ret)

abbrev pub opts_del_ctn : Wanted → TlsOpts → TlsOpts × Bool
opts_del_ctn w o = let (ctn, ret) = nc_server_tls_del_ctn w o.ctn in (record o { ctn = ctn }, ret)

abbrev pub any_ctn : Wanted
any_ctn = record { id = none; fingerprint = none; map_type = unknown; name = none }

unfoldable pub nc_server_tls_clear_opts : TlsOpts → TlsOpts × Bool
nc_server_tls_clear_opts o =
    ((opts_del_ctn any_ctn (nc_server_tls_clear_crls (nc_server_tls_clear_certs o).0).0).0, true)

unfoldable pub nc_server_tls_endpt_set_cert :
    (ssl_ctx_new : Option ℕ) (loads : Bytes → Bool) → Bytes → Option Bytes → ServerOpts → Result
nc_server_tls_endpt_set_cert ssl_ctx_new loads name text s =
    on_tls_endpt name (nc_server_tls_set_cert ssl_ctx_new loads text) s

unfoldable pub nc_server_tls_ch_set_cert :
    (ssl_ctx_new : Option ℕ) (loads : Bytes → Bool) → Option Bytes → ServerOpts → Result
nc_server_tls_ch_set_cert ssl_ctx_new loads text s =
    on_tls_ch (nc_server_tls_set_cert ssl_ctx_new loads text) s

unfoldable pub nc_server_tls_endpt_set_cert_path :
    (ssl_ctx_new : Option ℕ) (loads : Bytes → Bool) → Bytes → Option Bytes → ServerOpts → Result
nc_server_tls_endpt_set_cert_path ssl_ctx_new loads name text s =
    on_tls_endpt name (nc_server_tls_set_cert_path ssl_ctx_new loads text) s

unfoldable pub nc_server_tls_ch_set_cert_path :
    (ssl_ctx_new : Option ℕ) (loads : Bytes → Bool) → Option Bytes → ServerOpts → Result
nc_server_tls_ch_set_cert_path ssl_ctx_new loads text s =
    on_tls_ch (nc_server_tls_set_cert_path ssl_ctx_new loads text) s

unfoldable pub nc_server_tls_endpt_set_key :
    (ssl_ctx_new : Option ℕ) (loads : Bytes → Bool) → Bytes → Option Bytes → ServerOpts → Result
nc_server_tls_endpt_set_key ssl_ctx_new loads name text s =
    on_tls_endpt name (nc_server_tls_set_key ssl_ctx_new loads text) s

unfoldable pub nc_server_tls_ch_set_key :
    (ssl_ctx_new : Option ℕ) (loads : Bytes → Bool) → Option Bytes → ServerOpts → Result
nc_server_tls_ch_set_key ssl_ctx_new loads text s =
    on_tls_ch (nc_server_tls_set_key ssl_ctx_new loads text) s

unfoldable pub nc_server_tls_endpt_set_key_path :
    (ssl_ctx_new : Option ℕ) (loads : Bytes → Bool) → Bytes → Option Bytes → ServerOpts → Result
nc_server_tls_endpt_set_key_path ssl_ctx_new loads name text s =
    on_tls_endpt name (nc_server_tls_set_key_path ssl_ctx_new loads text) s

unfoldable pub nc_server_tls_ch_set_key_path :
    (ssl_ctx_new : Option ℕ) (loads : Bytes → Bool) → Option Bytes → ServerOpts → Result
nc_server_tls_ch_set_key_path ssl_ctx_new loads text s =
    on_tls_ch (nc_server_tls_set_key_path ssl_ctx_new loads text) s

unfoldable pub nc_server_tls_endpt_add_trusted_cert :
    (ssl_ctx_new : Option ℕ) (loads : Bytes → Bool) → Bytes → Option Bytes → ServerOpts → Result
nc_server_tls_endpt_add_trusted_cert ssl_ctx_new loads name text s =
    on_tls_endpt name (nc_server_tls_add_trusted_cert ssl_ctx_new loads text) s

unfoldable pub nc_server_tls_ch_add_trusted_cert :
    (ssl_ctx_new : Option ℕ) (loads : Bytes → Bool) → Option Bytes → ServerOpts → Result
nc_server_tls_ch_add_trusted_cert ssl_ctx_new loads text s =
    on_tls_ch (nc_server_tls_add_trusted_cert ssl_ctx_new loads text) s

unfoldable pub nc_server_tls_endpt_add_trusted_cert_path :
    (ssl_ctx_new : Option ℕ) (loads : Bytes → Bool) → Bytes → Option Bytes → ServerOpts → Result
nc_server_tls_endpt_add_trusted_cert_path ssl_ctx_new loads name text s =
    on_tls_endpt name (nc_server_tls_add_trusted_cert_path ssl_ctx_new loads text) s

unfoldable pub nc_server_tls_ch_add_trusted_cert_path :
    (ssl_ctx_new : Option ℕ) (loads : Bytes → Bool) → Option Bytes → ServerOpts → Result
nc_server_tls_ch_add_trusted_cert_path ssl_ctx_new loads text s =
    on_tls_ch (nc_server_tls_add_trusted_cert_path ssl_ctx_new loads text) s

unfoldable pub nc_server_tls_endpt_set_trusted_ca_paths :
    (ssl_ctx_new : Option ℕ) (loads : Bytes → Bool)
    → Bytes
    → Option Bytes
    → Option Bytes
    → ServerOpts
    → Result
nc_server_tls_endpt_set_trusted_ca_paths ssl_ctx_new loads name file dir s =
    on_tls_endpt name (nc_server_tls_set_trusted_ca_paths ssl_ctx_new loads file dir) s

unfoldable pub nc_server_tls_ch_set_trusted_ca_paths :
    (ssl_ctx_new : Option ℕ) (loads : Bytes → Bool)
    → Option Bytes
    → Option Bytes
    → ServerOpts
    → Result
nc_server_tls_ch_set_trusted_ca_paths ssl_ctx_new loads file dir s =
    on_tls_ch (nc_server_tls_set_trusted_ca_paths ssl_ctx_new loads file dir) s

unfoldable pub nc_server_tls_endpt_clear_certs : Bytes → ServerOpts → Result
nc_server_tls_endpt_clear_certs name s = on_tls_endpt name nc_server_tls_clear_certs s

unfoldable pub nc_server_tls_ch_clear_certs : ServerOpts → Result
nc_server_tls_ch_clear_certs s = on_tls_ch nc_server_tls_clear_certs s

unfoldable pub nc_server_tls_endpt_set_crl_paths :
    (store : ℕ) (loads : Bytes → Bool) → Bytes → Option Bytes → Option Bytes → ServerOpts → Result
nc_server_tls_endpt_set_crl_paths store loads name file dir s =
    on_tls_endpt name (nc_server_tls_set_crl_paths store loads file dir) s

unfoldable pub nc_server_tls_ch_set_crl_paths :
    (store : ℕ) (loads : Bytes → Bool) → Option Bytes → Option Bytes → ServerOpts → Result
nc_server_tls_ch_set_crl_paths store loads file dir s =
    on_tls_ch (nc_server_tls_set_crl_paths store loads file dir) s

unfoldable pub nc_server_tls_endpt_clear_crls : Bytes → ServerOpts → Result
nc_server_tls_endpt_clear_crls name s = on_tls_endpt name nc_server_tls_clear_crls s

unfoldable pub nc_server_tls_ch_clear_crls : ServerOpts → Result
nc_server_tls_ch_clear_crls s = on_tls_ch nc_server_tls_clear_crls s

unfoldable pub nc_server_tls_endpt_add_ctn :
    Bytes → ℕ → Option Bytes → MapType → Option Bytes → ServerOpts → Result
nc_server_tls_endpt_add_ctn name id fingerprint m name' s =
    on_tls_endpt name (opts_add_ctn id fingerprint m name') s

unfoldable pub nc_server_tls_ch_add_ctn :
    ℕ → Option Bytes → MapType → Option Bytes → ServerOpts → Result
nc_server_tls_ch_add_ctn id fingerprint m name' s =
    on_tls_ch (opts_add_ctn id fingerprint m name') s

unfoldable pub nc_server_tls_endpt_del_ctn : Bytes → Wanted → ServerOpts → Result
nc_server_tls_endpt_del_ctn name w s = on_tls_endpt name (opts_del_ctn w) s

unfoldable pub nc_server_tls_ch_del_ctn : Wanted → ServerOpts → Result
nc_server_tls_ch_del_ctn w s = on_tls_ch (opts_del_ctn w) s

unfoldable pub nc_server_tls_ch_clear_opts : ServerOpts → Result
nc_server_tls_ch_clear_opts s = on_tls_ch nc_server_tls_clear_opts s
