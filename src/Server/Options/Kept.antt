-- ===== src/Server/Options/Kept.antt =====
-- The functions on the options of an endpoint, or on those for call home, keep a configuration
-- valid.
use libnetconf.Common.{
  ◌≡◌, inl, inr, refl, sym, subst, Bool, true, List, [], ◌∷◌, All, some, arith, Bool-cases,
  Option-cases,
}
use libnetconf.Common.Bytes.{Bytes}
use libnetconf.Session.{TransportImpl, ti_libssh, ti_openssl}
use libnetconf.Server.Poll.{Done, done, undefined}
use libnetconf.Server.Endpoints.{
  Endpt, SshOpts, TlsOpts, TiOpts, ssh_opts, tls_opts, no_opts, is_endpt, find_endpt, change,
  nc_server_endpt_lock,
}
use libnetconf.Server.Endpoints.Keyed.{same_key→eq, Differ, AreApart}
use libnetconf.Server.Options.{
  ServerOpts, with_opts, store_opts, store_ssh, cast_ssh, cast_tls, on_ssh_endpt, on_tls_endpt,
  store_ssh_ch, on_ssh_ch, on_tls_ch,
}
use libnetconf.Server.Options.Valid.{
  SshOk, TlsOk, OptsOk, EndptOk, IsValid, SshRoom, OptsRoom, EndptRoom, HasRoom, Returns,
}

find_endpt-Is :
    (test : Endpt → Bool) (es : List Endpt) (e : Endpt)
    → find_endpt test es ≡ some e
    → test e ≡ true
find_endpt-Is test [] e h = cc
find_endpt-Is test (x ∷ xs) e h = ground (arith, find_endpt-Is test xs e)

find_endpt-All :
    (P : Endpt → Type 0) (test : Endpt → Bool) (es : List Endpt) (e : Endpt)
    → find_endpt test es ≡ some e
    → All P es
    → P e
find_endpt-All P test [] e h a = cc
find_endpt-All P test (x ∷ xs) e h a = elim (Bool-cases (test x)) [
  | inl b ↦ let f : some x ≡ some e = rw b at h in subst P (cc) a.0
  | inr b ↦ find_endpt-All P test xs e (rw b at h) a.1
]

pub change-All :
    (P : Endpt → Type 0) (test : Endpt → Bool) (f : Endpt → Endpt) (es : List Endpt)
    → ((e : Endpt) → test e ≡ true → P e → P (f e))
    → All P es
    → All P (change test f es)
change-All P test f [] k a = tt
change-All P test f (x ∷ xs) k a = elim (Bool-cases (test x)) [
  | inl b ↦ rw b (k x b a.0, a.1)
  | inr b ↦ rw b (a.0, change-All P test f xs k a.1)
]

pub is_endpt-ti : (n : Bytes) (t : TransportImpl) (e : Endpt) → is_endpt n t e ≡ true → e.ti ≡ t
unfolding is_endpt
is_endpt-ti n t e h = (same_key→eq n t e.name e.ti h).1

-- A change that keeps each endpoint's name and transport.
abbrev pub KeepsKey : (Endpt → Endpt) → Type 0
KeepsKey f = (e : Endpt) → ((f e).name ≡ e.name) × ((f e).ti ≡ e.ti)

Differ-KeepsKey : (f : Endpt → Endpt) (x e : Endpt) → KeepsKey f → Differ x e → Differ x (f e)
unfolding is_endpt
Differ-KeepsKey f x e k h = let (a, b) = k e in rw (a, b) h

All-Differ :
    (f : Endpt → Endpt) (x : Endpt) (es : List Endpt)
    → KeepsKey f
    → All (Differ x) es
    → All (Differ (f x)) es
All-Differ f x es k h = let (a, b) = k x in rw (a, b) h

pub change-AreApart :
    (test : Endpt → Bool) (f : Endpt → Endpt) (es : List Endpt)
    → KeepsKey f
    → AreApart es
    → AreApart (change test f es)
change-AreApart test f [] k a = tt
change-AreApart test f (x ∷ xs) k a = elim (Bool-cases (test x)) [
  | inl b ↦ rw b (All-Differ f x xs k a.0, a.1)
  | inr b ↦ rw b (
    change-All (Differ x) test f xs (λ e _. Differ-KeepsKey f x e k) a.0,
    change-AreApart test f xs k a.1,
  )
]

store_opts-IsValid :
    (name : Bytes) (e : Endpt) (s : ServerOpts) (o : TiOpts)
    → OptsOk e.ti o
    → IsValid s
    → IsValid (store_opts name e s (o, true)).0
store_opts-IsValid name e s o h v = record {
  apart = change-AreApart (is_endpt name e.ti) (with_opts o) s.endpts (λ x. (refl, refl)) v.apart;
  endpts =
      change-All EndptOk (is_endpt name e.ti) (with_opts o) s.endpts (λ x b p. (p.0, stored x b))
        v.endpts;
  ssh_ch = v.ssh_ch;
  tls_ch = v.tls_ch;
}
  where
    stored : (x : Endpt) → is_endpt name e.ti x ≡ true → OptsOk x.ti o
    stored x b = subst (λ t. OptsOk t o) (sym (is_endpt-ti name e.ti x b)) h

-- A function on options that is defined and keeps them valid, where the counts can grow.
abbrev pub KeepsSsh : (SshOpts → Done (SshOpts × Bool)) → Type 0
KeepsSsh f = (o : SshOpts) → SshOk o → SshRoom o → Returns SshOk (f o)

abbrev pub KeepsTls : (TlsOpts → TlsOpts × Bool) → Type 0
KeepsTls f = (o : TlsOpts) → TlsOk o → TlsOk (f o).0

store_ssh-IsValid :
    (name : Bytes) (e : Endpt) (s : ServerOpts) (r : Done (SshOpts × Bool))
    → e.ti ≡ ti_libssh
    → Returns SshOk r
    → IsValid s
    → Returns IsValid (store_ssh name e s r)
store_ssh-IsValid name e s undefined t h v = h
store_ssh-IsValid name e s (done (o, ret)) t h v =
    store_opts-IsValid name e s (ssh_opts o) (subst (λ u. OptsOk u (ssh_opts o)) (sym t) h) v

cast_ssh-IsValid :
    (name : Bytes) (f : SshOpts → Done (SshOpts × Bool)) (s : ServerOpts) (e : Endpt) (o : TiOpts)
    → KeepsSsh f
    → e.ti ≡ ti_libssh
    → OptsOk ti_libssh o
    → OptsRoom o
    → IsValid s
    → Returns IsValid (cast_ssh name f s e o)
cast_ssh-IsValid name f s e (ssh_opts o) k t h m v = store_ssh-IsValid name e s (f o) t (k o h m) v
cast_ssh-IsValid name f s e (tls_opts o) k t h m v = h
cast_ssh-IsValid name f s e no_opts k t h m v = h

cast_tls-IsValid :
    (name : Bytes) (f : TlsOpts → TlsOpts × Bool) (s : ServerOpts) (e : Endpt) (o : TiOpts)
    → KeepsTls f
    → e.ti ≡ ti_openssl
    → OptsOk ti_openssl o
    → IsValid s
    → Returns IsValid (cast_tls name f s e o)
cast_tls-IsValid name f s e (tls_opts o) k t h v =
    store_opts-IsValid name e s (tls_opts (f o).0)
      (subst (λ u. OptsOk u (tls_opts (f o).0)) (sym t) (k o h)) v
cast_tls-IsValid name f s e (ssh_opts o) k t h v = h
cast_tls-IsValid name f s e no_opts k t h v = h

pub on_ssh_endpt-IsValid :
    (name : Bytes) (f : SshOpts → Done (SshOpts × Bool)) (s : ServerOpts)
    → KeepsSsh f
    → IsValid s
    → HasRoom s
    → Returns IsValid (on_ssh_endpt name f s)
unfolding on_ssh_endpt nc_server_endpt_lock
on_ssh_endpt-IsValid name f s k v m =
    elim (Option-cases (find_endpt (is_endpt name ti_libssh) s.endpts)) [
      | inl n ↦ rw n v
      | inr (e, l) ↦
          let t : e.ti ≡ ti_libssh =
            is_endpt-ti name ti_libssh e (find_endpt-Is (is_endpt name ti_libssh) s.endpts e l) in
          let ok = find_endpt-All EndptOk (is_endpt name ti_libssh) s.endpts e l v.endpts in
          let room = find_endpt-All EndptRoom (is_endpt name ti_libssh) s.endpts e l m.keys in
          rw l (
            cast_ssh-IsValid name f s e e.ti_opts k t (subst (λ u. OptsOk u e.ti_opts) t ok.1) room
              v)
    ]

pub on_tls_endpt-IsValid :
    (name : Bytes) (f : TlsOpts → TlsOpts × Bool) (s : ServerOpts)
    → KeepsTls f
    → IsValid s
    → Returns IsValid (on_tls_endpt name f s)
unfolding on_tls_endpt nc_server_endpt_lock
on_tls_endpt-IsValid name f s k v =
    elim (Option-cases (find_endpt (is_endpt name ti_openssl) s.endpts)) [
      | inl n ↦ rw n v
      | inr (e, l) ↦
          let t : e.ti ≡ ti_openssl =
            is_endpt-ti name ti_openssl e (find_endpt-Is (is_endpt name ti_openssl) s.endpts e l) in
          let ok = find_endpt-All EndptOk (is_endpt name ti_openssl) s.endpts e l v.endpts in
          rw l
            (cast_tls-IsValid name f s e e.ti_opts k t (subst (λ u. OptsOk u e.ti_opts) t ok.1) v)
    ]

store_ssh_ch-IsValid :
    (s : ServerOpts) (r : Done (SshOpts × Bool))
    → Returns SshOk r
    → IsValid s
    → Returns IsValid (store_ssh_ch s r)
store_ssh_ch-IsValid s undefined h v = h
store_ssh_ch-IsValid s (done (o, ret)) h v = record {
  apart = v.apart;
  endpts = v.endpts;
  ssh_ch = h;
  tls_ch = v.tls_ch;
}

pub on_ssh_ch-IsValid :
    (f : SshOpts → Done (SshOpts × Bool)) (s : ServerOpts)
    → KeepsSsh f
    → IsValid s
    → HasRoom s
    → Returns IsValid (on_ssh_ch f s)
unfolding on_ssh_ch
on_ssh_ch-IsValid f s k v m =
    store_ssh_ch-IsValid s (f s.ssh_ch_opts) (k s.ssh_ch_opts v.ssh_ch m.ch_keys) v

pub on_tls_ch-IsValid :
    (f : TlsOpts → TlsOpts × Bool) (s : ServerOpts)
    → KeepsTls f
    → IsValid s
    → Returns IsValid (on_tls_ch f s)
unfolding on_tls_ch
on_tls_ch-IsValid f s k v = record {
  apart = v.apart;
  endpts = v.endpts;
  ssh_ch = v.ssh_ch;
  tls_ch = k s.tls_ch_opts v.tls_ch;
}
