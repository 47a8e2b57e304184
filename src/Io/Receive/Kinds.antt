-- ===== src/Io/Receive/Kinds.antt =====
-- What nc_read_msg returns.
use libnetconf.Common.{
  ℕ, ◌<◌, ◌≡◌, inl, inr, refl, ◌∙◌, ap, true, List, ◌++◌, Option, none, some, if◌then◌else◌, arith,
  Bool-cases, All,
}
use libnetconf.Common.Bytes.{Bytes, codes, bytes_eq, bytes_eq→eq}
use libnetconf.Session.{Session, is_live}
use libnetconf.Session.Xml.{Elem, name_of, ns_of}
use libnetconf.Io.Read.{Result, ok, error, fault, stuck}
use libnetconf.Io.Read.Stream.{weight}
use libnetconf.Io.Read.Total.{budget}
use libnetconf.Io.Read.Exact.{IsReady}
use libnetconf.Io.Read.Ends.{Keeps}
use libnetconf.Io.Frame.{Framed, read_framed, message, malformed}
use libnetconf.Io.Frame.Ends.{read_framed-Keeps}
use libnetconf.Io.Message.{Piece, Message, plan, writes, nc_write_msg, ns_base, ns_notif}
use libnetconf.Io.Message.Wire.{document, IsSized, IsCarried, write-read}
use libnetconf.Io.Write.Up.{IsUp}
use libnetconf.Io.Receive.{
  MsgType, msg_error, msg_hello, msg_rpc, msg_reply, msg_notif, Received, received, overran,
  out_of_fuel, msg_type, malformed_msg, classify, after_frame, nc_read_msg,
}

-- The root element of a message of the type.
abbrev pub IsRoot : MsgType → Elem → Type 0
IsRoot msg_rpc x = (ns_of x ≡ some ns_base) × (name_of x ≡ codes "rpc")
IsRoot msg_reply x = (ns_of x ≡ some ns_base) × (name_of x ≡ codes "rpc-reply")
IsRoot msg_hello x = (ns_of x ≡ some ns_base) × (name_of x ≡ codes "hello")
IsRoot msg_notif x = (ns_of x ≡ some ns_notif) × (name_of x ≡ codes "notification")
IsRoot _ x = ⊥

msg_type-IsRoot : (x : Elem) (ty : MsgType) → msg_type x ≡ some ty → IsRoot ty x
unfolding msg_type
msg_type-IsRoot x ty e = go (ns_of x) refl ty e
  where
    go :
        (ns : Option Bytes)
        → ns_of x ≡ ns
        → (ty : MsgType)
        → (elim ns as (λ n. Option MsgType) [
          | none ↦ none
          | some n ↦
              if bytes_eq n ns_base
              then (if bytes_eq (name_of x) (codes "rpc")
                  then some msg_rpc
                  else (if bytes_eq (name_of x) (codes "rpc-reply")
                      then some msg_reply
                      else (if bytes_eq (name_of x) (codes "hello") then some msg_hello else none)))
              else (if bytes_eq n ns_notif
                  then (if bytes_eq (name_of x) (codes "notification")
                      then some msg_notif
                      else none)
                  else none)
        ])
          ≡ some ty
        → IsRoot ty x
    go none p ty q = absurd (cc)
    go (some n) p msg_rpc q =
        ground (arith, bytes_eq→eq n ns_base, bytes_eq→eq (name_of x) (codes "rpc"))
    go (some n) p msg_reply q =
        ground (arith, bytes_eq→eq n ns_base, bytes_eq→eq (name_of x) (codes "rpc-reply"))
    go (some n) p msg_hello q =
        ground (arith, bytes_eq→eq n ns_base, bytes_eq→eq (name_of x) (codes "hello"))
    go (some n) p msg_notif q =
        ground (arith, bytes_eq→eq n ns_notif, bytes_eq→eq (name_of x) (codes "notification"))
    go (some n) p _ q = ground arith

-- The results of nc_read_msg: a root element with the type that it has, or an error with none, or
-- an overrun chunk buffer.
abbrev pub IsSensible : Received → Type 0
IsSensible (received ty (some x) s) = IsRoot ty x
IsSensible (received ty none s) = ty ≡ msg_error
IsSensible overran = Unit {0}
IsSensible out_of_fuel = ⊥

pub classify-IsSensible : (s : Session) (x : Option Elem) → IsSensible (classify s x)
unfolding classify malformed_msg
classify-IsSensible s none = refl
classify-IsSensible s (some x) = go (msg_type x) refl
  where
    go :
        (ty : Option MsgType)
        → msg_type x ≡ ty
        → IsSensible
            (elim ty as (λ y. Received) [ none ↦ malformed_msg s | some y ↦ received y (some x) s ])
    go none e = refl
    go (some ty) e = msg_type-IsRoot x ty e

classify_known :
    (s : Session) (x : Elem) (ty : MsgType)
    → msg_type x ≡ some ty
    → classify s (some x) ≡ received ty (some x) s
unfolding classify
classify_known s x ty k = rw (k, classify)

module _ (parse_mem : Bytes → Option Elem) where
  after_frame-IsSensible :
      (s : Session) (t : ℕ) (r : Result Framed)
      → Keeps s t 0 r
      → IsSensible (after_frame parse_mem r)
  unfolding after_frame malformed_msg
  after_frame-IsSensible s t (ok (message m) s' t') k = classify-IsSensible s' (parse_mem m)
  after_frame-IsSensible s t (ok malformed s' t') k = refl
  after_frame-IsSensible s t (error s') k = refl
  after_frame-IsSensible s t fault k = tt
  after_frame-IsSensible s t stuck k = k

  -- With enough fuel, and a timeout below 2 ^ 16, nc_read_msg ends on every session and input, and
  -- the type that it returns is that of the root element it hands out, or NC_MSG_ERROR with none;
  -- unless a chunk overran.
  pub nc_read_msg-IsSensible :
      (fuel read_timeout : ℕ) (s : Session)
      → budget s read_timeout < fuel
      → read_timeout < 65536
      → IsSensible (nc_read_msg parse_mem fuel read_timeout s)
  unfolding nc_read_msg
  nc_read_msg-IsSensible fuel read_timeout s b l = elim (Bool-cases (is_live s.status)) [
    | inl e ↦ rw e (
        after_frame-IsSensible s read_timeout _
          (read_framed-Keeps fuel s.version s read_timeout b l))
    | inr e ↦ rw e refl
  ]

  delivered :
      (fuel read_timeout : ℕ) (s s' : Session) (t' : ℕ) (m : Bytes) (x : Elem) (ty : MsgType)
      → is_live s.status ≡ true
      → read_framed fuel s.version s read_timeout ≡ ok (message m) s' t'
      → parse_mem m ≡ some x
      → msg_type x ≡ some ty
      → nc_read_msg parse_mem fuel read_timeout s ≡ received ty (some x) s'
  unfolding nc_read_msg after_frame
  delivered fuel read_timeout s s' t' m x ty live e p k = rw (live, e, p) (classify_known s' x ty k)

  -- A message that one side writes whole on a transport in order, a peer of the same version
  -- receives, on a stream in order, with idle spells that the timeout allows, and with enough fuel:
  -- if the message's text can be framed and libyang parses it to an element of a known type,
  -- nc_read_msg returns that type and element, and is ready for what follows.
  pub nc_write_msg-nc_read_msg :
      (s : Session) (m : Message) (ps : List Piece) (out ys : Bytes) (peer : Session)
      (fuel read_timeout : ℕ) (x : Elem) (ty : MsgType)
      → IsUp s
      → plan s m ≡ writes ps true
      → All IsSized ps
      → IsCarried s.version (document ps)
      → (nc_write_msg s m).0.outgoing ≡ s.outgoing ++ out
      → peer.version ≡ s.version
      → IsReady peer read_timeout (out ++ ys)
      → weight peer.incoming < fuel
      → parse_mem (document ps) ≡ some x
      → msg_type x ≡ some ty
      → (peer' : Session) × (left : ℕ) × (nc_read_msg parse_mem fuel read_timeout peer
          ≡ received ty (some x) peer')
        × IsReady peer' left ys
  nc_write_msg-nc_read_msg s m ps out ys peer fuel read_timeout x ty u p l k o v r w q z =
      let (rest, left, e, r') = write-read s m ps out ys peer fuel read_timeout u p l k o r w in
      let e' : read_framed fuel peer.version peer read_timeout
          ≡ ok (message (document ps)) (record peer { incoming = rest }) left =
        ap (λ y. read_framed fuel y peer read_timeout) v ∙ e in
      (
        record peer { incoming = rest },
        left,
        delivered fuel read_timeout peer (record peer { incoming = rest }) left (document ps) x ty
            r.live e' q z,
        r',
      )
