-- ===== src/Hello.antt =====
-- The exchange of <hello> messages: parse_cpblts, nc_send_client_hello, nc_send_server_hello,
-- nc_recv_client_hello, nc_recv_server_hello and nc_handshake of src/session.c. The capabilities
-- of a server, which nc_server_get_cpblts takes from libyang's context, are an argument.
pub mod Versions
pub mod Accepted
pub mod Handshake
pub mod Advertised
use libnetconf.Common.{
  ℕ, ◌-◌, ◌^◌, Bool, true, false, not, ◌&&◌, List, [], ◌∷◌, ◌++◌, ◌==◌, ltb, leb, if◌then◌else◌,
  Option, none, some,
}
use libnetconf.Common.Bytes.{Bytes, codes, bytes_eq}
use libnetconf.Common.Decimal.{is_digit, read_digits, skip_spaces}
use libnetconf.Session.{Session, Side, client, server, Version, version_10, version_11}
use libnetconf.Session.Xml.{Elem, Elems, nil, cons, name_of, ns_of, content_of, children_of}
use libnetconf.Io.Message.{nc_write_msg, hello_msg, ns_base}
use libnetconf.Io.Receive.{
  MsgType, msg_error, msg_wouldblock, msg_none, msg_hello, msg_bad_hello, msg_rpc, msg_reply,
  msg_reply_err_msgid, msg_notif, Received, received, overran, out_of_fuel, nc_read_msg_poll, Wait,
}

abbrev pub base_10 : Bytes
base_10 = codes "urn:ietf:params:netconf:base:1.0"

abbrev pub base_11 : Bytes
base_11 = codes "urn:ietf:params:netconf:base:1.1"

unfoldable pub is_base : Elem → Bool
is_base x = elim (ns_of x) [ none ↦ false | some n ↦ bytes_eq n ns_base ]

-- `ver`: -1 is `none`.
abbrev pub below_10 : Option Version → Bool
below_10 none = true
below_10 (some v) = false

abbrev pub below_11 : Option Version → Bool
below_11 none = true
below_11 (some version_10) = true
below_11 (some version_11) = false

unfoldable pub detect : Option Version → Bytes → Option Version
detect ver content =
    if below_10 ver && bytes_eq content base_10
    then some version_10
    else (if below_11 ver && bytes_eq content base_11 then some version_11 else ver)

-- The loop of parse_cpblts: the capabilities stored, and the result.
unfoldable pub cpblts_loop : Elems → Option Version → List Bytes → List Bytes × Option Version
cpblts_loop nil ver list = (list, ver)
cpblts_loop (cons x rest) ver list = elim (is_base x) [
  | false ↦ cpblts_loop rest ver list
  | true ↦ elim (bytes_eq (name_of x) (codes "capability")) [
    | false ↦ (list, none)
    | true ↦ cpblts_loop rest (detect ver (content_of x)) (list ++ (content_of x ∷ []))
  ]
]

unfoldable pub parse_cpblts : Elem → List Bytes × Option Version
parse_cpblts x = cpblts_loop (children_of x) none []

-- The first characters that are no digits, and what follows.
unfoldable pub behind_digits : Bytes → Bytes
behind_digits [] = []
behind_digits (c ∷ cs) = let rest = behind_digits cs in if is_digit c then rest else c ∷ cs

abbrev pub clamp_llong : ℕ → ℕ
clamp_llong n = if ltb n (2 ^ 63) then n else 2 ^ 63 - 1

abbrev pub strtoll_digits : Bool → Bytes → Bytes → Bool × ℕ × Bytes
strtoll_digits negative whole [] = (false, 0, whole)
strtoll_digits negative whole (c ∷ cs) =
    if is_digit c
    then (negative, clamp_llong (read_digits 0 (c ∷ cs)), behind_digits (c ∷ cs))
    else (false, 0, whole)

-- strtoll() with base 10: the sign, the magnitude, and what `endptr` points to.
unfoldable pub strtoll : Bytes → Bool × ℕ × Bytes
strtoll s = elim (skip_spaces s) [
  | [] ↦ (false, 0, s)
  | c ∷ cs ↦
      if c == 45
      then strtoll_digits true s cs
      else (if c == 43 then strtoll_digits false s cs else strtoll_digits false s (c ∷ cs))
]

abbrev pub in_range : Bool × ℕ × Bytes → Option ℕ
in_range (negative, n, []) =
    if not negative && (leb 1 n && leb n (2 ^ 32 - 1)) then some n else none
in_range (negative, n, c ∷ cs) = none

-- The value of <session-id>; `none` is the jump to `error`.
unfoldable pub session_id : Bytes → Option ℕ
session_id [] = none
session_id (c ∷ cs) = in_range (strtoll (c ∷ cs))

-- A loop over the children of <hello>: the session, and whether the loop came to its end.
unfoldable pub client_loop : Elems → Bool → Session → Session × Bool
client_loop nil flag s = (s, true)
client_loop (cons x rest) flag s = elim (is_base x) [
  | false ↦ client_loop rest flag s
  | true ↦ elim (bytes_eq (name_of x) (codes "session-id")) [
    | true ↦ elim (session_id (content_of x)) [
      | none ↦ (s, false)
      | some id ↦ client_loop rest flag (record s { id = id })
    ]
    | false ↦ elim (bytes_eq (name_of x) (codes "capabilities") && not flag) [
      | false ↦ (s, false)
      | true ↦ elim ((parse_cpblts x).1) [
        | none ↦ (record s { cpblts = (parse_cpblts x).0 }, false)
        | some v ↦ client_loop rest true (record s { cpblts = (parse_cpblts x).0; version = v })
      ]
    ]
  ]
]

unfoldable pub server_loop : Elems → Bool → Session → Session × Bool
server_loop nil flag s = (s, true)
server_loop (cons x rest) flag s = elim (is_base x) [
  | false ↦ server_loop rest flag s
  | true ↦ elim (bytes_eq (name_of x) (codes "capabilities") && not flag) [
    | false ↦ (s, false)
    | true ↦ elim ((parse_cpblts x).1) [
      | none ↦ (s, false)
      | some v ↦ server_loop rest true (record s { version = v })
    ]
  ]
]

-- What a receiving function returns; `no_result` where the reading has none.
pub data Outcome : Type 0 where
  outcome : MsgType → Session → Outcome
  no_result : Outcome

-- The type where the message is no hello.
abbrev pub other_type : MsgType → MsgType
other_type msg_wouldblock = msg_wouldblock
other_type ty = msg_error

abbrev pub finish_client : Session × Bool → Outcome
finish_client (s, false) = outcome msg_error s
finish_client (s, true) = if s.id == 0 then outcome msg_error s else outcome msg_hello s

abbrev pub finish_server : Session × Bool → Outcome
finish_server (s, false) = outcome msg_bad_hello s
finish_server (s, true) = outcome msg_hello s

-- The switch over the message type. nc_read_msg gives every hello its root element.
unfoldable pub client_switch : Received → Outcome
client_switch (received msg_hello (some x) s) = finish_client (client_loop (children_of x) false s)
client_switch (received ty x s) = outcome (other_type ty) s
client_switch overran = no_result
client_switch out_of_fuel = no_result

unfoldable pub server_switch : Received → Outcome
server_switch (received msg_hello (some x) s) = finish_server (server_loop (children_of x) false s)
server_switch (received ty x s) = outcome (other_type ty) s
server_switch overran = no_result
server_switch out_of_fuel = no_result

unfoldable pub nc_send_client_hello : Session → Session × MsgType
nc_send_client_hello s =
    let (s', ok) = nc_write_msg s (hello_msg (base_10 ∷ base_11 ∷ []) none) in
    (s', if ok then msg_hello else msg_error)

unfoldable pub nc_send_server_hello : List Bytes → Session → Session × MsgType
nc_send_server_hello cpblts s =
    let (s', ok) = nc_write_msg s (hello_msg cpblts (some s.id)) in
    (s', if ok then msg_hello else msg_error)

module _ (parse_mem : Bytes → Option Elem) (fuel read_timeout : ℕ) (w : Wait) where
  unfoldable pub nc_recv_client_hello : Session → Outcome
  nc_recv_client_hello s = client_switch (nc_read_msg_poll parse_mem fuel read_timeout s w)

  unfoldable pub nc_recv_server_hello : Session → Outcome
  nc_recv_server_hello s = server_switch (nc_read_msg_poll parse_mem fuel read_timeout s w)

  abbrev pub recv_hello : Side → Session → Outcome
  recv_hello client s = nc_recv_client_hello s
  recv_hello server s = nc_recv_server_hello s

  abbrev pub after_send : Side → Session × MsgType → Outcome
  after_send side (s, msg_hello) = recv_hello side s
  after_send side (s, ty) = outcome ty s

  abbrev pub send_hello : Side → List Bytes → Session → Session × MsgType
  send_hello client cpblts s = nc_send_client_hello s
  send_hello server cpblts s = nc_send_server_hello cpblts s

  unfoldable pub nc_handshake : List Bytes → Session → Outcome
  nc_handshake cpblts s = after_send s.side (send_hello s.side cpblts s)
