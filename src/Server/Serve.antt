-- ===== src/Server/Serve.antt =====
-- nc_recv_rpc and nc_send_reply of src/session_server.c. `Data` is libyang's `struct lyd_node`.
-- The pointers that are arguments are not NULL, and allocation succeeds.
pub mod Answered
use libnetconf.Common.{
  ℕ, zero, suc, ◌+◌, Bool, true, false, not, ◌&&◌, ◌||◌, leb, ◌==◌, if◌then◌else◌, List, [], ◌∷◌,
  Option, none, some,
}
use libnetconf.Common.Bytes.{Bytes}
use libnetconf.Session.{
  Session, Status, running, invalid, TermReason, term_none, closed, killed, dropped, timed_out,
  bad_hello, other, Side, server, client, terminate,
}
use libnetconf.Session.Xml.{Elem, Elems, children_of}
use libnetconf.Session.Lock.{Mutex, Timeout, locked, lock_timeout, lock_failed, nc_timedlock}
use libnetconf.Messages.{
  ServerError, ServerReply, rpl_error, rpl_ok, rpl_data, rpl_notif, nc_server_reply_err, type_prot,
  type_app, err_op_not_supported, err_op_failed,
}
use libnetconf.Messages.Create.{ErrArgs, nc_err}
use libnetconf.Io.Message.{nc_write_msg, reply_msg}
use libnetconf.Io.Receive.{MsgType, msg_rpc, Received, received, overran, out_of_fuel, nc_read_msg}
use libnetconf.Server.Poll.{Entry, Slot, is_running}

-- A set of NC_PSPOLL_* bits.
pub record Flags : Type 0 where
  pub timeout : Bool
  pub rpc : Bool
  pub bad_rpc : Bool
  pub reply_error : Bool
  pub session_term : Bool
  pub session_error : Bool
  pub pending : Bool
  pub error : Bool

abbrev pub no_flags : Flags
no_flags = record {
  timeout = false;
  rpc = false;
  bad_rpc = false;
  reply_error = false;
  session_term = false;
  session_error = false;
  pending = false;
  error = false;
}

abbrev pub only_error : Flags
only_error = record no_flags { error = true }

-- `struct nc_server_rpc`.
pub record ServerRpc (Data : Type 0) : Type 0 where
  pub root : Elem
  pub tree : Option Data

-- What nc_recv_rpc returns, what it sets `rpc` to, and the session; or no result of nc_read_msg.
pub data RecvRpc (Data : Type 0) : Type 0 where
  recv_rpc : Flags → Option (ServerRpc Data) → Session → RecvRpc Data
  recv_nothing : RecvRpc Data

abbrev pub is_server : Side → Bool
is_server server = true
is_server client = false

-- The session of every pointer.
abbrev pub Store : Type 0
Store = ℕ → Session

abbrev pub update : ℕ → Session → Store → Store
update h s store k = if k == h then s else store k

-- A `nc_rpc_clb`, from the RPC and the session it came on to a reply, which may be NULL. It may
-- change sessions: nc_session_set_term_reason takes any.
abbrev pub Callback : Type 0 → Type 0
Callback Data = Data → ℕ → Store → Option ServerReply × Store

-- What the functions take from libyang and from the program: lyd_parse_xml() of an RPC, what
-- nc_err_libyang makes of libyang's error, the printed attributes of an element, and the callbacks.
pub record Program (Data : Type 0) : Type 0 where
  pub parse_rpc : Elems → Option Data
  pub libyang_error : ServerError
  pub print_attrs : Elem → List Bytes
  pub schema_clb : Data → Option (Callback Data)
  pub global_clb : Option (Callback Data)

abbrev pub prot_args : ErrArgs
prot_args = record { type_arg = type_prot; arg1 = none; arg2 = none; sid_arg = 0 }

abbrev pub app_args : ErrArgs
app_args = record { type_arg = type_app; arg1 = none; arg2 = none; sid_arg = 0 }

abbrev pub is_error_reply : ServerReply → Bool
is_error_reply (rpl_error es) = true
is_error_reply _ = false

module _ {Data : Type 0} (prog : Program Data) where
  -- An RPC that libyang does not take is answered at once.
  abbrev pub refused : Elem → Session → RecvRpc Data
  refused x s =
      let reply = reply_msg (some (prog.print_attrs x)) (rpl_error (prog.libyang_error ∷ [])) in
      recv_rpc (record no_flags { reply_error = true; bad_rpc = true })
        (some (record { root = x; tree = none })) (nc_write_msg s reply).0

  abbrev pub parsed_rpc : Elem → Session → Option Data → RecvRpc Data
  parsed_rpc x s none = refused x s
  parsed_rpc x s (some d) =
      recv_rpc (record no_flags { rpc = true }) (some (record { root = x; tree = some d })) s

  -- The switch over the type. The jump to `error` forgets NC_PSPOLL_BAD_RPC.
  unfoldable pub recv_switch : Received → RecvRpc Data
  recv_switch (received msg_rpc (some x) s) = parsed_rpc x s (prog.parse_rpc (children_of x))
  recv_switch (received ty x s) = recv_rpc only_error none s
  recv_switch overran = recv_nothing
  recv_switch out_of_fuel = recv_nothing

  module _ (parse_mem : Bytes → Option Elem) (fuel read_timeout : ℕ) where
    unfoldable pub nc_recv_rpc : Session → RecvRpc Data
    nc_recv_rpc s =
        if is_running s.status && is_server s.side
        then recv_switch (nc_read_msg parse_mem fuel read_timeout s)
        else recv_rpc only_error none s

  abbrev pub ask_global : Option (Callback Data) → Data → ℕ → Store → Option ServerReply × Store
  ask_global (some clb) d h store = clb d h store
  ask_global none d h store = (nc_server_reply_err (nc_err err_op_not_supported prot_args), store)

  abbrev pub ask : Option (Callback Data) → Data → ℕ → Store → Option ServerReply × Store
  ask (some clb) d h store = clb d h store
  ask none d h store = ask_global prog.global_clb d h store

  abbrev pub or_failed : Option ServerReply → Option ServerReply
  or_failed (some r) = some r
  or_failed none = nc_server_reply_err (nc_err err_op_failed app_args)

  abbrev pub has_reason : TermReason → Bool
  has_reason term_none = false
  has_reason _ = true

  -- A callback has set the reason, and the last reply is sent.
  abbrev pub ended : Session → Session
  ended s =
      if is_running s.status && has_reason s.term_reason then record s { status = invalid } else s

  -- `none`: not even the reply of a failed operation can be made.
  unfoldable pub write_reply : Elem → Session → Option ServerReply → Flags × Session
  write_reply root s none = (only_error, s)
  write_reply root s (some r) =
      let (s1, ok) = nc_write_msg s (reply_msg (some (prog.print_attrs root)) r) in
      (record no_flags { reply_error = is_error_reply r; error = not ok }, ended s1)

  unfoldable pub nc_send_reply : Elem → Data → ℕ → Store → Flags × Store
  nc_send_reply root d h store =
      let (r, store1) = ask (prog.schema_clb d) d h store in
      let (f, s) = write_reply root (store1 h) (or_failed r) in (f, update h s store1)
