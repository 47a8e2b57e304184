-- ===== src/Examples.antt =====
-- Concrete sessions, and the theorems of the other modules on them.
pub mod Reading
pub mod Writing
pub mod Errors
pub mod Locking
pub mod Hellos
pub mod Receiving
pub mod Requests
pub mod Polling
pub mod Naming
pub mod Configuring
pub mod Advertising
use libnetconf.Common.{List, [], ◌∷◌, ◌++◌, Option, none, some, if◌then◌else◌}
use libnetconf.Common.Bytes.{Bytes, codes, bytes_eq}
use libnetconf.Session.{Session, Arrival, running, term_none, server, version_11, ti_fd}
use libnetconf.Session.Xml.{Elem, elem, nil}
use libnetconf.Io.Message.{ns_base}

-- A running session of version 1.1 on a file descriptor.
abbrev pub session_with : List Arrival → Session
session_with arrivals = record {
  status = running;
  term_reason = term_none;
  side = server;
  id = 1;
  version = version_11;
  ti_type = ti_fd;
  msgid = 0;
  cpblts = [];
  session_start = 0;
  last_rpc = 0;
  incoming = arrivals;
  attempts = [];
  replies = [];
  notifs = [];
  outgoing = [];
}

abbrev pub reply_text : Bytes
reply_text = codes "<rpc-reply message-id=\"1\"><ok/></rpc-reply>"

-- The text above in one chunk, behind the start of its size line.
abbrev pub reply_rest : Bytes
reply_rest = codes "43" ++ (10 ∷ (reply_text ++ (10 ∷ 35 ∷ 35 ∷ 10 ∷ [])))

abbrev pub reply_wire : Bytes
reply_wire = 10 ∷ 35 ∷ reply_rest

abbrev pub reply_elem : Elem
reply_elem = elem (codes "rpc-reply") (some ns_base) [] [] nil

-- An XML parser that knows one document.
abbrev pub parse_ok_reply : Bytes → Option Elem
parse_ok_reply m = if bytes_eq m reply_text then some reply_elem else none
