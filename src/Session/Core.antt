-- ===== src/Session/Core.antt =====
-- The fields of a session that no transfer changes.
use libnetconf.Common.{ℕ, List}
use libnetconf.Common.Bytes.{Bytes}
use libnetconf.Session.Xml.{Elem}
use libnetconf.Session.{Session, Side, Version, TransportImpl}

abbrev pub Core : Type 0
Core = Side × ℕ × Version × TransportImpl × List Bytes × ℕ × ℕ × List Elem × List Elem

abbrev pub core : Session → Core
core s =
    (s.side, s.id, s.version, s.ti_type, s.cpblts, s.session_start, s.last_rpc, s.replies, s.notifs)
