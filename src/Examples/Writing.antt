-- ===== src/Examples/Writing.antt =====
-- A short reply, from nc_write_msg to nc_read_msg, and writes that fail.
use libnetconf.Common.{
  ℕ, ◌≤◌, ◌≡◌, refl, true, false, List, [], ◌∷◌, ◌++◌, length, drop, flatten, All, some, arith,
}
use libnetconf.Common.Bytes.{Bytes, codes, bytes_eq}
use libnetconf.Common.Decimal.{print_dec}
use libnetconf.Session.{Session, packet, would_block, part_taken, poll_interrupted}
use libnetconf.Messages.{rpl_ok}
use libnetconf.Io.Read.Exact.{IsReady}
use libnetconf.Io.Frame.{frames, endtag}
use libnetconf.Io.Frame.Decode.{IsChunk}
use libnetconf.Io.Write.{
  write_bufsize, nc_write, nc_write_clb, write_live, write_switch, nc_session_is_connected,
  nc_write_starttag_and_msg, nc_write_endtag, nc_write_clb_flush, put, nc_write_clb_end,
}
use libnetconf.Io.Write.Up.{IsUp, sent}
use libnetconf.Io.Write.Faults.{nc_write_clb_fits}
use libnetconf.Io.Message.{
  Piece, Message, reply_msg, plan, reply_plan, reply_body, writes, lit, raw, counted, nc_write_msg,
  write_piece, write_pieces,
}
use libnetconf.Io.Message.Wire.{document, IsSized, IsCarried, nc_write_msg-frames}
use libnetconf.Io.Receive.{nc_read_msg, msg_type, msg_reply, received}
use libnetconf.Io.Receive.Kinds.{IsSensible, nc_read_msg-IsSensible, nc_write_msg-nc_read_msg}
use libnetconf.Examples.{
  session_with, reply_text, reply_rest, reply_wire, reply_elem, parse_ok_reply,
}

abbrev writer : Session
writer = session_with []

abbrev ok_reply : Message
ok_reply = reply_msg (some (codes " message-id=\"1\"" ∷ [])) rpl_ok

abbrev ok_pieces : List Piece
ok_pieces =
    lit "<rpc-reply" 10
    ∷ raw (codes " message-id=\"1\"")
    ∷ lit ">" 1
    ∷ lit "<ok/>" 5
    ∷ lit "</rpc-reply>" 12
    ∷ []

writer-IsUp : IsUp writer
writer-IsUp = record { live = refl; connected = refl; in_order = refl }

ok_plan : plan writer ok_reply ≡ writes ok_pieces true
unfolding plan reply_plan reply_body
ok_plan = refl

ok-IsSized : All IsSized ok_pieces
ok-IsSized = (omega arith, (omega arith, (omega arith, (omega arith, (omega arith, tt)))))

ok_text : document ok_pieces ≡ reply_text
ok_text = refl

ok_wire : (nc_write_msg writer ok_reply).0.outgoing ≡ writer.outgoing ++ reply_wire
unfolding nc_write_msg plan reply_plan reply_body nc_write_clb_end nc_write_clb_flush write_pieces
    write_piece nc_write_clb put nc_write_starttag_and_msg nc_write write_live
    nc_session_is_connected write_switch nc_write_endtag print_dec
ok_wire = refl

-- The reply comes in two packets.
abbrev reader : Session
reader =
    session_with (packet 10 (35 ∷ codes "4") ∷ would_block ∷ packet 51 (drop 2 reply_rest) ∷ [])

reader-IsReady : IsReady reader 1 (reply_wire ++ [])
reader-IsReady = record {
  live = refl;
  connected = refl;
  sound = (refl, (refl, (refl, tt)));
  to_come = refl;
  patient = omega arith;
  in_range = omega arith;
}

ok-IsCarried : IsCarried writer.version (document ok_pieces)
ok-IsCarried e = absurd cc

nc_write_msg-frames_example :
    (chunks : List Bytes) × (nc_write_msg writer ok_reply ≡ (
      sent (counted ok_reply writer) (frames writer.version chunks ++ endtag writer.version),
      true,
    ))
    × (flatten chunks ≡ document ok_pieces)
    × All IsChunk chunks
nc_write_msg-frames_example =
    nc_write_msg-frames writer ok_reply ok_pieces writer-IsUp ok_plan ok-IsSized

parsed : parse_ok_reply (document ok_pieces) ≡ some reply_elem
unfolding bytes_eq
parsed = refl

typed : msg_type reply_elem ≡ some msg_reply
unfolding msg_type bytes_eq
typed = refl

nc_write_msg-nc_read_msg_example :
    (peer' : Session) × (left : ℕ) × (nc_read_msg parse_ok_reply 99 1 reader
      ≡ received msg_reply (some reply_elem) peer')
    × IsReady peer' left []
nc_write_msg-nc_read_msg_example =
    nc_write_msg-nc_read_msg parse_ok_reply writer ok_reply ok_pieces reply_wire [] reader 99 1
      reply_elem msg_reply writer-IsUp ok_plan ok-IsSized ok-IsCarried ok_wire refl reader-IsReady
      (omega arith) parsed typed

nc_read_msg-IsSensible_example : IsSensible (nc_read_msg parse_ok_reply 60000 1 reader)
nc_read_msg-IsSensible_example =
    nc_read_msg-IsSensible parse_ok_reply 60000 1 reader (omega arith) (omega arith)

-- Three bytes are taken of five.
abbrev slow_writer : Session
slow_writer = record writer {
  attempts =
      record {
        polls = poll_interrupted ∷ [];
        channel_closed = false;
        channel_eof = false;
        taken = part_taken 3;
      }
      ∷ [];
}

nc_write_clb_fits_example :
    length
      (nc_write_clb (record { session = slow_writer; buf = codes "<a>" }) (codes "<&") true).0.buf
    ≤ write_bufsize
nc_write_clb_fits_example =
    nc_write_clb_fits (record { session = slow_writer; buf = codes "<a>" }) (codes "<&") true
      (omega arith)
