-- ===== src/Io/Message/Core.antt =====
-- Writing a message changes a session's status, the reason of its end and its message count at
-- most.
use libnetconf.Common.{◌≡◌, refl, ◌∙◌, true, false, List, [], ◌∷◌, inl, inr, Bool-cases}
use libnetconf.Session.{Session, is_live}
use libnetconf.Session.Core.{core}
use libnetconf.Io.Write.{WclbArg}
use libnetconf.Io.Write.Core.{nc_write_clb-core, nc_write_clb_end-core}
use libnetconf.Io.Message.{
  Piece, raw, escaped, write_piece, write_pieces, Message, Plan, refuse, writes, plan,
  count_message, run_plan, nc_write_msg,
}

write_pieces-core :
    (ps : List Piece) (w : WclbArg) → core (write_pieces w ps).session ≡ core w.session
unfolding write_pieces write_piece
write_pieces-core [] w = refl
write_pieces-core (raw b ∷ ps) w =
    write_pieces-core ps (write_piece w (raw b)) ∙ nc_write_clb-core w b false
write_pieces-core (escaped b ∷ ps) w =
    write_pieces-core ps (write_piece w (escaped b)) ∙ nc_write_clb-core w b true

run_plan-core : (s : Session) (m : Message) (p : Plan) → core (run_plan s m p).0 ≡ core s
run_plan-core s m refuse = refl
run_plan-core s m (writes ps complete) =
    let w : WclbArg = record { session = s; buf = [] } in
    nc_write_clb_end-core (count_message m (write_pieces w ps)) ∙ write_pieces-core ps w

pub nc_write_msg-core : (s : Session) (m : Message) → core (nc_write_msg s m).0 ≡ core s
unfolding nc_write_msg
nc_write_msg-core s m = elim (Bool-cases (is_live s.status)) [
  | inl b ↦ rw b (run_plan-core s m (plan s m))
  | inr b ↦ rw b refl
]
