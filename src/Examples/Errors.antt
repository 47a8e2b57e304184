-- ===== src/Examples/Errors.antt =====
-- One error, made and written.
use libnetconf.Common.{◌≡◌, refl, true, List, [], ◌∷◌, none, some}
use libnetconf.Common.Bytes.{codes}
use libnetconf.Messages.{type_app, err_bad_elem, ServerError, rpl_ok}
use libnetconf.Messages.Create.{ErrArgs, nc_err}
use libnetconf.Messages.Table.{IsConforming, nc_err-IsConforming}
use libnetconf.Io.Message.{plan, reply_plan, reply_body, writes, reply_msg, Piece, lit}
use libnetconf.Examples.{session_with}

abbrev element_args : ErrArgs
element_args = record { type_arg = type_app; arg1 = some (codes "leaf"); arg2 = none; sid_arg = 0 }

abbrev element_error : ServerError
element_error = record {
  type = type_app;
  tag = err_bad_elem;
  apptag = none;
  path = none;
  message = some (codes "An element value is not correct.");
  message_lang = some (codes "en");
  sid = none;
  attr = [];
  elems = codes "leaf" ∷ [];
  ns = [];
  others = [];
}

made : nc_err err_bad_elem element_args ≡ some element_error
unfolding nc_err
made = refl

nc_err-IsConforming_example : IsConforming err_bad_elem element_args element_error
nc_err-IsConforming_example =
    nc_err-IsConforming err_bad_elem element_args element_error (λ e. absurd cc) made

abbrev joined_pieces : List Piece
joined_pieces =
    lit "<rpc-reply" 10
    ∷ lit "xmlns=\"urn:ietf:params:xml:ns:netconf:base:1.0\">" 48
    ∷ lit "<ok/>" 5
    ∷ lit "</rpc-reply>" 12
    ∷ []

joined_plan : plan (session_with []) (reply_msg none rpl_ok) ≡ writes joined_pieces true
unfolding plan reply_plan reply_body
joined_plan = refl
