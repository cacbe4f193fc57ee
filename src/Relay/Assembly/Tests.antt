-- ===== src/Relay/Assembly/Tests.antt =====
-- A message of two frames, the first in two pieces, after garbage.
use remote_wake.Base.{◌≡◌, true, false, List, [], ◌∷◌, ◌++◌, inl, refl, arith}
use remote_wake.Base.Int.{negsuc}
use remote_wake.Relay.Assembly.{Rx, Piece, on_all}
use remote_wake.Relay.Assembly.Whole.{
  Frame, piece, body, message_pieces, IsFrame, whole_message_queued,
}
use remote_wake.Relay.Assembly.Bounds.{IsSound, on_all-IsSound}

abbrev boot : Rx
boot = record {
  buf = [];
  cap = 0;
  active = false;
  dropping = false;
  frame_offset = 0;
  frame_len = 0;
  frame_opcode = 0;
  frame_fin = false;
  queue = [];
}

abbrev busy : Rx
busy = record boot { active = true; dropping = true; frame_len = 9 }

abbrev two_pieces : Frame
two_pieces = record { first = 123 ∷ 34 ∷ []; rest = (105 ∷ []) ∷ [] }

abbrev one_piece : Frame
one_piece = record { first = 125 ∷ []; rest = [] }

whole_message_queued_example :
    (on_all busy (message_pieces 1 two_pieces (one_piece ∷ [])) 7).queue
    ≡ [] ++ (record { bytes = body (two_pieces ∷ one_piece ∷ []); session = 7 } ∷ [])
unfolding IsFrame body
whole_message_queued_example =
    whole_message_queued two_pieces (one_piece ∷ []) busy 7 (ground arith) (omega arith)
      (ground arith) (ground arith)

-- A continuation that belongs to a message being dropped, and one out of range.
abbrev leftovers : List Piece
leftovers =
    piece 0 true 3 0 (1 ∷ 2 ∷ 3 ∷ []) ∷ record (piece 0 true 3 0 []) { data_len = negsuc 0 } ∷ []

on_all-IsSound_example : IsSound (on_all boot leftovers 7)
on_all-IsSound_example =
    on_all-IsSound leftovers boot 7
      (record { short = omega arith; inside = inl refl; queue_short = omega arith; queued = tt })
