-- ===== src/Relay/Assembly/Silence.antt =====
-- The rest of a message is never taken for another message.
use remote_wake.Base.{
  ℕ, ◌≡◌, refl, Bool, true, false, List, [], ◌∷◌, All, arith, ◌⊎◌, ◌∙◌, ◌&&◌, ◌==◌,
}
use remote_wake.Base.Int.{pos_part}
use remote_wake.Relay.Assembly.{
  Rx, Piece, asm_reset, malformed, begin_frame, put_piece, assemble_text, on_data, on_all,
}

-- The first piece of a text frame.
unfoldable pub starts : Piece → Bool
starts d = (d.op_code == 1) && (pos_part d.payload_offset == 0)

-- No message is being put together, or what is left of it is being dropped.
unfoldable pub IsIdle : Rx → Type 0
IsIdle s = (s.active ≡ false) ⊎ (s.dropping ≡ true)

on_data-IsIdle :
    (s : Rx) (d : Piece) (valid : Bool) (session : ℕ)
    → starts d ≡ false
    → IsIdle s
    → IsIdle (on_data s d valid session) × ((on_data s d valid session).queue ≡ s.queue)
unfolding on_data assemble_text put_piece begin_frame malformed asm_reset starts IsIdle
on_data-IsIdle s d valid session h idle = ground arith

-- Once a message is dropped, and between messages, nothing reaches the relay task until the first
-- piece of a new text frame, whatever the pieces are.
idle_keeps_queue :
    (pieces : List Piece) (s : Rx) (session : ℕ)
    → All (λ d. starts d ≡ false) pieces
    → IsIdle s
    → (on_all s pieces session).queue ≡ s.queue
unfolding on_all
idle_keeps_queue [] s session h idle = refl
idle_keeps_queue (d ∷ rest) s session (p, later) idle =
    let step = on_data-IsIdle s d true session p idle in
    idle_keeps_queue rest (on_data s d true session) session later step.0 ∙ step.1
