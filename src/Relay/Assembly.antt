-- ===== src/Relay/Assembly.antt =====
-- The reassembly of WebSocket text messages in firmware/main/relay_client.c, up to the queue that
-- the relay task reads. What the allocator answers comes with each event.
pub mod Whole
pub mod Silence
pub mod Bounds
mod Tests
use remote_wake.Base.{
  ℕ, zero, suc, ◌+◌, ◌-◌, ◌*◌, Bool, true, false, not, ◌&&◌, ◌||◌, differs, List, [], ◌∷◌, ◌++◌,
  Option, some, none, ltb, leb, ◌==◌, if◌then◌else◌, length, take,
}
use remote_wake.Base.Int.{ℤ, pos, negsuc, pos_part, neg_part, ltb_ℤ, ◌-ℤ◌, sub_ℕ}

abbrev pub max_envelope_bytes : ℕ
max_envelope_bytes = 4096

abbrev pub rx_queue_depth : ℕ
rx_queue_depth = 4

-- `rw_rx_msg_t`
pub record Message : Type 0 where
  pub bytes : List ℕ
  pub session : ℕ

-- `s_asm` as the bytes below `s_asm_len`, its capacity, the other statics, and the queue.
pub record Rx : Type 0 where
  pub buf : List ℕ
  pub cap : ℕ
  pub active : Bool
  pub dropping : Bool
  pub frame_offset : ℕ
  pub frame_len : ℕ
  pub frame_opcode : ℕ
  pub frame_fin : Bool
  pub queue : List Message

-- What the handler reads of `esp_websocket_event_data_t`, and the answers of `realloc` and `malloc`.
pub record Piece : Type 0 where
  pub op_code : ℕ
  pub fin : Bool
  pub payload_len : ℤ
  pub payload_offset : ℤ
  pub data_len : ℤ
  pub data_ptr : Option (List ℕ)
  pub realloc_ok : Bool
  pub malloc_ok : Bool

abbrev pub pointed : Option (List ℕ) → List ℕ
pointed none = []
pointed (some bytes) = bytes

abbrev pub is_null : Option (List ℕ) → Bool
is_null none = true
is_null (some bytes) = false

unfoldable pub asm_reset : Rx → Rx
asm_reset s = record s {
  buf = [];
  active = false;
  dropping = false;
  frame_offset = 0;
  frame_len = 0;
}

-- `while (cap < need) cap *= 2`, on fuel: `need` rounds are enough from a positive capacity.
unfoldable pub double_cap : ℕ → ℕ → ℕ → ℕ
double_cap zero cap need = cap
double_cap (suc fuel) cap need = elim (ltb cap need) [
  | true ↦ double_cap fuel (cap * 2) need
  | false ↦ cap
]

-- `asm_append`: the new state and whether all was appended.
unfoldable pub asm_append : Rx → List ℕ → Bool → Rx × Bool
unfolding double_cap
asm_append s bytes realloc_ok =
    let need = length s.buf + length bytes + 1 in
    let cap =
      if ltb s.cap need then double_cap need (if s.cap == 0 then 512 else s.cap) need else s.cap in
    if ltb (max_envelope_bytes - length s.buf) (length bytes)
    then (s, false)
    else if ltb s.cap need && not realloc_ok
    then (s, false)
    else (record s { buf = s.buf ++ bytes; cap = cap }, true)

unfoldable pub queue_message : List Message → List ℕ → ℕ → Bool → List Message
queue_message q bytes session malloc_ok =
    if malloc_ok && ltb (length q) rx_queue_depth
    then q ++ (record { bytes = bytes; session = session } ∷ [])
    else q

-- The test of the lengths at the top of `assemble_text`.
unfoldable pub malformed : Piece → Bool
malformed d =
    ltb_ℤ d.data_len (pos 0)
    || ltb_ℤ d.payload_len (pos 0)
    || ltb_ℤ d.payload_offset (pos 0)
    || ltb_ℤ d.payload_len d.payload_offset
    || ltb_ℤ (d.payload_len -ℤ d.payload_offset) d.data_len
    || (ltb_ℤ (pos 0) d.data_len && is_null d.data_ptr)

-- `if (d->payload_offset == 0) …`
unfoldable pub begin_frame : Rx → Piece → Rx
unfolding asm_reset
begin_frame s d =
    let started =
      if d.op_code == 1
      then record (asm_reset s) { active = true }
      else if not s.active || not (s.frame_offset == s.frame_len)
      then record s { dropping = true }
      else s in
    if pos_part d.payload_offset == 0
    then record started {
      frame_offset = 0;
      frame_len = pos_part d.payload_len;
      frame_opcode = d.op_code;
      frame_fin = d.fin;
    }
    else s

unfoldable pub fits_frame : Rx → Piece → Bool
fits_frame s d =
    (pos_part d.payload_offset == s.frame_offset)
    && (pos_part d.payload_len == s.frame_len)
    && (d.op_code == s.frame_opcode)
    && not (differs d.fin s.frame_fin)

-- From `s_frame_offset += …` on.
unfoldable pub end_piece : Rx → Piece → ℕ → Rx
unfolding asm_reset queue_message
end_piece s d session =
    let offset = s.frame_offset + pos_part d.data_len in
    let queue =
      if leb 1 (length s.buf) then queue_message s.queue s.buf session d.malloc_ok else s.queue in
    if (offset == s.frame_len) && d.fin
    then asm_reset (record s { queue = queue })
    else record s { frame_offset = offset }

unfoldable pub put_piece : Rx → Piece → ℕ → Rx
unfolding fits_frame asm_append end_piece
put_piece s d session =
    let (s', appended) =
      asm_append s (take (pos_part d.data_len) (pointed d.data_ptr)) d.realloc_ok in
    if not (fits_frame s d)
    then record s { dropping = true }
    else if not appended
    then record s' { dropping = true }
    else end_piece s' d session

unfoldable pub assemble_text : Rx → Piece → ℕ → Rx
unfolding malformed begin_frame put_piece
assemble_text s d session =
    let begun = begin_frame s d in
    if malformed d
    then record s { dropping = true }
    else if not begun.active || begun.dropping
    then begun
    else put_piece begun d session

-- `WEBSOCKET_EVENT_DATA` in `ws_event_handler`; `valid` is `session_valid(session)`.
unfoldable pub on_data : Rx → Piece → Bool → ℕ → Rx
unfolding assemble_text asm_reset
on_data s d valid session =
    if (d.op_code == 8) || not valid
    then s
    else if (d.op_code == 1) || (d.op_code == 0)
    then assemble_text s d session
    else if d.op_code == 2
    then asm_reset s
    else s

-- The data events of one session, while it stays valid.
unfoldable pub on_all : Rx → List Piece → ℕ → Rx
unfolding on_data
on_all s [] session = s
on_all s (d ∷ rest) session = on_all (on_data s d true session) rest session
