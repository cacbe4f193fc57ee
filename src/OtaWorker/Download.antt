-- ===== src/OtaWorker/Download.antt =====
-- The download of an image, firmware/main/ota.c, `download_image`. The HTTP client, SHA-256 and the
-- calls of ESP-IDF on partitions are arguments; the time limit is the end of the chunks.
use remote_wake.Base.{
  ℕ, ◌+◌, ◌-◌, Bool, true, false, not, ◌&&◌, ◌||◌, List, [], ◌∷◌, ◌++◌, Option, some, none, ltb,
  leb, ◌==◌, if◌then◌else◌, length, take, bytes_eq,
}
use remote_wake.Base.Results.{Result, ok, err, ◌>>=◌, ◌>>◌, require}
use remote_wake.OtaManifest.Verify.{Manifest}
use remote_wake.OtaWorker.Image.{Fault}

-- A partition of an image.
pub record Slot : Type 0 where
  pub address : ℕ
  pub size : ℕ

-- One round of the loop: what the client reads (`none` where it fails), of which no more than was asked
-- for counts, and what `esp_ota_write` gives.
pub record Chunk : Type 0 where
  pub bytes : Option (List ℕ)
  pub write : Option Fault

-- How far the loop is: what is hashed, what is written, the count of bytes, and what was published last.
pub record Stream : Type 0 where
  pub hashed : List ℕ
  pub written : List ℕ
  pub received : ℕ
  pub last_progress : ℕ

abbrev pub fresh : Stream
fresh = record { hashed = []; written = []; received = 0; last_progress = 0 }

-- A chunk that is written; progress is published each 65536 bytes and at the end.
unfoldable pub written_chunk : ℕ → Stream → List ℕ → Stream
written_chunk size s bytes =
    let received = s.received + length bytes in
    record {
      hashed = s.hashed ++ bytes;
      written = s.written ++ bytes;
      received = received;
      last_progress =
          if leb 65536 (received - s.last_progress) || (received == size)
          then received
          else s.last_progress;
    }

abbrev pub wanted : ℕ → Stream → ℕ
wanted size s = if ltb 4096 (size - s.received) then 4096 else size - s.received

-- The loop, and the error that it stops at.
unfoldable pub receive : ℕ → Stream → List Chunk → Stream × Option Fault
unfolding written_chunk
receive size s [] = (s, none)
receive size s (c ∷ rest) =
    let more = λ (bytes : List ℕ). receive size (written_chunk size s bytes) rest in
    if leb size s.received then (s, none) else elim c.bytes [
      | none ↦ (s, some Fault.fail)
      | some got ↦
          let bytes = take (wanted size s) got in
          if length bytes == 0 then (s, some Fault.invalid_size) else elim c.write [
            | some e ↦ (record s { hashed = s.hashed ++ bytes }, some e)
            | none ↦ more bytes
          ]
    ]

-- What the calls give: the next slot and the one that runs, the length of the body (`none` where it is
-- not opened), the buffer, `esp_ota_begin`, the chunks, the read of one byte after them (whether it is
-- none), whether the client has all of the body, and `esp_ota_end`.
pub record Answers : Type 0 where
  pub next : Option Slot
  pub running : ℕ
  pub opened : Option ℕ
  pub allocated : Bool
  pub begun : Option Fault
  pub chunks : List Chunk
  pub drained : Bool
  pub complete : Bool
  pub ended : Option Fault

-- What is left: the handle of `esp_ota_begin` is not there, aborted or ended.
pub data Handle : Type 0 where
  never aborted closed : Handle

-- `installed` is the result where it is ESP_OK.
pub record Outcome : Type 0 where
  pub stream : Stream
  pub handle : Handle
  pub rejected : Bool
  pub result : Result Fault Slot

abbrev pub before_begin : Fault → Outcome
before_begin e = record { stream = fresh; handle = Handle.never; rejected = false; result = err e }

abbrev pub to_result : Option Fault → Result Fault (Unit {0})
to_result none = ok tt
to_result (some e) = err e

-- A failure of `esp_ota_end` that condemns the image.
abbrev pub is_invalid : Fault → Bool
is_invalid Fault.validate_failed = true
is_invalid _ = false

-- A failure of `validate_identity` that condemns it.
abbrev pub is_foreign : Fault → Bool
is_foreign Fault.not_supported = true
is_foreign Fault.invalid_arg = true
is_foreign Fault.invalid_size = true
is_foreign _ = false

abbrev pub condemned : Option Fault → Result Fault (Unit {0}) → Bool
condemned (some e) valid = is_invalid e
condemned none (err e) = is_foreign e
condemned none (ok u) = false

-- An image is left where a check fails, by `esp_ota_abort`.
abbrev pub settle : Stream → Result Fault (Unit {0}) → Outcome → Outcome
settle s (err e) finished = record {
  stream = s;
  handle = Handle.aborted;
  rejected = false;
  result = err e;
}
settle s (ok u) finished = finished

abbrev pub begin : Option Fault → Outcome → Outcome
begin (some e) started = before_begin e
begin none started = started

abbrev pub choose : Result Fault Slot → (Slot → Outcome) → Outcome
choose (err e) start = before_begin e
choose (ok slot) start = start slot

module _ (header_size : ℕ) (sha256 : List ℕ → List ℕ) (m : Manifest)
    (validate : List ℕ → Result Fault (Unit {0})) where
  -- From the buffer to the slot that is written: the checks before the client is asked.
  unfoldable pub slot_for : Answers → Result Fault Slot
  slot_for a = elim a.next [
    | none ↦ err Fault.invalid_size
    | some slot ↦
        if (slot.address == a.running) || ltb slot.size m.size || ltb m.size header_size
        then err Fault.invalid_size
        else ok slot
  ]

  -- The checks after the loop, up to the hash.
  unfoldable pub check_stream : Answers → Stream → Option Fault → Result Fault (Unit {0})
  check_stream a s stop = do
    to_result stop
    require (s.received == m.size) Fault.timeout
    require (a.drained && a.complete) Fault.invalid_size
    require (bytes_eq (sha256 s.hashed) m.sha256) Fault.invalid_crc

  -- From `esp_ota_end` on. `validate` is `validate_identity` of a partition with these bytes.
  unfoldable pub finish : Answers → Slot → Stream → Outcome
  finish a slot s = record {
    stream = s;
    handle = Handle.closed;
    rejected = condemned a.ended (validate s.written);
    result = to_result a.ended >>= λ done. validate s.written >>= λ valid. ok slot;
  }

  unfoldable pub transfer : Answers → Slot → Outcome
  unfolding receive check_stream finish
  transfer a slot =
      let (s, stop) = receive m.size fresh a.chunks in
      settle s (check_stream a s stop) (finish a slot s)

  -- From the body on.
  unfoldable pub open_body : Answers → Option ℕ → Outcome → Outcome
  open_body a none started = before_begin Fault.fail
  open_body a (some body) started =
      if ltb 0 body && not (body == m.size)
      then before_begin Fault.invalid_size
      else if not a.allocated
      then before_begin Fault.no_mem
      else begin a.begun started

  unfoldable pub download_image : Answers → Outcome
  unfolding slot_for transfer open_body
  download_image a = choose (slot_for a) (λ slot. open_body a a.opened (transfer a slot))
