-- ===== src/OtaWorker/Downloaded.antt =====
-- What a download that succeeds has installed, firmware/main/ota.c, `download_image`.
use remote_wake.Base.{
  ℕ, ◌≤◌, ◌≡◌, inl, inr, refl, sym, ap, subst, ◌∙◌, true, false, not, ◌&&◌, List, [], ◌∷◌, ◌++◌,
  Option, some, none, ltb, leb, ◌==◌, if◌then◌else◌, length, length-append, take, length-take_le,
  bytes_eq→eq, Option-cases, if-holds, arith,
}
use remote_wake.Base.Results.{Result, Result-cases, ok, err, require, >>=-eq_ok, require-eq_ok}
use remote_wake.OtaManifest.Verify.{Manifest}
use remote_wake.OtaWorker.Image.{Fault}
use remote_wake.OtaWorker.Download.{
  Slot, Chunk, Stream, fresh, written_chunk, wanted, receive, Answers, Outcome, before_begin,
  slot_for, check_stream, finish, transfer, download_image, settle, begin, choose, open_body,
}

-- The bytes that are hashed are those that are written, and they are counted.
pub record IsStream (size : ℕ) (s : Stream) : Type 0 where
  pub same : s.hashed ≡ s.written
  pub counted : s.received ≡ length s.written
  pub bounded : s.received ≤ size

written_chunk-IsStream :
    (size : ℕ) (s : Stream) (bytes : List ℕ)
    → IsStream size s
    → length bytes ≤ wanted size s
    → IsStream size (written_chunk size s bytes)
unfolding written_chunk
written_chunk-IsStream size s bytes i few = record {
  same = ap (λ t. t ++ bytes) i.same;
  counted = omega (arith, i.counted, length-append s.written bytes);
  bounded = let b = i.bounded in ground arith;
}

abbrev Keeps : ℕ → Stream × Option Fault → Type 0
Keeps size p = p.1 ≡ none → IsStream size p.0

on_read :
    (size : ℕ) (s : Stream) (o : Option (List ℕ)) (w : Option Fault)
    (more : List ℕ → Stream × Option Fault)
    → ((bytes : List ℕ) → length bytes ≤ wanted size s → Keeps size (more bytes))
    → Keeps size (elim o [
      | none ↦ (s, some Fault.fail)
      | some got ↦
          let bytes = take (wanted size s) got in
          if length bytes == 0 then (s, some Fault.invalid_size) else elim w [
            | some e ↦ (record s { hashed = s.hashed ++ bytes }, some e)
            | none ↦ more bytes
          ]
    ])
on_read size s none w more on = λ h. absurd (ground arith)
on_read size s (some got) (some e) more on =
    if-holds (Keeps size) (length (take (wanted size s) got) == 0) _ _
      (λ over h. absurd (ground arith)) (λ some_bytes h. absurd (ground arith))
on_read size s (some got) none more on =
    if-holds (Keeps size) (length (take (wanted size s) got) == 0) _ _
      (λ over h. absurd (ground arith))
      (λ some_bytes. on (take (wanted size s) got) (length-take_le (wanted size s) got))

receive-IsStream :
    (size : ℕ) (s : Stream) (chunks : List Chunk)
    → IsStream size s
    → Keeps size (receive size s chunks)
unfolding receive
receive-IsStream size s [] i = λ h. i
receive-IsStream size s (c ∷ rest) i =
    if-holds (Keeps size) (leb size s.received) _ _ (λ full h. i)
      (λ short.
        on_read size s c.bytes c.write (λ bytes. receive size (written_chunk size s bytes) rest)
          (λ bytes few.
            receive-IsStream size (written_chunk size s bytes) rest
              (written_chunk-IsStream size s bytes i few)))

module _ (header_size : ℕ) (sha256 : List ℕ → List ℕ) (m : Manifest)
    (validate : List ℕ → Result Fault (Unit {0})) where
  -- What is installed: the slot is the next one, not the one that runs, and has room; its bytes are as
  -- many as was signed, with the hash that was signed, and ended and passed the checks of an image.
  pub record IsInstalled (a : Answers) (slot : Slot) (bytes : List ℕ) : Type 0 where
    pub is_next : a.next ≡ some slot
    pub other : (slot.address == a.running) ≡ false
    pub room : m.size ≤ slot.size
    pub sized : length bytes ≡ m.size
    pub hashed : sha256 bytes ≡ m.sha256
    pub whole : (a.drained ≡ true) × (a.complete ≡ true)
    pub ended : a.ended ≡ none
    pub valid : validate bytes ≡ ok tt

  check_stream-ok :
      (a : Answers) (s : Stream) (stop : Option Fault) {u : Unit {0}}
      → check_stream header_size sha256 m validate a s stop ≡ ok u
      → (stop ≡ none)
        × (s.received ≡ m.size)
        × (a.drained ≡ true)
        × (a.complete ≡ true)
        × (sha256 s.hashed ≡ m.sha256)
  unfolding check_stream
  check_stream-ok a s (some e) h = absurd (ground arith)
  check_stream-ok a s none h =
      let (u, size, h₁) = >>=-eq_ok (require (s.received == m.size) Fault.timeout) _ h in
      let (v, whole, h₂) = >>=-eq_ok (require (a.drained && a.complete) Fault.invalid_size) _ h₁ in
      let full = require-eq_ok (s.received == m.size) Fault.timeout size in
      let all = require-eq_ok (a.drained && a.complete) Fault.invalid_size whole in
      (
        refl,
        ground arith,
        ground arith,
        ground arith,
        bytes_eq→eq (sha256 s.hashed) m.sha256 (require-eq_ok _ Fault.invalid_crc h₂),
      )

  slot_for-ok :
      (a : Answers) (slot : Slot)
      → slot_for header_size sha256 m validate a ≡ ok slot
      → (a.next ≡ some slot) × ((slot.address == a.running) ≡ false) × (m.size ≤ slot.size)
  unfolding slot_for
  slot_for-ok a slot h = elim (Option-cases a.next) [
    | inl e ↦ absurd (ground arith)
    | inr (next, e) ↦ ground arith
  ]

  finish-ok :
      (a : Answers) (slot slot' : Slot) (s : Stream)
      → (finish header_size sha256 m validate a slot s).result ≡ ok slot'
      → (a.ended ≡ none) × (validate s.written ≡ ok tt) × (slot ≡ slot')
  unfolding finish
  finish-ok a slot slot' s h = elim (Option-cases a.ended) [
    | inr (e, there) ↦ absurd (ground arith)
    | inl done ↦ elim (Result-cases (validate s.written)) [
      | inr (e, bad) ↦ absurd (ground arith)
      | inl (u, good) ↦ (done, good, ground arith)
    ]
  ]

  finished :
      (a : Answers) (slot slot' : Slot) (s : Stream)
      → (a.next ≡ some slot) × ((slot.address == a.running) ≡ false) × (m.size ≤ slot.size)
      → (s.received ≡ m.size)
        × (a.drained ≡ true)
        × (a.complete ≡ true)
        × (sha256 s.hashed ≡ m.sha256)
      → IsStream m.size s
      → (a.ended ≡ none) × (validate s.written ≡ ok tt) × (slot ≡ slot')
      → IsInstalled a slot' s.written
  finished a slot slot' s (next, other, room) (size, drained, complete, hash) i (done, good, this) =
      subst (λ x. IsInstalled a x s.written) this
        (record {
          is_next = next;
          other = other;
          room = room;
          sized = sym i.counted ∙ size;
          hashed = ap sha256 (sym i.same) ∙ hash;
          whole = (drained, complete);
          ended = done;
          valid = good;
        })

  checked :
      (a : Answers) (slot slot' : Slot) (s : Stream) (stop : Option Fault)
      (r : Result Fault (Unit {0}))
      → check_stream header_size sha256 m validate a s stop ≡ r
      → slot_for header_size sha256 m validate a ≡ ok slot
      → (stop ≡ none → IsStream m.size s)
      → let o = settle s r (finish header_size sha256 m validate a slot s) in
        o.result ≡ ok slot' → IsInstalled a slot' o.stream.written
  unfolding finish
  checked a slot slot' s stop (err e) c chosen keeps h = absurd (ground arith)
  checked a slot slot' s stop (ok u) c chosen keeps h =
      let (going, size, drained, complete, hash) = check_stream-ok a s stop c in
      finished a slot slot' s (slot_for-ok a slot chosen) (size, drained, complete, hash)
        (keeps going) (finish-ok a slot slot' s h)

  transfer-IsInstalled :
      (a : Answers) (slot slot' : Slot)
      → slot_for header_size sha256 m validate a ≡ ok slot
      → let o = transfer header_size sha256 m validate a slot in
        o.result ≡ ok slot' → IsInstalled a slot' o.stream.written
  unfolding transfer
  transfer-IsInstalled a slot slot' chosen =
      let (s, stop) = receive m.size fresh a.chunks in
      checked a slot slot' s stop (check_stream header_size sha256 m validate a s stop) refl chosen
        (receive-IsStream m.size fresh a.chunks
          (record { same = refl; counted = refl; bounded = omega arith }))

  abbrev Installs : Answers → Outcome → Type 0
  Installs a o = (slot : Slot) → o.result ≡ ok slot → IsInstalled a slot o.stream.written

  not_begun : (a : Answers) (e : Fault) → Installs a (before_begin e)
  not_begun a e slot h = absurd (ground arith)

  begin-Installs :
      (a : Answers) (begun : Option Fault) (o : Outcome) → Installs a o → Installs a (begin begun o)
  begin-Installs a (some e) o h = not_begun a e
  begin-Installs a none o h = h

  open_body-Installs :
      (a : Answers) (opened : Option ℕ) (o : Outcome)
      → Installs a o
      → Installs a (open_body header_size sha256 m validate a opened o)
  unfolding open_body
  open_body-Installs a none o h = not_begun a Fault.fail
  open_body-Installs a (some body) o h =
      if-holds (Installs a) (ltb 0 body && not (body == m.size)) _ _
        (λ short. not_begun a Fault.invalid_size)
        (λ long.
          if-holds (Installs a) (not a.allocated) _ _ (λ full. not_begun a Fault.no_mem)
            (λ buffer. begin-Installs a a.begun o h))

  choose-Installs :
      (a : Answers) (r : Result Fault Slot) (start : Slot → Outcome)
      → ((slot : Slot) → r ≡ ok slot → Installs a (start slot))
      → Installs a (choose r start)
  choose-Installs a (err e) start h = not_begun a e
  choose-Installs a (ok slot) start h = h slot refl

  -- Only what was signed is installed: where the download succeeds, the bytes written to the slot are as
  -- many as the manifest says and have its hash, the server had no more of them, the slot is the next
  -- one, has room and is not the one that runs, and the image ended well and passed its checks.
  pub download_image-IsInstalled :
      (a : Answers) (slot : Slot)
      → let o = download_image header_size sha256 m validate a in
        o.result ≡ ok slot → IsInstalled a slot o.stream.written
  unfolding download_image
  download_image-IsInstalled a slot =
      choose-Installs a (slot_for header_size sha256 m validate a) _
        (λ chosen there.
          open_body-Installs a a.opened _ (λ slot' h. transfer-IsInstalled a chosen slot' there h))
        slot
