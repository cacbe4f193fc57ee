-- ===== src/OtaWorker/Delivered.antt =====
-- An image that the server delivers in any pieces is installed, firmware/main/ota.c, `download_image`.
use remote_wake.Base.{
  ℕ, zero, suc, ◌+◌, ◌≤◌, ◌<◌, ◌≡◌, ◌⊎◌, inl, inr, refl, sym, ap, subst, ◌∙◌, true, false, not,
  ◌&&◌, List, [], ◌∷◌, ◌++◌, Option, some, none, ltb, leb, ◌==◌, length, length-append, take,
  bytes_eq, bytes_eq_refl, All, arith,
}
use mathlib.Core.List.{append_assoc, append-nil}
use remote_wake.Base.Results.{Result, ok}
use remote_wake.OtaManifest.Verify.{Manifest}
use remote_wake.OtaWorker.Image.{Fault}
use remote_wake.OtaWorker.Download.{
  Slot, Chunk, Stream, fresh, written_chunk, wanted, receive, Answers, Outcome, slot_for,
  check_stream, finish, transfer, download_image, open_body,
}

-- The image in pieces.
abbrev pub joined : List (List ℕ) → List ℕ
joined [] = []
joined (p ∷ pieces) = p ++ joined pieces

-- Pieces that are read and written.
abbrev pub chunks_of : List (List ℕ) → List Chunk
chunks_of [] = []
chunks_of (p ∷ pieces) = record { bytes = some p; write = none } ∷ chunks_of pieces

abbrev pub IsPiece : List ℕ → Type 0
IsPiece p = (0 < length p) × (length p ≤ 4096)

take-all : (n : ℕ) (xs : List ℕ) → length xs ≤ n → take n xs ≡ xs
take-all zero [] h = refl
take-all zero (x ∷ xs) h = absurd (omega arith)
take-all (suc n) [] h = refl
take-all (suc n) (x ∷ xs) h = ap (λ t. x ∷ t) (take-all n xs (omega arith))

-- A round on a piece.
receive-piece :
    (size : ℕ) (s : Stream) (p : List ℕ) (rest : List Chunk)
    → IsPiece p
    → s.received + length p ≤ size
    → receive size s (record { bytes = some p; write = none } ∷ rest)
      ≡ receive size (written_chunk size s p) rest
unfolding receive
receive-piece size s p rest (some_bytes, small) fits =
    let short : leb size s.received ≡ false = ground arith in
    let full : length p ≤ wanted size s = ground arith in
    let there : length p == 0 ≡ false = ground arith in
    rw (short, take-all (wanted size s) p full, there) refl

receive-pieces :
    (size : ℕ) (s : Stream) (pieces : List (List ℕ))
    → All IsPiece pieces
    → s.received + length (joined pieces) ≡ size
    → let (t, stop) = receive size s (chunks_of pieces) in
      (stop ≡ none)
      × (t.received ≡ size)
      × (t.hashed ≡ s.hashed ++ joined pieces)
      × (t.written ≡ s.written ++ joined pieces)
unfolding written_chunk
receive-pieces size s [] a e =
    unfold receive in (refl, omega arith, sym (append-nil s.hashed), sym (append-nil s.written))
receive-pieces size s (p ∷ pieces) (piece, later) e =
    let total = length-append p (joined pieces) in
    let next = written_chunk size s p in
    let Q = λ (r : Stream × Option Fault).
      (r.1 ≡ none)
      × (r.0.received ≡ size)
      × (r.0.hashed ≡ s.hashed ++ (p ++ joined pieces))
      × (r.0.written ≡ s.written ++ (p ++ joined pieces)) in
    let (stop, received, hashed, written) =
      receive-pieces size next pieces later (omega (arith, total, e)) in
    subst Q (sym (receive-piece size s p (chunks_of pieces) piece (omega (arith, total, e)))) (
      stop,
      received,
      hashed ∙ append_assoc s.hashed p (joined pieces),
      written ∙ append_assoc s.written p (joined pieces),
    )

module _ (header_size : ℕ) (sha256 : List ℕ → List ℕ) (m : Manifest)
    (validate : List ℕ → Result Fault (Unit {0})) where
  -- A server, a slot and an image for which nothing fails: the body is sent in the pieces.
  pub record IsGood (a : Answers) (slot : Slot) (pieces : List (List ℕ)) : Type 0 where
    pub is_next : a.next ≡ some slot
    pub other : (slot.address == a.running) ≡ false
    pub room : m.size ≤ slot.size
    pub headed : header_size ≤ m.size
    pub body : (a.opened ≡ some 0) ⊎ (a.opened ≡ some m.size)
    pub allocated : a.allocated ≡ true
    pub begun : a.begun ≡ none
    pub sent : a.chunks ≡ chunks_of pieces
    pub split : All IsPiece pieces
    pub sized : length (joined pieces) ≡ m.size
    pub whole : (a.drained && a.complete) ≡ true
    pub hashed : sha256 (joined pieces) ≡ m.sha256
    pub ended : a.ended ≡ none
    pub valid : validate (joined pieces) ≡ ok tt

  slot_for-good :
      (a : Answers) (slot : Slot) (pieces : List (List ℕ))
      → IsGood a slot pieces
      → slot_for header_size sha256 m validate a ≡ ok slot
  unfolding slot_for
  slot_for-good a slot pieces g =
      let room : ltb slot.size m.size ≡ false = let r = g.room in ground arith in
      let headed : ltb m.size header_size ≡ false = let r = g.headed in ground arith in
      rw (g.is_next, g.other, room, headed) refl

  check_stream-good :
      (a : Answers) (slot : Slot) (pieces : List (List ℕ)) (s : Stream)
      → IsGood a slot pieces
      → s.received ≡ m.size
      → s.hashed ≡ joined pieces
      → check_stream header_size sha256 m validate a s none ≡ ok tt
  unfolding check_stream
  check_stream-good a slot pieces s g received hashed =
      let full : (s.received == m.size) ≡ true = ground arith in
      let same : bytes_eq (sha256 s.hashed) m.sha256 ≡ true =
        ap (λ h. bytes_eq h m.sha256) (ap sha256 hashed ∙ g.hashed) ∙ bytes_eq_refl m.sha256 in
      rw (full, g.whole, same) refl

  -- The slot is installed with the image, which is not condemned.
  abbrev pub Delivers : List (List ℕ) → Slot → Outcome → Type 0
  Delivers pieces slot o =
      (o.result ≡ ok slot) × (o.stream.written ≡ joined pieces) × (o.rejected ≡ false)

  finish-good :
      (a : Answers) (slot : Slot) (pieces : List (List ℕ)) (s : Stream)
      → IsGood a slot pieces
      → s.written ≡ joined pieces
      → Delivers pieces slot (finish header_size sha256 m validate a slot s)
  unfolding finish
  finish-good a slot pieces s g written =
      let valid : validate s.written ≡ ok tt = ap validate written ∙ g.valid in
      (rw (g.ended, valid) refl, written, rw (g.ended, valid) refl)

  transfer-good :
      (a : Answers) (slot : Slot) (pieces : List (List ℕ))
      → IsGood a slot pieces
      → Delivers pieces slot (transfer header_size sha256 m validate a slot)
  unfolding transfer
  transfer-good a slot pieces g =
      let r = receive m.size fresh (chunks_of pieces) in
      let (stop, received, hashed, written) =
        receive-pieces m.size fresh pieces g.split (omega (arith, g.sized)) in
      let checked =
        ap (check_stream header_size sha256 m validate a r.0) stop
        ∙ check_stream-good a slot pieces r.0 g received hashed in
      rw (g.sent, checked) (finish-good a slot pieces r.0 g written)

  open_body-good :
      (a : Answers) (slot : Slot) (pieces : List (List ℕ)) (o : Outcome)
      → IsGood a slot pieces
      → open_body header_size sha256 m validate a a.opened o ≡ o
  unfolding open_body
  open_body-good a slot pieces o g = elim g.body [
    | inl e ↦ rw (e, g.allocated, g.begun) refl
    | inr e ↦
        let same : (ltb 0 m.size && not (m.size == m.size)) ≡ false = ground arith in
        rw (e, same, g.allocated, g.begun) refl
  ]

  -- A signed image is installed, in whatever pieces it comes: where the slot is fit, the body is opened
  -- with no length or the right one, the pieces have 1 to 4096 bytes each and are the image, none of
  -- the calls fails, and the hash and the image are as the manifest says, the download succeeds with the
  -- image in the slot and does not condemn it.
  pub download_image-Delivers :
      (a : Answers) (slot : Slot) (pieces : List (List ℕ))
      → IsGood a slot pieces
      → Delivers pieces slot (download_image header_size sha256 m validate a)
  unfolding download_image
  download_image-Delivers a slot pieces g =
      rw (slot_for-good a slot pieces g, open_body-good a slot pieces _ g)
        (transfer-good a slot pieces g)
