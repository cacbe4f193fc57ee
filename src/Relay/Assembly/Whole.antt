-- ===== src/Relay/Assembly/Whole.antt =====
-- A text message reaches the relay task whole, however it is cut into frames and pieces.
use remote_wake.Base.{
  ℕ, ◌+◌, ◌≤◌, ◌<◌, ◌≡◌, ◌⊎◌, inl, inr, refl, sym, ap, subst, ◌∙◌, Bool, true, false, ◌&&◌, List,
  [], ◌∷◌, ◌++◌, some, ◌==◌, length, length-append, take-length, All, arith,
}
use remote_wake.Base.Int.{pos}
use remote_wake.Relay.Assembly.{
  Rx, Message, Piece, asm_reset, asm_append, queue_message, malformed, begin_frame, fits_frame,
  end_piece, put_piece, assemble_text, on_data, on_all,
}
use mathlib.Core.List.{append_assoc, append-nil}

-- A frame as the pieces that the events of the client cut it into.
pub record Frame : Type 0 where
  pub first : List ℕ
  pub rest : List (List ℕ)

unfoldable pub join : List (List ℕ) → List ℕ
join [] = []
join (b ∷ bs) = b ++ join bs

unfoldable pub payload : Frame → List ℕ
unfolding join
payload f = f.first ++ join f.rest

unfoldable pub body : List Frame → List ℕ
unfolding payload
body [] = []
body (f ∷ fs) = payload f ++ body fs

-- Only an empty frame has an empty piece.
unfoldable pub IsFrame : Frame → Type 0
IsFrame f = ((f.rest ≡ []) ⊎ (1 ≤ length f.first)) × All (λ b. 1 ≤ length b) f.rest

unfoldable pub piece : ℕ → Bool → ℕ → ℕ → List ℕ → Piece
piece op fin len offset bytes = record {
  op_code = op;
  fin = fin;
  payload_len = pos len;
  payload_offset = pos offset;
  data_len = pos (length bytes);
  data_ptr = some bytes;
  realloc_ok = true;
  malloc_ok = true;
}

unfoldable pub pieces_from : ℕ → Bool → ℕ → ℕ → List (List ℕ) → List Piece
unfolding piece
pieces_from op fin len offset [] = []
pieces_from op fin len offset (b ∷ bs) =
    piece op fin len offset b ∷ pieces_from op fin len (offset + length b) bs

unfoldable pub frame_pieces : ℕ → Bool → Frame → List Piece
unfolding pieces_from payload
frame_pieces op fin f = pieces_from op fin (length (payload f)) 0 (f.first ∷ f.rest)

-- The first frame has the opcode `op`, the others are continuations; the last has FIN.
unfoldable pub message_pieces : ℕ → Frame → List Frame → List Piece
unfolding frame_pieces
message_pieces op f [] = frame_pieces op true f
message_pieces op f (g ∷ fs) = frame_pieces op false f ++ message_pieces 0 g fs

-- The state between two pieces of a message: `acc` has been put together.
record Mid (s : Rx) (acc : List ℕ) (offset len op : ℕ) (fin : Bool) (q : List Message)
    : Type 0 where
  active : s.active ≡ true
  dropping : s.dropping ≡ false
  buf : s.buf ≡ acc
  frame_offset : s.frame_offset ≡ offset
  frame_len : s.frame_len ≡ len
  frame_opcode : s.frame_opcode ≡ op
  frame_fin : s.frame_fin ≡ fin
  queue : s.queue ≡ q

on_all-append :
    (xs ys : List Piece) (s : Rx) (session : ℕ)
    → on_all s (xs ++ ys) session ≡ on_all (on_all s xs session) ys session
unfolding on_all
on_all-append [] ys s session = refl
on_all-append (x ∷ xs) ys s session = on_all-append xs ys (on_data s x true session) session

module _ (acc b : List ℕ) (offset len op : ℕ) (fin : Bool) (q : List Message) (session : ℕ) where
  put_piece-Mid :
      (s : Rx)
      → length acc + length b ≤ 4096
      → ((offset + length b == len) && fin) ≡ false
      → Mid s acc offset len op fin q
      → Mid
          (put_piece s (piece op fin len offset b) session)
          (acc ++ b)
          (offset + length b)
          len
          op
          fin
          q
  unfolding put_piece fits_frame asm_append end_piece piece asm_reset
  put_piece-Mid s short more r = rw (take-length b) (record {
    active = ground (arith, r);
    dropping = ground (arith, r);
    buf = ground (arith, r);
    frame_offset = ground (arith, r);
    frame_len = ground (arith, r);
    frame_opcode = ground (arith, r);
    frame_fin = ground (arith, r);
    queue = ground (arith, r);
  })

  put_piece-queue :
      (s : Rx)
      → length acc + length b ≤ 4096
      → 1 ≤ length (acc ++ b)
      → length q < 4
      → ((offset + length b == len) && fin) ≡ true
      → Mid s acc offset len op fin q
      → (put_piece s (piece op fin len offset b) session).queue
        ≡ q ++ (record { bytes = acc ++ b; session = session } ∷ [])
  unfolding put_piece fits_frame asm_append end_piece piece asm_reset queue_message
  put_piece-queue s short nonempty room last r = rw (take-length b) (ground (arith, r))

-- The state before the first piece of a frame.
Ready : Rx → List ℕ → ℕ → List Message → Type 0
Ready s acc op q =
    ((op ≡ 1) × (acc ≡ []) × (s.queue ≡ q))
    ⊎ ((op ≡ 0) × Mid s acc s.frame_len s.frame_len s.frame_opcode false q)

-- How a piece comes to be put: at the offset 0 after `begin_frame`, else at once.
begun_first :
    (s : Rx) (acc b : List ℕ) (len op : ℕ) (fin : Bool) (q : List Message)
    → Ready s acc op q
    → Mid (begin_frame s (piece op fin len 0 b)) acc 0 len op fin q
unfolding Ready begin_frame piece asm_reset
begun_first s acc b len op fin q (inl r) = record {
  active = ground (arith, r);
  dropping = ground (arith, r);
  buf = ground (arith, r);
  frame_offset = ground (arith, r);
  frame_len = ground (arith, r);
  frame_opcode = ground (arith, r);
  frame_fin = ground (arith, r);
  queue = ground (arith, r);
}
begun_first s acc b len op fin q (inr (e, r)) = record {
  active = ground (arith, r);
  dropping = ground (arith, r);
  buf = ground (arith, r);
  frame_offset = ground (arith, r);
  frame_len = ground (arith, r);
  frame_opcode = ground (arith, r);
  frame_fin = ground (arith, r);
  queue = ground (arith, r);
}

begun_later :
    (s : Rx) (b : List ℕ) (offset len op : ℕ) (fin : Bool)
    → 0 < offset
    → begin_frame s (piece op fin len offset b) ≡ s
unfolding begin_frame piece
begun_later s b offset len op fin h = ground arith

IsText : ℕ → Type 0
IsText op = (op ≡ 1) ⊎ (op ≡ 0)

on_data-put :
    (s : Rx) (acc b : List ℕ) (offset len op : ℕ) (fin : Bool) (q : List Message) (session : ℕ)
    → IsText op
    → offset + length b ≤ len
    → Mid (begin_frame s (piece op fin len offset b)) acc offset len op fin q
    → on_data s (piece op fin len offset b) true session
      ≡ put_piece (begin_frame s (piece op fin len offset b)) (piece op fin len offset b) session
unfolding on_data assemble_text IsText malformed piece
on_data-put s acc b offset len op fin q session text fits r = ground (arith, r.active, r.dropping)

-- After a frame: still in the message, or the message is queued.
Done : Bool → Rx → List ℕ → ℕ → ℕ → List Message → ℕ → Type 0
Done false s acc len op q session = Mid s acc len len op false q
Done true s acc len op q session = s.queue ≡ q ++ (record { bytes = acc; session = session } ∷ [])

module _ (len op : ℕ) (q : List Message) (session : ℕ) where
  last_piece :
      (fin : Bool) (s : Rx) (acc b : List ℕ) (offset : ℕ)
      → length acc + length b ≤ 4096
      → (fin ≡ false) ⊎ (1 ≤ length acc + length b)
      → length q < 4
      → offset + length b ≡ len
      → Mid s acc offset len op fin q
      → Done fin (put_piece s (piece op fin len offset b) session) (acc ++ b) len op q session
  unfolding Done
  last_piece true s acc b offset short nonempty room e r =
      put_piece-queue acc b offset len op true q session s short
        (ground (arith, nonempty, length-append acc b)) room (ground arith) r
  last_piece false s acc b offset short nonempty room e r =
      let m = put_piece-Mid acc b offset len op false q session s short (ground arith) r in
      subst
        (λ (n : ℕ).
          Mid (put_piece s (piece op false len offset b) session) (acc ++ b) n len op false q)
        e m

  run_pieces :
      (fin : Bool) (b : List ℕ) (bs : List (List ℕ)) (s : Rx) (acc : List ℕ) (offset : ℕ)
      → IsText op
      → length q < 4
      → length acc + length (b ++ join bs) ≤ 4096
      → (fin ≡ false) ⊎ (1 ≤ length acc + length (b ++ join bs))
      → offset + length (b ++ join bs) ≡ len
      → (bs ≡ []) ⊎ (1 ≤ offset + length b)
      → All (λ c. 1 ≤ length c) bs
      → Mid (begin_frame s (piece op fin len offset b)) acc offset len op fin q
      → Done fin
          (on_all s (pieces_from op fin len offset (b ∷ bs)) session)
          (acc ++ (b ++ join bs))
          len
          op
          q
          session
  unfolding on_all pieces_from join
  run_pieces fin b [] s acc offset text room short nonempty size more cut r =
      let plain : b ++ [] ≡ b = append-nil b in
      let put =
        on_data-put s acc b offset len op fin q session text (omega (arith, size, ap length plain))
          r in
      let last =
        last_piece fin (begin_frame s (piece op fin len offset b)) acc b offset
          (omega (arith, short, ap length plain)) (ground (arith, nonempty, ap length plain)) room
          (omega (arith, size, ap length plain)) r in
      subst (λ (t : Rx). Done fin t (acc ++ (b ++ [])) len op q session) (sym put)
        (subst
          (λ (l : List ℕ).
            Done fin
              (put_piece (begin_frame s (piece op fin len offset b)) (piece op fin len offset b)
                session)
              (acc ++ l) len op q session)
          (sym plain) last)
  run_pieces fin b (c ∷ cs) s acc offset text room short nonempty size more (here, cut) r =
      let begun = begin_frame s (piece op fin len offset b) in
      let s' = put_piece begun (piece op fin len offset b) session in
      let l1 = length-append b (c ++ join cs) in
      let l2 = length-append c (join cs) in
      let l3 = length-append acc b in
      let further : 1 ≤ offset + length b = ground (arith, more) in
      let put = on_data-put s acc b offset len op fin q session text (omega (arith, size, l1)) r in
      let mid =
        put_piece-Mid acc b offset len op fin q session begun (omega (arith, short, l1))
          (ground (arith, size, l1, l2, here)) r in
      let begun' : begin_frame s' (piece op fin len (offset + length b) c) ≡ s' =
        begun_later s' c (offset + length b) len op fin further in
      let later = pieces_from op fin len (offset + length b) (c ∷ cs) in
      let ih =
        run_pieces fin c cs s' (acc ++ b) (offset + length b) text room
          (omega (arith, short, l1, l3)) (ground (arith, nonempty, l1, l3))
          (omega (arith, size, l1)) (inr (omega (arith, further))) cut
          (subst (λ (t : Rx). Mid t (acc ++ b) (offset + length b) len op fin q) (sym begun')
            mid) in
      subst
        (λ (t : Rx).
          Done fin (on_all t later session) (acc ++ (b ++ (c ++ join cs))) len op q session)
        (sym put)
        (subst (λ (a : List ℕ). Done fin (on_all s' later session) a len op q session)
          (append_assoc acc b (c ++ join cs)) ih)

run_frame :
    (fin : Bool) (f : Frame) (s : Rx) (acc : List ℕ) (op : ℕ) (q : List Message) (session : ℕ)
    → IsFrame f
    → IsText op
    → length q < 4
    → length acc + length (payload f) ≤ 4096
    → (fin ≡ false) ⊎ (1 ≤ length acc + length (payload f))
    → Ready s acc op q
    → Done fin
        (on_all s (frame_pieces op fin f) session)
        (acc ++ payload f)
        (length (payload f))
        op
        q
        session
unfolding frame_pieces payload IsFrame
run_frame fin f s acc op q session ok text room short nonempty r =
    run_pieces (length (payload f)) op q session fin f.first f.rest s acc 0 text room short nonempty
      (omega arith) (ground (arith, ok)) ok.1
      (begun_first s acc f.first (length (payload f)) op fin q r)

Mid-Ready :
    (s : Rx) (acc : List ℕ) (len op : ℕ) (q : List Message)
    → Mid s acc len len op false q
    → Ready s acc 0 q
unfolding Ready
Mid-Ready s acc len op q m = inr (
  refl,
  record {
    active = m.active;
    dropping = m.dropping;
    buf = m.buf;
    frame_offset = m.frame_offset ∙ sym m.frame_len;
    frame_len = refl;
    frame_opcode = refl;
    frame_fin = m.frame_fin;
    queue = m.queue;
  },
)

run_message :
    (f : Frame) (fs : List Frame) (s : Rx) (acc : List ℕ) (op : ℕ) (q : List Message) (session : ℕ)
    → All IsFrame (f ∷ fs)
    → IsText op
    → length q < 4
    → length acc + length (body (f ∷ fs)) ≤ 4096
    → 1 ≤ length acc + length (body (f ∷ fs))
    → Ready s acc op q
    → (on_all s (message_pieces op f fs) session).queue
      ≡ q ++ (record { bytes = acc ++ body (f ∷ fs); session = session } ∷ [])
unfolding message_pieces body Done IsText
run_message f [] s acc op q session (ok, others) text room short nonempty r =
    let plain : payload f ++ [] ≡ payload f = append-nil (payload f) in
    rw plain (
      run_frame true f s acc op q session ok text room (omega (arith, short, ap length plain))
        (inr (omega (arith, nonempty, ap length plain))) r)
run_message f (g ∷ fs) s acc op q session (ok, others) text room short nonempty r =
    let l1 = length-append (payload f) (body (g ∷ fs)) in
    let l2 = length-append acc (payload f) in
    let m =
      run_frame false f s acc op q session ok text room (omega (arith, short, l1)) (inl refl) r in
    let s' = on_all s (frame_pieces op false f) session in
    let ready : Ready s' (acc ++ payload f) 0 q =
      Mid-Ready s' (acc ++ payload f) (length (payload f)) op q m in
    rw
      (
        on_all-append (frame_pieces op false f) (message_pieces 0 g fs) s session,
        sym (append_assoc acc (payload f) (body (g ∷ fs))),
      )
      (run_message g fs s' (acc ++ payload f) 0 q session others (inr refl) room
        (omega (arith, short, l1, l2)) (omega (arith, nonempty, l1, l2)) ready)

-- A text message of 1 to 4096 bytes, cut into frames and the frames into pieces in any way,
-- reaches the queue as one message with exactly its bytes, if the queue has room and the allocations
-- succeed: whatever the state of the reassembly was before.
pub whole_message_queued :
    (f : Frame) (fs : List Frame) (s : Rx) (session : ℕ)
    → All IsFrame (f ∷ fs)
    → length s.queue < 4
    → 1 ≤ length (body (f ∷ fs))
    → length (body (f ∷ fs)) ≤ 4096
    → (on_all s (message_pieces 1 f fs) session).queue
      ≡ s.queue ++ (record { bytes = body (f ∷ fs); session = session } ∷ [])
unfolding Ready IsText
whole_message_queued f fs s session ok room nonempty short =
    run_message f fs s [] 1 s.queue session ok (inl refl) room (omega (arith, short))
      (omega (arith, nonempty)) (inl (refl, refl, refl))
