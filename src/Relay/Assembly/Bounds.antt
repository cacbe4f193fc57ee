-- ===== src/Relay/Assembly/Bounds.antt =====
-- The buffer and the queue of reassembly keep their bounds.
use remote_wake.Base.{
  ℕ, zero, suc, ◌+◌, ◌*◌, ◌≤◌, ◌<◌, ◌≡◌, ◌⊎◌, inl, inr, Bool, true, List, [], ◌∷◌, ◌++◌, ltb, ◌==◌,
  if◌then◌else◌, length, length-append, take, All, Bool-cases, arith,
}
use remote_wake.Base.Int.{pos_part}
use remote_wake.Relay.Assembly.{
  Rx, Message, Piece, pointed, asm_reset, double_cap, asm_append, queue_message, begin_frame,
  end_piece, put_piece, assemble_text, on_data, on_all,
}

double_cap-enough :
    (fuel cap need : ℕ) → 0 < cap → need ≤ cap + fuel → need ≤ double_cap fuel cap need
unfolding double_cap
double_cap-enough zero cap need pos h = omega (arith, h)
double_cap-enough (suc fuel) cap need pos h = elim (Bool-cases (ltb cap need)) [
  | inl e ↦ rw (e, double_cap) (double_cap-enough fuel (cap * 2) need (omega arith) (omega arith))
  | inr e ↦ rw (e, double_cap) (ground arith)
]

pub IsQueued : Message → Type 0
IsQueued m = (1 ≤ length m.bytes) × (length m.bytes ≤ 4096)

-- The text and its NUL lie inside the allocation, and everything is bounded.
pub record IsSound (s : Rx) : Type 0 where
  pub short : length s.buf ≤ 4096
  pub inside : (length s.buf ≡ 0) ⊎ (length s.buf + 1 ≤ s.cap)
  pub queue_short : length s.queue ≤ 4
  pub queued : All IsQueued s.queue

All-snoc :
    (q : List Message) (m : Message) → All IsQueued q → IsQueued m → All IsQueued (q ++ (m ∷ []))
All-snoc [] m p h = (h, tt)
All-snoc (x ∷ q) m (p, ps) h = (p, All-snoc q m ps h)

asm_append-IsSound :
    (s : Rx) (bytes : List ℕ) (ok : Bool) → IsSound s → IsSound ((asm_append s bytes ok).0)
unfolding asm_append
asm_append-IsSound s bytes ok r =
    let need = length s.buf + length bytes + 1 in
    let enough =
      double_cap-enough need (if s.cap == 0 then 512 else s.cap) need (ground arith)
        (ground arith) in
    let f = r.queued in
    record {
      short = ground (arith, length-append s.buf bytes, r.short);
      inside = ground (arith, length-append s.buf bytes, r.short, r.inside, enough);
      queue_short = ground (arith, r.queue_short);
      queued = ground (arith, f);
    }

queue_message-IsSound :
    (s : Rx) (session : ℕ) (ok : Bool)
    → IsSound s
    → 1 ≤ length s.buf
    → (length (queue_message s.queue s.buf session ok) ≤ 4)
      × All IsQueued (queue_message s.queue s.buf session ok)
unfolding queue_message IsQueued
queue_message-IsSound s session ok r h =
    let m : Message = record { bytes = s.buf; session = session } in
    ground (arith, length-append s.queue (m ∷ []), All-snoc s.queue m r.queued (h, r.short), r)

end_piece-IsSound : (s : Rx) (d : Piece) (session : ℕ) → IsSound s → IsSound (end_piece s d session)
unfolding end_piece asm_reset
end_piece-IsSound s d session r =
    let q = queue_message-IsSound s session d.malloc_ok r in
    let kept = r.queued in
    record {
      short = ground (arith, r.short);
      inside = ground (arith, r.inside);
      queue_short = ground (arith, r.queue_short, q);
      queued = ground (arith, kept, q);
    }

put_piece-IsSound : (s : Rx) (d : Piece) (session : ℕ) → IsSound s → IsSound (put_piece s d session)
unfolding put_piece
put_piece-IsSound s d session r =
    let bytes = take (pos_part d.data_len) (pointed d.data_ptr) in
    let a = asm_append-IsSound s bytes d.realloc_ok r in
    let e = end_piece-IsSound ((asm_append s bytes d.realloc_ok).0) d session a in
    let kept = r.queued in
    let kept' = a.queued in
    let kept'' = e.queued in
    record {
      short = ground (arith, r.short, a.short, e.short);
      inside = ground (arith, r.inside, a.inside, e.inside);
      queue_short = ground (arith, r.queue_short, a.queue_short, e.queue_short);
      queued = ground (arith, kept, kept', kept'');
    }

begin_frame-IsSound : (s : Rx) (d : Piece) → IsSound s → IsSound (begin_frame s d)
unfolding begin_frame asm_reset
begin_frame-IsSound s d r =
    let kept = r.queued in
    record {
      short = ground (arith, r.short);
      inside = ground (arith, r.inside);
      queue_short = ground (arith, r.queue_short);
      queued = ground (arith, kept);
    }

on_data-IsSound :
    (s : Rx) (d : Piece) (valid : Bool) (session : ℕ)
    → IsSound s
    → IsSound (on_data s d valid session)
unfolding on_data assemble_text asm_reset
on_data-IsSound s d valid session r =
    let b = begin_frame-IsSound s d r in
    let p = put_piece-IsSound (begin_frame s d) d session b in
    let kept = r.queued in
    let kept' = b.queued in
    let kept'' = p.queued in
    record {
      short = ground (arith, r.short, b.short, p.short);
      inside = ground (arith, r.inside, b.inside, p.inside);
      queue_short = ground (arith, r.queue_short, b.queue_short, p.queue_short);
      queued = ground (arith, kept, kept', kept'');
    }

-- Whatever data events arrive, from a state in which they hold: the text being put together has at
-- most 4096 bytes and lies with its NUL inside its allocation, the queue has at most 4 messages, and
-- each of them has between 1 and 4096 bytes.
pub on_all-IsSound :
    (pieces : List Piece) (s : Rx) (session : ℕ) → IsSound s → IsSound (on_all s pieces session)
unfolding on_all
on_all-IsSound [] s session r = r
on_all-IsSound (d ∷ rest) s session r =
    on_all-IsSound rest (on_data s d true session) session (on_data-IsSound s d true session r)
