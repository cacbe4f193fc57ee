-- ===== src/Auth/Tests.antt =====
-- The verifier on a concrete envelope, with a store of one counter for each key.
use remote_wake.Base.{
  ℕ, ◌+◌, ap, Bool-cases, ◌≡◌, ◌≢◌, ◌↔◌, inl, inr, refl, true, false, Option, none, some, List, [],
  ◌∷◌, ◌==◌, if◌then◌else◌, ◌&&◌, codes, bytes_eq, bytes_eq_refl, bytes_eq→eq, replicate, arith,
}
use remote_wake.Base.Int.{ℤ, pos, ltb_ℤ, pos_part, neg_part}
use remote_wake.Json.{Doubles, Json, Members, string_of}
use remote_wake.B64Url.{
  decode, strip_padding, dec_loop, dec_one, prepend, dec_end, push_digit, ct_equal,
}
use remote_wake.CanonJson as Codec
use remote_wake.Auth.Errors.{AuthErr}
use remote_wake.Auth.Envelope.{copy_str_field, num_field_i64, signing_string}
use remote_wake.Auth.Ops.{Ops, Cmd, Env}
use remote_wake.Auth.Verify.{
  Fields, structural, check_address, check_sig, check_time, authorize, verify,
}
use remote_wake.Auth.Soundness.{AreBytes, IsAuthorized, authorize-ok_iff}
use remote_wake.Auth.Accepted.{TextsAreBytes, IsEnvelope, verify-ok}
use remote_wake.Auth.Replay.{CounterStore, with_counters, serve}

-- Integers stand in for doubles.
abbrev pub whole : Doubles
whole = record {
  Double = ℤ;
  is_nan = λ d. false;
  is_inf = λ d. false;
  lt = ltb_ℤ;
  eq = λ a b. (pos_part a == pos_part b) && (neg_part a == neg_part b);
  floor = λ d. d;
  trunc = λ d. d;
  fabs = λ d. pos (pos_part d + neg_part d);
  of_int = λ z. z;
  to_int = λ d. d;
  print_g = λ n d. [];
  strtod = λ s. pos 0;
}

abbrev pub device : List ℕ
device = codes "0123456789abcdef"

abbrev pub signature : List ℕ
signature = replicate 86 b'A'

abbrev pub text_value : List ℕ → Json ℤ
text_value s = Json.str (some s)

-- An envelope with a given counter; its bytes are the counter.
abbrev pub fields_of : ℕ → List (List ℕ × Json ℤ)
fields_of ctr =
    (codes "v", Json.num (pos 1))
    ∷ (codes "ts", Json.num (pos 1800000000))
    ∷ (codes "ctr", Json.num (pos ctr))
    ∷ (codes "dev", text_value device)
    ∷ (codes "id", text_value (codes "a1"))
    ∷ (codes "act", text_value (codes "ping"))
    ∷ (codes "kid", text_value (codes "p1"))
    ∷ (codes "sig", text_value signature)
    ∷ (codes "args", Json.obj Members.end)
    ∷ []

abbrev pub members_of : List (List ℕ × Json ℤ) → Members ℤ
members_of [] = Members.end
members_of ((k, j) ∷ fs) = Members.member 0 (some k) j (members_of fs)

abbrev pub read_envelope : List ℕ → Option (Json ℤ)
read_envelope [] = none
read_envelope (ctr ∷ rest) = some (Json.obj (members_of (fields_of ctr)))

abbrev pub find_member : Members ℤ → List ℕ → Option (Json ℤ)
find_member Members.end name = none
find_member (Members.member a none j ms) name = find_member ms name
find_member (Members.member a (some k) j ms) name =
    if bytes_eq k name then some j else find_member ms name

abbrev pub find_item : Json ℤ → List ℕ → Option (Json ℤ)
find_item (Json.obj ms) name = find_member ms name
find_item _ name = none

abbrev pub env : Env
env = record {
  doubles = whole;
  json = record { parse = read_envelope; get_item = find_item };
  calloc_ok = λ n. true;
  alloc = λ n. true;
  verify_detached = λ sig msg pub_key. true;
}

-- The store is a function from key ids to counters.
abbrev pub write_mark : (List ℕ → ℕ) → List ℕ → ℕ → List ℕ → ℕ
write_mark s kid n other = if bytes_eq kid other then n else s other

pub write_mark_other :
    (s : List ℕ → ℕ) (kid other : List ℕ) (n : ℕ) → kid ≢ other → write_mark s kid n other ≡ s other
write_mark_other s kid other n ne = elim (Bool-cases (bytes_eq kid other)) [
  | inl same ↦ absurd (ne (bytes_eq→eq kid other same))
  | inr differ ↦ rw differ
]

pub write_mark_self : (s : List ℕ → ℕ) (kid : List ℕ) (n : ℕ) → write_mark s kid n kid ≡ n
write_mark_self s kid n = rw (bytes_eq_refl kid)

abbrev pub marks : CounterStore (List ℕ → ℕ)
marks = record {
  get = λ s kid. some (s kid);
  put = λ s kid n. (write_mark s kid n, true);
  get-put = λ s kid n h. ap some (write_mark_self s kid n);
  get-put_failed = λ s kid n. inr (ap some (write_mark_self s kid n));
  get-put_other = λ s kid other n ne. ap some (write_mark_other s kid other n ne);
}

abbrev pub ops : Ops (List ℕ → ℕ)
ops = record {
  device_id = some device;
  now = pos 1800000050;
  ts_window = pos 90;
  clock_valid = true;
  get_key = some (λ s kid. some (replicate 32 7));
  get_ctr = none;
  set_ctr = none;
  act_enabled = some (λ s act. true);
}

abbrev served : Ops (List ℕ → ℕ)
served = with_counters marks ops

abbrev pub zero_marks : List ℕ → ℕ
zero_marks kid = 0

abbrev pub command : ℕ → Cmd ℤ
command ctr = record {
  id = codes "a1";
  act = codes "ping";
  kid = codes "p1";
  ts = pos 1800000000;
  ctr = ctr;
  args = some (Json.obj Members.end);
}

abbrev read_fields : Fields env
read_fields = record { v = pos 1; dev = device; sig_b64 = signature }

abbrev after_five : List ℕ → ℕ
after_five = write_mark zero_marks (codes "p1") 5

accepts_five : verify env served zero_marks (5 ∷ []) ≡ (after_five, AuthErr.ok, command 5)
unfolding verify authorize structural check_address check_sig check_time copy_str_field
    num_field_i64 signing_string decode strip_padding dec_loop dec_one prepend dec_end push_digit
    ct_equal Codec.emit Codec.empty Codec.append
accepts_five = refl

abbrev AreBytesAll : Members ℤ → Type 0
AreBytesAll Members.end = Unit
AreBytesAll (Members.member a k (Json.str (some s)) ms) = AreBytes s × AreBytesAll ms
AreBytesAll (Members.member a k j ms) = AreBytesAll ms

find_member-AreBytes :
    (ms : Members ℤ) (name s : List ℕ)
    → AreBytesAll ms
    → string_of (find_member ms name) ≡ some s
    → AreBytes s
find_member-AreBytes Members.end name s h e = absurd (ground arith)
find_member-AreBytes (Members.member a none (Json.str (some t)) ms) name s h e =
    find_member-AreBytes ms name s h.1 e
find_member-AreBytes (Members.member a (some k) (Json.str (some t)) ms) name s h e =
    elim (Bool-cases (bytes_eq k name)) [
      | inl same ↦ let e' : t ≡ s = ground arith in rw (← e') h.0
      | inr differ ↦ find_member-AreBytes ms name s h.1 (rw differ at e)
    ]
find_member-AreBytes (Members.member a none _ ms) name s h e = find_member-AreBytes ms name s h e
find_member-AreBytes (Members.member a (some k) _ ms) name s h e =
    elim (Bool-cases (bytes_eq k name)) [
      | inl same ↦ absurd (ground arith)
      | inr differ ↦ find_member-AreBytes ms name s h (rw differ at e)
    ]

env-TextsAreBytes : TextsAreBytes env
env-TextsAreBytes [] root name s p e = absurd (ground arith)
env-TextsAreBytes (ctr ∷ rest) root name s p e =
    let same : Json.obj (members_of (fields_of ctr)) ≡ root = ground arith in
    find_member-AreBytes (members_of (fields_of ctr)) name s (omega arith) (rw (← same) at e)

authorize-ok_iff_example :
    (authorize env served device zero_marks (command 5) read_fields ≡ (after_five, AuthErr.ok))
    ↔ IsAuthorized env served device zero_marks after_five (command 5) read_fields
authorize-ok_iff_example =
    authorize-ok_iff env served device zero_marks after_five (command 5) read_fields (omega arith)
      (omega arith)

verify-ok_example :
    (f : Fields env) × IsEnvelope env (5 ∷ []) (command 5) f
    × IsAuthorized env served device zero_marks after_five (command 5) f
verify-ok_example =
    verify-ok env served zero_marks after_five (5 ∷ []) (command 5) device env-TextsAreBytes refl
      (omega arith) accepts_five

-- A replay of the first command, and a second command.
abbrev between : List (Ops (List ℕ → ℕ) × List ℕ)
between = (ops, 5 ∷ []) ∷ (ops, 6 ∷ []) ∷ []

abbrev after_both : List ℕ → ℕ
after_both = write_mark after_five (codes "p1") 6

serves_both : serve env marks after_five between ≡ after_both
unfolding serve verify authorize structural check_address check_sig check_time copy_str_field
    num_field_i64 signing_string decode strip_padding dec_loop dec_one prepend dec_end push_digit
    ct_equal Codec.emit Codec.empty Codec.append
serves_both = refl

accepts_nine :
    verify env served after_both (9 ∷ [])
    ≡ (write_mark after_both (codes "p1") 9, AuthErr.ok, command 9)
unfolding verify authorize structural check_address check_sig check_time copy_str_field
    num_field_i64 signing_string decode strip_padding dec_loop dec_one prepend dec_end push_digit
    ct_equal Codec.emit Codec.empty Codec.append
accepts_nine = refl
