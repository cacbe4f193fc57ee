-- ===== src/Config/Tests.antt =====
-- A store in memory, on which a key is registered and the verifier runs.
use remote_wake.Base.{
  ℕ, ◌<◌, ◌≡◌, ◌≢◌, ◌⊎◌, inl, inr, refl, true, List, [], ◌∷◌, some, none, if◌then◌else◌, codes,
  bytes_eq, bytes_eq_refl, bytes_eq→eq, replicate, Bool-cases,
}
use remote_wake.Auth.Errors.{AuthErr}
use remote_wake.Auth.Ops.{Ops}
use remote_wake.Auth.Verify.{verify, authorize, structural, check_address, check_sig, check_time}
use remote_wake.Auth.Envelope.{copy_str_field, num_field_i64, signing_string}
use remote_wake.Auth.Replay.{with_counters, serve}
use remote_wake.Auth.Tests.{env, device, command}
use remote_wake.B64Url.{
  decode, strip_padding, dec_loop, dec_one, prepend, dec_end, push_digit, ct_equal,
}
use remote_wake.CanonJson as Codec
use remote_wake.Config.Slots.{
  Err, Blob, Reading, Nvs, kid_index, get_ctr, set_ctr, get_key, get_slot, add_key, find_slot,
  write_slot, slot_key, ctr_key, kid_of,
}
use remote_wake.Config.Counters.{IsNvs}
use remote_wake.Config.Device.{nvs_counters, device_accepts_once}
use remote_wake.Config.Lifecycle.{add_key-registers}
use remote_wake.Base.Int.{pos}

abbrev update : {A : Type 0} → (List ℕ → A) → List ℕ → A → List ℕ → A
update m key v other = if bytes_eq key other then v else m other

update_self : {A : Type 0} (m : List ℕ → A) (key : List ℕ) (v : A) → update m key v key ≡ v
update_self m key v = rw (bytes_eq_refl key)

update_other :
    {A : Type 0} (m : List ℕ → A) (key other : List ℕ) (v : A)
    → key ≢ other
    → update m key v other ≡ m other
update_other m key other v ne = elim (Bool-cases (bytes_eq key other)) [
  | inl same ↦ absurd (ne (bytes_eq→eq key other same))
  | inr differ ↦ rw differ
]

pub record Memory : Type 0 where
  numbers : List ℕ → Reading ℕ
  blobs : List ℕ → Reading Blob

abbrev pub memory : Nvs Memory
memory = record {
  opens = λ s w. Err.ok;
  get_blob = λ s key. s.blobs key;
  set_blob = λ s key slot.
      (record s { blobs = update s.blobs key (Reading.found (Blob.slot_blob slot)) }, Err.ok);
  get_u64 = λ s key. s.numbers key;
  set_u64 = λ s key n. (record s { numbers = update s.numbers key (Reading.found n) }, Err.ok);
  erase_key = λ s key. (
    record {
      numbers = update s.numbers key (Reading.fails Err.not_found);
      blobs = update s.blobs key (Reading.fails Err.not_found);
    },
    Err.ok,
  );
  commit = λ s. (s, Err.ok);
}

memory-IsNvs : IsNvs memory
memory-IsNvs = record {
  opens_ok = λ s w. refl;
  u64-set = λ s key n h. update_self s.numbers key (Reading.found n);
  u64-set_failed = λ s key n. inr (update_self s.numbers key (Reading.found n));
  u64-set_other = λ s key other n ne. update_other s.numbers key other (Reading.found n) ne;
  u64-set_blob = λ s key other slot ne. refl;
  u64-erase = λ s key h. update_self s.numbers key (Reading.fails Err.not_found);
  u64-erase_other =
      λ s key other ne. update_other s.numbers key other (Reading.fails Err.not_found) ne;
  u64-commit = λ s key. refl;
  blob-set = λ s key slot h. update_self s.blobs key (Reading.found (Blob.slot_blob slot));
  blob-set_other = λ s key other slot ne.
      update_other s.blobs key other (Reading.found (Blob.slot_blob slot)) ne;
  blob-set_u64 = λ s key other n ne. refl;
  blob-erase = λ s key h. update_self s.blobs key (Reading.fails Err.not_found);
  blob-erase_other =
      λ s key other ne. update_other s.blobs key other (Reading.fails Err.not_found) ne;
  blob-commit = λ s key. refl;
}

abbrev pub blank : Memory
blank = record {
  numbers = λ key. Reading.fails Err.not_found;
  blobs = λ key. Reading.fails Err.not_found;
}

abbrev pub operator_key : List ℕ
operator_key = replicate 32 7

abbrev pub registered : Memory
registered = (add_key memory blank operator_key [] 0).0

registers : add_key memory blank operator_key [] 0 ≡ (registered, Err.ok, some (codes "p1"))
unfolding add_key find_slot get_slot write_slot slot_key ctr_key kid_of
registers = refl

add_key-registers_example :
    (get_key memory registered (codes "p1") ≡ some operator_key)
    × ((registered ≡ blank) ⊎ (get_ctr memory registered (codes "p1") ≡ some 0))
    × ((other : List ℕ)
        → other ≢ codes "p1"
        → (get_key memory registered other ≡ get_key memory blank other)
          × (get_ctr memory registered other ≡ get_ctr memory blank other))
add_key-registers_example =
    add_key-registers memory memory-IsNvs blank registered operator_key [] (codes "p1") 0 registers

-- The callbacks of the device, on its own keys and counters.
abbrev ops : Ops Memory
ops = record {
  device_id = some device;
  now = pos 1800000050;
  ts_window = pos 90;
  clock_valid = true;
  get_key = some (get_key memory);
  get_ctr = none;
  set_ctr = none;
  act_enabled = some (λ s act. true);
}

abbrev served : Ops Memory
served = with_counters (nvs_counters memory memory-IsNvs) ops

abbrev after_five : Memory
after_five = (set_ctr memory registered (codes "p1") 5).0

abbrev after_nine : Memory
after_nine = (set_ctr memory after_five (codes "p1") 9).0

accepts_five : verify env served registered (5 ∷ []) ≡ (after_five, AuthErr.ok, command 5)
unfolding verify authorize structural check_address check_sig check_time copy_str_field
    num_field_i64 signing_string decode strip_padding dec_loop dec_one prepend dec_end push_digit
    ct_equal Codec.emit Codec.empty Codec.append get_key get_ctr set_ctr add_key find_slot get_slot
    write_slot kid_index slot_key ctr_key
accepts_five = refl

-- The same envelope again is refused.
abbrev again : List (Ops Memory × List ℕ)
again = (ops, 5 ∷ []) ∷ []

refuses_again : serve env (nvs_counters memory memory-IsNvs) after_five again ≡ after_five
unfolding serve verify authorize structural check_address check_sig check_time copy_str_field
    num_field_i64 signing_string decode strip_padding dec_loop dec_one prepend dec_end push_digit
    ct_equal Codec.emit Codec.empty Codec.append get_key get_ctr set_ctr add_key find_slot get_slot
    write_slot kid_index slot_key ctr_key
refuses_again = refl

accepts_nine : verify env served after_five (9 ∷ []) ≡ (after_nine, AuthErr.ok, command 9)
unfolding verify authorize structural check_address check_sig check_time copy_str_field
    num_field_i64 signing_string decode strip_padding dec_loop dec_one prepend dec_end push_digit
    ct_equal Codec.emit Codec.empty Codec.append get_key get_ctr set_ctr add_key find_slot get_slot
    write_slot kid_index slot_key ctr_key
accepts_nine = refl

device_accepts_once_example : 5 < 9
device_accepts_once_example =
    device_accepts_once memory memory-IsNvs env ops ops registered after_five after_nine (5 ∷ [])
      (9 ∷ []) (command 5) (command 9) again accepts_five (rw refuses_again accepts_nine) refl
