-- ===== src/Config/Slots.antt =====
-- The key slots and counters of firmware/main/config.c. The NVS library is a parameter: a store `S`
-- with the calls that the code makes, each of which can fail. Every call opens the namespace first.
use remote_wake.Base.{
  ℕ, zero, suc, ◌+◌, ◌-◌, ◌%◌, Bool, true, false, not, ◌||◌, List, [], ◌∷◌, Option, some, none, ltb,
  leb, ◌≡◌, ◌⊎◌, inl, inr, refl, ◌==◌, if◌then◌else◌, length, codes, bytes_eq, replicate, take,
}

-- The results of `esp_err_t` that the code tells apart.
pub data Err : Type 0 where
  ok invalid_arg no_mem not_found invalid_size other : Err

abbrev pub is_ok : Err → Bool
is_ok Err.ok = true
is_ok _ = false

abbrev pub is_missing : Err → Bool
is_missing Err.not_found = true
is_missing _ = false

-- `rw_keyslot_t`. The name is the text before its NUL.
pub record Slot : Type 0 where
  pub pubkey : List ℕ
  pub name : List ℕ
  pub added_at : ℕ

-- A blob of NVS is a slot, or something of another size.
pub data Blob : Type 0 where
  slot_blob : Slot → Blob
  other_size : Blob

-- What is read: a value, or why there is none.
pub data Reading (A : Type 0) : Type 0 where
  found : A → Reading A
  fails : Err → Reading A

pub Reading-cases :
    {A : Type 0} (r : Reading A)
    → ((a : A) × (r ≡ Reading.found a)) ⊎ ((e : Err) × (r ≡ Reading.fails e))
Reading-cases (found a) = inl (a, refl)
Reading-cases (fails e) = inr (e, refl)

-- The NVS library, in the namespace of this program, with keys as texts. Writes may or may not take
-- effect when they fail; `commit` is what makes them durable.
pub record Nvs (S : Type 0) : Type 0 where
  pub opens : S → Bool → Err
  pub get_blob : S → List ℕ → Reading Blob
  pub set_blob : S → List ℕ → Slot → S × Err
  pub get_u64 : S → List ℕ → Reading ℕ
  pub set_u64 : S → List ℕ → ℕ → S × Err
  pub erase_key : S → List ℕ → S × Err
  pub commit : S → S × Err

abbrev pub max_key_slots : ℕ
max_key_slots = 4

-- "k1" to "k4".
unfoldable pub slot_key : ℕ → List ℕ
slot_key idx = 107 ∷ (48 + (idx % 4 + 1)) ∷ []

-- "c1" to "c4".
unfoldable pub ctr_key : ℕ → List ℕ
ctr_key idx = 99 ∷ (48 + (idx % 4 + 1)) ∷ []

-- `none` is -1.
unfoldable pub kid_index : List ℕ → Option ℕ
kid_index (p ∷ d ∷ []) =
    if not (p == 112) || ltb d 49 || ltb (48 + max_key_slots) d then none else some (d - 49)
kid_index _ = none

-- "p1" to "p4".
unfoldable pub kid_of : ℕ → List ℕ
kid_of idx = 112 ∷ (48 + (idx % 4 + 1)) ∷ []

abbrev pub blob_slot : Reading Blob → Reading Slot
blob_slot (fails e) = fails e
blob_slot (found (slot_blob s)) = found s
blob_slot (found other_size) = fails Err.invalid_size

-- `erase_key` results: an entry that was not there is no failure.
abbrev pub erased : Err → Bool
erased Err.ok = true
erased Err.not_found = true
erased _ = false

-- The loop of `add_key` over the slots: the slot that holds the key, or the first without one.
pub data Search : Type 0 where
  registered free : ℕ → Search
  full : Search

pub Search-cases :
    (r : Search)
    → ((i : ℕ) × (r ≡ Search.registered i)) ⊎ (((i : ℕ) × (r ≡ Search.free i)) ⊎ (r ≡ Search.full))
Search-cases (Search.registered i) = inl (i, refl)
Search-cases (Search.free i) = inr (inl (i, refl))
Search-cases Search.full = inr (inr refl)

abbrev pub or_free : Option ℕ → Search
or_free none = full
or_free (some i) = free i

abbrev pub first_free : Option ℕ → ℕ → Option ℕ
first_free none i = some i
first_free (some j) i = some j

abbrev pub slot_of : List ℕ → List ℕ → ℕ → Slot
slot_of pubkey name now = record {
  pubkey = pubkey;
  name = if length name == 0 then codes "operator" else take 31 name;
  added_at = now;
}

module _ {S : Type 0} (nvs : Nvs S) where
  unfoldable pub get_slot : S → ℕ → Reading Slot
  unfolding slot_key
  get_slot s idx =
      if leb max_key_slots idx then fails Err.invalid_arg else elim (nvs.opens s false) [
        | Err.ok ↦ blob_slot (nvs.get_blob s (slot_key idx))
        | e ↦ fails e
      ]

  unfoldable pub get_key : S → List ℕ → Option (List ℕ)
  unfolding kid_index get_slot
  get_key s kid = elim (kid_index kid) [
    | none ↦ none
    | some idx ↦ elim (get_slot s idx) [ found slot ↦ some slot.pubkey | fails e ↦ none ]
  ]

  unfoldable pub get_ctr : S → List ℕ → Option ℕ
  unfolding kid_index ctr_key
  get_ctr s kid = elim (kid_index kid) [
    | none ↦ none
    | some idx ↦ elim (nvs.opens s false) [
      | Err.ok ↦ elim (nvs.get_u64 s (ctr_key idx)) [
        | found v ↦ some v
        | fails e ↦ if is_missing e then some 0 else none
      ]
      | e ↦ none
    ]
  ]

  unfoldable pub set_ctr : S → List ℕ → ℕ → S × Err
  unfolding kid_index ctr_key
  set_ctr s kid ctr = elim (kid_index kid) [
    | none ↦ (s, Err.invalid_arg)
    | some idx ↦ elim (nvs.opens s true) [
      | Err.ok ↦
          let (s₁, e₁) = nvs.set_u64 s (ctr_key idx) ctr in
          if is_ok e₁ then nvs.commit s₁ else (s₁, e₁)
      | e ↦ (s, e)
    ]
  ]

  unfoldable pub find_slot : S → List ℕ → ℕ → ℕ → Option ℕ → Search
  unfolding get_slot
  find_slot s pubkey zero i free_idx = or_free free_idx
  find_slot s pubkey (suc left) i free_idx = elim (get_slot s i) [
    | found slot ↦
        let rest = find_slot s pubkey left (i + 1) free_idx in
        if bytes_eq slot.pubkey pubkey then registered i else rest
    | fails e ↦ find_slot s pubkey left (i + 1) (first_free free_idx i)
  ]

  -- From `nvs_open_rw(&h, NVS_READWRITE)` on: the result, and the kid that is written out.
  unfoldable pub write_slot : S → ℕ → Slot → S × Err × Option (List ℕ)
  unfolding slot_key ctr_key kid_of
  write_slot s idx slot = elim (nvs.opens s true) [
    | Err.ok ↦
        let (s₁, e₁) = nvs.set_blob s (slot_key idx) slot in
        if not (is_ok e₁)
        then (s₁, e₁, none)
        else let (s₂, e₂) = nvs.set_u64 s₁ (ctr_key idx) 0 in
          if not (is_ok e₂)
          then (s₂, e₂, none)
          else let (s₃, e₃) = nvs.commit s₂ in
            (s₃, e₃, if is_ok e₃ then some (kid_of idx) else none)
    | e ↦ (s, e, none)
  ]

  -- `rw_config_add_key`; an absent name is the empty one, `now` is `time(NULL)`.
  unfoldable pub add_key : S → List ℕ → List ℕ → ℕ → S × Err × Option (List ℕ)
  unfolding find_slot write_slot kid_of
  add_key s pubkey name now =
      if bytes_eq pubkey (replicate 32 0)
      then (s, Err.invalid_arg, none)
      else elim (find_slot s pubkey max_key_slots 0 none) [
        | registered i ↦ (s, Err.ok, some (kid_of i))
        | free i ↦ write_slot s i (slot_of pubkey name now)
        | full ↦ (s, Err.no_mem, none)
      ]

  unfoldable pub remove_slot : S → ℕ → S × Err
  unfolding slot_key ctr_key
  remove_slot s idx =
      if leb max_key_slots idx then (s, Err.invalid_arg) else elim (nvs.opens s true) [
        | Err.ok ↦
            let (s₁, e₁) = nvs.erase_key s (slot_key idx) in
            let (s₂, e₂) = nvs.erase_key s₁ (ctr_key idx) in
            let (s₃, e₃) = nvs.commit s₂ in
            (s₃, if not (erased e₁) then e₁ else if not (erased e₂) then e₂ else e₃)
        | e ↦ (s, e)
      ]

  unfoldable pub count_from : S → ℕ → ℕ → ℕ
  unfolding get_slot
  count_from s zero i = 0
  count_from s (suc left) i = elim (get_slot s i) [
    | found slot ↦ count_from s left (i + 1) + 1
    | fails e ↦ count_from s left (i + 1)
  ]

  unfoldable pub key_count : S → ℕ
  unfolding count_from
  key_count s = count_from s max_key_slots 0
