-- ===== src/Config/Counters.antt =====
-- The counters that the verifier keeps in NVS, and what follows for replays on the device.
use remote_wake.Base.{
  ℕ, ◌+◌, ◌<◌, ◌≡◌, ◌≢◌, ◌⊎◌, inl, inr, sym, ap, ◌∙◌, Bool, true, false, List, [], ◌∷◌, Option,
  some, none, if◌then◌else◌, Option-cases, arith,
}
use remote_wake.Config.Slots.{
  Err, is_missing, Slot, Blob, Reading, Nvs, slot_key, ctr_key, kid_index, get_ctr, set_ctr,
}

-- What NVS promises, in a namespace that exists: a write that succeeds is read back, one that fails
-- leaves the old value or the new one, an erased entry is gone, and no write touches another entry.
pub record IsNvs {S : Type 0} (nvs : Nvs S) : Type 0 where
  pub opens_ok : (s : S) (writable : Bool) → nvs.opens s writable ≡ Err.ok
  pub u64-set :
      (s : S) (key : List ℕ) (n : ℕ)
      → (nvs.set_u64 s key n).1 ≡ Err.ok
      → nvs.get_u64 (nvs.set_u64 s key n).0 key ≡ Reading.found n
  pub u64-set_failed :
      (s : S) (key : List ℕ) (n : ℕ)
      → (nvs.get_u64 (nvs.set_u64 s key n).0 key ≡ nvs.get_u64 s key)
        ⊎ (nvs.get_u64 (nvs.set_u64 s key n).0 key ≡ Reading.found n)
  pub u64-set_other :
      (s : S) (key other : List ℕ) (n : ℕ)
      → key ≢ other
      → nvs.get_u64 (nvs.set_u64 s key n).0 other ≡ nvs.get_u64 s other
  pub u64-set_blob :
      (s : S) (key other : List ℕ) (slot : Slot)
      → key ≢ other
      → nvs.get_u64 (nvs.set_blob s key slot).0 other ≡ nvs.get_u64 s other
  pub u64-erase :
      (s : S) (key : List ℕ)
      → ((nvs.erase_key s key).1 ≡ Err.ok) ⊎ ((nvs.erase_key s key).1 ≡ Err.not_found)
      → nvs.get_u64 (nvs.erase_key s key).0 key ≡ Reading.fails Err.not_found
  pub u64-erase_other :
      (s : S) (key other : List ℕ)
      → key ≢ other
      → nvs.get_u64 (nvs.erase_key s key).0 other ≡ nvs.get_u64 s other
  pub u64-commit : (s : S) (key : List ℕ) → nvs.get_u64 (nvs.commit s).0 key ≡ nvs.get_u64 s key
  pub blob-set :
      (s : S) (key : List ℕ) (slot : Slot)
      → (nvs.set_blob s key slot).1 ≡ Err.ok
      → nvs.get_blob (nvs.set_blob s key slot).0 key ≡ Reading.found (Blob.slot_blob slot)
  pub blob-set_other :
      (s : S) (key other : List ℕ) (slot : Slot)
      → key ≢ other
      → nvs.get_blob (nvs.set_blob s key slot).0 other ≡ nvs.get_blob s other
  pub blob-set_u64 :
      (s : S) (key other : List ℕ) (n : ℕ)
      → key ≢ other
      → nvs.get_blob (nvs.set_u64 s key n).0 other ≡ nvs.get_blob s other
  pub blob-erase :
      (s : S) (key : List ℕ)
      → ((nvs.erase_key s key).1 ≡ Err.ok) ⊎ ((nvs.erase_key s key).1 ≡ Err.not_found)
      → nvs.get_blob (nvs.erase_key s key).0 key ≡ Reading.fails Err.not_found
  pub blob-erase_other :
      (s : S) (key other : List ℕ)
      → key ≢ other
      → nvs.get_blob (nvs.erase_key s key).0 other ≡ nvs.get_blob s other
  pub blob-commit : (s : S) (key : List ℕ) → nvs.get_blob (nvs.commit s).0 key ≡ nvs.get_blob s key

pub kid_index_bounds : (kid : List ℕ) (i : ℕ) → kid_index kid ≡ some i → i < 4
unfolding kid_index
kid_index_bounds [] i h = ground arith
kid_index_bounds (p ∷ []) i h = ground arith
kid_index_bounds (p ∷ d ∷ []) i h = ground arith
kid_index_bounds (p ∷ d ∷ x ∷ r) i h = ground arith

kid_index_shape : (kid : List ℕ) (i : ℕ) → kid_index kid ≡ some i → kid ≡ 112 ∷ (i + 49) ∷ []
unfolding kid_index
kid_index_shape [] i h = ground arith
kid_index_shape (p ∷ []) i h = ground arith
kid_index_shape (p ∷ d ∷ []) i h = ground arith
kid_index_shape (p ∷ d ∷ x ∷ r) i h = ground arith

pub kid_index_injective :
    (kid other : List ℕ) (i : ℕ) → kid_index kid ≡ some i → kid_index other ≡ some i → kid ≡ other
kid_index_injective kid other i h k = kid_index_shape kid i h ∙ sym (kid_index_shape other i k)

pub ctr_key-ne : (i j : ℕ) → i < 4 → j < 4 → i ≢ j → ctr_key i ≢ ctr_key j
unfolding ctr_key
ctr_key-ne i j hi hj ne e = ground arith

pub slot_key-ne : (i j : ℕ) → i < 4 → j < 4 → i ≢ j → slot_key i ≢ slot_key j
unfolding slot_key
slot_key-ne i j hi hj ne e = ground arith

pub slot_key-ctr_key : (i j : ℕ) → slot_key i ≢ ctr_key j
unfolding slot_key ctr_key
slot_key-ctr_key i j e = ground arith

abbrev pub mark_of : Reading ℕ → Option ℕ
mark_of (Reading.found v) = some v
mark_of (Reading.fails e) = if is_missing e then some 0 else none

module _ {S : Type 0} (nvs : Nvs S) (laws : IsNvs nvs) where
  pub get_ctr-reads :
      (s : S) (kid : List ℕ) (i : ℕ)
      → kid_index kid ≡ some i
      → get_ctr nvs s kid ≡ mark_of (nvs.get_u64 s (ctr_key i))
  unfolding get_ctr
  get_ctr-reads s kid i h = ground (arith, laws.opens_ok s false)

  pub get_ctr-none : (s : S) (kid : List ℕ) → kid_index kid ≡ none → get_ctr nvs s kid ≡ none
  unfolding get_ctr
  get_ctr-none s kid h = ground arith

  set_ctr-none :
      (s : S) (kid : List ℕ) (n : ℕ)
      → kid_index kid ≡ none
      → set_ctr nvs s kid n ≡ (s, Err.invalid_arg)
  unfolding set_ctr
  set_ctr-none s kid n h = ground arith

  -- What a write leaves in the store, for the entries of counters.
  set_ctr-reads :
      (s : S) (kid key : List ℕ) (n i : ℕ)
      → kid_index kid ≡ some i
      → nvs.get_u64 (set_ctr nvs s kid n).0 key ≡ nvs.get_u64 (nvs.set_u64 s (ctr_key i) n).0 key
  unfolding set_ctr
  set_ctr-reads s kid key n i h =
      let w = nvs.set_u64 s (ctr_key i) n in
      ground (arith, laws.opens_ok s true, laws.u64-commit w.0 key)

  set_ctr-ok :
      (s : S) (kid : List ℕ) (n i : ℕ)
      → kid_index kid ≡ some i
      → (set_ctr nvs s kid n).1 ≡ Err.ok
      → (nvs.set_u64 s (ctr_key i) n).1 ≡ Err.ok
  unfolding set_ctr
  set_ctr-ok s kid n i h ok = ground (arith, laws.opens_ok s true)

  pub get_ctr-set_ctr :
      (s : S) (kid : List ℕ) (n : ℕ)
      → (set_ctr nvs s kid n).1 ≡ Err.ok
      → get_ctr nvs (set_ctr nvs s kid n).0 kid ≡ some n
  get_ctr-set_ctr s kid n ok = elim (Option-cases (kid_index kid)) [
    | inl missing ↦ absurd (ground (arith, set_ctr-none s kid n missing))
    | inr (i, e) ↦
        get_ctr-reads (set_ctr nvs s kid n).0 kid i e
        ∙ ap mark_of (
            set_ctr-reads s kid (ctr_key i) n i e
            ∙ laws.u64-set s (ctr_key i) n (set_ctr-ok s kid n i e ok))
  ]

  pub get_ctr-set_ctr_failed :
      (s : S) (kid : List ℕ) (n : ℕ)
      → (get_ctr nvs (set_ctr nvs s kid n).0 kid ≡ get_ctr nvs s kid)
        ⊎ (get_ctr nvs (set_ctr nvs s kid n).0 kid ≡ some n)
  get_ctr-set_ctr_failed s kid n = elim (Option-cases (kid_index kid)) [
    | inl missing ↦ inl (ap (λ (r : S × Err). get_ctr nvs r.0 kid) (set_ctr-none s kid n missing))
    | inr (i, e) ↦
        let now =
          get_ctr-reads (set_ctr nvs s kid n).0 kid i e
          ∙ ap mark_of (set_ctr-reads s kid (ctr_key i) n i e) in
        elim (laws.u64-set_failed s (ctr_key i) n) [
          | inl old ↦ inl (now ∙ ap mark_of old ∙ sym (get_ctr-reads s kid i e))
          | inr new ↦ inr (now ∙ ap mark_of new)
        ]
  ]

  pub get_ctr-set_ctr_other :
      (s : S) (kid other : List ℕ) (n : ℕ)
      → kid ≢ other
      → get_ctr nvs (set_ctr nvs s kid n).0 other ≡ get_ctr nvs s other
  get_ctr-set_ctr_other s kid other n ne = elim (Option-cases (kid_index kid)) [
    | inl missing ↦ ap (λ (r : S × Err). get_ctr nvs r.0 other) (set_ctr-none s kid n missing)
    | inr (i, e) ↦ elim (Option-cases (kid_index other)) [
      | inl missing ↦
          get_ctr-none (set_ctr nvs s kid n).0 other missing ∙ sym (get_ctr-none s other missing)
      | inr (j, f) ↦
          let differ : i ≢ j = λ same. ne (kid_index_injective kid other i e (rw same f)) in
          let keys =
            ctr_key-ne i j (kid_index_bounds kid i e) (kid_index_bounds other j f) differ in
          get_ctr-reads (set_ctr nvs s kid n).0 other j f
          ∙ ap mark_of (
              set_ctr-reads s kid (ctr_key j) n i e
              ∙ laws.u64-set_other s (ctr_key i) (ctr_key j) n keys)
          ∙ sym (get_ctr-reads s other j f)
    ]
  ]
