-- ===== src/Config/Lifecycle.antt =====
-- Registering and removing an operator key.
use remote_wake.Base.{
  ℕ, zero, suc, ◌+◌, ◌<◌, ◌≤◌, ◌≡◌, ◌≢◌, ◌⊎◌, inl, inr, refl, sym, ap, ◌∙◌, true, false, List,
  Option, some, none, bytes_eq, bytes_eq→eq, Option-cases, Bool-cases, arith,
}
use remote_wake.Config.Slots.{
  Err, Slot, Blob, blob_slot, Reading, Reading-cases, Nvs, slot_key, ctr_key, kid_index, kid_of,
  get_slot, get_key, get_ctr, Search, Search-cases, first_free, find_slot, slot_of, write_slot,
  add_key,
}
use remote_wake.Config.Counters.{
  IsNvs, kid_index_bounds, slot_key-ne, ctr_key-ne, slot_key-ctr_key, get_ctr-reads, get_ctr-none,
  mark_of, kid_index_injective,
}

kid_index-kid_of : (i : ℕ) → i < 4 → kid_index (kid_of i) ≡ some i
unfolding kid_index kid_of
kid_index-kid_of i h = ground arith

module _ {S : Type 0} (nvs : Nvs S) (laws : IsNvs nvs) where
  get_slot-reads :
      (s : S) (i : ℕ) → i < 4 → get_slot nvs s i ≡ blob_slot (nvs.get_blob s (slot_key i))
  unfolding get_slot
  get_slot-reads s i h = ground (arith, laws.opens_ok s false)

  -- The search finds a slot that holds the key, or a slot below 4 that could not be read.
  find_slot-registered :
      (s : S) (pubkey : List ℕ) (left i j : ℕ) (free_idx : Option ℕ)
      → i + left ≤ 4
      → find_slot nvs s pubkey left i free_idx ≡ Search.registered j
      → (j < 4) × (slot : Slot) × (get_slot nvs s j ≡ Reading.found slot) × (slot.pubkey ≡ pubkey)
  unfolding find_slot
  find_slot-registered s pubkey zero i j none le h = ground arith
  find_slot-registered s pubkey zero i j (some k) le h = ground arith
  find_slot-registered s pubkey (suc left) i j free_idx le h =
      elim (Reading-cases (get_slot nvs s i)) [
        | inl (slot, e) ↦ elim (Bool-cases (bytes_eq slot.pubkey pubkey)) [
          | inl same ↦ (ground arith, slot, ground arith, bytes_eq→eq slot.pubkey pubkey same)
          | inr differ ↦
              find_slot-registered s pubkey left (i + 1) j free_idx (omega arith) (ground arith)
        ]
        | inr (err, e) ↦
            find_slot-registered s pubkey left (i + 1) j (first_free free_idx i) (omega arith)
              (ground arith)
      ]

  find_slot-free :
      (s : S) (pubkey : List ℕ) (left i j : ℕ) (free_idx : Option ℕ)
      → i + left ≤ 4
      → ((k : ℕ) → free_idx ≡ some k → k < 4)
      → find_slot nvs s pubkey left i free_idx ≡ Search.free j
      → j < 4
  unfolding find_slot
  find_slot-free s pubkey zero i j none le low h = ground arith
  find_slot-free s pubkey zero i j (some k) le low h = ground (arith, low k refl)
  find_slot-free s pubkey (suc left) i j none le low h = elim (Reading-cases (get_slot nvs s i)) [
    | inl (slot, e) ↦ find_slot-free s pubkey left (i + 1) j none (omega arith) low (ground arith)
    | inr (err, e) ↦
        find_slot-free s pubkey left (i + 1) j (some i) (omega arith) (λ k p. ground arith)
          (ground arith)
  ]
  find_slot-free s pubkey (suc left) i j (some k) le low h =
      elim (Reading-cases (get_slot nvs s i)) [
        | inl (slot, e) ↦
            find_slot-free s pubkey left (i + 1) j (some k) (omega arith) low (ground arith)
        | inr (err, e) ↦
            find_slot-free s pubkey left (i + 1) j (some k) (omega arith) low (ground arith)
      ]

abbrev key_of : Reading Blob → Option (List ℕ)
key_of (Reading.found (Blob.slot_blob slot)) = some slot.pubkey
key_of _ = none

key_of-blob_slot :
    (r : Reading Blob) (slot : Slot)
    → blob_slot r ≡ Reading.found slot
    → key_of r ≡ some slot.pubkey
key_of-blob_slot (Reading.found (Blob.slot_blob t)) slot h = ground arith
key_of-blob_slot (Reading.found Blob.other_size) slot h = ground arith
key_of-blob_slot (Reading.fails e) slot h = ground arith

module _ {S : Type 0} (nvs : Nvs S) (laws : IsNvs nvs) where
  get_key-reads :
      (s : S) (kid : List ℕ) (i : ℕ)
      → kid_index kid ≡ some i
      → get_key nvs s kid ≡ key_of (nvs.get_blob s (slot_key i))
  unfolding get_key
  get_key-reads s kid i h =
      let read = get_slot-reads nvs laws s i (kid_index_bounds kid i h) in
      elim (Reading-cases (nvs.get_blob s (slot_key i))) [
        | inl (Blob.slot_blob slot, e) ↦ ground (arith, read)
        | inl (Blob.other_size, e) ↦ ground (arith, read)
        | inr (err, e) ↦ ground (arith, read)
      ]

  get_key-none : (s : S) (kid : List ℕ) → kid_index kid ≡ none → get_key nvs s kid ≡ none
  unfolding get_key
  get_key-none s kid h = ground arith

  -- A successful write made its three calls, in this order.
  write_slot-ok :
      (s s' : S) (i : ℕ) (slot : Slot) (kid : List ℕ)
      → write_slot nvs s i slot ≡ (s', Err.ok, some kid)
      → let w₁ = nvs.set_blob s (slot_key i) slot in
        let w₂ = nvs.set_u64 w₁.0 (ctr_key i) 0 in
        (w₁.1 ≡ Err.ok) × (w₂.1 ≡ Err.ok) × (s' ≡ (nvs.commit w₂.0).0) × (kid ≡ kid_of i)
  unfolding write_slot
  write_slot-ok s s' i slot kid h = ground (arith, laws.opens_ok s true)

  write_slot-blob :
      (s s' : S) (i : ℕ) (slot : Slot) (kid key : List ℕ)
      → write_slot nvs s i slot ≡ (s', Err.ok, some kid)
      → key ≢ ctr_key i
      → nvs.get_blob s' key ≡ nvs.get_blob (nvs.set_blob s (slot_key i) slot).0 key
  write_slot-blob s s' i slot kid key h ne =
      let (set, reset, done, named) = write_slot-ok s s' i slot kid h in
      let w₁ = nvs.set_blob s (slot_key i) slot in
      let w₂ = nvs.set_u64 w₁.0 (ctr_key i) 0 in
      ap (λ (t : S). nvs.get_blob t key) done
      ∙ laws.blob-commit w₂.0 key
      ∙ laws.blob-set_u64 w₁.0 (ctr_key i) key 0 (λ e. ne (sym e))

  write_slot-u64 :
      (s s' : S) (i : ℕ) (slot : Slot) (kid key : List ℕ)
      → write_slot nvs s i slot ≡ (s', Err.ok, some kid)
      → nvs.get_u64 s' key
        ≡ nvs.get_u64 (nvs.set_u64 (nvs.set_blob s (slot_key i) slot).0 (ctr_key i) 0).0 key
  write_slot-u64 s s' i slot kid key h =
      let (set, reset, done, named) = write_slot-ok s s' i slot kid h in
      ap (λ (t : S). nvs.get_u64 t key) done ∙ laws.u64-commit _ key

  -- A written slot holds the key, with a counter of 0, and the other keys and counters are kept.
  write_slot-registers :
      (s s' : S) (i : ℕ) (slot : Slot) (kid : List ℕ)
      → i < 4
      → write_slot nvs s i slot ≡ (s', Err.ok, some kid)
      → (get_key nvs s' kid ≡ some slot.pubkey) × (get_ctr nvs s' kid ≡ some 0)
  write_slot-registers s s' i slot kid low h =
      let (set, reset, done, named) = write_slot-ok s s' i slot kid h in
      let index : kid_index kid ≡ some i = ap kid_index named ∙ kid_index-kid_of i low in
      let w₁ = nvs.set_blob s (slot_key i) slot in
      (
        get_key-reads s' kid i index
            ∙ ap key_of (
                write_slot-blob s s' i slot kid (slot_key i) h (slot_key-ctr_key i i)
                ∙ laws.blob-set s (slot_key i) slot set),
        ground (
          arith,
          get_ctr-reads nvs laws s' kid i index,
          write_slot-u64 s s' i slot kid (ctr_key i) h,
          laws.u64-set w₁.0 (ctr_key i) 0 reset,
        ),
      )

  write_slot-keeps :
      (s s' : S) (i : ℕ) (slot : Slot) (kid other : List ℕ)
      → i < 4
      → write_slot nvs s i slot ≡ (s', Err.ok, some kid)
      → other ≢ kid
      → (get_key nvs s' other ≡ get_key nvs s other) × (get_ctr nvs s' other ≡ get_ctr nvs s other)
  write_slot-keeps s s' i slot kid other low h ne =
      let (set, reset, done, named) = write_slot-ok s s' i slot kid h in
      let index : kid_index kid ≡ some i = ap kid_index named ∙ kid_index-kid_of i low in
      let w₁ = nvs.set_blob s (slot_key i) slot in
      elim (Option-cases (kid_index other)) [
        | inl none' ↦ (
          get_key-none s' other none' ∙ sym (get_key-none s other none'),
          get_ctr-none nvs laws s' other none' ∙ sym (get_ctr-none nvs laws s other none'),
        )
        | inr (j, f) ↦
            let differ : i ≢ j = λ same. ne (kid_index_injective other kid i (rw same f) index) in
            let low' = kid_index_bounds other j f in
            (
              get_key-reads s' other j f
                  ∙ ap key_of (
                      write_slot-blob s s' i slot kid (slot_key j) h (slot_key-ctr_key j i)
                      ∙ laws.blob-set_other s (slot_key i) (slot_key j) slot
                          (slot_key-ne i j low low' differ))
                  ∙ sym (get_key-reads s other j f),
              get_ctr-reads nvs laws s' other j f
                  ∙ ap mark_of (
                      write_slot-u64 s s' i slot kid (ctr_key j) h
                      ∙ laws.u64-set_other w₁.0 (ctr_key i) (ctr_key j) 0
                          (ctr_key-ne i j low low' differ)
                      ∙ laws.u64-set_blob s (slot_key i) (ctr_key j) slot (slot_key-ctr_key i j))
                  ∙ sym (get_ctr-reads nvs laws s other j f),
            )
      ]

  -- When `add_key` succeeds, the key id that it gives out holds the key, and every other key id keeps
  -- its key and its counter. Either the key was registered already and nothing has changed, or its
  -- counter starts at 0.
  pub add_key-registers :
      (s s' : S) (pubkey name kid : List ℕ) (now : ℕ)
      → add_key nvs s pubkey name now ≡ (s', Err.ok, some kid)
      → (get_key nvs s' kid ≡ some pubkey)
        × ((s' ≡ s) ⊎ (get_ctr nvs s' kid ≡ some 0))
        × ((other : List ℕ)
            → other ≢ kid
            → (get_key nvs s' other ≡ get_key nvs s other)
              × (get_ctr nvs s' other ≡ get_ctr nvs s other))
  unfolding add_key
  add_key-registers s s' pubkey name kid now h =
      let whole = slot_of pubkey name now in
      elim (Search-cases (find_slot nvs s pubkey 4 0 none)) [
        | inl (i, e) ↦
            let (low, slot, read, same) =
              find_slot-registered nvs laws s pubkey 4 0 i none (omega arith) e in
            let stays : s' ≡ s = ground arith in
            let named : kid ≡ kid_of i = ground arith in
            let index : kid_index kid ≡ some i = ap kid_index named ∙ kid_index-kid_of i low in
            let blob = sym (get_slot-reads nvs laws s i low) ∙ read in
            rw stays (
              get_key-reads s kid i index
                  ∙ key_of-blob_slot (nvs.get_blob s (slot_key i)) slot blob
                  ∙ ap some same,
              inl refl,
              λ other ne. (refl, refl),
            )
        | inr (inl (i, e)) ↦
            let low =
              find_slot-free nvs laws s pubkey 4 0 i none (omega arith) (λ k p. ground arith) e in
            let wrote : write_slot nvs s i whole ≡ (s', Err.ok, some kid) = ground arith in
            let (key, ctr) = write_slot-registers s s' i whole kid low wrote in
            (key, inr ctr, λ other ne. write_slot-keeps s s' i whole kid other low wrote ne)
        | inr (inr e) ↦ absurd (ground arith)
      ]
