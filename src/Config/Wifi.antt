-- ===== src/Config/Wifi.antt =====
-- The Wi-Fi network of firmware/main/config.c: what is set is read, and provisions the device.
use remote_wake.Base.{
  ℕ, zero, suc, ◌+◌, ◌≤◌, ◌<◌, ◌≡◌, ◌≢◌, inl, inr, refl, ap, ◌∙◌, Bool, true, false, not, ◌||◌,
  List, [], ◌∷◌, Option, some, ltb, leb, ◌==◌, length, codes, if-holds, arith,
}
use remote_wake.Config.Slots.{
  Err, is_ok, blob_slot, Reading, Reading-cases, Nvs, slot_key, get_slot, count_from, key_count,
}
use remote_wake.Config.Texts.{
  TextStore, read_text, write_text, or_empty, relay_override, get_relay_url, set_wifi,
}
use remote_wake.Config.Relay.{IsTextStore, write_text-read, write_text-other}
use remote_wake.Config.Setup.{passphrase, has_text, get_wifi, is_provisioned}

-- What NVS promises where texts and slots stand in one namespace: an entry written as a text leaves
-- every slot of another key, and an erasure of everything leaves nothing.
pub record IsShared {S : Type 0} (nvs : Nvs S) (store : TextStore S) : Type 0 where
  pub opens_ok : (s : S) (writable : Bool) → nvs.opens s writable ≡ Err.ok
  pub blob-set_str :
      (s : S) (key other text : List ℕ)
      → key ≢ other
      → nvs.get_blob (store.set_str s key text).0 other ≡ nvs.get_blob s other
  pub blob-commit :
      (s : S) (key : List ℕ) → nvs.get_blob (store.commit s).0 key ≡ nvs.get_blob s key
  pub blob-erase_all :
      (s : S) (key : List ℕ)
      → is_ok (store.erase_all s).1 ≡ true
      → nvs.get_blob (store.erase_all s).0 key ≡ Reading.fails Err.not_found
  pub get-erase_all :
      (s : S) (key : List ℕ) (size : ℕ)
      → is_ok (store.erase_all s).1 ≡ true
      → store.get_str (store.erase_all s).0 key size ≡ Reading.fails Err.not_found

module _ {S : Type 0} (nvs : Nvs S) (store : TextStore S) (laws : IsShared nvs store) where
  -- Two stores with the same blobs have the same slots.
  pub SameSlots : S → S → Type 0
  SameSlots s s' = (i : ℕ) → nvs.get_blob s (slot_key i) ≡ nvs.get_blob s' (slot_key i)

  pub get_slot-reads :
      (s : S) (i : ℕ) → leb 4 i ≡ false → get_slot nvs s i ≡ blob_slot (nvs.get_blob s (slot_key i))
  unfolding get_slot
  get_slot-reads s i h = ground (arith, laws.opens_ok s false)

  get_slot-SameSlots : (s s' : S) → SameSlots s s' → (i : ℕ) → get_slot nvs s i ≡ get_slot nvs s' i
  unfolding get_slot SameSlots
  get_slot-SameSlots s s' same i =
      ground (arith, laws.opens_ok s false, laws.opens_ok s' false, same i)

  count_from-SameSlots :
      (s s' : S) (left i : ℕ) → SameSlots s s' → count_from nvs s left i ≡ count_from nvs s' left i
  unfolding count_from
  count_from-SameSlots s s' zero i same = refl
  count_from-SameSlots s s' (suc left) i same =
      ground (arith, get_slot-SameSlots s s' same i, count_from-SameSlots s s' left (i + 1) same)

  module _ (default_url : List ℕ) where
    write_text-SameSlots :
        (s : S) (key text : List ℕ)
        → ((i : ℕ) → key ≢ slot_key i)
        → SameSlots (write_text store default_url s key text).0 s
    unfolding write_text SameSlots
    write_text-SameSlots s key text ne i =
        let Q = λ (p : S × Err). nvs.get_blob p.0 (slot_key i) ≡ nvs.get_blob s (slot_key i) in
        let same = laws.blob-set_str s key (slot_key i) text (ne i) in
        if-holds Q (not (is_ok (store.opens s true))) _ _ (λ shut. refl)
          (λ there.
            if-holds Q (is_ok (store.set_str s key text).1) _ _
              (λ good. laws.blob-commit (store.set_str s key text).0 (slot_key i) ∙ same)
              (λ bad. same))

    -- A default that fits makes a URL, whatever is stored.
    get_relay_url-there :
        (s : S)
        → 0 < length default_url
        → length default_url < 128
        → has_text (get_relay_url store default_url s 128) ≡ true
    unfolding get_relay_url relay_override
    get_relay_url-there s some_text fits =
        elim (Reading-cases (read_text store default_url s (codes "relay") 128)) [
          | inl ([], e) ↦ ground arith
          | inl ((c ∷ url), e) ↦ ground arith
          | inr (err, e) ↦ ground arith
        ]

    get_wifi-reads :
        (s : S) (ssid pass : List ℕ) (n m : ℕ)
        → read_text store default_url s (codes "ssid") n ≡ Reading.found ssid
        → read_text store default_url s (codes "pass") m ≡ Reading.found pass
        → get_wifi store default_url s n m ≡ Reading.found (ssid, pass)
    unfolding get_wifi
    get_wifi-reads s ssid pass n m name word =
        rw (get_wifi, name) (ap (λ r. Reading.found (ssid, passphrase r)) word)

    is_provisioned-reads :
        (s : S) (ssid pass : List ℕ)
        → 0 < length ssid
        → has_text (get_relay_url store default_url s 128) ≡ true
        → get_wifi store default_url s 33 64 ≡ Reading.found (ssid, pass)
        → is_provisioned store default_url nvs s ≡ ltb 0 (key_count nvs s)
    unfolding is_provisioned
    is_provisioned-reads s ssid pass named url wifi =
        let name : not (length ssid == 0) ≡ true = ground arith in rw (wifi, url, name) refl

    -- What a network that is set leaves: it is read back, and the slots are those of before.
    module _ (texts : IsTextStore store) where
      abbrev Joined : S → List ℕ → List ℕ → S × Err → Type 0
      Joined s ssid pass p =
          is_ok p.1 ≡ true
          → (0 < length ssid)
            × ((n m : ℕ)
                → 33 ≤ n
                → 64 ≤ m
                → get_wifi store default_url p.0 n m ≡ Reading.found (ssid, pass))
            × SameSlots p.0 s

      both_written :
          (s : S) (ssid pass : List ℕ)
          → 0 < length ssid
          → length ssid < 33
          → length pass < 64
          → let a = write_text store default_url s (codes "ssid") ssid in
            is_ok a.1 ≡ true
            → Joined s ssid pass (write_text store default_url a.0 (codes "pass") pass)
      unfolding SameSlots slot_key
      both_written s ssid pass named short short' good good' =
          let a = write_text store default_url s (codes "ssid") ssid in
          let b = write_text store default_url a.0 (codes "pass") pass in
          (
            named,
            λ n m le le'.
                get_wifi-reads b.0 ssid pass n m
                  (write_text-other store texts default_url a.0 (codes "pass") (codes "ssid") pass n
                      (λ e. ground arith)
                    ∙ write_text-read store texts default_url s (codes "ssid") ssid n (omega arith)
                        good)
                  (write_text-read store texts default_url a.0 (codes "pass") pass m (omega arith)
                    good'),
            λ i.
                write_text-SameSlots a.0 (codes "pass") pass (λ j e. ground arith) i
                ∙ write_text-SameSlots s (codes "ssid") ssid (λ j e. ground arith) i,
          )

      set_wifi-Joined :
          (s : S) (ssid : List ℕ) (pass : Option (List ℕ))
          → Joined s ssid (or_empty pass) (set_wifi store default_url s (some ssid) pass)
      unfolding set_wifi
      set_wifi-Joined s ssid pass =
          let Q = Joined s ssid (or_empty pass) in
          let a = write_text store default_url s (codes "ssid") ssid in
          if-holds Q ((length ssid == 0) || leb 33 (length ssid) || leb 64 (length (or_empty pass)))
            _ _ (λ bad good. absurd (ground arith))
            (λ fits.
              if-holds Q (is_ok a.1) _ _
                (λ good.
                  both_written s ssid (or_empty pass) (ground arith) (ground arith) (ground arith)
                    good)
                (λ failed good. absurd (ground arith)))

      -- The network that is set is the network that is read: where `set_wifi` succeeds, buffers of at
      -- least 33 and 64 bytes read back its name and its passphrase, an empty one where there is none,
      -- no operator key is lost or gained, and the device is then provisioned just where it has a key,
      -- provided that the default URL of the relay is not empty and fits.
      pub set_wifi-get_wifi :
          (s : S) (ssid : List ℕ) (pass : Option (List ℕ)) (n m : ℕ)
          → 33 ≤ n
          → 64 ≤ m
          → 0 < length default_url
          → length default_url < 128
          → is_ok (set_wifi store default_url s (some ssid) pass).1 ≡ true
          → let s' = (set_wifi store default_url s (some ssid) pass).0 in
            (get_wifi store default_url s' n m ≡ Reading.found (ssid, or_empty pass))
            × (key_count nvs s' ≡ key_count nvs s)
            × (is_provisioned store default_url nvs s' ≡ ltb 0 (key_count nvs s))
      unfolding key_count
      set_wifi-get_wifi s ssid pass n m le le' some_text fits good =
          let s' = (set_wifi store default_url s (some ssid) pass).0 in
          let (named, reads, same) = set_wifi-Joined s ssid pass good in
          let keys = count_from-SameSlots s' s 4 0 same in
          (
            reads n m le le',
            keys,
            is_provisioned-reads s' ssid (or_empty pass) named
                  (get_relay_url-there s' some_text fits) (reads 33 64 (omega arith) (omega arith))
                ∙ ap (ltb 0) keys,
          )
