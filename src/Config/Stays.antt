-- ===== src/Config/Stays.antt =====
-- The identity of the device over everything that firmware/main/config.c does but the reset.
use remote_wake.Base.{
  ℕ, ◌≡◌, ◌≢◌, ◌⊎◌, inl, inr, refl, sym, ap, ◌∙◌, Bool, true, not, ◌&&◌, ◌||◌, List, [], ◌∷◌,
  Option, some, none, leb, ◌==◌, length, codes, bytes_eq, replicate, subst, if-holds, Option-cases,
  arith,
}
use remote_wake.Config.Slots.{
  Err, is_ok, Reading, Reading-cases, Nvs, Slot, Search-cases, slot_key, ctr_key, kid_index,
  find_slot, slot_of, write_slot, add_key, set_ctr, remove_slot,
}
use remote_wake.Config.Texts.{
  TextStore, is_found, or_empty, relay_is_placeholder, read_text, write_text, erase_text,
  relay_override, clear_relay_url, set_relay_url, migrate_relay_override, set_wifi,
}
use remote_wake.Config.Relay.{IsTextStore, read_text-get, write_text-other, erase_text-other}
use remote_wake.Config.Identity.{
  hex_of, fresh_token, usable, ensure_text, ensure_identity, stored_both, again,
}
use remote_wake.Config.Setup.{Cache, cleared, wake, init}

-- What NVS promises of texts beside the slots and the counters: an entry of another key stays.
pub record IsApart {S : Type 0} (nvs : Nvs S) (store : TextStore S) : Type 0 where
  pub opens_ok : (s : S) (writable : Bool) → nvs.opens s writable ≡ Err.ok
  pub text-set_blob :
      (s : S) (key : List ℕ) (slot : Slot) (other : List ℕ) (size : ℕ)
      → key ≢ other
      → store.get_str (nvs.set_blob s key slot).0 other size ≡ store.get_str s other size
  pub text-set_u64 :
      (s : S) (key : List ℕ) (n : ℕ) (other : List ℕ) (size : ℕ)
      → key ≢ other
      → store.get_str (nvs.set_u64 s key n).0 other size ≡ store.get_str s other size
  pub text-erase :
      (s : S) (key other : List ℕ) (size : ℕ)
      → key ≢ other
      → store.get_str (nvs.erase_key s key).0 other size ≡ store.get_str s other size
  pub text-commit :
      (s : S) (key : List ℕ) (size : ℕ)
      → store.get_str (nvs.commit s).0 key size ≡ store.get_str s key size

-- Every call that changes the store, but the reset to factory state.
pub data Change : Type 0 where
  joins : Option (List ℕ) → Option (List ℕ) → Change
  relays : Option (List ℕ) → Change
  unrelays : Change
  registers : List ℕ → List ℕ → ℕ → Change
  counts : List ℕ → ℕ → Change
  removes : ℕ → Change
  starts : List ℕ → List ℕ → Change

-- The keys of the two texts.
abbrev IsIdentity : List ℕ → Type 0
IsIdentity key = (key ≡ codes "dev_id") ⊎ (key ≡ codes "dev_tok")

ssid_apart : (key : List ℕ) → IsIdentity key → codes "ssid" ≢ key
ssid_apart key (inl e) p = ground arith
ssid_apart key (inr e) p = ground arith

pass_apart : (key : List ℕ) → IsIdentity key → codes "pass" ≢ key
pass_apart key (inl e) p = ground arith
pass_apart key (inr e) p = ground arith

relay_apart : (key : List ℕ) → IsIdentity key → codes "relay" ≢ key
relay_apart key (inl e) p = ground arith
relay_apart key (inr e) p = ground arith

slot_apart : (i : ℕ) (key : List ℕ) → IsIdentity key → slot_key i ≢ key
unfolding slot_key
slot_apart i key (inl e) p = ground arith
slot_apart i key (inr e) p = ground arith

ctr_apart : (i : ℕ) (key : List ℕ) → IsIdentity key → ctr_key i ≢ key
unfolding ctr_key
ctr_apart i key (inl e) p = ground arith
ctr_apart i key (inr e) p = ground arith

module _ {S : Type 0} (nvs : Nvs S) (store : TextStore S) (default_url : List ℕ) where
  unfoldable pub change : Change → S → S
  change (Change.joins ssid pass) s = (set_wifi store default_url s ssid pass).0
  change (Change.relays url) s = (set_relay_url store default_url s url).0
  change Change.unrelays s = (clear_relay_url store default_url s).0
  change (Change.registers pubkey name now) s = (add_key nvs s pubkey name now).0
  change (Change.counts kid ctr) s = (set_ctr nvs s kid ctr).0
  change (Change.removes idx) s = (remove_slot nvs s idx).0
  change (Change.starts raw_id raw_token) s = (init store default_url s raw_id raw_token).0

  unfoldable pub changes : List Change → S → S
  unfolding change
  changes [] s = s
  changes (c ∷ cs) s = changes cs (change c s)

module _ {S : Type 0} (nvs : Nvs S) (store : TextStore S) (laws : IsTextStore store)
    (apart : IsApart nvs store) (default_url : List ℕ) where
  -- Both texts read as before.
  abbrev Keeps : S → S → Type 0
  Keeps s s' =
      (key : List ℕ)
      → IsIdentity key
      → (n : ℕ) → read_text store default_url s' key n ≡ read_text store default_url s key n

  -- The two texts are stored, with their lengths.
  record Holds (id token : List ℕ) (s : S) : Type 0 where
    has_id : read_text store default_url s (codes "dev_id") 17 ≡ Reading.found id
    good_id : usable 16 (Reading.found id) ≡ true
    has_token : read_text store default_url s (codes "dev_tok") 44 ≡ Reading.found token
    good_token : usable 43 (Reading.found token) ≡ true

  Keeps-Holds : {id token : List ℕ} {s s' : S} → Keeps s s' → Holds id token s → Holds id token s'
  Keeps-Holds same h = record {
    has_id = same (codes "dev_id") (inl refl) 17 ∙ h.has_id;
    good_id = h.good_id;
    has_token = same (codes "dev_tok") (inr refl) 44 ∙ h.has_token;
    good_token = h.good_token;
  }

  write-Keeps :
      (s : S) (key text : List ℕ)
      → ((other : List ℕ) → IsIdentity other → key ≢ other)
      → Keeps s (write_text store default_url s key text).0
  write-Keeps s key text ne other it n =
      write_text-other store laws default_url s key other text n (ne other it)

  erase-Keeps : (s : S) → Keeps s (erase_text store default_url s (codes "relay")).0
  erase-Keeps s other it n =
      erase_text-other store laws default_url s (codes "relay") other n (relay_apart other it)

  set_wifi-Keeps :
      (s : S) (ssid pass : Option (List ℕ)) → Keeps s (set_wifi store default_url s ssid pass).0
  unfolding set_wifi
  set_wifi-Keeps s none pass = λ key it n. refl
  set_wifi-Keeps s (some ssid) pass =
      let text = or_empty pass in
      let a = write_text store default_url s (codes "ssid") ssid in
      let Q = λ (p : S × Err). Keeps s p.0 in
      let named = write-Keeps s (codes "ssid") ssid ssid_apart in
      if-holds Q ((length ssid == 0) || leb 33 (length ssid) || leb 64 (length text)) _ _
        (λ bad key it n. refl)
        (λ fits.
          if-holds Q (is_ok a.1) _ _
            (λ good key it n.
              write-Keeps a.0 (codes "pass") text pass_apart key it n ∙ named key it n)
            (λ failed. named))

  set_relay_url-Keeps :
      (s : S) (url : Option (List ℕ)) → Keeps s (set_relay_url store default_url s url).0
  unfolding set_relay_url clear_relay_url
  set_relay_url-Keeps s none = λ key it n. refl
  set_relay_url-Keeps s (some url) =
      let Q = λ (p : S × Err). Keeps s p.0 in
      if-holds Q ((length url == 0) || leb 128 (length url)) _ _ (λ bad key it n. refl)
        (λ fits.
          if-holds Q (bytes_eq url default_url) _ _ (λ same. erase-Keeps s)
            (λ other.
              if-holds Q (relay_is_placeholder url) _ _ (λ bad key it n. refl)
                (λ real. write-Keeps s (codes "relay") url relay_apart)))

  migrate-Keeps : (s : S) → Keeps s (migrate_relay_override store default_url s).0
  unfolding migrate_relay_override
  migrate-Keeps s = elim (Reading-cases (relay_override store default_url s 128)) [
    | inl (url, e) ↦
        rw (migrate_relay_override, e)
          (if-holds (λ (p : S × Err). Keeps s p.0)
            (not (relay_is_placeholder url) && not (bytes_eq url default_url)) _ _
            (λ fine key it n. refl) (λ old. erase-Keeps s))
    | inr (err, e) ↦ rw (migrate_relay_override, e) (λ key it n. refl)
  ]

  read_via :
      (s s' : S) (key : List ℕ) (n : ℕ)
      → store.get_str s' key n ≡ store.get_str s key n
      → read_text store default_url s' key n ≡ read_text store default_url s key n
  read_via s s' key n same =
      read_text-get store laws default_url s' key n
      ∙ same
      ∙ sym (read_text-get store laws default_url s key n)

  u64-Keeps : (s : S) (i n : ℕ) → Keeps s (nvs.set_u64 s (ctr_key i) n).0
  u64-Keeps s i n other it size =
      read_via s _ other size (apart.text-set_u64 s (ctr_key i) n other size (ctr_apart i other it))

  blob-Keeps : (s : S) (i : ℕ) (slot : Slot) → Keeps s (nvs.set_blob s (slot_key i) slot).0
  blob-Keeps s i slot other it size =
      read_via s _ other size
        (apart.text-set_blob s (slot_key i) slot other size (slot_apart i other it))

  commit-Keeps : (s : S) → Keeps s (nvs.commit s).0
  commit-Keeps s other it size = read_via s _ other size (apart.text-commit s other size)

  key_erase-Keeps :
      (s : S) (key : List ℕ)
      → ((other : List ℕ) → IsIdentity other → key ≢ other)
      → Keeps s (nvs.erase_key s key).0
  key_erase-Keeps s key ne other it size =
      read_via s _ other size (apart.text-erase s key other size (ne other it))

  then-Keeps : (s s' s'' : S) → Keeps s s' → Keeps s' s'' → Keeps s s''
  then-Keeps s s' s'' first next key it n = next key it n ∙ first key it n

  write_slot-Keeps : (s : S) (i : ℕ) (slot : Slot) → Keeps s (write_slot nvs s i slot).0
  unfolding write_slot
  write_slot-Keeps s i slot =
      let a = nvs.set_blob s (slot_key i) slot in
      let b = nvs.set_u64 a.0 (ctr_key i) 0 in
      let Q = λ (p : S × Err × Option (List ℕ)). Keeps s p.0 in
      let two = then-Keeps s a.0 b.0 (blob-Keeps s i slot) (u64-Keeps a.0 i 0) in
      rw (write_slot, apart.opens_ok s true)
        (if-holds Q (not (is_ok a.1)) _ _ (λ bad. blob-Keeps s i slot)
          (λ good.
            if-holds Q (not (is_ok b.1)) _ _ (λ bad. two)
              (λ fine. then-Keeps s b.0 (nvs.commit b.0).0 two (commit-Keeps b.0))))

  add_key-Keeps :
      (s : S) (pubkey name : List ℕ) (now : ℕ) → Keeps s (add_key nvs s pubkey name now).0
  unfolding add_key
  add_key-Keeps s pubkey name now =
      if-holds (λ (p : S × Err × Option (List ℕ)). Keeps s p.0) (bytes_eq pubkey (replicate 32 0)) _
        _ (λ zero_key key it n. refl)
        (λ real. elim (Search-cases (find_slot nvs s pubkey 4 0 none)) [
          | inl (i, e) ↦ rw e (λ key it n. refl)
          | inr (inl (i, e)) ↦ rw e (write_slot-Keeps s i (slot_of pubkey name now))
          | inr (inr e) ↦ rw e (λ key it n. refl)
        ])

  set_ctr-Keeps : (s : S) (kid : List ℕ) (ctr : ℕ) → Keeps s (set_ctr nvs s kid ctr).0
  unfolding set_ctr
  set_ctr-Keeps s kid ctr = elim (Option-cases (kid_index kid)) [
    | inl e ↦ rw (set_ctr, e) (λ key it n. refl)
    | inr (i, e) ↦
        let a = nvs.set_u64 s (ctr_key i) ctr in
        rw (set_ctr, e, apart.opens_ok s true)
          (if-holds (λ (p : S × Err). Keeps s p.0) (is_ok a.1) _ _
            (λ good. then-Keeps s a.0 _ (u64-Keeps s i ctr) (commit-Keeps a.0))
            (λ bad. u64-Keeps s i ctr))
  ]

  remove_slot-Keeps : (s : S) (i : ℕ) → Keeps s (remove_slot nvs s i).0
  unfolding remove_slot
  remove_slot-Keeps s i =
      let a = (nvs.erase_key s (slot_key i)).0 in
      let b = (nvs.erase_key a (ctr_key i)).0 in
      if-holds (λ (p : S × Err). Keeps s p.0) (leb 4 i) _ _ (λ high key it n. refl)
        (λ low. rw (apart.opens_ok s true) (
          then-Keeps s b _
            (then-Keeps s a b (key_erase-Keeps s (slot_key i) (slot_apart i))
              (key_erase-Keeps a (ctr_key i) (ctr_apart i)))
            (commit-Keeps b)))

  -- A start that finds both texts.
  init-found :
      (id token : List ℕ) (s : S) (raw_id raw_token : List ℕ)
      → Holds id token s
      → init store default_url s raw_id raw_token ≡ (
        (migrate_relay_override store default_url s).0,
        record { ready = true; id = id; token = token },
        Err.ok,
      )
  unfolding init
  init-found id token s raw_id raw_token h =
      let found =
        again store laws default_url (s, Reading.found id) (s, Reading.found token) raw_id raw_token
          refl (h.has_id, h.good_id, h.has_token, h.good_token) in
      let G = λ (p : S × Reading (List ℕ) × Reading (List ℕ)).
        wake p (migrate_relay_override store default_url p.0).0 in
      if-holds (λ (r : S × Cache × Err). r ≡ G (s, Reading.found id, Reading.found token))
        (not (is_ok (store.opens s true))) _ _
        (λ shut. absurd (let open_ = laws.opens_ok s true in ground arith)) (λ there. ap G found)

  change-Holds :
      (id token : List ℕ) (c : Change) (s : S)
      → Holds id token s
      → Holds id token (change nvs store default_url c s)
  unfolding change clear_relay_url
  change-Holds id token (Change.joins ssid pass) s h = Keeps-Holds (set_wifi-Keeps s ssid pass) h
  change-Holds id token (Change.relays url) s h = Keeps-Holds (set_relay_url-Keeps s url) h
  change-Holds id token Change.unrelays s h = Keeps-Holds (erase-Keeps s) h
  change-Holds id token (Change.registers pubkey name now) s h =
      Keeps-Holds (add_key-Keeps s pubkey name now) h
  change-Holds id token (Change.counts kid ctr) s h = Keeps-Holds (set_ctr-Keeps s kid ctr) h
  change-Holds id token (Change.removes idx) s h = Keeps-Holds (remove_slot-Keeps s idx) h
  change-Holds id token (Change.starts raw_id raw_token) s h =
      subst (λ (p : S × Cache × Err). Holds id token p.0)
        (sym (init-found id token s raw_id raw_token h)) (Keeps-Holds (migrate-Keeps s) h)

  changes-Holds :
      (id token : List ℕ) (cs : List Change) (s : S)
      → Holds id token s
      → Holds id token (changes nvs store default_url cs s)
  unfolding changes
  changes-Holds id token [] s h = h
  changes-Holds id token (c ∷ cs) s h =
      changes-Holds id token cs (change nvs store default_url c s) (change-Holds id token c s h)

  -- What a start that makes the device ready leaves in the store.
  HoldsOf : S × Cache × Err → Type 0
  HoldsOf p = p.1.ready ≡ true → Holds p.1.id p.1.token p.0

  woken-Holds :
      (s migrated : S) (id token : Reading (List ℕ))
      → Keeps s migrated
      → (is_found id ≡ true
          → is_found token ≡ true
          → (read_text store default_url s (codes "dev_id") 17 ≡ id)
            × (usable 16 id ≡ true)
            × (read_text store default_url s (codes "dev_tok") 44 ≡ token)
            × (usable 43 token ≡ true))
      → HoldsOf (wake (s, id, token) migrated)
  unfolding HoldsOf
  woken-Holds s migrated (Reading.fails e) token kept stored up = absurd (ground arith)
  woken-Holds s migrated (Reading.found id) (Reading.fails e) kept stored up = absurd (ground arith)
  woken-Holds s migrated (Reading.found id) (Reading.found token) kept stored up =
      let (there, good, there', good') = stored refl refl in
      Keeps-Holds kept
        (record { has_id = there; good_id = good; has_token = there'; good_token = good' })

  away-Holds : (s : S) (e : Err) → HoldsOf (s, cleared, e)
  unfolding HoldsOf
  away-Holds s e up = absurd (ground arith)

  init-Holds :
      (s : S) (raw_id raw_token : List ℕ)
      → length raw_id ≡ 8
      → HoldsOf (init store default_url s raw_id raw_token)
  unfolding init ensure_identity
  init-Holds s raw_id raw_token eight =
      let a = ensure_text store default_url s (codes "dev_id") 16 (some (hex_of raw_id)) in
      let b = ensure_text store default_url a.0 (codes "dev_tok") 43 (fresh_token raw_token) in
      let M = λ (s' : S). (migrate_relay_override store default_url s').0 in
      let P = λ (p : S × Reading (List ℕ) × Reading (List ℕ)). HoldsOf (wake p (M p.0)) in
      if-holds HoldsOf (not (is_ok (store.opens s true))) _ _
        (λ shut. away-Holds s (store.opens s true))
        (λ there.
          if-holds P (is_found a.1) (b.0, a.1, b.1) (a.0, a.1, Reading.fails Err.other)
            (λ found.
              woken-Holds b.0 (M b.0) a.1 b.1 (migrate-Keeps b.0)
                (stored_both store laws default_url s raw_id raw_token eight))
            (λ missing.
              woken-Holds a.0 (M a.0) a.1 (Reading.fails Err.other) (migrate-Keeps a.0)
                (λ found other. absurd (ground arith))))

  ready_cache :
      (c : Cache) → c.ready ≡ true → record { ready = true; id = c.id; token = c.token } ≡ c
  ready_cache c up = ap (λ r. record c { ready = r }) (sym up)

  -- The id and the token stay until the reset to factory state: when a start with eight random bytes
  -- for the id has made the device ready, and then Wi-Fi networks, relays, operator keys and counters
  -- are set and removed in any order, with any results, and any number of starts in between, then the
  -- next start makes the device ready with the same id and the same token, whatever its random bytes.
  pub identity_stays :
      (s : S) (raw_id raw_token raw_id' raw_token' : List ℕ) (cs : List Change)
      → length raw_id ≡ 8
      → let (s₁, c₁, e₁) = init store default_url s raw_id raw_token in
        let (s₂, c₂, e₂) =
          init store default_url (changes nvs store default_url cs s₁) raw_id' raw_token' in
        c₁.ready ≡ true → (c₂ ≡ c₁) × (e₂ ≡ Err.ok)
  unfolding HoldsOf
  identity_stays s raw_id raw_token raw_id' raw_token' cs eight up =
      let (s₁, c₁, e₁) = init store default_url s raw_id raw_token in
      let held = init-Holds s raw_id raw_token eight up in
      let again_so =
        init-found c₁.id c₁.token (changes nvs store default_url cs s₁) raw_id' raw_token'
          (changes-Holds c₁.id c₁.token cs s₁ held) in
      (
        ap (λ (p : S × Cache × Err). p.1) again_so ∙ ready_cache c₁ up,
        ap (λ (p : S × Cache × Err). p.2) again_so,
      )
