-- ===== src/Config/Reset.antt =====
-- The reset to factory state of firmware/main/config.c, and the start that follows it.
use remote_wake.Base.{
  ℕ, zero, suc, ◌+◌, ◌<◌, ◌≡◌, inl, inr, refl, ap, ◌∙◌, true, false, not, List, [], Option,
  Bool-cases, some, none, leb, length, codes, if-holds, Option-cases, arith,
}
use remote_wake.Config.Slots.{
  Err, is_ok, blob_slot, Reading, Nvs, slot_key, get_slot, get_key, kid_index, count_from,
  key_count,
}
use remote_wake.Config.Texts.{
  TextStore, is_found, read_text, write_text, get_relay_url, migrate_relay_override,
}
use remote_wake.Config.Relay.{IsTextStore, read_text-get, default-used}
use remote_wake.Config.Identity.{
  hex_of, fresh_token, usable, ensure_text, ensure_identity, ensure_text-other,
}
use remote_wake.Config.Setup.{
  Cache, cleared, wake, device_id, device_token, init, get_wifi, is_provisioned, factory_reset,
}
use remote_wake.Config.Wifi.{IsShared, get_slot-reads}

-- A store without slots and without texts.
pub record IsBlank {S : Type 0} (nvs : Nvs S) (store : TextStore S) (s : S) : Type 0 where
  pub no_slot : (key : List ℕ) → nvs.get_blob s key ≡ Reading.fails Err.not_found
  pub no_text : (key : List ℕ) (size : ℕ) → store.get_str s key size ≡ Reading.fails Err.not_found

-- A start gives out the texts that it found, where they are as expected.
woken :
    {S : Type 0} (p : S × Reading (List ℕ) × Reading (List ℕ)) (migrated : S)
    (raw_id raw_token : List ℕ)
    → ((id token : List ℕ)
        → p.1 ≡ Reading.found id
        → p.2 ≡ Reading.found token
        → (some (hex_of raw_id) ≡ some id) × (fresh_token raw_token ≡ some token))
    → (wake p migrated).1.ready ≡ true
    → (device_id (wake p migrated).1 ≡ hex_of raw_id)
      × (fresh_token raw_token ≡ some (device_token (wake p migrated).1))
unfolding device_id device_token
woken (s, Reading.fails e, token) migrated raw_id raw_token fresh up = absurd (ground arith)
woken (s, Reading.found id, Reading.fails e) migrated raw_id raw_token fresh up =
    absurd (ground arith)
woken (s, Reading.found id, Reading.found token) migrated raw_id raw_token fresh up =
    let (name, word) = fresh id token refl refl in (ground arith, word)

module _ {S : Type 0} (nvs : Nvs S) (store : TextStore S) (laws : IsShared nvs store)
    (texts : IsTextStore store) where
  -- A reset that succeeds leaves nothing in the store, nor in the variables.
  factory_reset-IsBlank :
      (s : S) (c : Cache)
      → is_ok (factory_reset store s c).2 ≡ true
      → IsBlank nvs store (factory_reset store s c).0 × ((factory_reset store s c).1 ≡ cleared)
  unfolding factory_reset
  factory_reset-IsBlank s c =
      let Q = λ (p : S × Cache × Err). is_ok p.2 ≡ true → IsBlank nvs store p.0 × (p.1 ≡ cleared) in
      let erased = (store.erase_all s).0 in
      if-holds Q (not (is_ok (store.opens s true))) _ _
        (λ shut good. absurd (let there = texts.opens_ok s true in ground arith))
        (λ there.
          if-holds Q (is_ok (store.erase_all s).1) _ _
            (λ good fine. (
              record {
                no_slot = λ key. laws.blob-commit erased key ∙ laws.blob-erase_all s key good;
                no_text = λ key size.
                    texts.commit-get erased key size ∙ laws.get-erase_all s key size good;
              },
              refl,
            ))
            (λ bad fine. absurd (ground arith)))

  get_slot-blank :
      (s : S) → IsBlank nvs store s → (i : ℕ) → (e : Err) × (get_slot nvs s i ≡ Reading.fails e)
  unfolding get_slot
  get_slot-blank s blank i = elim (Bool-cases (leb 4 i)) [
    | inl high ↦ (Err.invalid_arg, rw high refl)
    | inr low ↦ (
      Err.not_found,
      get_slot-reads nvs store laws s i low ∙ ap blob_slot (blank.no_slot (slot_key i)),
    )
  ]

  get_key-blank : (s : S) → IsBlank nvs store s → (kid : List ℕ) → get_key nvs s kid ≡ none
  unfolding get_key
  get_key-blank s blank kid = elim (Option-cases (kid_index kid)) [
    | inl e ↦ ground arith
    | inr (i, e) ↦ let missing = get_slot-blank s blank i in ground arith
  ]

  count_from-blank : (s : S) → IsBlank nvs store s → (left i : ℕ) → count_from nvs s left i ≡ 0
  unfolding count_from
  count_from-blank s blank zero i = refl
  count_from-blank s blank (suc left) i =
      let missing = get_slot-blank s blank i in
      ground (arith, count_from-blank s blank left (i + 1))

  module _ (default_url : List ℕ) where
    read_text-blank :
        (s : S)
        → IsBlank nvs store s
        → (key : List ℕ) (size : ℕ)
        → read_text store default_url s key size ≡ Reading.fails Err.not_found
    read_text-blank s blank key size =
        read_text-get store texts default_url s key size ∙ blank.no_text key size

    get_wifi-blank :
        (s : S)
        → IsBlank nvs store s
        → (n m : ℕ) → get_wifi store default_url s n m ≡ Reading.fails Err.not_found
    unfolding get_wifi
    get_wifi-blank s blank n m = rw (get_wifi, read_text-blank s blank (codes "ssid") n) refl

    is_provisioned-blank :
        (s : S) → IsBlank nvs store s → is_provisioned store default_url nvs s ≡ false
    unfolding is_provisioned
    is_provisioned-blank s blank = rw (get_wifi-blank s blank 33 64) refl

    -- What a reset to factory state forgets: after one that succeeds no operator key is known, so none
    -- is counted, there is no network and the device is not provisioned, the relay is the default of the
    -- firmware where the buffer has room for it, and neither the id nor the token is given out.
    pub factory_reset-forgets :
        (s : S) (c : Cache) (size : ℕ)
        → length default_url < size
        → is_ok (factory_reset store s c).2 ≡ true
        → let (s', c', e) = factory_reset store s c in
          ((kid : List ℕ) → get_key nvs s' kid ≡ none)
          × (key_count nvs s' ≡ 0)
          × ((n m : ℕ) → get_wifi store default_url s' n m ≡ Reading.fails Err.not_found)
          × (is_provisioned store default_url nvs s' ≡ false)
          × (get_relay_url store default_url s' size ≡ Reading.found default_url)
          × (device_id c' ≡ [])
          × (device_token c' ≡ [])
    unfolding key_count device_id device_token
    factory_reset-forgets s c size room good =
        let s' = (factory_reset store s c).0 in
        let (blank, clear) = factory_reset-IsBlank s c good in
        (
          get_key-blank s' blank,
          count_from-blank s' blank 4 0,
          get_wifi-blank s' blank,
          is_provisioned-blank s' blank,
          default-used store texts default_url s' size Err.not_found room
              (read_text-blank s' blank (codes "relay") size),
          ap device_id clear,
          ap device_token clear,
        )

    -- A fresh text is what a start writes where none is stored.
    ensure_text-fresh :
        (s : S) (key text : List ℕ) (n : ℕ) (fresh : Option (List ℕ))
        → read_text store default_url s key (n + 1) ≡ Reading.fails Err.not_found
        → (ensure_text store default_url s key n fresh).1 ≡ Reading.found text
        → fresh ≡ some text
    unfolding ensure_text
    ensure_text-fresh s key text n none missing h = absurd (ground (arith, ap (usable n) missing))
    ensure_text-fresh s key text n (some fresh) missing h =
        let gone = ap (usable n) missing in
        let Q = λ (p : S × Reading (List ℕ)). p.1 ≡ Reading.found text → some fresh ≡ some text in
        let w = write_text store default_url s key fresh in
        if-holds Q (usable n (read_text store default_url s key (n + 1))) _ _
          (λ good. absurd (ground arith))
          (λ bad.
            if-holds Q (is_ok w.1) _ _ (λ fine e. ground arith) (λ failed e. absurd (ground arith)))
          h

    -- The two texts of a start on a blank store.
    ensure_identity-fresh :
        (s : S) (raw_id raw_token id token : List ℕ)
        → IsBlank nvs store s
        → (ensure_identity store default_url s raw_id raw_token).1 ≡ Reading.found id
        → (ensure_identity store default_url s raw_id raw_token).2 ≡ Reading.found token
        → (some (hex_of raw_id) ≡ some id) × (fresh_token raw_token ≡ some token)
    unfolding ensure_identity
    ensure_identity-fresh s raw_id raw_token id token blank =
        let a = ensure_text store default_url s (codes "dev_id") 16 (some (hex_of raw_id)) in
        let b = ensure_text store default_url a.0 (codes "dev_tok") 43 (fresh_token raw_token) in
        let missing = read_text-blank s blank in
        let Q = λ (p : S × Reading (List ℕ) × Reading (List ℕ)).
          p.1 ≡ Reading.found id
          → p.2 ≡ Reading.found token
          → (some (hex_of raw_id) ≡ some id) × (fresh_token raw_token ≡ some token) in
        if-holds Q (is_found a.1) (b.0, a.1, b.1) (a.0, a.1, Reading.fails Err.other)
          (λ there name word. (
            ensure_text-fresh s (codes "dev_id") id 16 (some (hex_of raw_id))
                (missing (codes "dev_id") 17) name,
            ensure_text-fresh a.0 (codes "dev_tok") token 43 (fresh_token raw_token)
                (ensure_text-other store texts default_url s (codes "dev_id") (codes "dev_tok") 16
                    43 (some (hex_of raw_id)) (λ e. ground arith)
                  ∙ missing (codes "dev_tok") 44)
                word,
          ))
          (λ gone name word. absurd (ground arith))

    -- A reset to factory state renews the identity: after a reset that succeeds, the next start that
    -- makes the device ready gives out the id that its own random bytes spell and the token that they
    -- encode, whatever was stored before.
    pub reset_renews_identity :
        (s : S) (c : Cache) (raw_id raw_token : List ℕ)
        → is_ok (factory_reset store s c).2 ≡ true
        → let (s', c', e) = init store default_url (factory_reset store s c).0 raw_id raw_token in
          c'.ready ≡ true
          → (device_id c' ≡ hex_of raw_id) × (fresh_token raw_token ≡ some (device_token c'))
    unfolding init
    reset_renews_identity s c raw_id raw_token good =
        let r = (factory_reset store s c).0 in
        let made = ensure_identity store default_url r raw_id raw_token in
        let Q = λ (p : S × Cache × Err).
          p.1.ready ≡ true
          → (device_id p.1 ≡ hex_of raw_id) × (fresh_token raw_token ≡ some (device_token p.1)) in
        if-holds Q (not (is_ok (store.opens r true))) _ _ (λ shut up. absurd (ground arith))
          (λ there.
            woken made (migrate_relay_override store default_url made.0).0 raw_id raw_token
              (λ id token.
                ensure_identity-fresh r raw_id raw_token id token
                  (factory_reset-IsBlank s c good).0))
