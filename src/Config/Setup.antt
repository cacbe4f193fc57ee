-- ===== src/Config/Setup.antt =====
-- firmware/main/config.c: the start, the Wi-Fi network, whether the device is provisioned, the reset to
-- factory state, and the names of the setup network. SHA-256 is a parameter.
use remote_wake.Base.{
  ℕ, ◌-◌, Bool, true, false, not, ◌&&◌, List, [], ◌++◌, Option, some, none, ltb, ◌==◌,
  if◌then◌else◌, length, codes, take,
}
use remote_wake.B64Url.{encode}
use remote_wake.Config.Slots.{Err, is_ok, Reading, Nvs, key_count}
use remote_wake.Config.Texts.{TextStore, read_text, or_empty, get_relay_url, migrate_relay_override}
use remote_wake.Config.Identity.{ensure_identity}

-- The variables `s_ready`, `s_device_id` and `s_device_token`.
pub record Cache : Type 0 where
  pub ready : Bool
  pub id : List ℕ
  pub token : List ℕ

-- As at power-on.
abbrev pub cleared : Cache
cleared = record { ready = false; id = []; token = [] }

unfoldable pub device_id : Cache → List ℕ
device_id c = if c.ready then c.id else []

unfoldable pub device_token : Cache → List ℕ
device_token c = if c.ready then c.token else []

-- A buffer for a missing passphrase is left empty.
abbrev pub passphrase : Reading (List ℕ) → List ℕ
passphrase (Reading.found pass) = pass
passphrase (Reading.fails e) = []

abbrev pub has_text : Reading (List ℕ) → Bool
has_text (Reading.found text) = not (length text == 0)
has_text (Reading.fails e) = false

abbrev pub has_ssid : Reading (List ℕ × List ℕ) → Bool
has_ssid (Reading.found (ssid, pass)) = not (length ssid == 0)
has_ssid (Reading.fails e) = false

-- What `s_ready = true` leaves, once both texts are there; a failed start leaves it false.
abbrev pub wake : {S : Type 0} → S × Reading (List ℕ) × Reading (List ℕ) → S → S × Cache × Err
wake (s, Reading.fails e, token) migrated = (s, cleared, e)
wake (s, Reading.found id, Reading.fails e) migrated = (s, cleared, e)
wake (s, Reading.found id, Reading.found token) migrated =
    (migrated, record { ready = true; id = id; token = token }, Err.ok)

-- The text that fits a buffer of `size` bytes; without a byte for the NUL nothing is written.
abbrev printed : ℕ → List ℕ → Option (List ℕ)
printed size text = if size == 0 then none else some (take (size - 1) text)

-- `snprintf("remote-wake-%.4s")`
unfoldable pub softap_ssid : Cache → ℕ → Option (List ℕ)
unfolding device_id
softap_ssid c size = printed size (codes "remote-wake-" ++ take 4 (device_id c))

unfoldable pub softap_password : (List ℕ → List ℕ) → Cache → ℕ → Option (List ℕ)
unfolding device_token
softap_password sha256 c size =
    let digest = sha256 (codes "remote-wake-softap-v1" ++ device_token c) in
    printed size (take 12 (or_empty (encode (some digest) (some 44))))

unfoldable pub factory_reset : {S : Type 0} → TextStore S → S → Cache → S × Cache × Err
factory_reset store s c =
    let (erased, e) = store.erase_all s in
    let (committed, e') = store.commit erased in
    if not (is_ok (store.opens s true))
    then (s, c, store.opens s true)
    else if is_ok e
    then (committed, cleared, e')
    else (erased, cleared, e)

module _ {S : Type 0} (store : TextStore S) (default_url : List ℕ) where
  -- `rw_config_init` at power-on, with the random bytes of a fresh id and a fresh token.
  unfoldable pub init : S → List ℕ → List ℕ → S × Cache × Err
  unfolding ensure_identity migrate_relay_override
  init s raw_id raw_token =
      let made = ensure_identity store default_url s raw_id raw_token in
      if not (is_ok (store.opens s true))
      then (s, cleared, store.opens s true)
      else wake made (migrate_relay_override store default_url made.0).0

  -- The network's name and its passphrase, into buffers of the two sizes.
  unfoldable pub get_wifi : S → ℕ → ℕ → Reading (List ℕ × List ℕ)
  unfolding read_text
  get_wifi s ssid_size pass_size = elim (read_text store default_url s (codes "ssid") ssid_size) [
    | Reading.fails e ↦ Reading.fails e
    | Reading.found ssid ↦
        Reading.found (ssid, passphrase (read_text store default_url s (codes "pass") pass_size))
  ]

  unfoldable pub is_provisioned : Nvs S → S → Bool
  unfolding get_wifi get_relay_url key_count
  is_provisioned nvs s =
      has_ssid (get_wifi s 33 64)
      && has_text (get_relay_url store default_url s 128)
      && ltb 0 (key_count nvs s)
