-- ===== src/Config/Texts.antt =====
-- The texts that firmware/main/config.c keeps: the identity of the device, the Wi-Fi network and the
-- relay's URL. `nvs_get_str` and its like are a parameter, as for the slots.
use remote_wake.Base.{
  ℕ, ◌+◌, Bool, true, false, not, ◌&&◌, ◌||◌, List, [], ◌∷◌, ◌++◌, Option, some, none, leb, ◌==◌,
  if◌then◌else◌, length, codes, bytes_eq, drop,
}
use remote_wake.Config.Slots.{Err, is_ok, Reading}

-- The calls on texts. A reading is given the size of the buffer, and fails where it does not fit.
pub record TextStore (S : Type 0) : Type 0 where
  pub opens : S → Bool → Err
  pub get_str : S → List ℕ → ℕ → Reading (List ℕ)
  pub set_str : S → List ℕ → List ℕ → S × Err
  pub erase_key : S → List ℕ → S × Err
  pub erase_all : S → S × Err
  pub commit : S → S × Err

abbrev lower : ℕ → ℕ
lower c = if leb 65 c && leb c 90 then c + 32 else c

-- `strncasecmp(s, p, strlen(p)) == 0`
unfoldable pub starts_anycase : List ℕ → List ℕ → Bool
starts_anycase [] s = true
starts_anycase (p ∷ ps) [] = false
starts_anycase (p ∷ ps) (c ∷ s) = (lower p == lower c) && starts_anycase ps s

abbrev is_host_end : ℕ → Bool
is_host_end c = (c == b'/') || (c == b':') || (c == b'?') || (c == b'#')

-- `strcspn(url, "/:?#")`
unfoldable pub host_length : List ℕ → ℕ
host_length [] = 0
host_length (c ∷ s) = let rest = host_length s in if is_host_end c then 0 else 1 + rest

-- A URL without its scheme.
abbrev pub past_scheme : List ℕ → List ℕ
past_scheme url =
    if starts_anycase (codes "wss://") url
    then drop 6 url
    else if starts_anycase (codes "ws://") url
    then drop 5 url
    else if starts_anycase (codes "https://") url
    then drop 8 url
    else if starts_anycase (codes "http://") url
    then drop 7 url
    else url

unfoldable pub relay_is_placeholder : List ℕ → Bool
unfolding host_length starts_anycase
relay_is_placeholder url =
    let host = past_scheme url in
    (host_length host == 17) && starts_anycase (codes "relay.example.com") host

-- The trailing slashes of a base are cut.
abbrev only_slashes : List ℕ → Bool
only_slashes [] = true
only_slashes (c ∷ s) = (c == b'/') && only_slashes s

unfoldable pub cut_slashes : List ℕ → List ℕ
cut_slashes [] = []
cut_slashes (c ∷ s) = let rest = cut_slashes s in if only_slashes (c ∷ s) then [] else c ∷ rest

-- Whether a base is to be reached by TLS; it is where no scheme says otherwise.
abbrev pub is_tls : List ℕ → Bool
is_tls base =
    starts_anycase (codes "wss://") base
    || (not (starts_anycase (codes "ws://") base)
        && (starts_anycase (codes "https://") base || not (starts_anycase (codes "http://") base)))

abbrev pub or_empty : Option (List ℕ) → List ℕ
or_empty none = []
or_empty (some text) = text

abbrev pub gone : Err → Bool
gone Err.not_found = true
gone _ = false

abbrev pub not_empty : Reading (List ℕ) → Reading (List ℕ)
not_empty (Reading.fails e) = Reading.fails e
not_empty (Reading.found []) = Reading.fails Err.not_found
not_empty (Reading.found (c ∷ text)) = Reading.found (c ∷ text)

abbrev pub is_found : Reading (List ℕ) → Bool
is_found (Reading.found text) = true
is_found (Reading.fails e) = false

-- The setting CONFIG_RW_RELAY_URL of the build is a parameter too.
module _ {S : Type 0} (store : TextStore S) (default_url : List ℕ) where
  open store use {opens, commit}

  unfoldable pub read_text : S → List ℕ → ℕ → Reading (List ℕ)
  read_text s key size =
      if is_ok (opens s false) then store.get_str s key size else Reading.fails (opens s false)

  unfoldable pub write_text : S → List ℕ → List ℕ → S × Err
  write_text s key text =
      let (written, e) = store.set_str s key text in
      if not (is_ok (opens s true))
      then (s, opens s true)
      else if is_ok e
      then commit written
      else (written, e)

  unfoldable pub erase_text : S → List ℕ → S × Err
  erase_text s key =
      let (erased, e) = store.erase_key s key in
      if not (is_ok (opens s true))
      then (s, opens s true)
      else if is_ok e
      then commit erased
      else (erased, if gone e then Err.ok else e)

  unfoldable pub relay_override : S → ℕ → Reading (List ℕ)
  unfolding read_text
  relay_override s size = not_empty (read_text s (codes "relay") size)

  -- `out` is a buffer of `size` bytes.
  unfoldable pub get_relay_url : S → ℕ → Reading (List ℕ)
  unfolding relay_override
  get_relay_url s size =
      if size == 0 then Reading.fails Err.invalid_arg else elim (relay_override s size) [
        | Reading.found url ↦ Reading.found url
        | Reading.fails e ↦
            if leb size (length default_url)
            then Reading.fails Err.invalid_size
            else Reading.found default_url
      ]

  unfoldable pub relay_url_is_override : S → Bool
  unfolding relay_override
  relay_url_is_override s = is_found (relay_override s 128)

  unfoldable pub clear_relay_url : S → S × Err
  unfolding erase_text
  clear_relay_url s = erase_text s (codes "relay")

  -- `none` is NULL.
  unfoldable pub set_relay_url : S → Option (List ℕ) → S × Err
  unfolding clear_relay_url relay_is_placeholder write_text
  set_relay_url s none = (s, Err.invalid_arg)
  set_relay_url s (some url) =
      if (length url == 0) || leb 128 (length url)
      then (s, Err.invalid_arg)
      else if bytes_eq url default_url
      then clear_relay_url s
      else if relay_is_placeholder url
      then (s, Err.invalid_arg)
      else write_text s (codes "relay") url

  unfoldable pub migrate_relay_override : S → S × Err
  unfolding relay_override relay_is_placeholder erase_text
  migrate_relay_override s = elim (relay_override s 128) [
    | Reading.fails e ↦ (s, Err.ok)
    | Reading.found url ↦
        if not (relay_is_placeholder url) && not (bytes_eq url default_url)
        then (s, Err.ok)
        else erase_text s (codes "relay")
  ]

  -- The base without trailing slashes, in a buffer of 128 bytes.
  unfoldable pub relay_base : S → Reading (List ℕ)
  unfolding get_relay_url cut_slashes
  relay_base s = elim (get_relay_url s 128) [
    | Reading.fails e ↦ Reading.fails e
    | Reading.found url ↦
        if length (cut_slashes url) == 0
        then Reading.fails Err.other
        else Reading.found (cut_slashes url)
  ]

  unfoldable pub relay_http_url : S → ℕ → Reading (List ℕ)
  unfolding relay_base
  relay_http_url s size = elim (relay_base s) [
    | Reading.fails e ↦ Reading.fails e
    | Reading.found base ↦
        let url = (if is_tls base then codes "https://" else codes "http://") ++ past_scheme base in
        if leb size (length url) then Reading.fails Err.invalid_size else Reading.found url
  ]

  -- With the id of the device.
  unfoldable pub relay_ws_url : S → List ℕ → ℕ → Reading (List ℕ)
  unfolding relay_base
  relay_ws_url s device size = elim (relay_base s) [
    | Reading.fails e ↦ Reading.fails e
    | Reading.found base ↦
        let url =
          (if is_tls base then codes "wss://" else codes "ws://")
          ++ past_scheme base
          ++ codes "/v1/device/"
          ++ device in
        if leb size (length url) then Reading.fails Err.invalid_size else Reading.found url
  ]

  -- `rw_config_set_wifi`; a password that is NULL is stored as an empty one.
  unfoldable pub set_wifi : S → Option (List ℕ) → Option (List ℕ) → S × Err
  unfolding write_text
  set_wifi s none pass = (s, Err.invalid_arg)
  set_wifi s (some ssid) pass =
      let text = or_empty pass in
      let (named, e) = write_text s (codes "ssid") ssid in
      if (length ssid == 0) || leb 33 (length ssid) || leb 64 (length text)
      then (s, Err.invalid_arg)
      else if is_ok e
      then write_text named (codes "pass") text
      else (named, e)
