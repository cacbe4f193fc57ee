-- ===== src/Config/SetupTests.antt =====
-- A store of slots and texts in memory, on which the device is set up and reset.
use remote_wake.Base.{
  ℕ, ◌≡◌, refl, true, false, List, [], ◌∷◌, some, none, ltb, codes, replicate, arith,
}
use remote_wake.B64Url.{encode}
use remote_wake.Config.Slots.{Err, is_ok, Reading, Nvs, get_key, key_count}
use remote_wake.Config.Texts.{TextStore, get_relay_url, set_wifi}
use remote_wake.Config.Relay.{IsTextStore}
use remote_wake.Config.Identity.{hex_of, fresh_token, ensure_identity}
use remote_wake.Config.Setup.{
  Cache, device_id, device_token, init, get_wifi, is_provisioned, factory_reset, softap_ssid,
}
use remote_wake.Config.Wifi.{IsShared, set_wifi-get_wifi}
use remote_wake.Config.Stays.{IsApart, Change, changes, identity_stays}
use remote_wake.Config.Reset.{factory_reset-forgets, reset_renews_identity}
use remote_wake.Config.Tests as Keys
use remote_wake.Config.TextTests.{Texts, texts, texts-IsTextStore, blank, default_url}

abbrev Flash : Type 0
Flash = Keys.Memory × Texts

abbrev slots : Nvs Flash
slots = record {
  opens = λ s w. Err.ok;
  get_blob = λ s key. Keys.memory.get_blob s.0 key;
  set_blob = λ s key slot. (((Keys.memory.set_blob s.0 key slot).0, s.1), Err.ok);
  get_u64 = λ s key. Keys.memory.get_u64 s.0 key;
  set_u64 = λ s key n. (((Keys.memory.set_u64 s.0 key n).0, s.1), Err.ok);
  erase_key = λ s key. (((Keys.memory.erase_key s.0 key).0, s.1), Err.ok);
  commit = λ s. (s, Err.ok);
}

abbrev store : TextStore Flash
store = record {
  opens = λ s w. Err.ok;
  get_str = λ s key size. texts.get_str s.1 key size;
  set_str = λ s key text. ((s.0, (texts.set_str s.1 key text).0), Err.ok);
  erase_key = λ s key. ((s.0, (texts.erase_key s.1 key).0), Err.ok);
  erase_all = λ s. ((Keys.blank, blank), Err.ok);
  commit = λ s. (s, Err.ok);
}

store-IsTextStore : IsTextStore store
store-IsTextStore = record {
  opens_ok = λ s w. refl;
  set-get = λ s key text size good fits. texts-IsTextStore.set-get s.1 key text size good fits;
  set-other = λ s key other text size ne. texts-IsTextStore.set-other s.1 key other text size ne;
  erase-get = λ s key size h. texts-IsTextStore.erase-get s.1 key size h;
  erase-other = λ s key other size ne. texts-IsTextStore.erase-other s.1 key other size ne;
  commit-get = λ s key size. refl;
}

slots-IsShared : IsShared slots store
slots-IsShared = record {
  opens_ok = λ s w. refl;
  blob-set_str = λ s key other text ne. refl;
  blob-commit = λ s key. refl;
  blob-erase_all = λ s key good. refl;
  get-erase_all = λ s key size good. refl;
}

slots-IsApart : IsApart slots store
slots-IsApart = record {
  opens_ok = λ s w. refl;
  text-set_blob = λ s key slot other size ne. refl;
  text-set_u64 = λ s key n other size ne. refl;
  text-erase = λ s key other size ne. refl;
  text-commit = λ s key size. refl;
}

-- A device that has its identity and an operator key.
abbrev started : Flash × Cache × Err
started = init store default_url (Keys.registered, blank) (replicate 8 171) (replicate 32 5)

setup_name : softap_ssid started.1 33 ≡ some (codes "remote-wake-abab")
unfolding softap_ssid device_id init ensure_identity encode
setup_name = refl

abbrev joined : Flash × Err
joined = set_wifi store default_url started.0 (some (codes "home")) (some (codes "password"))

joins : is_ok joined.1 ≡ true
unfolding set_wifi init ensure_identity encode
joins = refl

set_wifi-get_wifi_example :
    (get_wifi store default_url joined.0 33 64 ≡ Reading.found (codes "home", codes "password"))
    × (key_count slots joined.0 ≡ key_count slots started.0)
    × (is_provisioned store default_url slots joined.0 ≡ ltb 0 (key_count slots started.0))
set_wifi-get_wifi_example =
    set_wifi-get_wifi slots store slots-IsShared default_url store-IsTextStore started.0
      (codes "home") (some (codes "password")) 33 64 (ground arith) (ground arith) (ground arith)
      (ground arith) joins

abbrev forgotten : Flash × Cache × Err
forgotten = factory_reset store joined.0 started.1

forgets : is_ok forgotten.2 ≡ true
unfolding factory_reset
forgets = refl

factory_reset-forgets_example :
    ((kid : List ℕ) → get_key slots forgotten.0 kid ≡ none)
    × (key_count slots forgotten.0 ≡ 0)
    × ((n m : ℕ) → get_wifi store default_url forgotten.0 n m ≡ Reading.fails Err.not_found)
    × (is_provisioned store default_url slots forgotten.0 ≡ false)
    × (get_relay_url store default_url forgotten.0 128 ≡ Reading.found default_url)
    × (device_id forgotten.1 ≡ [])
    × (device_token forgotten.1 ≡ [])
factory_reset-forgets_example =
    factory_reset-forgets slots store slots-IsShared store-IsTextStore default_url joined.0
      started.1 128 (ground arith) forgets

abbrev restarted : Flash × Cache × Err
restarted = init store default_url forgotten.0 (replicate 8 1) (replicate 32 2)

restarts : restarted.1.ready ≡ true
unfolding init ensure_identity factory_reset encode
restarts = refl

reset_renews_identity_example :
    (device_id restarted.1 ≡ hex_of (replicate 8 1))
    × (fresh_token (replicate 32 2) ≡ some (device_token restarted.1))
reset_renews_identity_example =
    reset_renews_identity slots store slots-IsShared store-IsTextStore default_url joined.0
      started.1 (replicate 8 1) (replicate 32 2) forgets restarts

starts : started.1.ready ≡ true
unfolding init ensure_identity encode
starts = refl

-- What is done with the device before it starts again.
abbrev uses : List Change
uses =
    Change.joins (some (codes "home")) (some (codes "password"))
    ∷ Change.relays (some (codes "wss://example.com"))
    ∷ Change.registers (replicate 32 9) (codes "me") 5
    ∷ Change.counts (codes "p1") 7
    ∷ Change.removes 0
    ∷ Change.starts (replicate 8 1) (replicate 32 2)
    ∷ []

identity_stays_example :
    let (s', c', e) =
      init store default_url
        (changes slots store default_url uses started.0)
        (replicate 8 3)
        (replicate 32 4) in
    (c' ≡ started.1) × (e ≡ Err.ok)
identity_stays_example =
    identity_stays slots store store-IsTextStore slots-IsApart default_url (Keys.registered, blank)
      (replicate 8 171) (replicate 32 5) (replicate 8 3) (replicate 32 4) uses refl starts
