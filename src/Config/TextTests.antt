-- ===== src/Config/TextTests.antt =====
-- A store of texts in memory, on which the relay is set.
use remote_wake.Base.{
  ℕ, ◌<◌, ◌≡◌, ap, ◌∙◌, ◌≢◌, ◌⊎◌, inl, inr, refl, true, false, not, List, some, ltb, if◌then◌else◌,
  codes, length, bytes_eq, bytes_eq_refl, bytes_eq→eq, Bool-cases, arith,
}
use remote_wake.Config.Slots.{Err, is_ok, Reading}
use remote_wake.Config.Texts.{
  TextStore, relay_is_placeholder, get_relay_url, relay_url_is_override, set_relay_url,
}
use remote_wake.Config.Relay.{IsTextStore, set_relay_url-get}

abbrev fits : ℕ → Reading (List ℕ) → Reading (List ℕ)
fits size (Reading.found text) =
    if ltb (length text) size then Reading.found text else Reading.fails Err.invalid_size
fits size (Reading.fails e) = Reading.fails e

abbrev pub Texts : Type 0
Texts = List ℕ → Reading (List ℕ)

abbrev put : Texts → List ℕ → Reading (List ℕ) → Texts
put m key v other = if bytes_eq key other then v else m other

abbrev pub texts : TextStore Texts
texts = record {
  opens = λ m w. Err.ok;
  get_str = λ m key size. fits size (m key);
  set_str = λ m key text. (put m key (Reading.found text), Err.ok);
  erase_key = λ m key. (put m key (Reading.fails Err.not_found), Err.ok);
  erase_all = λ m. (λ key. Reading.fails Err.not_found, Err.ok);
  commit = λ m. (m, Err.ok);
}

put_self : (m : Texts) (key : List ℕ) (v : Reading (List ℕ)) → put m key v key ≡ v
put_self m key v = rw (bytes_eq_refl key)

put_other :
    (m : Texts) (key other : List ℕ) (v : Reading (List ℕ))
    → key ≢ other
    → put m key v other ≡ m other
put_other m key other v ne = elim (Bool-cases (bytes_eq key other)) [
  | inl same ↦ absurd (ne (bytes_eq→eq key other same))
  | inr differ ↦ rw differ
]

fits_found :
    (size : ℕ) (text : List ℕ)
    → length text < size
    → fits size (Reading.found text) ≡ Reading.found text
fits_found size text small = ground arith

pub texts-IsTextStore : IsTextStore texts
texts-IsTextStore = record {
  opens_ok = λ m w. refl;
  set-get = λ m key text size good small.
      ap (fits size) (put_self m key (Reading.found text)) ∙ fits_found size text small;
  set-other =
      λ m key other text size ne. ap (fits size) (put_other m key other (Reading.found text) ne);
  erase-get = λ m key size h. ap (fits size) (put_self m key (Reading.fails Err.not_found));
  erase-other = λ m key other size ne.
      ap (fits size) (put_other m key other (Reading.fails Err.not_found) ne);
  commit-get = λ m key size. refl;
}

abbrev pub blank : Texts
blank key = Reading.fails Err.not_found

abbrev pub default_url : List ℕ
default_url = codes "wss://relay.wake.example"

abbrev own_url : List ℕ
own_url = codes "wss://home.example"

sets_own : is_ok (set_relay_url texts default_url blank (some own_url)).1 ≡ true
unfolding set_relay_url
sets_own = refl

set_relay_url-get_example :
    let s' = (set_relay_url texts default_url blank (some own_url)).0 in
    (get_relay_url texts default_url s' 128 ≡ Reading.found own_url)
    × (relay_url_is_override texts default_url s' ≡ not (bytes_eq own_url default_url))
    × ((own_url ≡ default_url) ⊎ (relay_is_placeholder own_url ≡ false))
set_relay_url-get_example =
    set_relay_url-get texts texts-IsTextStore default_url blank own_url 128 (omega arith)
      (omega arith) sets_own
