-- ===== src/Config/Relay.antt =====
-- The relay's URL of firmware/main/config.c: what is set is what is used.
use remote_wake.Base.{
  ℕ, ◌≤◌, ◌<◌, ◌≡◌, ◌≢◌, ◌⊎◌, inl, inr, refl, sym, ap, ◌∙◌, Bool, true, false, not, ◌||◌, List, [],
  ◌∷◌, some, leb, ◌==◌, if◌then◌else◌, length, codes, bytes_eq, bytes_eq→eq, if-holds, arith,
}
use remote_wake.Config.Slots.{Err, is_ok, Reading}
use remote_wake.Config.Texts.{
  TextStore, relay_is_placeholder, read_text, write_text, erase_text, not_empty, relay_override,
  get_relay_url, gone, is_found, relay_url_is_override, clear_relay_url, set_relay_url,
}

-- What NVS promises of texts, in a namespace that exists.
pub record IsTextStore {S : Type 0} (store : TextStore S) : Type 0 where
  pub opens_ok : (s : S) (writable : Bool) → store.opens s writable ≡ Err.ok
  pub set-get :
      (s : S) (key text : List ℕ) (size : ℕ)
      → is_ok (store.set_str s key text).1 ≡ true
      → length text < size
      → store.get_str (store.set_str s key text).0 key size ≡ Reading.found text
  pub set-other :
      (s : S) (key other text : List ℕ) (size : ℕ)
      → key ≢ other
      → store.get_str (store.set_str s key text).0 other size ≡ store.get_str s other size
  pub erase-get :
      (s : S) (key : List ℕ) (size : ℕ)
      → ((store.erase_key s key).1 ≡ Err.ok) ⊎ ((store.erase_key s key).1 ≡ Err.not_found)
      → store.get_str (store.erase_key s key).0 key size ≡ Reading.fails Err.not_found
  pub erase-other :
      (s : S) (key other : List ℕ) (size : ℕ)
      → key ≢ other
      → store.get_str (store.erase_key s key).0 other size ≡ store.get_str s other size
  pub commit-get :
      (s : S) (key : List ℕ) (size : ℕ)
      → store.get_str (store.commit s).0 key size ≡ store.get_str s key size

ok_is : (e : Err) → is_ok e ≡ true → e ≡ Err.ok
ok_is e h = ground arith

missing_is :
    (e : Err) → is_ok e ≡ false → is_ok (if gone e then Err.ok else e) ≡ true → e ≡ Err.not_found
missing_is e bad fine = ground arith

module _ {S : Type 0} (store : TextStore S) (laws : IsTextStore store) (default_url : List ℕ) where
  pub read_text-get :
      (s : S) (key : List ℕ) (size : ℕ)
      → read_text store default_url s key size ≡ store.get_str s key size
  unfolding read_text
  read_text-get s key size = rw (laws.opens_ok s false) refl

  pub write_text-read :
      (s : S) (key text : List ℕ) (size : ℕ)
      → length text < size
      → is_ok (write_text store default_url s key text).1 ≡ true
      → read_text store default_url (write_text store default_url s key text).0 key size
        ≡ Reading.found text
  unfolding write_text
  write_text-read s key text size fits =
      let Q = λ (p : S × Err).
        is_ok p.1 ≡ true → read_text store default_url p.0 key size ≡ Reading.found text in
      let written = (store.set_str s key text).0 in
      if-holds Q (not (is_ok (store.opens s true))) _ _
        (λ shut good. absurd (let open_ = laws.opens_ok s true in ground arith))
        (λ there.
          if-holds Q (is_ok (store.set_str s key text).1) _ _
            (λ good fine.
              read_text-get (store.commit written).0 key size
              ∙ laws.commit-get written key size
              ∙ laws.set-get s key text size good fits)
            (λ bad fine. absurd (ground arith)))

  pub write_text-other :
      (s : S) (key other text : List ℕ) (size : ℕ)
      → key ≢ other
      → read_text store default_url (write_text store default_url s key text).0 other size
        ≡ read_text store default_url s other size
  unfolding write_text
  write_text-other s key other text size ne =
      let Q = λ (p : S × Err).
        read_text store default_url p.0 other size ≡ read_text store default_url s other size in
      let written = (store.set_str s key text).0 in
      let same =
        read_text-get written other size
        ∙ laws.set-other s key other text size ne
        ∙ sym (read_text-get s other size) in
      if-holds Q (not (is_ok (store.opens s true))) _ _ (λ shut. refl)
        (λ there.
          if-holds Q (is_ok (store.set_str s key text).1) _ _
            (λ good.
              read_text-get (store.commit written).0 other size
              ∙ laws.commit-get written other size
              ∙ sym (read_text-get written other size)
              ∙ same)
            (λ bad. same))

  erase_text-read :
      (s : S) (key : List ℕ) (size : ℕ)
      → is_ok (erase_text store default_url s key).1 ≡ true
      → read_text store default_url (erase_text store default_url s key).0 key size
        ≡ Reading.fails Err.not_found
  unfolding erase_text
  erase_text-read s key size =
      let Q = λ (p : S × Err).
        is_ok p.1 ≡ true → read_text store default_url p.0 key size ≡ Reading.fails Err.not_found in
      let erased = (store.erase_key s key).0 in
      let e = (store.erase_key s key).1 in
      if-holds Q (not (is_ok (store.opens s true))) _ _
        (λ shut good. absurd (let open_ = laws.opens_ok s true in ground arith))
        (λ there.
          if-holds Q (is_ok e) _ _
            (λ good fine.
              read_text-get (store.commit erased).0 key size
              ∙ laws.commit-get erased key size
              ∙ laws.erase-get s key size (inl (ok_is e good)))
            (λ bad fine.
              read_text-get erased key size
              ∙ laws.erase-get s key size (inr (missing_is e bad fine))))

  pub erase_text-other :
      (s : S) (key other : List ℕ) (size : ℕ)
      → key ≢ other
      → read_text store default_url (erase_text store default_url s key).0 other size
        ≡ read_text store default_url s other size
  unfolding erase_text
  erase_text-other s key other size ne =
      let Q = λ (p : S × Err).
        read_text store default_url p.0 other size ≡ read_text store default_url s other size in
      let erased = (store.erase_key s key).0 in
      let e = (store.erase_key s key).1 in
      let same =
        read_text-get erased other size
        ∙ laws.erase-other s key other size ne
        ∙ sym (read_text-get s other size) in
      if-holds Q (not (is_ok (store.opens s true))) _ _ (λ shut. refl)
        (λ there.
          if-holds Q (is_ok e) _ _
            (λ good.
              read_text-get (store.commit erased).0 other size
              ∙ laws.commit-get erased other size
              ∙ sym (read_text-get erased other size)
              ∙ same)
            (λ bad. same))

  -- What the URL in use is, by the override.
  override-used :
      (s : S) (size : ℕ) (c : ℕ) (url : List ℕ)
      → 0 < size
      → read_text store default_url s (codes "relay") size ≡ Reading.found (c ∷ url)
      → get_relay_url store default_url s size ≡ Reading.found (c ∷ url)
  unfolding get_relay_url relay_override
  override-used s size c url room h = ground arith

  pub default-used :
      (s : S) (size : ℕ) (e : Err)
      → length default_url < size
      → read_text store default_url s (codes "relay") size ≡ Reading.fails e
      → get_relay_url store default_url s size ≡ Reading.found default_url
  unfolding get_relay_url relay_override
  default-used s size e room h = ground arith

  -- The URL that is set is the URL in use: where `set_relay_url` succeeds, every buffer that holds 128
  -- bytes and the default reads the URL back, and it is stored as an override just where it is not
  -- the firmware's default; then it is no placeholder.
  pub set_relay_url-get :
      (s : S) (url : List ℕ) (size : ℕ)
      → 128 ≤ size
      → length default_url < size
      → is_ok (set_relay_url store default_url s (some url)).1 ≡ true
      → let s' = (set_relay_url store default_url s (some url)).0 in
        (get_relay_url store default_url s' size ≡ Reading.found url)
        × (relay_url_is_override store default_url s' ≡ not (bytes_eq url default_url))
        × ((url ≡ default_url) ⊎ (relay_is_placeholder url ≡ false))
  unfolding set_relay_url clear_relay_url relay_url_is_override relay_override
  set_relay_url-get s [] size large room = λ good. absurd (ground arith)
  set_relay_url-get s (c ∷ url) size large room =
      let text = c ∷ url in
      let Q = λ (p : S × Err).
        is_ok p.1 ≡ true
        → (get_relay_url store default_url p.0 size ≡ Reading.found text)
          × (relay_url_is_override store default_url p.0 ≡ not (bytes_eq text default_url))
          × ((text ≡ default_url) ⊎ (relay_is_placeholder text ≡ false)) in
      if-holds Q ((length text == 0) || leb 128 (length text)) _ _
        (λ long good. absurd (ground arith))
        (λ fits.
          if-holds Q (bytes_eq text default_url) _ _
            (λ same good.
              let gone = λ (n : ℕ). erase_text-read s (codes "relay") n good in
              let this = bytes_eq→eq text default_url same in
              (
                default-used _ size Err.not_found room (gone size) ∙ ap Reading.found (sym this),
                ap (λ r. is_found (not_empty r)) (gone 128) ∙ ap not (sym same),
                inl this,
              ))
            (λ other.
              if-holds Q (relay_is_placeholder text) _ _ (λ bad good. absurd (ground arith))
                (λ real good.
                  let there = λ (n : ℕ) (h : length text < n).
                    write_text-read s (codes "relay") text n h good in
                  let small : length text < 128 = ground arith in
                  (
                    override-used _ size c url (omega arith) (there size (omega arith)),
                    ap (λ r. is_found (not_empty r)) (there 128 small) ∙ ap not (sym other),
                    inr real,
                  ))))
