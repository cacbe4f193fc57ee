-- ===== src/OtaManifest/Origin.antt =====
-- What `rw_ota_url_in_source` of firmware/main/ota_manifest.c lets through.
use remote_wake.Base.{
  ℕ, zero, suc, ◌-◌, ◌≤◌, ◌≡◌, refl, Bool, true, false, not, ◌&&◌, ◌||◌, List, [], ◌∷◌, ◌++◌, some,
  ltb, ◌==◌, ap, ◌∙◌, ◌≢◌, subst, sym, inl, inr, Bool-cases, length, codes, bytes_eq, drop, arith,
}
use remote_wake.OtaManifest.Text.{
  starts_with, contains, has, before_slash, from_slash, https_host, is_some, in_prefix,
  url_in_source,
}

-- Whether a segment ".." starts here.
unfoldable up : List ℕ → Bool
up (a ∷ b ∷ []) = (a == 46) && (b == 46)
up (a ∷ b ∷ c ∷ s) = (a == 46) && (b == 46) && (c == 47)
up _ = false

-- Whether a segment of a path is "..".
unfoldable pub climbs : List ℕ → Bool
unfolding up
climbs [] = false
climbs (c ∷ s) = ((c == 47) && up s) || climbs s

-- Whether a text ends in "/..".
unfoldable ends_up : List ℕ → Bool
ends_up [] = false
ends_up (c ∷ s) = bytes_eq (c ∷ s) (47 ∷ 46 ∷ 46 ∷ []) || ends_up s

up-ends :
    (c : ℕ) (s : List ℕ)
    → (c == 47) ≡ true
    → up s ≡ true
    → starts_with (codes "/../") (c ∷ s) ≡ false
    → bytes_eq (c ∷ s) (47 ∷ 46 ∷ 46 ∷ []) ≡ true
unfolding up starts_with
up-ends c [] slash h free = absurd (ground arith)
up-ends c (a ∷ []) slash h free = absurd (ground arith)
up-ends c (a ∷ b ∷ []) slash h free = ground arith
up-ends c (a ∷ b ∷ d ∷ s) slash h free = absurd (ground arith)

climbs-ends_up :
    (s : List ℕ) → climbs s ≡ true → contains (codes "/../") s ≡ false → ends_up s ≡ true
unfolding climbs contains ends_up
climbs-ends_up [] h free = absurd (ground arith)
climbs-ends_up (c ∷ s) h free =
    let ends = up-ends c s in let later = climbs-ends_up s in ground arith

ends_up-drop : (n : ℕ) (s : List ℕ) → ends_up (drop n s) ≡ true → ends_up s ≡ true
unfolding ends_up
ends_up-drop zero s h = h
ends_up-drop (suc n) [] h = h
ends_up-drop (suc n) (c ∷ s) h = let later = ends_up-drop n s h in ground arith

bytes_eq-length : (c : ℕ) (s : List ℕ) → bytes_eq (c ∷ s) (47 ∷ 46 ∷ 46 ∷ []) ≡ true → length s ≡ 2
bytes_eq-length c [] h = absurd (ground arith)
bytes_eq-length c (a ∷ []) h = absurd (ground arith)
bytes_eq-length c (a ∷ b ∷ []) h = ground arith
bytes_eq-length c (a ∷ b ∷ d ∷ s) h = absurd (ground arith)

ends_up-last :
    (s : List ℕ)
    → ends_up s ≡ true
    → (3 ≤ length s) × (bytes_eq (drop (length s - 3) s) (codes "/..") ≡ true)
unfolding ends_up
ends_up-last [] h = absurd (ground arith)
ends_up-last (c ∷ s) h = elim (Bool-cases (bytes_eq (c ∷ s) (47 ∷ 46 ∷ 46 ∷ []))) [
  | inl here ↦
      let size = bytes_eq-length c s here in
      let none_left : length (c ∷ s) - 3 ≡ 0 = omega arith in
      (
        omega arith,
        subst (λ n. bytes_eq (drop n (c ∷ s)) (codes "/..") ≡ true) (sym none_left) here,
      )
  | inr later ↦
      let (size, ends) = ends_up-last s (ground arith) in
      let one_more : length (c ∷ s) - 3 ≡ suc (length s - 3) = omega arith in
      (omega arith, subst (λ n. bytes_eq (drop n (c ∷ s)) (codes "/..") ≡ true) (sym one_more) ends)
]

starts_with-++ : (p s : List ℕ) → starts_with p s ≡ true → (rest : List ℕ) × (s ≡ p ++ rest)
unfolding starts_with
starts_with-++ [] s h = (s, refl)
starts_with-++ (x ∷ p) [] h = absurd (ground arith)
starts_with-++ (x ∷ p) (c ∷ s) h =
    let (rest, same) = starts_with-++ p s (ground arith) in
    let head : x ≡ c = ground arith in (rest, cc)

before_slash-++ :
    (a b : List ℕ) → length (from_slash a) ≢ 0 → before_slash (a ++ b) ≡ before_slash a
unfolding before_slash from_slash
before_slash-++ [] b h = absurd (h refl)
before_slash-++ (c ∷ a) b h = elim (Bool-cases (c == 47)) [
  | inl here ↦ ground arith
  | inr later ↦ ground (arith, before_slash-++ a b)
]

drop-++ : (n : ℕ) (a b : List ℕ) → n ≤ length a → drop n (a ++ b) ≡ drop n a ++ b
drop-++ zero a b h = refl
drop-++ (suc n) [] b h = absurd (ground arith)
drop-++ (suc n) (c ∷ a) b h = drop-++ n a b (omega arith)

-- What a URL with a host looks like.
https_host-some :
    (url : List ℕ) (capacity : ℕ)
    → is_some (https_host (some url) capacity) ≡ true
    → (starts_with (codes "https://") url ≡ true)
      × (length (from_slash (drop 8 url)) ≢ 0)
      × (https_host (some url) capacity ≡ some (before_slash (drop 8 url)))
unfolding https_host
https_host-some url capacity h = ground arith

starts_with-length : (p s : List ℕ) → starts_with p s ≡ true → length p ≤ length s
unfolding starts_with
starts_with-length [] s h = omega arith
starts_with-length (x ∷ p) [] h = absurd (ground arith)
starts_with-length (x ∷ p) (c ∷ s) h = ground (arith, starts_with-length p s)

-- A URL that continues the prefix has the host of the prefix.
same_host :
    (prefix rest : List ℕ) (capacity : ℕ)
    → is_some (https_host (some prefix) capacity) ≡ true
    → is_some (https_host (some (prefix ++ rest)) capacity) ≡ true
    → https_host (some (prefix ++ rest)) capacity ≡ https_host (some prefix) capacity
same_host prefix rest capacity there whole =
    let (scheme, path, host) = https_host-some prefix capacity there in
    let (_, _, host') = https_host-some (prefix ++ rest) capacity whole in
    let cut = drop-++ 8 prefix rest (starts_with-length (codes "https://") prefix scheme) in
    let same = before_slash-++ (drop 8 prefix) rest path in
    host' ∙ ap (λ s. some (before_slash s)) cut ∙ ap some same ∙ sym host

-- A path without "/../" that does not end in "/.." has no segment "..".
no_climb :
    (url : List ℕ)
    → contains (codes "/../") (drop 8 url) ≡ false
    → bytes_eq (drop (length url - 3) url) (codes "/..") ≡ false
    → climbs (drop 8 url) ≡ false
no_climb url inner last = elim (Bool-cases (climbs (drop 8 url))) [
  | inl up ↦
      let (_, ends) =
        ends_up-last url (ends_up-drop 8 url (climbs-ends_up (drop 8 url) up inner)) in
      absurd (ground arith)
  | inr down ↦ ground arith
]

all_hold :
    (long wide there there' tests : Bool)
    → not long && not wide && there && there' && tests ≡ true
    → (long ≡ false) × (there ≡ true) × (there' ≡ true) × (tests ≡ true)
all_hold long wide there there' tests h = ground arith

ltb-le : {a b : ℕ} → ltb a b ≡ false → b ≤ a
ltb-le h = ground arith

-- The tests, one by one.
url_in_source-parts :
    (url prefix : List ℕ)
    → url_in_source (some url) (some prefix) ≡ true
    → (length url ≤ 511)
      × (is_some (https_host (some url) 128) ≡ true)
      × (is_some (https_host (some prefix) 128) ≡ true)
      × (in_prefix url prefix ≡ true)
unfolding url_in_source
url_in_source-parts url prefix h =
    let (short, there, there', tests) =
      all_hold (ltb 511 (length url)) (ltb 383 (length prefix))
        (is_some (https_host (some url) 128)) (is_some (https_host (some prefix) 128))
        (in_prefix url prefix) h in
    (ltb-le short, there, there', tests)

in_prefix-parts :
    (url prefix : List ℕ)
    → in_prefix url prefix ≡ true
    → (starts_with prefix url ≡ true)
      × (contains (codes "/../") (drop 8 url) ≡ false)
      × (bytes_eq (drop (length url - 3) url) (codes "/..") ≡ false)
      × (has b'?' url ≡ false)
      × (has b'%' url ≡ false)
unfolding in_prefix
in_prefix-parts url prefix h = ground arith

-- An image only comes from below the configured source: when the test accepts a URL, the URL is the
-- prefix and then some rest, its host is the host of the prefix, no segment of its path is "..", it
-- has no "?" and no "%", and it is at most 511 bytes.
pub url_in_source-prefix :
    (url prefix : List ℕ)
    → url_in_source (some url) (some prefix) ≡ true
    → ((rest : List ℕ) × (url ≡ prefix ++ rest))
      × (https_host (some url) 128 ≡ https_host (some prefix) 128)
      × (climbs (drop 8 url) ≡ false)
      × (has b'?' url ≡ false)
      × (has b'%' url ≡ false)
      × (length url ≤ 511)
url_in_source-prefix url prefix h =
    let (bounded, there, there', tests) = url_in_source-parts url prefix h in
    let (continues, inner, last, query, percent) = in_prefix-parts url prefix tests in
    let (rest, whole) = starts_with-++ prefix url continues in
    (
      (rest, whole),
      subst
          (λ s.
            is_some (https_host (some s) 128) ≡ true
            → https_host (some s) 128 ≡ https_host (some prefix) 128)
          (sym whole) (same_host prefix rest 128 there') there,
      no_climb url inner last,
      query,
      percent,
      bounded,
    )
