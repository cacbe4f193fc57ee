-- ===== src/OtaManifest/Text.antt =====
-- The tests on texts and URLs of firmware/main/ota_manifest.c. A C string is its bytes before the
-- NUL; a text array is its bytes before the first NUL, or all of them where there is none.
use remote_wake.Base.{
  ℕ, zero, suc, ◌-◌, Bool, true, false, not, ◌&&◌, ◌||◌, List, [], ◌∷◌, Option, some, none, ltb,
  leb, ◌==◌, if◌then◌else◌, length, codes, bytes_eq, drop,
}

abbrev pub is_alnum : ℕ → Bool
is_alnum c = (leb 48 c && leb c 57) || (leb 65 c && leb c 90) || (leb 97 c && leb c 122)

unfoldable pub allowed : Bool → ℕ → Bool
allowed identifier c =
    if identifier
    then is_alnum c || (c == b'-') || (c == b'_') || (c == b'.')
    else leb 33 c && leb c 126

-- The loop of `bounded_text`, with what is left of the capacity.
unfoldable pub text_loop : ℕ → List ℕ → Bool → Bool
unfolding allowed
text_loop zero s identifier = false
text_loop (suc left) [] identifier = true
text_loop (suc left) (c ∷ s) identifier = allowed identifier c && text_loop left s identifier

-- `none` is NULL.
unfoldable pub bounded_text : Option (List ℕ) → ℕ → Bool → Bool
unfolding text_loop
bounded_text none capacity identifier = false
bounded_text (some s) capacity identifier = ltb 0 (length s) && text_loop capacity s identifier

-- `rw_ota_image_identity_t`
pub record Identity : Type 0 where
  pub magic : List ℕ
  pub format_version : ℕ
  pub updater_api : ℕ
  pub release : ℕ
  pub product : List ℕ
  pub board : List ℕ
  pub profile : List ℕ
  pub channel : List ℕ
  pub layout : List ℕ
  pub version : List ℕ
  pub chip : List ℕ

abbrev pub identity_magic : List ℕ
identity_magic = codes "RWOTA-IDENTITY1!"

unfoldable pub identity_valid : Option Identity → Bool
unfolding bounded_text
identity_valid none = false
identity_valid (some i) =
    bytes_eq i.magic identity_magic
    && (i.format_version == 1)
    && (i.updater_api == 1)
    && not (i.release == 0)
    && bounded_text (some i.product) 32 true
    && bounded_text (some i.board) 32 true
    && bounded_text (some i.profile) 48 true
    && bounded_text (some i.channel) 16 true
    && bounded_text (some i.layout) 32 true
    && bounded_text (some i.chip) 16 true
    && bounded_text (some i.version) 32 false

unfoldable pub tuple_equal : Identity → Identity → Bool
tuple_equal a b =
    bytes_eq a.product b.product
    && bytes_eq a.board b.board
    && bytes_eq a.profile b.profile
    && bytes_eq a.channel b.channel
    && bytes_eq a.layout b.layout
    && bytes_eq a.chip b.chip

-- `!strncmp(s, p, strlen(p))`
unfoldable pub starts_with : List ℕ → List ℕ → Bool
starts_with [] s = true
starts_with (p ∷ ps) [] = false
starts_with (p ∷ ps) (c ∷ s) = (p == c) && starts_with ps s

-- `strstr(s, p) != NULL`
unfoldable pub contains : List ℕ → List ℕ → Bool
unfolding starts_with
contains p [] = starts_with p []
contains p (c ∷ s) = starts_with p (c ∷ s) || contains p s

-- `strchr(s, c) != NULL`, for `c` not NUL.
unfoldable pub has : ℕ → List ℕ → Bool
has c [] = false
has c (d ∷ s) = (d == c) || has c s

-- The bytes before the first slash, and the rest from it on.
unfoldable pub before_slash : List ℕ → List ℕ
before_slash [] = []
before_slash (c ∷ s) = if c == b'/' then [] else c ∷ before_slash s

unfoldable pub from_slash : List ℕ → List ℕ
from_slash [] = []
from_slash (c ∷ s) = if c == b'/' then c ∷ s else from_slash s

unfoldable pub host_chars : List ℕ → Bool
host_chars [] = true
host_chars (c ∷ s) = (is_alnum c || (c == b'.') || (c == b'-')) && host_chars s

unfoldable pub path_chars : List ℕ → Bool
path_chars [] = true
path_chars (c ∷ s) = not (ltb c 33 || ltb 126 c || (c == 92) || (c == b'#')) && path_chars s

-- `rw_ota_https_host`: the host that it writes, or `none` for `false`.
unfoldable pub https_host : Option (List ℕ) → ℕ → Option (List ℕ)
unfolding starts_with before_slash from_slash host_chars path_chars
https_host none capacity = none
https_host (some url) capacity =
    let host = before_slash (drop 8 url) in
    let path = from_slash (drop 8 url) in
    if not (starts_with (codes "https://") url)
    then none
    else if (length path == 0) || (length host == 0) || leb capacity (length host)
    then none
    else if host_chars host && path_chars path
    then some host
    else none

abbrev pub is_some : {A : Type 0} → Option A → Bool
is_some none = false
is_some (some a) = true

abbrev pub url_max : ℕ
url_max = 511

unfoldable pub last_byte : List ℕ → ℕ
last_byte [] = 0
last_byte (c ∷ []) = c
last_byte (c ∷ d ∷ s) = last_byte (d ∷ s)

-- The tests of `rw_ota_url_in_source` after those on the two hosts.
unfoldable pub in_prefix : List ℕ → List ℕ → Bool
unfolding last_byte starts_with has contains
in_prefix url prefix =
    not (length prefix == 0)
    && (last_byte prefix == b'/')
    && starts_with prefix url
    && not (has b'%' url)
    && not (has b'?' url)
    && not (contains (codes "/../") (drop 8 url))
    && not (contains (codes "/./") (drop 8 url))
    && not (bytes_eq (drop (length url - 3) url) (codes "/.."))

unfoldable pub url_in_source : Option (List ℕ) → Option (List ℕ) → Bool
unfolding https_host in_prefix
url_in_source none prefix = false
url_in_source (some url) none = false
url_in_source (some url) (some prefix) =
    not (ltb url_max (length url))
    && not (ltb 383 (length prefix))
    && is_some (https_host (some url) 128)
    && is_some (https_host (some prefix) 128)
    && in_prefix url prefix
