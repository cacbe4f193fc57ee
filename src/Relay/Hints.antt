-- ===== src/Relay/Hints.antt =====
-- The hints of firmware/main/relay_client.c, `handle_update_hint`, with `rw_ota_get_registration` and
-- `rw_ota_offer_manifest` of firmware/main/ota.c.
pub mod Unique
pub mod Passed
mod Tests
use remote_wake.Base.{
  ℕ, ◌≡◌, ◌⊎◌, inl, inr, refl, ◌∙◌, ap, Bool, true, false, not, ◌&&◌, ◌||◌, List, [], ◌∷◌, Option,
  some, none, ltb, ◌==◌, if◌then◌else◌, length, codes, bytes_eq, bytes_eq→eq, Option-cases,
  Bool-cases, if-holds, arith,
}
use remote_wake.Base.Int.{pos}
use remote_wake.Json.{Json, Members, string_of, number_of}
use remote_wake.Auth.Ops.{Env}
use remote_wake.Auth.Verify.{D}
use remote_wake.PowerBtn.{Err}
use remote_wake.OtaManifest.Text.{Identity, url_in_source}
use remote_wake.OtaWorker.Offers.{Offered, is_pinned, is_busy, offer_manifest}

module _ {D : Type 0} where
  -- The inner loop of `unique_object`: a key that is NULL or the same ends it.
  unfoldable pub is_new : List ℕ → Members D → Bool
  is_new k Members.end = true
  is_new k (Members.member a none j ms) = false
  is_new k (Members.member a (some l) j ms) = not (bytes_eq k l) && is_new k ms

  unfoldable pub unique_members : Members D → Bool
  unfolding is_new
  unique_members Members.end = true
  unique_members (Members.member a none j ms) = false
  unique_members (Members.member a (some k) j ms) = is_new k ms && unique_members ms

  unfoldable pub unique_object : Json D → Bool
  unfolding unique_members
  unique_object (Json.obj ms) = unique_members ms
  unique_object _ = false

abbrev pub is_text : Option (List ℕ) → List ℕ → Bool
is_text none expected = false
is_text (some s) expected = bytes_eq s expected

-- `identity` is that of the running image; the update of the queue is `offered`.
module _ (E : Env) (identity : Identity) where
  open E use {doubles, json}
  open doubles use {eq, of_int}

  unfoldable pub hint_matches : Json (D E) → List ℕ → List ℕ → Bool
  hint_matches hint field expected = is_text (string_of (json.get_item hint field)) expected

  abbrev pub is_one : Option (D E) → Bool
  is_one none = false
  is_one (some d) = eq d (of_int (pos 1))

  abbrev pub right_size : Option (List ℕ) → Bool
  right_size none = false
  right_size (some url) = not (length url == 0) && not (ltb 511 (length url))

  -- The device that the hint names.
  unfoldable pub for_device : Json (D E) → Bool
  unfolding hint_matches
  for_device hint =
      hint_matches hint (codes "product") identity.product
      && hint_matches hint (codes "board") identity.board
      && hint_matches hint (codes "profile") identity.profile
      && hint_matches hint (codes "channel") identity.channel
      && hint_matches hint (codes "partition_layout") identity.layout

  -- The condition for an offer; `valid` is what `session_valid` gives.
  unfoldable pub offers : Json (D E) → Json (D E) → Offered → Bool → Bool
  unfolding unique_object for_device
  offers root hint o valid =
      unique_object root
      && unique_object hint
      && is_one (number_of (json.get_item hint (codes "v")))
      && right_size (string_of (json.get_item hint (codes "manifest_url")))
      && o.ready
      && for_device hint
      && valid

  abbrev pub object_of : List ℕ → Option (Json (D E))
  object_of [] = none
  object_of (c ∷ text) = if c == b'{' then json.parse (c ∷ text) else none

  abbrev pub hint_of : Option (Json (D E)) → Option (Json (D E))
  hint_of none = none
  hint_of (some root) = json.get_item root (codes "update_available")

  -- The flag says that the message was a hint.
  unfoldable pub take_hint :
      Option (Json (D E)) → Option (Json (D E)) → Offered → Bool → Offered × Bool
  unfolding offers offer_manifest
  take_hint none hint o valid = (o, false)
  take_hint (some root) none o valid = (o, false)
  take_hint (some root) (some hint) o valid =
      let offered = (offer_manifest o (string_of (json.get_item hint (codes "manifest_url")))).0 in
      (if offers root hint o valid then offered else o, true)

  unfoldable pub handle_update_hint : List ℕ → Offered → Bool → Offered × Bool
  unfolding take_hint
  handle_update_hint text o valid =
      let root = object_of text in take_hint root (hint_of root) o valid
