-- ===== src/Relay/Hints/Unique.antt =====
-- What `unique_object` and the tests of the fields mean, firmware/main/relay_client.c.
use remote_wake.Base.{
  ℕ, zero, suc, ◌≡◌, ◌≢◌, refl, ap, Bool, true, ◌&&◌, List, [], ◌∷◌, Option, some, none, get_elem?,
  codes, bytes_eq→eq, bytes_eq_refl, arith,
}
use remote_wake.Json.{Json, Members, string_of}
use remote_wake.Auth.Ops.{Env}
use remote_wake.Auth.Verify.{D}
use remote_wake.OtaManifest.Text.{Identity}
use remote_wake.Relay.Hints.{
  is_new, unique_members, unique_object, is_text, hint_matches, for_device,
}

module _ {D : Type 0} where
  -- The keys of an object in their order; a key may be NULL.
  abbrev pub keys_of : Members D → List (Option (List ℕ))
  keys_of Members.end = []
  keys_of (Members.member a k j ms) = k ∷ keys_of ms

  -- An object whose keys are texts, each of which stands at one place.
  pub record IsUnique (root : Json D) : Type 0 where
    pub members : Members D
    pub is_object : root ≡ Json.obj members
    pub keyed : (i : ℕ) → get_elem? (keys_of members) i ≢ some none
    pub once :
        (i j : ℕ) (k : List ℕ)
        → get_elem? (keys_of members) i ≡ some (some k)
        → get_elem? (keys_of members) j ≡ some (some k)
        → i ≡ j

  new_elsewhere :
      (k : List ℕ) (ms : Members D) (i : ℕ)
      → is_new k ms ≡ true
      → get_elem? (keys_of ms) i ≢ some (some k)
  unfolding is_new
  new_elsewhere k Members.end i h e = ground arith
  new_elsewhere k (Members.member a none j ms) i h e = ground arith
  new_elsewhere k (Members.member a (some l) j ms) zero h e =
      let same : l ≡ k = ground arith in ground (arith, bytes_eq_refl k, same)
  new_elsewhere k (Members.member a (some l) j ms) (suc i) h e =
      new_elsewhere k ms i (ground arith) e

  members-keyed :
      (ms : Members D) (i : ℕ) → unique_members ms ≡ true → get_elem? (keys_of ms) i ≢ some none
  unfolding unique_members
  members-keyed Members.end i h e = ground arith
  members-keyed (Members.member a none j ms) i h e = ground arith
  members-keyed (Members.member a (some l) j ms) zero h e = ground arith
  members-keyed (Members.member a (some l) j ms) (suc i) h e = members-keyed ms i (ground arith) e

  members-once :
      (ms : Members D) (i j : ℕ) (k : List ℕ)
      → unique_members ms ≡ true
      → get_elem? (keys_of ms) i ≡ some (some k)
      → get_elem? (keys_of ms) j ≡ some (some k)
      → i ≡ j
  unfolding unique_members
  members-once Members.end i j k h e e' = absurd (ground arith)
  members-once (Members.member a none v ms) i j k h e e' = absurd (ground arith)
  members-once (Members.member a (some l) v ms) zero zero k h e e' = refl
  members-once (Members.member a (some l) v ms) zero (suc j) k h e e' =
      let same : l ≡ k = ground arith in absurd (new_elsewhere k ms j (ground arith) e')
  members-once (Members.member a (some l) v ms) (suc i) zero k h e e' =
      let same : l ≡ k = ground arith in absurd (new_elsewhere k ms i (ground arith) e)
  members-once (Members.member a (some l) v ms) (suc i) (suc j) k h e e' =
      ap suc (members-once ms i j k (ground arith) e e')

  pub unique_object-IsUnique : (root : Json D) → unique_object root ≡ true → IsUnique root
  unfolding unique_object
  unique_object-IsUnique (Json.obj ms) h = record {
    members = ms;
    is_object = refl;
    keyed = λ i. members-keyed ms i h;
    once = λ i j k. members-once ms i j k h;
  }
  unique_object-IsUnique _ h = absurd (ground arith)

is_text-some :
    (o : Option (List ℕ)) (expected : List ℕ) → is_text o expected ≡ true → o ≡ some expected
is_text-some none expected h = absurd (ground arith)
is_text-some (some s) expected h = ap some (bytes_eq→eq s expected h)

five_hold :
    (a b c d e : Bool)
    → a && b && c && d && e ≡ true
    → (a ≡ true) × (b ≡ true) × (c ≡ true) × (d ≡ true) × (e ≡ true)
five_hold a b c d e h = ground arith

module _ (E : Env) (identity : Identity) where
  abbrev pub text_at : Json (D E) → List ℕ → Option (List ℕ)
  text_at hint field = string_of (E.json.get_item hint field)

  -- The hint names the product, the board, the profile, the channel and the layout of the identity.
  pub record NamesDevice (hint : Json (D E)) : Type 0 where
    pub product : text_at hint (codes "product") ≡ some identity.product
    pub board : text_at hint (codes "board") ≡ some identity.board
    pub profile : text_at hint (codes "profile") ≡ some identity.profile
    pub channel : text_at hint (codes "channel") ≡ some identity.channel
    pub layout : text_at hint (codes "partition_layout") ≡ some identity.layout

  hint_matches-some :
      (hint : Json (D E)) (field expected : List ℕ)
      → hint_matches E identity hint field expected ≡ true
      → text_at hint field ≡ some expected
  unfolding hint_matches
  hint_matches-some hint field expected h = is_text-some (text_at hint field) expected h

  pub for_device-NamesDevice :
      (hint : Json (D E)) → for_device E identity hint ≡ true → NamesDevice hint
  unfolding for_device
  for_device-NamesDevice hint h =
      let (a, b, c, d, e) = five_hold _ _ _ _ _ h in
      record {
        product = hint_matches-some hint (codes "product") identity.product a;
        board = hint_matches-some hint (codes "board") identity.board b;
        profile = hint_matches-some hint (codes "profile") identity.profile c;
        channel = hint_matches-some hint (codes "channel") identity.channel d;
        layout = hint_matches-some hint (codes "partition_layout") identity.layout e;
      }
