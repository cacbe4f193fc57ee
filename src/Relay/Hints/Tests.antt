-- ===== src/Relay/Hints/Tests.antt =====
-- A hint that is passed on to an idle updater.
use remote_wake.Base.{ℕ, ◌≡◌, ◌⊎◌, refl, true, List, [], ◌∷◌, ◌++◌, some, none, codes}
use remote_wake.Base.Int.{ℤ, pos}
use remote_wake.Json.{Json}
use remote_wake.Auth.Ops.{Env}
use remote_wake.Auth.Tests.{whole, members_of, text_value, find_item}
use remote_wake.OtaManifest.Text.{Identity, identity_magic, url_in_source}
use remote_wake.OtaWorker.Offers.{Offered, Phase, Policy, offer_manifest}
use remote_wake.Relay.Hints.{handle_update_hint}
use remote_wake.Relay.Hints.Passed.{IsHinted, handle_update_hint-IsHinted}

abbrev running : Identity
running = record {
  magic = identity_magic;
  format_version = 1;
  updater_api = 1;
  release = 7;
  product = codes "wake";
  board = codes "s3";
  profile = codes "full";
  channel = codes "stable";
  layout = codes "ab";
  version = codes "v1";
  chip = codes "esp32s3";
}

abbrev source : List ℕ
source = codes "https://up.example/fw/"

abbrev hint_fields : List (List ℕ × Json ℤ)
hint_fields =
    (codes "v", Json.num (pos 1))
    ∷ (codes "manifest_url", text_value (source ++ codes "m"))
    ∷ (codes "product", text_value (codes "wake"))
    ∷ (codes "board", text_value (codes "s3"))
    ∷ (codes "profile", text_value (codes "full"))
    ∷ (codes "channel", text_value (codes "stable"))
    ∷ (codes "partition_layout", text_value (codes "ab"))
    ∷ []

abbrev hinting : Env
hinting = record {
  doubles = whole;
  json = record {
    parse = λ text. some (
        Json.obj (members_of ((codes "update_available", Json.obj (members_of hint_fields)) ∷ [])));
    get_item = find_item;
  };
  calloc_ok = λ n. true;
  alloc = λ n. true;
  verify_detached = λ sig msg pub_key. true;
}

abbrev idle : Offered
idle = record {
  ready = true;
  policy = Policy.automatic;
  source_prefix = some source;
  phase = Phase.idle;
  queue = none;
}

queues_it :
    handle_update_hint hinting running (codes "{}") idle true
    ≡ (record idle { queue = some (source ++ codes "m") }, true)
unfolding handle_update_hint url_in_source offer_manifest
queues_it = refl

handle_update_hint-IsHinted_example :
    let after = (handle_update_hint hinting running (codes "{}") idle true).0 in
    (after ≡ idle) ⊎ IsHinted hinting running (codes "{}") idle after true
handle_update_hint-IsHinted_example =
    handle_update_hint-IsHinted hinting running (codes "{}") idle true
