-- ===== src/Relay/Hints/Passed.antt =====
-- The hints that `handle_update_hint` of firmware/main/relay_client.c passes on, and what stands behind
-- each of its tests.
use remote_wake.Base.{
  ℕ, ◌≤◌, ◌≡◌, ◌≢◌, ◌⊎◌, inl, inr, refl, Bool, true, false, not, ◌&&◌, ◌||◌, List, ◌++◌, Option,
  some, none, ltb, length, codes, drop, if-holds, arith,
}
use remote_wake.Base.Int.{pos}
use remote_wake.Json.{Json, string_of, number_of}
use remote_wake.Auth.Ops.{Env}
use remote_wake.Auth.Verify.{D}
use remote_wake.PowerBtn.{Err}
use remote_wake.OtaManifest.Text.{Identity, https_host, has, url_in_source}
use remote_wake.OtaManifest.Origin.{climbs, url_in_source-prefix}
use remote_wake.OtaWorker.Offers.{Offered, Phase, Policy, is_pinned, is_busy, offer_manifest}
use remote_wake.Relay.Hints.{
  is_one, right_size, for_device, unique_object, offers, object_of, hint_of, take_hint,
  handle_update_hint,
}
use remote_wake.Relay.Hints.Unique.{
  IsUnique, unique_object-IsUnique, text_at, NamesDevice, for_device-NamesDevice,
}

-- A URL of the source: it continues the prefix on the same host, and nothing in it leads elsewhere.
pub record IsBelow (url prefix : List ℕ) : Type 0 where
  pub rest : List ℕ
  pub continues : url ≡ prefix ++ rest
  pub same_host : https_host (some url) 128 ≡ https_host (some prefix) 128
  pub stays : climbs (drop 8 url) ≡ false
  pub no_query : has b'?' url ≡ false
  pub no_percent : has b'%' url ≡ false
  pub bounded : length url ≤ 511

-- The updater takes an offer in this phase.
pub record IsIdle (phase : Phase) : Type 0 where
  pub downloads : phase ≢ Phase.downloading
  pub verifies : phase ≢ Phase.verifying
  pub waits : phase ≢ Phase.waiting_restart
  pub restarts : phase ≢ Phase.restarting
  pub pends : phase ≢ Phase.pending_health

-- What an offer of a text that is taken has been through.
pub record IsTaken (offered : Option (List ℕ)) (o after : Offered) : Type 0 where
  pub url : List ℕ
  pub prefix : List ℕ
  pub named : offered ≡ some url
  pub queued : after ≡ record o { queue = some url }
  pub room : o.queue ≡ none
  pub ready : o.ready ≡ true
  pub unpinned : o.policy ≢ Policy.pinned
  pub idle : IsIdle o.phase
  pub source : o.source_prefix ≡ some prefix
  pub below : IsBelow url prefix

is_busy-IsIdle : (phase : Phase) → is_busy phase ≡ false → IsIdle phase
is_busy-IsIdle phase free = record {
  downloads = λ e. ground arith;
  verifies = λ e. ground arith;
  waits = λ e. ground arith;
  restarts = λ e. ground arith;
  pends = λ e. ground arith;
}

url_in_source-IsBelow :
    (url : List ℕ) (source : Option (List ℕ))
    → url_in_source (some url) source ≡ true
    → (prefix : List ℕ) × (source ≡ some prefix) × IsBelow url prefix
unfolding url_in_source
url_in_source-IsBelow url none h = absurd (ground arith)
url_in_source-IsBelow url (some prefix) h =
    let ((rest, continues), host, stays, query, percent, bounded) =
      url_in_source-prefix url prefix h in
    (
      prefix,
      refl,
      record {
        rest = rest;
        continues = continues;
        same_host = host;
        stays = stays;
        no_query = query;
        no_percent = percent;
        bounded = bounded;
      },
    )

queue-IsTaken :
    (o : Offered) (url : List ℕ) (q : Option (List ℕ))
    → o.queue ≡ q
    → o.ready ≡ true
    → is_pinned o.policy ≡ false
    → is_busy o.phase ≡ false
    → url_in_source (some url) o.source_prefix ≡ true
    → let p = elim q as (λ x. Offered × Err) [
      | none ↦ (record o { queue = some url }, Err.ok)
      | some waiting ↦ (o, Err.invalid_state)
    ] in
      (p.0 ≡ o) ⊎ IsTaken (some url) o p.0
queue-IsTaken o url none e ready free idle from =
    let (prefix, source, below) = url_in_source-IsBelow url o.source_prefix from in
    inr (record {
      url = url;
      prefix = prefix;
      named = refl;
      queued = refl;
      room = e;
      ready = ready;
      unpinned = λ p. ground arith;
      idle = is_busy-IsIdle o.phase idle;
      source = source;
      below = below;
    })
queue-IsTaken o url (some waiting) e ready free idle from = inl refl

offer-IsTaken :
    (o : Offered) (url : Option (List ℕ))
    → ((offer_manifest o url).0 ≡ o) ⊎ IsTaken url o (offer_manifest o url).0
unfolding offer_manifest
offer-IsTaken o none = inl refl
offer-IsTaken o (some url) =
    let Q = λ (p : Offered × Err). (p.0 ≡ o) ⊎ IsTaken (some url) o p.0 in
    if-holds Q (not o.ready || is_pinned o.policy) _ _ (λ off. inl refl)
      (λ on.
        if-holds Q (ltb 511 (length url) || not (url_in_source (some url) o.source_prefix)) _ _
          (λ bad. inl refl)
          (λ good.
            if-holds Q (is_busy o.phase) _ _ (λ busy. inl refl)
              (λ idle.
                queue-IsTaken o url o.queue refl (ground arith) (ground arith) idle
                  (ground arith))))

all_hold :
    (a b c d e f g : Bool)
    → a && b && c && d && e && f && g ≡ true
    → (a ≡ true) × (b ≡ true) × (c ≡ true) × (f ≡ true) × (g ≡ true)
all_hold a b c d e f g h = ground arith

module _ (E : Env) (identity : Identity) where
  open E.doubles use {eq, of_int}

  -- A version that is the number one.
  pub record IsOne (number : Option (D E)) : Type 0 where
    pub version : D E
    pub there : number ≡ some version
    pub one : eq version (of_int (pos 1)) ≡ true

  is_one-IsOne : (number : Option (D E)) → is_one E identity number ≡ true → IsOne number
  is_one-IsOne none h = absurd (ground arith)
  is_one-IsOne (some d) h = record { version = d; there = refl; one = h }

  -- What a hint that is passed on has been through.
  pub record IsHinted (text : List ℕ) (o after : Offered) (valid : Bool) : Type 0 where
    pub root : Json (D E)
    pub hint : Json (D E)
    pub parsed : object_of E identity text ≡ some root
    pub named : E.json.get_item root (codes "update_available") ≡ some hint
    pub unique_root : IsUnique root
    pub unique_hint : IsUnique hint
    pub version : IsOne (number_of (E.json.get_item hint (codes "v")))
    pub device : NamesDevice E identity hint
    pub live : valid ≡ true
    pub taken : IsTaken (text_at E identity hint (codes "manifest_url")) o after

  offers-parts :
      (root hint : Json (D E)) (o : Offered) (valid : Bool)
      → offers E identity root hint o valid ≡ true
      → IsUnique root
        × IsUnique hint
        × IsOne (number_of (E.json.get_item hint (codes "v")))
        × NamesDevice E identity hint
        × (valid ≡ true)
  unfolding offers
  offers-parts root hint o valid h =
      let version = number_of (E.json.get_item hint (codes "v")) in
      let (whole, inner, one, device, live) =
        all_hold (unique_object root) (unique_object hint) (is_one E identity version)
          (right_size E identity (string_of (E.json.get_item hint (codes "manifest_url")))) o.ready
          (for_device E identity hint) valid h in
      (
        unique_object-IsUnique root whole,
        unique_object-IsUnique hint inner,
        is_one-IsOne version one,
        for_device-NamesDevice E identity hint device,
        live,
      )

  take_hint-IsHinted :
      (text : List ℕ) (root hint : Json (D E)) (o : Offered) (valid : Bool)
      → object_of E identity text ≡ some root
      → E.json.get_item root (codes "update_available") ≡ some hint
      → let after = (take_hint E identity (some root) (some hint) o valid).0 in
        (after ≡ o) ⊎ IsHinted text o after valid
  unfolding take_hint
  take_hint-IsHinted text root hint o valid parsed named =
      let url = string_of (E.json.get_item hint (codes "manifest_url")) in
      if-holds (λ (p : Offered). (p ≡ o) ⊎ IsHinted text o p valid)
        (offers E identity root hint o valid) _ _
        (λ good. elim (offer-IsTaken o url) [
          | inl same ↦ inl same
          | inr taken ↦
              let (ur, uh, one, device, live) = offers-parts root hint o valid good in
              inr (record {
                root = root;
                hint = hint;
                parsed = parsed;
                named = named;
                unique_root = ur;
                unique_hint = uh;
                version = one;
                device = device;
                live = live;
                taken = taken;
              })
        ])
        (λ bad. inl refl)

  by_hint :
      (text : List ℕ) (o : Offered) (valid : Bool) (root : Json (D E)) (h : Option (Json (D E)))
      → object_of E identity text ≡ some root
      → E.json.get_item root (codes "update_available") ≡ h
      → let after = (take_hint E identity (some root) h o valid).0 in
        (after ≡ o) ⊎ IsHinted text o after valid
  unfolding take_hint
  by_hint text o valid root none parsed named = inl refl
  by_hint text o valid root (some hint) parsed named =
      take_hint-IsHinted text root hint o valid parsed named

  by_parts :
      (text : List ℕ) (o : Offered) (valid : Bool) (r : Option (Json (D E)))
      → object_of E identity text ≡ r
      → let after = (take_hint E identity r (hint_of E identity r) o valid).0 in
        (after ≡ o) ⊎ IsHinted text o after valid
  unfolding take_hint
  by_parts text o valid none parsed = inl refl
  by_parts text o valid (some root) parsed =
      by_hint text o valid root (E.json.get_item root (codes "update_available")) parsed refl

  -- A hint of the relay only ever queues a manifest of the source: whatever the message, either nothing
  -- changes, or it is an object whose keys are texts, each at one place, and so is its hint; the
  -- hint's version is one, and it names the product, the board, the profile, the channel and the
  -- layout of this device; the session is the current one, the updater is enrolled, neither pinned
  -- nor busy, and its place was free; and what is queued is just the hint's URL, which continues the
  -- configured source on the same host, without a segment "..", a "?" or a "%".
  pub handle_update_hint-IsHinted :
      (text : List ℕ) (o : Offered) (valid : Bool)
      → let after = (handle_update_hint E identity text o valid).0 in
        (after ≡ o) ⊎ IsHinted text o after valid
  unfolding handle_update_hint
  handle_update_hint-IsHinted text o valid = by_parts text o valid (object_of E identity text) refl
