-- ===== src/OtaWorker/Offers.antt =====
-- What the worker of firmware/main/ota.c takes on, and when it looks again: `rw_ota_offer_manifest`,
-- `redirect_allowed`, the requests of `open_https` and the waits of `worker`.
use remote_wake.Base.{
  ℕ, ◌+◌, ◌-◌, ◌*◌, ◌/◌, ◌%◌, ◌^◌, ◌≤◌, ◌≡◌, refl, Bool, true, false, not, ◌&&◌, ◌||◌, List, [],
  ◌∷◌, Option, some, none, ltb, ◌==◌, if◌then◌else◌, length, bytes_eq, Bool-cases, Option-cases,
  inl, inr, ◌⊎◌, ap, sym, ◌∙◌, ◌≢◌, bytes_eq→eq, All, arith,
}
use remote_wake.PowerBtn.{Err}
use remote_wake.OtaManifest.Text.{https_host, url_in_source}

-- `rw_ota_phase_t`
pub data Phase : Type 0 where
  disabled idle checking available downloading verifying waiting_restart restarting pending_health
        healthy rolled_back failed :
      Phase

-- `rw_ota_policy_t`
pub data Policy : Type 0 where
  notify automatic pinned : Policy

abbrev pub is_pinned : Policy → Bool
is_pinned Policy.pinned = true
is_pinned _ = false

-- The phases in which no offer is taken.
abbrev pub is_busy : Phase → Bool
is_busy Phase.downloading = true
is_busy Phase.verifying = true
is_busy Phase.waiting_restart = true
is_busy Phase.restarting = true
is_busy Phase.pending_health = true
is_busy _ = false

-- What the updater is at an offer; the queue has one place.
pub record Offered : Type 0 where
  pub ready : Bool  -- s_initialized && s_enrolled
  pub policy : Policy
  pub source_prefix : Option (List ℕ)
  pub phase : Phase
  pub queue : Option (List ℕ)

-- `rw_ota_offer_manifest`
unfoldable pub offer_manifest : Offered → Option (List ℕ) → Offered × Err
offer_manifest o none =
    (o, if not o.ready || is_pinned o.policy then Err.not_supported else Err.invalid_arg)
offer_manifest o (some url) =
    if not o.ready || is_pinned o.policy
    then (o, Err.not_supported)
    else if ltb 511 (length url) || not (url_in_source (some url) o.source_prefix)
    then (o, Err.invalid_arg)
    else if is_busy o.phase
    then (o, Err.invalid_state)
    else elim o.queue [
      | none ↦ (record o { queue = some url }, Err.ok)
      | some waiting ↦ (o, Err.invalid_state)
    ]

abbrev one_of : List ℕ → List (List ℕ) → Bool
one_of host [] = false
one_of host (h ∷ hosts) = bytes_eq host h || one_of host hosts

unfoldable pub redirect_allowed : Option (List ℕ) → Option (List ℕ) → List (List ℕ) → Bool
redirect_allowed manifest_url url hosts = elim (https_host url 128) [
  | none ↦ false
  | some host ↦ elim (https_host manifest_url 128) [
    | none ↦ false
    | some original ↦ bytes_eq host original || one_of host hosts
  ]
]

-- The answers to one request of `open_https`: whether it is before the deadline and opens, the length
-- of the body (`none` where it is negative), the status, and the next URL where it can be had.
pub record Answer : Type 0 where
  pub opened : Bool
  pub size : Option ℕ
  pub status : ℕ
  pub next : Option (List ℕ)

abbrev is_redirect : ℕ → Bool
is_redirect code = (code == 301) || (code == 302) || (code == 303) || (code == 307) || (code == 308)

-- What the loop of `open_https` does with an answer: it ends, has the body, or goes on to a URL.
pub data Hop : Type 0 where
  ends : Hop
  body : ℕ → Hop
  goes : List ℕ → Hop

unfoldable pub hop_of :
    Option (List ℕ) → List (List ℕ) → ℕ → Bool → Option ℕ → ℕ → Option (List ℕ) → Hop
unfolding redirect_allowed
hop_of manifest_url hosts redirects opened none status next = Hop.ends
hop_of manifest_url hosts redirects opened (some size) status none =
    if opened && (status == 200) then Hop.body size else Hop.ends
hop_of manifest_url hosts redirects opened (some size) status (some url) =
    if not opened
    then Hop.ends
    else if status == 200
    then Hop.body size
    else if not (is_redirect status) || (redirects == 3)
    then Hop.ends
    else if redirect_allowed manifest_url (some url) hosts
    then Hop.goes url
    else Hop.ends

-- The loop: the length of the body that is opened, and the URLs that were asked for after the first.
unfoldable pub follow : Option (List ℕ) → List (List ℕ) → ℕ → List Answer → Option ℕ × List (List ℕ)
unfolding hop_of
follow manifest_url hosts redirects [] = (none, [])
follow manifest_url hosts redirects (a ∷ answers) =
    let later = follow manifest_url hosts (redirects + 1) answers in
    elim (hop_of manifest_url hosts redirects a.opened a.size a.status a.next) [
      | Hop.ends ↦ (none, [])
      | Hop.body size ↦ (some size, [])
      | Hop.goes url ↦ (later.0, url ∷ later.1)
    ]

-- The wait of `worker` after its `failures`-th failure, in seconds, without and with its jitter.
unfoldable pub retry_wait : ℕ → ℕ → ℕ
retry_wait failures check_interval =
    let interval = if check_interval == 0 then 21600 else check_interval in
    let shift = if ltb 8 failures then 8 else failures - 1 in
    let retry = if failures == 0 then interval else 30 * 2 ^ shift % 2 ^ 32 in
    if ltb interval retry then interval else retry

unfoldable pub next_wait : ℕ → ℕ → ℕ → ℕ
unfolding retry_wait
next_wait failures check_interval random =
    let retry = retry_wait failures check_interval in retry + random % (retry / 5 + 1)

-- A host that may be asked: that of the manifest, or one of the list.
abbrev pub Among : List ℕ → List (List ℕ) → Type 0
Among host [] = ⊥
Among host (h ∷ hosts) = (host ≡ h) ⊎ Among host hosts

one_of-Among : (host : List ℕ) (hosts : List (List ℕ)) → one_of host hosts ≡ true → Among host hosts
one_of-Among host [] h = absurd (ground arith)
one_of-Among host (x ∷ hosts) h = elim (Bool-cases (bytes_eq host x)) [
  | inl same ↦ inl (bytes_eq→eq host x same)
  | inr other ↦ inr (one_of-Among host hosts (ground arith))
]

pub record IsTrustedUrl (manifest_url : Option (List ℕ)) (hosts : List (List ℕ)) (url : List ℕ)
    : Type 0 where
  pub host : List ℕ
  pub of_url : https_host (some url) 128 ≡ some host
  pub trusted : (https_host manifest_url 128 ≡ some host) ⊎ Among host hosts

redirect_allowed-IsTrustedUrl :
    (manifest_url : Option (List ℕ)) (hosts : List (List ℕ)) (url : List ℕ)
    → redirect_allowed manifest_url (some url) hosts ≡ true
    → IsTrustedUrl manifest_url hosts url
unfolding redirect_allowed
redirect_allowed-IsTrustedUrl manifest_url hosts url h =
    elim (Option-cases (https_host (some url) 128)) [
      | inl bad ↦ absurd (ground arith)
      | inr (host, found) ↦ elim (Option-cases (https_host manifest_url 128)) [
        | inl bad ↦ absurd (ground arith)
        | inr (original, own) ↦ elim (Bool-cases (bytes_eq host original)) [
          | inl same ↦ record {
            host = host;
            of_url = found;
            trusted = inl (own ∙ ap some (sym (bytes_eq→eq host original same)));
          }
          | inr other ↦ record {
            host = host;
            of_url = found;
            trusted = inr (one_of-Among host hosts (ground arith));
          }
        ]
      ]
    ]

abbrev Followed : Option (List ℕ) → List (List ℕ) → ℕ → Option ℕ × List (List ℕ) → Type 0
Followed manifest_url hosts left (size, urls) =
    All (IsTrustedUrl manifest_url hosts) urls × (length urls ≤ left)

hop_of-goes :
    (manifest_url : Option (List ℕ)) (hosts : List (List ℕ)) (redirects : ℕ) (opened : Bool)
    (size : Option ℕ) (status : ℕ) (next : Option (List ℕ)) (url : List ℕ)
    → hop_of manifest_url hosts redirects opened size status next ≡ Hop.goes url
    → (redirect_allowed manifest_url (some url) hosts ≡ true) × (redirects ≢ 3)
unfolding hop_of
hop_of-goes manifest_url hosts redirects opened none status next url h = absurd (ground arith)
hop_of-goes manifest_url hosts redirects opened (some size) status none url h =
    absurd (ground arith)
hop_of-goes manifest_url hosts redirects opened (some size) status (some place) url h = ground arith

-- One answer, with what follows it.
hop-Followed :
    (manifest_url : Option (List ℕ)) (hosts : List (List ℕ)) (redirects : ℕ) (hop : Hop)
    (later : Option ℕ × List (List ℕ))
    → ((url : List ℕ) → hop ≡ Hop.goes url → IsTrustedUrl manifest_url hosts url × (redirects ≢ 3))
    → (redirects + 1 ≤ 3 → Followed manifest_url hosts (3 - (redirects + 1)) later)
    → redirects ≤ 3
    → Followed manifest_url hosts (3 - redirects) (elim hop [
      | Hop.ends ↦ (none, [])
      | Hop.body size ↦ (some size, [])
      | Hop.goes url ↦ (later.0, url ∷ later.1)
    ])
hop-Followed manifest_url hosts redirects Hop.ends later on_hop rest few = (tt, omega arith)
hop-Followed manifest_url hosts redirects (Hop.body size) later on_hop rest few = (tt, omega arith)
hop-Followed manifest_url hosts redirects (Hop.goes url) later on_hop rest few =
    let (trusted, more) = on_hop url refl in
    let (all, count) = rest (omega arith) in ((trusted, all), omega arith)

follow-Followed :
    (manifest_url : Option (List ℕ)) (hosts : List (List ℕ)) (redirects : ℕ) (answers : List Answer)
    → redirects ≤ 3
    → Followed manifest_url hosts (3 - redirects) (follow manifest_url hosts redirects answers)
unfolding follow
follow-Followed manifest_url hosts redirects [] few = (tt, omega arith)
follow-Followed manifest_url hosts redirects (a ∷ answers) few =
    hop-Followed manifest_url hosts redirects
      (hop_of manifest_url hosts redirects a.opened a.size a.status a.next)
      (follow manifest_url hosts (redirects + 1) answers)
      (λ url goes.
        let (allowed, more) =
          hop_of-goes manifest_url hosts redirects a.opened a.size a.status a.next url goes in
        (redirect_allowed-IsTrustedUrl manifest_url hosts url allowed, more))
      (λ fits. follow-Followed manifest_url hosts (redirects + 1) answers fits) few

-- No request leaves the trusted hosts: whatever the servers answer, the URLs that are asked for after
-- the first are at most three, and each has a host that is the host of the configured manifest or
-- one of the configured redirect hosts, exactly.
pub follow-trusted :
    (manifest_url : Option (List ℕ)) (hosts : List (List ℕ)) (answers : List Answer)
    → All (IsTrustedUrl manifest_url hosts) (follow manifest_url hosts 0 answers).1
      × (length (follow manifest_url hosts 0 answers).1 ≤ 3)
follow-trusted manifest_url hosts answers =
    follow-Followed manifest_url hosts 0 answers (omega arith)
