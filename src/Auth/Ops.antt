-- ===== src/Auth/Ops.antt =====
-- What the verifier is given.
use remote_wake.Base.{ℕ, Bool, false, Option, none, some, List}
use remote_wake.Base.Int.{ℤ}
use remote_wake.Json.{Doubles, Json}
use remote_wake.Auth.Envelope.{JsonLib}

-- `rw_auth_ops_t` over a store `S`. A callback that is `none` is a NULL pointer; `get_key` and
-- `get_ctr` give `none` for `false`; `set_ctr` gives the store after it, and whether it is ESP_OK.
pub record Ops (S : Type 0) : Type 0 where
  pub device_id : Option (List ℕ)
  pub now : ℤ
  pub ts_window : ℤ
  pub clock_valid : Bool
  pub get_key : Option (S → List ℕ → Option (List ℕ))
  pub get_ctr : Option (S → List ℕ → Option ℕ)
  pub set_ctr : Option (S → List ℕ → ℕ → S × Bool)
  pub act_enabled : Option (S → List ℕ → Bool)

-- `rw_cmd_t`. `args` is NULL except in a verified command.
pub record Cmd (D : Type 0) : Type 0 where
  pub id : List ℕ
  pub act : List ℕ
  pub kid : List ℕ
  pub ts : ℤ
  pub ctr : ℕ
  pub args : Option (Json D)

-- What the verifier calls that is not this repository's: the JSON library, the allocator, the
-- arithmetic of doubles, and `crypto_sign_verify_detached(sig, msg, pubkey) == 0`.
pub record Env : Type 1 where
  pub doubles : Doubles
  pub json : JsonLib doubles.Double
  pub calloc_ok : ℕ → Bool
  pub alloc : ℕ → Bool
  pub verify_detached : List ℕ → List ℕ → List ℕ → Bool

-- A NULL callback counts as a failure.
module _ {S : Type 0} where
  abbrev pub call_get_key : Option (S → List ℕ → Option (List ℕ)) → S → List ℕ → Option (List ℕ)
  call_get_key none s kid = none
  call_get_key (some f) s kid = f s kid

  abbrev pub call_get_ctr : Option (S → List ℕ → Option ℕ) → S → List ℕ → Option ℕ
  call_get_ctr none s kid = none
  call_get_ctr (some f) s kid = f s kid

  abbrev pub call_set_ctr : Option (S → List ℕ → ℕ → S × Bool) → S → List ℕ → ℕ → S × Bool
  call_set_ctr none s kid ctr = (s, false)
  call_set_ctr (some f) s kid ctr = f s kid ctr

  abbrev pub call_act_enabled : Option (S → List ℕ → Bool) → S → List ℕ → Bool
  call_act_enabled none s act = false
  call_act_enabled (some f) s act = f s act
