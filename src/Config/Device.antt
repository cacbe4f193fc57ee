-- ===== src/Config/Device.antt =====
-- The verifier with the counters of firmware/main/config.c.
use remote_wake.Base.{ℕ, ◌<◌, ◌≡◌, true, List, arith}
use remote_wake.Auth.Errors.{AuthErr}
use remote_wake.Auth.Ops.{Ops, Cmd, Env}
use remote_wake.Auth.Verify.{D, verify}
use remote_wake.Auth.Replay.{CounterStore, with_counters, serve, accepted_once}
use remote_wake.Config.Slots.{Err, is_ok, Nvs, get_ctr, set_ctr}
use remote_wake.Config.Counters.{
  IsNvs, get_ctr-set_ctr, get_ctr-set_ctr_failed, get_ctr-set_ctr_other,
}

pub is_ok→ok : (e : Err) → is_ok e ≡ true → e ≡ Err.ok
is_ok→ok e h = ground arith

module _ {S : Type 0} (nvs : Nvs S) (laws : IsNvs nvs) where
  -- The callbacks `ops_get_ctr` and `ops_set_ctr`.
  abbrev pub nvs_counters : CounterStore S
  nvs_counters = record {
    get = get_ctr nvs;
    put = λ s kid n. ((set_ctr nvs s kid n).0, is_ok (set_ctr nvs s kid n).1);
    get-put = λ s kid n h. get_ctr-set_ctr nvs laws s kid n (is_ok→ok (set_ctr nvs s kid n).1 h);
    get-put_failed = get_ctr-set_ctr_failed nvs laws;
    get-put_other = get_ctr-set_ctr_other nvs laws;
  }

  -- On the device, with the counters in an NVS that keeps its laws, no command is accepted twice: after
  -- any further envelopes, whose counter writes may fail, a command of the same key is accepted only
  -- with a greater counter.
  pub device_accepts_once :
      (E : Env) (ops₁ ops₂ : Ops S) (s₀ s₁ s₂ : S) (text₁ text₂ : List ℕ) (c₁ c₂ : Cmd (D E))
      (between : List (Ops S × List ℕ))
      → verify E (with_counters nvs_counters ops₁) s₀ text₁ ≡ (s₁, AuthErr.ok, c₁)
      → verify E (with_counters nvs_counters ops₂) (serve E nvs_counters s₁ between) text₂
        ≡ (s₂, AuthErr.ok, c₂)
      → c₁.kid ≡ c₂.kid
      → c₁.ctr < c₂.ctr
  device_accepts_once E ops₁ ops₂ s₀ s₁ s₂ text₁ text₂ c₁ c₂ between h₁ h₂ same =
      accepted_once E nvs_counters ops₁ ops₂ s₀ s₁ s₂ text₁ text₂ c₁ c₂ between h₁ h₂ same
