-- ===== src/Relay/Dispatch/Tests.antt =====
-- A press of the power button, and an action that this build does not have.
use remote_wake.Base.{ℕ, ◌≡◌, refl, false, not, List, codes}
use remote_wake.Auth.Ops.{Cmd}
use remote_wake.Auth.Tests.{env, command}
use remote_wake.Relay.Dispatch.{
  Esp, Parts, Response, Deed, dispatch, dispatch_power, arg_uint, act_enabled,
}
use remote_wake.Relay.Dispatch.Actions.{is_unknown, dispatch_knows_acts}

abbrev parts : Parts env.doubles.Double
parts = record {
  wake = Esp.ok;
  type_text = λ text enter. Esp.ok;
  press_keys = λ items. Esp.ok;
  power_tap = λ ms. Esp.ok;
  power_hold = λ ms. Esp.invalid_state;
}

abbrev of_act : List ℕ → Cmd env.doubles.Double
of_act act = record (command 5) { act = act }

taps_by_default :
    dispatch env.doubles env.json false parts (of_act (codes "power_tap"))
    ≡ (Deed.taps 200, Response.pressed 200)
unfolding dispatch dispatch_power arg_uint
taps_by_default = refl

dispatch_knows_acts_example :
    is_unknown (dispatch env.doubles env.json false parts (of_act (codes "type"))).1
    ≡ not (act_enabled false (codes "type"))
dispatch_knows_acts_example =
    dispatch_knows_acts env.doubles env.json false parts (of_act (codes "type"))
