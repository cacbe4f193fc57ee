-- ===== src/Relay/Dispatch/Actions.antt =====
-- The actions that the verifier lets through are those that `dispatch` knows.
use remote_wake.Base.{
  ℕ, ◌≡◌, inl, inr, refl, Bool, true, false, not, Option, some, if◌then◌else◌, codes, bytes_eq,
  Bool-cases, Option-cases, arith,
}
use remote_wake.Json.{Doubles, Json}
use remote_wake.Auth.Envelope.{JsonLib}
use remote_wake.Auth.Ops.{Cmd}
use remote_wake.Relay.Dispatch.{
  Esp, Parts, Response, err_to_proto, acts, is_one_of, act_enabled, done_or, pressed_or, arg,
  arg_uint, enter_of, dispatch_type, dispatch_keys, dispatch_power, dispatch,
}

-- Whether the response is `unknown_act`; no other failure has this text.
unfoldable pub is_unknown : Response → Bool
is_unknown (Response.fails text) = bytes_eq text (codes "unknown_act")
is_unknown _ = false

done-known : (e : Esp) → is_unknown (done_or e) ≡ false
unfolding is_unknown err_to_proto
done-known e = ground arith

pressed-known : (ms : ℕ) (e : Esp) → is_unknown (pressed_or ms e) ≡ false
unfolding is_unknown err_to_proto
pressed-known ms e = ground arith

module _ (F : Doubles) (L : JsonLib F.Double) (keyboard : Bool) (parts : Parts F.Double) where
  dispatch_type-known :
      (text en : Option (Json F.Double))
      → is_unknown (dispatch_type F L keyboard parts text en).1 ≡ false
  unfolding dispatch_type is_unknown
  dispatch_type-known (some (Json.str (some text))) en =
      elim (Option-cases (enter_of F L keyboard parts en)) [
        | inl bad ↦ ground arith
        | inr (enter, e) ↦ ground (arith, done-known (parts.type_text text enter))
      ]
  dispatch_type-known _ en = refl

  dispatch_keys-known :
      (items : Option (Json F.Double))
      → is_unknown (dispatch_keys F L keyboard parts items).1 ≡ false
  unfolding dispatch_keys is_unknown
  dispatch_keys-known (some (Json.arr items)) = done-known (parts.press_keys (Json.arr items))
  dispatch_keys-known _ = refl

  dispatch_power-known :
      (holding : Bool) (item : Option (Json F.Double))
      → is_unknown (dispatch_power F L keyboard parts holding item).1 ≡ false
  unfolding dispatch_power is_unknown
  dispatch_power-known holding item =
      elim (Option-cases (arg_uint F L keyboard parts item (if holding then 6000 else 200))) [
        | inl bad ↦ ground arith
        | inr (ms, e) ↦ elim (Bool-cases holding) [
          | inl h ↦ ground (arith, pressed-known ms (parts.power_hold ms))
          | inr h ↦ ground (arith, pressed-known ms (parts.power_tap ms))
        ]
      ]

  -- `dispatch` answers `unknown_act` exactly to the actions that the verifier does not let through,
  -- whatever the arguments are and whatever the keyboard and the button answer.
  pub dispatch_knows_acts :
      (c : Cmd F.Double)
      → is_unknown (dispatch F L keyboard parts c).1 ≡ not (act_enabled keyboard c.act)
  unfolding dispatch act_enabled acts is_one_of is_unknown
  dispatch_knows_acts c = ground (
    arith,
    done-known parts.wake,
    dispatch_type-known (arg F L keyboard parts c.args (codes "text"))
        (arg F L keyboard parts c.args (codes "enter")),
    dispatch_keys-known (arg F L keyboard parts c.args (codes "seq")),
    dispatch_power-known false (arg F L keyboard parts c.args (codes "ms")),
    dispatch_power-known true (arg F L keyboard parts c.args (codes "ms")),
  )
