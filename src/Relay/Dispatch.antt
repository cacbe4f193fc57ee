-- ===== src/Relay/Dispatch.antt =====
-- `dispatch` of firmware/main/relay_client.c: which operation a command asks for, and the response.
pub mod Actions
mod Tests
use remote_wake.Base.{
  ℕ, Bool, true, false, not, ◌&&◌, ◌||◌, List, [], ◌∷◌, Option, some, none, if◌then◌else◌, codes,
  bytes_eq,
}
use remote_wake.Base.Int.{ℤ, pos, pos_part}
use remote_wake.Json.{Doubles, Json, string_of, number_of}
use remote_wake.Auth.Envelope.{JsonLib}
use remote_wake.Auth.Ops.{Cmd}

-- The results that `esp_err_to_proto` tells apart.
pub data Esp : Type 0 where
  ok not_supported not_found timeout invalid_state invalid_arg invalid_size other : Esp

-- `none` is NULL.
unfoldable pub err_to_proto : Esp → Option (List ℕ)
err_to_proto Esp.ok = none
err_to_proto Esp.not_supported = some (codes "usb_down")
err_to_proto Esp.not_found = some (codes "usb_down")
err_to_proto Esp.timeout = some (codes "usb_down")
err_to_proto Esp.invalid_state = some (codes "busy")
err_to_proto Esp.invalid_arg = some (codes "bad_args")
err_to_proto Esp.invalid_size = some (codes "bad_args")
err_to_proto Esp.other = some (codes "internal")

-- The actions that a build accepts; `keyboard` is CONFIG_RW_ACT_KEYBOARD_INPUT.
unfoldable pub acts : Bool → List (List ℕ)
acts keyboard =
    codes "ping"
    ∷ codes "status"
    ∷ codes "wake"
    ∷ (if keyboard
        then codes "type" ∷ codes "keys" ∷ codes "power_tap" ∷ codes "power_hold" ∷ []
        else codes "power_tap" ∷ codes "power_hold" ∷ [])

unfoldable pub is_one_of : List ℕ → List (List ℕ) → Bool
is_one_of act [] = false
is_one_of act (a ∷ rest) = bytes_eq act a || is_one_of act rest

unfoldable pub act_enabled : Bool → List ℕ → Bool
unfolding acts is_one_of
act_enabled keyboard act = is_one_of act (acts keyboard)

-- What the keyboard and the button are asked to do, with their results.
pub record Parts (D : Type 0) : Type 0 where
  pub wake : Esp
  pub type_text : List ℕ → Bool → Esp
  pub press_keys : Json D → Esp
  pub power_tap : ℕ → Esp
  pub power_hold : ℕ → Esp

-- The response, with `ms` where the result has it.
pub data Response : Type 0 where
  pong status done : Response
  pressed : ℕ → Response
  fails : List ℕ → Response

-- What a command does besides its response.
pub data Deed (D : Type 0) : Type 0 where
  no_deed wakes : Deed D
  types : List ℕ → Bool → Deed D
  presses_keys : Json D → Deed D
  taps holds : ℕ → Deed D

abbrev pub done_or : Esp → Response
done_or e = elim (err_to_proto e) [ none ↦ Response.done | some text ↦ Response.fails text ]

-- `power_tap` and `power_hold` cannot report a power button that is not there.
abbrev pub pressed_or : ℕ → Esp → Response
pressed_or ms Esp.not_supported = Response.fails (codes "internal")
pressed_or ms Esp.ok = Response.pressed ms
pressed_or ms e = done_or e

module _ (F : Doubles) (L : JsonLib F.Double) (keyboard : Bool) (parts : Parts F.Double) where
  open F use {Double, lt, eq, of_int, to_int}
  open L use {get_item}

  -- `cJSON_GetObjectItemCaseSensitive` gives NULL for a NULL object.
  abbrev pub arg : Option (Json Double) → List ℕ → Option (Json Double)
  arg none name = none
  arg (some args) name = get_item args name

  -- `none` is `false`: the argument is there and is not a 32-bit unsigned integer.
  unfoldable pub arg_uint : Option (Json Double) → ℕ → Option ℕ
  arg_uint none def = some def
  arg_uint (some (Json.num d)) def =
      if lt d (of_int (pos 0))
        || lt (of_int (pos 4294967295)) d
        || not (eq d (of_int (pos (pos_part (to_int d)))))
      then none
      else some (pos_part (to_int d))
  arg_uint (some _) def = none

  -- `cJSON_IsTrue(en)` where `en` is NULL or a Boolean.
  abbrev pub enter_of : Option (Json Double) → Option Bool
  enter_of none = some false
  enter_of (some Json.false_item) = some false
  enter_of (some Json.true_item) = some true
  enter_of (some _) = none

  unfoldable pub dispatch_type :
      Option (Json Double) → Option (Json Double) → Deed Double × Response
  dispatch_type (some (Json.str (some text))) en = elim (enter_of en) [
    | none ↦ (Deed.no_deed, Response.fails (codes "bad_args"))
    | some enter ↦ (Deed.types text enter, done_or (parts.type_text text enter))
  ]
  dispatch_type _ en = (Deed.no_deed, Response.fails (codes "bad_args"))

  unfoldable pub dispatch_keys : Option (Json Double) → Deed Double × Response
  dispatch_keys (some (Json.arr items)) =
      (Deed.presses_keys (Json.arr items), done_or (parts.press_keys (Json.arr items)))
  dispatch_keys _ = (Deed.no_deed, Response.fails (codes "bad_args"))

  unfoldable pub dispatch_power : Bool → Option (Json Double) → Deed Double × Response
  unfolding arg_uint
  dispatch_power holding item = elim (arg_uint item (if holding then 6000 else 200)) [
    | none ↦ (Deed.no_deed, Response.fails (codes "bad_args"))
    | some ms ↦
        if holding
        then (Deed.holds ms, pressed_or ms (parts.power_hold ms))
        else (Deed.taps ms, pressed_or ms (parts.power_tap ms))
  ]

  unfoldable pub dispatch : Cmd Double → Deed Double × Response
  unfolding dispatch_type dispatch_keys dispatch_power
  dispatch c =
      if bytes_eq c.act (codes "ping")
      then (Deed.no_deed, Response.pong)
      else if bytes_eq c.act (codes "status")
      then (Deed.no_deed, Response.status)
      else if bytes_eq c.act (codes "wake")
      then (Deed.wakes, done_or parts.wake)
      else if keyboard && bytes_eq c.act (codes "type")
      then dispatch_type (arg c.args (codes "text")) (arg c.args (codes "enter"))
      else if keyboard && bytes_eq c.act (codes "keys")
      then dispatch_keys (arg c.args (codes "seq"))
      else if bytes_eq c.act (codes "power_tap")
      then dispatch_power false (arg c.args (codes "ms"))
      else if bytes_eq c.act (codes "power_hold")
      then dispatch_power true (arg c.args (codes "ms"))
      else (Deed.no_deed, Response.fails (codes "unknown_act"))
