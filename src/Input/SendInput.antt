-- ===== src/Input/SendInput.antt =====
-- crates/quicview-input/src/sendinput.rs: injection on Windows. `SendInput` and `GetSystemMetrics` are
-- a parameter, on a state of the system that is theirs, and so are the operations on `f32`, which
-- is a bit pattern. `i64` products of an `i32` and 65535 fit; casts are written out.
pub mod Inputs
pub mod Coordinates
use quicview.Prelude.{
  ℕ, suc, ◌+◌, ◌*◌, ◌/◌, ◌%◌, ◌^◌, Bool, ◌||◌, Option, none, some, Result, ok, err, panic, ◌==◌,
  bit_or, if◌then◌else◌,
}
use quicview.Prelude.Int.{ℤ, pos, negsuc, pos_part, sub_ℕ, ◌*ℤ◌, to_u32, wrap_i32}
use quicview.Protocol.Input.{
  MouseButton, left, right, middle, back, forward, KeyAction, press, release, InputEvent, mouse,
  key, scroll, MouseEvent, ScrollEvent,
}
use quicview.Input.Error.{InputError, injection_failed}
use quicview.Input.Injector.{Answer, and_then}

-- `MOUSEINPUT` and `KEYBDINPUT`; the fields that are left out are 0.
pub record MouseInput : Type 0 where
  pub dx : ℤ
  pub dy : ℤ
  pub mouse_data : ℕ
  pub flags : ℕ

pub data Input : Type 0 where
  mi : MouseInput → Input
  ki : ℕ → ℕ → Input

-- The calls, on a state `O`; `send_input` returns how many inputs were inserted.
pub record Windows (O : Type 0) : Type 0 where
  pub screen_width : O → ℤ
  pub screen_height : O → ℤ
  pub send_input : Input → O → O × ℕ

-- What is done to an `f32`: `f.abs() > f32::EPSILON`, `(f * 120.0) as i32`, `(-f * 120.0) as i32`.
pub record Floats : Type 0 where
  pub is_significant : ℕ → Bool
  pub wheel : ℕ → ℤ
  pub neg_wheel : ℕ → ℤ

-- The constants of the `windows-sys` crate that are used.
pub record Flags : Type 0 where
  pub absolute : ℕ
  pub move : ℕ
  pub left_down : ℕ
  pub left_up : ℕ
  pub right_down : ℕ
  pub right_up : ℕ
  pub middle_down : ℕ
  pub middle_up : ℕ
  pub x_down : ℕ
  pub x_up : ℕ
  pub vertical_wheel : ℕ
  pub horizontal_wheel : ℕ
  pub key_up : ℕ

-- `XBUTTON1` and `XBUTTON2`.
abbrev pub xbutton1 : ℕ
xbutton1 = 1

abbrev pub xbutton2 : ℕ
xbutton2 = 2

-- Division of an integer by a positive one, towards zero.
abbrev pub div_trunc : ℤ → ℕ → ℤ
div_trunc (pos n) k = pos (n / k)
div_trunc (negsuc n) k = sub_ℕ 0 (suc n / k)

-- `((v as i64 * 65535) / screen as i64) as i32`, on a screen size that is positive.
unfoldable pub normalise : ℤ → ℕ → ℤ
normalise v screen = wrap_i32 (div_trunc (v *ℤ pos 65535) screen)

pub record WindowsInputInjector : Type 0 where
  pub events_injected : ℕ

abbrev pub new : WindowsInputInjector
new = record { events_injected = 0 }

module _ (c : Flags) where
  unfoldable pub button_flags : MouseButton → KeyAction → ℕ × ℕ
  button_flags left press = (c.left_down, 0)
  button_flags left release = (c.left_up, 0)
  button_flags right press = (c.right_down, 0)
  button_flags right release = (c.right_up, 0)
  button_flags middle press = (c.middle_down, 0)
  button_flags middle release = (c.middle_up, 0)
  button_flags back press = (c.x_down, xbutton1)
  button_flags back release = (c.x_up, xbutton1)
  button_flags forward press = (c.x_down, xbutton2)
  button_flags forward release = (c.x_up, xbutton2)

  unfoldable pub key_flags : KeyAction → ℕ
  key_flags press = 0
  key_flags release = c.key_up

module _ {O : Type 0} (c : Flags) (floats : Floats) (win : Windows O) where
  -- After the call of `SendInput`.
  unfoldable pub sent_one : O × ℕ → Answer O
  sent_one (o, sent) =
      if sent == 0 then (o, err (injection_failed "SendInput returned 0")) else (o, ok tt)

  unfoldable pub send_one : Input → O → Answer O
  send_one i o = sent_one (win.send_input i o)

  unfoldable pub screen_size : O → Result InputError (ℕ × ℕ)
  screen_size o =
      if (pos_part (win.screen_width o) == 0) || (pos_part (win.screen_height o) == 0)
      then err (injection_failed "failed to get screen dimensions")
      else ok (pos_part (win.screen_width o), pos_part (win.screen_height o))

  unfoldable pub move_to : ℤ → ℤ → Result InputError (ℕ × ℕ) → O → Answer O
  move_to x y (err e) o = (o, err e)
  move_to x y panic o = (o, panic)
  move_to x y (ok (screen_w, screen_h)) o =
      send_one
        (mi (record {
          dx = normalise x screen_w;
          dy = normalise y screen_h;
          mouse_data = 0;
          flags = bit_or c.absolute c.move;
        }))
        o

  unfoldable pub inject_mouse_move : ℤ → ℤ → O → Answer O
  inject_mouse_move x y o = move_to x y (screen_size o) o

  unfoldable pub inject_mouse_button : MouseButton → KeyAction → O → Answer O
  inject_mouse_button button action o =
      let (flags, mouse_data) = button_flags c button action in
      send_one (mi (record { dx = pos 0; dy = pos 0; mouse_data = mouse_data; flags = flags })) o

  -- One of the two wheels, when its axis has turned.
  unfoldable pub turn_wheel : Bool → ℤ → ℕ → O → Answer O
  turn_wheel turns delta flags o =
      if turns
      then send_one
          (mi (record { dx = pos 0; dy = pos 0; mouse_data = to_u32 delta; flags = flags })) o
      else (o, ok tt)

  unfoldable pub inject_scroll : ScrollEvent → O → Answer O
  inject_scroll s o =
      and_then (turn_wheel (floats.is_significant s.dy) (floats.neg_wheel s.dy) c.vertical_wheel o)
        (λ o1. turn_wheel (floats.is_significant s.dx) (floats.wheel s.dx) c.horizontal_wheel o1)

  unfoldable pub inject_key : ℕ → KeyAction → O → Answer O
  inject_key keycode action o = send_one (ki (keycode % 2 ^ 16) (key_flags c action)) o

  -- The button of a mouse event, after the move.
  unfoldable pub inject_button : Option (MouseButton × KeyAction) → O → Answer O
  inject_button none o = (o, ok tt)
  inject_button (some (button, action)) o = inject_mouse_button button action o

  unfoldable pub inject_event : InputEvent → O → Answer O
  inject_event (mouse m) o =
      and_then (inject_mouse_move m.x m.y o) (λ o1. inject_button m.button o1)
  inject_event (key k) o = inject_key k.keycode k.action o
  inject_event (scroll s) o = inject_scroll s o

  -- The count, after the match.
  unfoldable pub counted : WindowsInputInjector → Answer O → Answer (WindowsInputInjector × O)
  counted s (o, ok u) = ((record { events_injected = (s.events_injected + 1) % 2 ^ 64 }, o), ok tt)
  counted s (o, err e) = ((s, o), err e)
  counted s (o, panic) = ((s, o), panic)

  unfoldable pub inject : InputEvent → WindowsInputInjector × O → Answer (WindowsInputInjector × O)
  inject event (s, o) = counted s (inject_event event o)
