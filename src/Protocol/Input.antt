-- ===== src/Protocol/Input.antt =====
-- crates/quicview-protocol/src/input.rs: input events and their binary form. An `f32` is its bit
-- pattern, as in `Buf`.
pub mod Wire
pub mod RoundTrip
pub mod Answers
use quicview.Prelude.{
  ℕ, zero, suc, ◌^◌, ◌<◌, Option, none, some, List, [], ◌∷◌, Result, ok, err, bit_and, bit_or, ltb,
  ◌==◌, if◌then◌else◌, not, IsByte,
}
use quicview.Prelude.Int.{ℤ, IsI32}
use quicview.Protocol.Error.{ProtocolError, unknown_input_event, decode_error}
use quicview.Protocol.Buf.{Buf, Read, ◌>>=◌, remaining, lift, get}

pub data MouseButton : Type 0 where
  left right middle back forward : MouseButton

pub data KeyAction : Type 0 where
  press release : KeyAction

pub record MouseEvent : Type 0 where
  pub x : ℤ
  pub y : ℤ
  pub button : Option (MouseButton × KeyAction)

pub record KeyEvent : Type 0 where
  pub keycode : ℕ
  pub action : KeyAction
  pub modifiers : ℕ

pub record ScrollEvent : Type 0 where
  pub dx : ℕ
  pub dy : ℕ

pub data InputEvent : Type 0 where
  mouse : MouseEvent → InputEvent
  key : KeyEvent → InputEvent
  scroll : ScrollEvent → InputEvent

abbrev pub tag_mouse : ℕ
tag_mouse = 0

abbrev pub tag_key : ℕ
tag_key = 1

abbrev pub tag_scroll : ℕ
tag_scroll = 2

-- The machine ranges of an event's numbers.
abbrev pub IsEvent : InputEvent → Type 0
IsEvent (mouse m) = IsI32 m.x × IsI32 m.y
IsEvent (key k) = (k.keycode < 2 ^ 32) × IsByte k.modifiers
IsEvent (scroll s) = (s.dx < 2 ^ 32) × (s.dy < 2 ^ 32)

unfoldable pub button_to_u8 : MouseButton → ℕ
button_to_u8 left = 0
button_to_u8 right = 1
button_to_u8 middle = 2
button_to_u8 back = 3
button_to_u8 forward = 4

unfoldable pub action_bit : KeyAction → ℕ
action_bit press = 0x80
action_bit release = 0x00

unfoldable pub button_byte : Option (MouseButton × KeyAction) → ℕ
unfolding button_to_u8 action_bit
button_byte none = 0xFF
button_byte (some (btn, action)) = bit_or (button_to_u8 btn) (action_bit action)

unfoldable pub key_action_to_u8 : KeyAction → ℕ
key_action_to_u8 press = 1
key_action_to_u8 release = 0

-- The match on the low seven bits.
unfoldable pub button_from_u8 : ℕ → Result ProtocolError MouseButton
button_from_u8 zero = ok left
button_from_u8 (suc zero) = ok right
button_from_u8 (suc (suc zero)) = ok middle
button_from_u8 (suc (suc (suc zero))) = ok back
button_from_u8 (suc (suc (suc (suc zero)))) = ok forward
button_from_u8 (suc (suc (suc (suc (suc v))))) =
    err (unknown_input_event (suc (suc (suc (suc (suc v))))))

module _ (buf : Buf) where
  open buf use {put_u8, put_u32, put_i32, put_f32, get_u8, get_u32, get_i32, get_f32}

  unfoldable pub encode : InputEvent → List ℕ → List ℕ
  unfolding button_byte key_action_to_u8
  encode (mouse m) dst =
      let dst1 = put_u8 tag_mouse dst in
      let dst2 = put_i32 m.x dst1 in
      let dst3 = put_i32 m.y dst2 in put_u8 (button_byte m.button) dst3
  encode (key k) dst =
      let dst1 = put_u8 tag_key dst in
      let dst2 = put_u32 k.keycode dst1 in
      let dst3 = put_u8 (key_action_to_u8 k.action) dst2 in put_u8 k.modifiers dst3
  encode (scroll s) dst =
      let dst1 = put_u8 tag_scroll dst in let dst2 = put_f32 s.dx dst1 in put_f32 s.dy dst2

  -- The button byte of a mouse event.
  unfoldable pub decode_button : ℕ → Read (Option (MouseButton × KeyAction))
  unfolding button_from_u8
  decode_button b = if b == 0xFF then lift (ok none) else do
    btn ← lift (button_from_u8 (bit_and b 0x7F))
    lift (ok (some (btn, (if not (bit_and b 0x80 == 0) then press else release))))

  -- What follows the length check.
  unfoldable pub mouse_fields : Read InputEvent
  unfolding decode_button
  mouse_fields = do
    x ← get get_i32
    y ← get get_i32
    b ← get get_u8
    button ← decode_button b
    lift (ok (mouse (record { x = x; y = y; button = button })))

  unfoldable pub decode_mouse : Read InputEvent
  unfolding mouse_fields
  decode_mouse = do
    size ← remaining
    if ltb size 9 then lift (err (decode_error "truncated mouse event")) else mouse_fields

  -- What follows the length check.
  unfoldable pub key_fields : Read InputEvent
  key_fields = do
    keycode ← get get_u32
    a ← get get_u8
    modifiers ← get get_u8
    lift (
        ok (
          key (record {
            keycode = keycode;
            action = if a == 1 then press else release;
            modifiers = modifiers;
          })))

  unfoldable pub decode_key : Read InputEvent
  unfolding key_fields
  decode_key = do
    size ← remaining
    if ltb size 6 then lift (err (decode_error "truncated key event")) else key_fields

  -- What follows the length check.
  unfoldable pub scroll_fields : Read InputEvent
  scroll_fields = do
    dx ← get get_f32
    dy ← get get_f32
    lift (ok (scroll (record { dx = dx; dy = dy })))

  unfoldable pub decode_scroll : Read InputEvent
  unfolding scroll_fields
  decode_scroll = do
    size ← remaining
    if ltb size 8 then lift (err (decode_error "truncated scroll event")) else scroll_fields

  -- The match on the tag.
  unfoldable pub decode_tagged : ℕ → Read InputEvent
  unfolding decode_mouse decode_key decode_scroll
  decode_tagged zero = decode_mouse
  decode_tagged (suc zero) = decode_key
  decode_tagged (suc (suc zero)) = decode_scroll
  decode_tagged (suc (suc (suc other))) = lift (err (unknown_input_event (suc (suc (suc other)))))

  -- What follows the check for an empty buffer.
  unfoldable pub decode_some : Read InputEvent
  unfolding decode_tagged
  decode_some = do tag ← get get_u8; decode_tagged tag

  unfoldable pub decode : Read InputEvent
  unfolding decode_some
  decode = do
    size ← remaining
    if size == 0 then lift (err (decode_error "empty input event")) else decode_some
