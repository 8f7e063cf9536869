-- ===== src/Protocol/Input/Wire.antt =====
-- The bytes of input events, and what each decoder answers on them.
use mathlib.Core.List.{append_assoc}
use quicview.Prelude.{
  ℕ, ◌<◌, ◌≤◌, ◌≡◌, refl, Option, none, some, List, [], ◌∷◌, ◌++◌, arith, length, ok, err, ◌==◌,
  if◌then◌else◌,
}
use quicview.Prelude.Int.{to_u32, to_i32}
use quicview.Protocol.Error.{ProtocolError, decode_error}
use quicview.Protocol.Buf.{Buf, be_bytes, be_word}
use quicview.Protocol.Input.{
  MouseButton, left, right, middle, back, forward, KeyAction, press, release, InputEvent, mouse,
  key, scroll, button_byte, key_action_to_u8, encode, decode_button, decode_mouse, decode_key,
  decode_scroll, decode_tagged, decode_some, decode, mouse_fields, key_fields, scroll_fields,
  tag_mouse, tag_key, tag_scroll,
}

-- An event's bytes. A release is sent as 0, and any byte but 1 is read as one.
abbrev pub wire_bytes : InputEvent → ℕ → List ℕ → List ℕ
wire_bytes (mouse m) a rest =
    tag_mouse ∷ (be_bytes (to_u32 m.x) ++ (be_bytes (to_u32 m.y) ++ (button_byte m.button ∷ rest)))
wire_bytes (key k) a rest = tag_key ∷ (be_bytes k.keycode ++ (a ∷ k.modifiers ∷ rest))
wire_bytes (scroll s) a rest = tag_scroll ∷ (be_bytes s.dx ++ (be_bytes s.dy ++ rest))

-- The action byte that `encode` writes; it is used for key events only.
abbrev pub sent_action : InputEvent → ℕ
sent_action (key k) = key_action_to_u8 k.action
sent_action _ = 0

-- The action that a byte is read as.
abbrev pub read_action : ℕ → KeyAction
read_action a = if a == 1 then press else release

module _ (buf : Buf) where
  pub encode_lem :
      (ev : InputEvent) (dst : List ℕ)
      → encode buf ev dst ≡ dst ++ wire_bytes ev (sent_action ev) []
  unfolding encode
  encode_lem (mouse m) dst = simp (buf.put_u8_lem, buf.put_i32_lem, append_assoc)
  encode_lem (key k) dst = simp (buf.put_u8_lem, buf.put_u32_lem, append_assoc)
  encode_lem (scroll s) dst = simp (buf.put_u8_lem, buf.put_f32_lem, append_assoc)

  pub button_round_trip :
      (b : Option (MouseButton × KeyAction)) (src : List ℕ)
      → decode_button buf (button_byte b) src ≡ (ok b, src)
  unfolding decode_button button_byte
  button_round_trip none src = refl
  button_round_trip (some (left, press)) src = refl
  button_round_trip (some (left, release)) src = refl
  button_round_trip (some (right, press)) src = refl
  button_round_trip (some (right, release)) src = refl
  button_round_trip (some (middle, press)) src = refl
  button_round_trip (some (middle, release)) src = refl
  button_round_trip (some (back, press)) src = refl
  button_round_trip (some (back, release)) src = refl
  button_round_trip (some (forward, press)) src = refl
  button_round_trip (some (forward, release)) src = refl

  pub mouse_fields_bytes :
      (a b c d a' b' c' d' k : ℕ) (button : Option (MouseButton × KeyAction)) (rest : List ℕ)
      → decode_button buf k rest ≡ (ok button, rest)
      → mouse_fields buf (a ∷ b ∷ c ∷ d ∷ a' ∷ b' ∷ c' ∷ d' ∷ k ∷ rest) ≡ (
        ok (
            mouse (record {
              x = to_i32 (be_word a b c d);
              y = to_i32 (be_word a' b' c' d');
              button = button;
            })),
        rest,
      )
  unfolding mouse_fields
  mouse_fields_bytes a b c d a' b' c' d' k button rest e = simp (buf.get_i32_lem, buf.get_u8_lem, e)

  pub mouse_fields_bad :
      (a b c d a' b' c' d' k : ℕ) (e : ProtocolError) (rest : List ℕ)
      → decode_button buf k rest ≡ (err e, rest)
      → mouse_fields buf (a ∷ b ∷ c ∷ d ∷ a' ∷ b' ∷ c' ∷ d' ∷ k ∷ rest) ≡ (err e, rest)
  unfolding mouse_fields
  mouse_fields_bad a b c d a' b' c' d' k e rest h = simp (buf.get_i32_lem, buf.get_u8_lem, h)

  pub key_fields_bytes :
      (a b c d k m : ℕ) (rest : List ℕ)
      → key_fields buf (a ∷ b ∷ c ∷ d ∷ k ∷ m ∷ rest) ≡ (
        ok (key (record { keycode = be_word a b c d; action = read_action k; modifiers = m })),
        rest,
      )
  unfolding key_fields
  key_fields_bytes a b c d k m rest = simp (buf.get_u32_lem, buf.get_u8_lem)

  pub scroll_fields_bytes :
      (a b c d a' b' c' d' : ℕ) (rest : List ℕ)
      → scroll_fields buf (a ∷ b ∷ c ∷ d ∷ a' ∷ b' ∷ c' ∷ d' ∷ rest)
        ≡ (ok (scroll (record { dx = be_word a b c d; dy = be_word a' b' c' d' })), rest)
  unfolding scroll_fields
  scroll_fields_bytes a b c d a' b' c' d' rest = simp buf.get_f32_lem

  -- The length checks.
  pub decode_mouse_long :
      (src : List ℕ) → 9 ≤ length src → decode_mouse buf src ≡ mouse_fields buf src
  unfolding decode_mouse
  decode_mouse_long src h = ground arith

  pub decode_mouse_short :
      (src : List ℕ)
      → length src < 9
      → decode_mouse buf src ≡ (err (decode_error "truncated mouse event"), src)
  unfolding decode_mouse
  decode_mouse_short src h = ground arith

  pub decode_key_long : (src : List ℕ) → 6 ≤ length src → decode_key buf src ≡ key_fields buf src
  unfolding decode_key
  decode_key_long src h = ground arith

  pub decode_key_short :
      (src : List ℕ)
      → length src < 6
      → decode_key buf src ≡ (err (decode_error "truncated key event"), src)
  unfolding decode_key
  decode_key_short src h = ground arith

  pub decode_scroll_long :
      (src : List ℕ) → 8 ≤ length src → decode_scroll buf src ≡ scroll_fields buf src
  unfolding decode_scroll
  decode_scroll_long src h = ground arith

  pub decode_scroll_short :
      (src : List ℕ)
      → length src < 8
      → decode_scroll buf src ≡ (err (decode_error "truncated scroll event"), src)
  unfolding decode_scroll
  decode_scroll_short src h = ground arith

  pub decode_tag : (tag : ℕ) (src : List ℕ) → decode buf (tag ∷ src) ≡ decode_tagged buf tag src
  unfolding decode decode_some
  decode_tag tag src = ground (arith, buf.get_u8_lem tag src)

  pub decode_empty : decode buf [] ≡ (err (decode_error "empty input event"), [])
  unfolding decode
  decode_empty = refl
