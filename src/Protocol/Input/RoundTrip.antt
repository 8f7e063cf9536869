-- ===== src/Protocol/Input/RoundTrip.antt =====
-- Encoding and decoding input events: the round trip, and what `decode` answers on every buffer.
use quicview.Prelude.{ℕ, ◌≡◌, refl, ap₂, ◌∙◌, List, [], ◌++◌, arith, ok}
use quicview.Prelude.Int.{ℤ}
use quicview.Protocol.Buf.{Buf, be_word_bytes, int_bytes}
use quicview.Protocol.Input.{
  KeyAction, InputEvent, mouse, key, scroll, IsEvent, key_action_to_u8, encode, decode_tagged,
  decode,
}
use quicview.Protocol.Input.Wire

-- The action byte belongs to the event: only the byte 1 is a press.
abbrev pub IsAction : InputEvent → ℕ → Type 0
IsAction (key k) a = Wire.read_action a ≡ k.action
IsAction _ a = Unit {0}

sent_action-IsAction : (ev : InputEvent) → IsAction ev (Wire.sent_action ev)
unfolding key_action_to_u8
sent_action-IsAction (mouse m) = tt
sent_action-IsAction (key k) = ground arith
sent_action-IsAction (scroll s) = tt

wire_bytes-append :
    (ev : InputEvent) (a : ℕ) (rest : List ℕ)
    → Wire.wire_bytes ev a [] ++ rest ≡ Wire.wire_bytes ev a rest
wire_bytes-append (mouse m) a rest = refl
wire_bytes-append (key k) a rest = refl
wire_bytes-append (scroll s) a rest = refl

module _ (buf : Buf) where
  decode-wire_bytes :
      (ev : InputEvent) (a : ℕ) (rest : List ℕ)
      → IsEvent ev
      → IsAction ev a
      → decode buf (Wire.wire_bytes ev a rest) ≡ (ok ev, rest)
  unfolding decode_tagged
  decode-wire_bytes (mouse m) a rest v h =
      Wire.decode_tag buf 0 _
      ∙ Wire.decode_mouse_long buf _ (omega arith)
      ∙ Wire.mouse_fields_bytes buf _ _ _ _ _ _ _ _ _ m.button rest
          (Wire.button_round_trip buf m.button rest)
      ∙ ap₂ (λ (x y : ℤ). (ok (mouse (record { x = x; y = y; button = m.button })), rest))
          (int_bytes m.x v.0) (int_bytes m.y v.1)
  decode-wire_bytes (key k) a rest v h =
      Wire.decode_tag buf 1 _
      ∙ Wire.decode_key_long buf _ (omega arith)
      ∙ Wire.key_fields_bytes buf _ _ _ _ a k.modifiers rest
      ∙ ap₂
          (λ (c : ℕ) (act : KeyAction).
            (ok (key (record { keycode = c; action = act; modifiers = k.modifiers })), rest))
          (be_word_bytes k.keycode) h
  decode-wire_bytes (scroll s) a rest v h =
      Wire.decode_tag buf 2 _
      ∙ Wire.decode_scroll_long buf _ (omega arith)
      ∙ Wire.scroll_fields_bytes buf _ _ _ _ _ _ _ _ rest
      ∙ ap₂ (λ (x y : ℕ). (ok (scroll (record { dx = x; dy = y })), rest)) (be_word_bytes s.dx)
          (be_word_bytes s.dy)

  -- An event whose numbers are in range, encoded onto an empty buffer and read back with any bytes
  -- behind it, is decoded to itself, and those bytes are left.
  pub decode-encode_event :
      (ev : InputEvent) (rest : List ℕ)
      → IsEvent ev
      → decode buf (encode buf ev [] ++ rest) ≡ (ok ev, rest)
  decode-encode_event ev rest v =
      rw (Wire.encode_lem buf ev [], wire_bytes-append ev (Wire.sent_action ev) rest)
        (decode-wire_bytes ev _ rest v (sent_action-IsAction ev))
