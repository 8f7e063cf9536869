-- ===== src/Protocol/Input/Answers.antt =====
-- What `decode` answers on every buffer of bytes.
use quicview.Prelude.{
  ℕ, zero, suc, ◌+◌, ◌%◌, ◌≤◌, ◌≡◌, refl, ◌⊎◌, inl, inr, ap, Option, none, some, List, [], ◌∷◌,
  arith, length, Result, ok, err, panic, ◌==◌, ==_iff, true, false, bit_and, IsByte, IsBytes,
  Bool-cases,
}
use quicview.Prelude.Bits.{bit_and_low_seven, bit_and_top}
use quicview.Prelude.Int.{to_i32-IsI32}
use quicview.Protocol.Error.{ProtocolError}
use quicview.Protocol.Buf.{Buf, word_then, int_then}
use quicview.Protocol.Input.{
  MouseButton, left, right, middle, back, forward, KeyAction, press, release, InputEvent, IsEvent,
  button_to_u8, action_bit, button_byte, button_from_u8, decode_button, decode_tagged, decode,
  decode_mouse, decode_key, decode_scroll,
}
use quicview.Protocol.Input.Wire
use quicview.Protocol.Input.RoundTrip.{IsAction}

button_cases :
    (b : ℕ)
    → ((btn : MouseButton) × (button_from_u8 b ≡ ok btn) × (b ≡ button_to_u8 btn))
      ⊎ ((e : ProtocolError) × (button_from_u8 b ≡ err e))
unfolding button_from_u8 button_to_u8
button_cases zero = inl (left, refl, refl)
button_cases (suc zero) = inl (right, refl, refl)
button_cases (suc (suc zero)) = inl (middle, refl, refl)
button_cases (suc (suc (suc zero))) = inl (back, refl, refl)
button_cases (suc (suc (suc (suc zero)))) = inl (forward, refl, refl)
button_cases (suc (suc (suc (suc (suc b))))) = inr (_, refl)

-- The button byte is a sum, since the button has no top bit.
button_byte_sum :
    (btn : MouseButton) (action : KeyAction)
    → button_byte (some (btn, action)) ≡ button_to_u8 btn + action_bit action
unfolding button_byte
button_byte_sum left press = refl
button_byte_sum left release = refl
button_byte_sum right press = refl
button_byte_sum right release = refl
button_byte_sum middle press = refl
button_byte_sum middle release = refl
button_byte_sum back press = refl
button_byte_sum back release = refl
button_byte_sum forward press = refl
button_byte_sum forward release = refl

no_button : (k : ℕ) → (k == 0xFF) ≡ true → k ≡ button_byte none
unfolding button_byte
no_button k e = ground arith

button_up :
    (k : ℕ) (btn : MouseButton)
    → IsByte k
    → k % 128 ≡ button_to_u8 btn
    → (bit_and k 0x80 == 0) ≡ true
    → k ≡ button_byte (some (btn, release))
unfolding action_bit
button_up k btn h e up =
    omega (arith, button_byte_sum btn release, bit_and_top k h, (==_iff (bit_and k 0x80) 0).0 up)

button_down :
    (k : ℕ) (btn : MouseButton)
    → IsByte k
    → k % 128 ≡ button_to_u8 btn
    → (bit_and k 0x80 == 0) ≡ false
    → k ≡ button_byte (some (btn, press))
unfolding action_bit
button_down k btn h e down = ground (arith, button_byte_sum btn press, bit_and_top k h)

module _ (buf : Buf) where
  decode_button_cases :
      (k : ℕ) (src : List ℕ)
      → IsByte k
      → ((b : Option (MouseButton × KeyAction)) × (decode_button buf k src ≡ (ok b, src))
          × (k ≡ button_byte b))
        ⊎ ((e : ProtocolError) × (decode_button buf k src ≡ (err e, src)))
  unfolding decode_button
  decode_button_cases k src h = elim (Bool-cases (k == 0xFF)) [
    | inl is_none ↦ inl (none, rw is_none, no_button k is_none)
    | inr other ↦ elim (button_cases (k % 128)) [
      | inr (e, bad) ↦ inr (e, rw (other, bit_and_low_seven k h, bad))
      | inl (btn, good, ek) ↦ elim (Bool-cases (bit_and k 0x80 == 0)) [
        | inl up ↦ inl (
          some (btn, release),
          rw (other, bit_and_low_seven k h, good, up),
          button_up k btn h ek up,
        )
        | inr down ↦ inl (
          some (btn, press),
          rw (other, bit_and_low_seven k h, good, down),
          button_down k btn h ek down,
        )
      ]
    ]
  ]

-- What a result of `decode` says of the buffer it came from.
abbrev pub Explains : List ℕ → Result ProtocolError InputEvent × List ℕ → Type 0
Explains src (ok ev, rest) =
    (a : ℕ) × (src ≡ Wire.wire_bytes ev a rest) × IsEvent ev × IsAction ev a
Explains src (err e, rest) = length rest ≤ length src
Explains src (panic, rest) = ⊥

module _ (buf : Buf) where
  mouse-Explains : (src : List ℕ) → IsBytes src → Explains (0 ∷ src) (decode_mouse buf src)
  mouse-Explains (a ∷ b ∷ c ∷ d ∷ a' ∷ b' ∷ c' ∷ d' ∷ k ∷ rest) bytes =
      rw (Wire.decode_mouse_long buf (a ∷ b ∷ c ∷ d ∷ a' ∷ b' ∷ c' ∷ d' ∷ k ∷ rest) (omega arith))
        (elim (decode_button_cases buf k rest (omega arith)) [
          | inr (e, bad) ↦
              rw (Wire.mouse_fields_bad buf a b c d a' b' c' d' k e rest bad) (omega arith)
          | inl (button, good, ek) ↦
              rw (Wire.mouse_fields_bytes buf a b c d a' b' c' d' k button rest good) (
                0,
                ap (λ (t : List ℕ). 0 ∷ t)
                    (int_then a b c d _ _ (omega arith)
                      (int_then a' b' c' d' _ _ (omega arith) (ap (λ (t : ℕ). t ∷ rest) ek))),
                (to_i32-IsI32 _ (omega arith), to_i32-IsI32 _ (omega arith)),
                tt,
              )
        ])
  mouse-Explains src bytes = rw (Wire.decode_mouse_short buf src (omega arith)) (omega arith)

  key-Explains : (src : List ℕ) → IsBytes src → Explains (1 ∷ src) (decode_key buf src)
  key-Explains (a ∷ b ∷ c ∷ d ∷ k ∷ m ∷ rest) bytes =
      rw
        (
          Wire.decode_key_long buf (a ∷ b ∷ c ∷ d ∷ k ∷ m ∷ rest) (omega arith),
          Wire.key_fields_bytes buf a b c d k m rest,
        )
        (
          k,
          ap (λ (t : List ℕ). 1 ∷ t) (word_then a b c d _ _ (omega arith) refl),
          (omega arith, omega arith),
          refl,
        )
  key-Explains src bytes = rw (Wire.decode_key_short buf src (omega arith)) (omega arith)

  scroll-Explains : (src : List ℕ) → IsBytes src → Explains (2 ∷ src) (decode_scroll buf src)
  scroll-Explains (a ∷ b ∷ c ∷ d ∷ a' ∷ b' ∷ c' ∷ d' ∷ rest) bytes =
      rw
        (
          Wire.decode_scroll_long buf (a ∷ b ∷ c ∷ d ∷ a' ∷ b' ∷ c' ∷ d' ∷ rest) (omega arith),
          Wire.scroll_fields_bytes buf a b c d a' b' c' d' rest,
        )
        (
          0,
          ap (λ (t : List ℕ). 2 ∷ t)
              (word_then a b c d _ _ (omega arith)
                (word_then a' b' c' d' rest rest (omega arith) refl)),
          (omega arith, omega arith),
          tt,
        )
  scroll-Explains src bytes = rw (Wire.decode_scroll_short buf src (omega arith)) (omega arith)

  tagged-Explains :
      (tag : ℕ) (src : List ℕ) → IsBytes src → Explains (tag ∷ src) (decode_tagged buf tag src)
  unfolding decode_tagged
  tagged-Explains zero src bytes = mouse-Explains src bytes
  tagged-Explains (suc zero) src bytes = key-Explains src bytes
  tagged-Explains (suc (suc zero)) src bytes = scroll-Explains src bytes
  tagged-Explains (suc (suc (suc tag))) src bytes = omega arith

  -- On a buffer of bytes, `decode` never panics; an accepted event has its numbers in range, and the
  -- buffer was that event's bytes before what is left, with an action byte that is 1 exactly for a
  -- press; a refusal leaves no more than there was.
  pub decode-Explains_event : (src : List ℕ) → IsBytes src → Explains src (decode buf src)
  decode-Explains_event [] bytes = rw (Wire.decode_empty buf) (omega arith)
  decode-Explains_event (tag ∷ src) bytes =
      rw (Wire.decode_tag buf tag src) (tagged-Explains tag src bytes.1)
