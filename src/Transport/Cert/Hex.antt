-- ===== src/Transport/Cert/Hex.antt =====
-- The text of a fingerprint names the fingerprint.
use Prim.Native.Char.{Char, code}
use quicview.Prelude.{
  ℕ, zero, suc, ◌+◌, ◌-◌, ◌*◌, ◌/◌, ◌%◌, ◌<◌, ◌≡◌, refl, ap, ap₂, String, List, [], ◌∷◌, IsByte,
  IsBytes, length, ltb, arith, if◌then◌else◌,
}
use quicview.Transport.Cert.{hex_digits, digit_at, to_hex}

-- The number of characters.
abbrev pub chars : String → ℕ
chars String.[] = 0
chars (String.◌∷◌ c s) = suc (chars s)

-- The value of a digit, and a reader of what `to_hex` writes.
abbrev pub value : Char → ℕ
value c = if ltb (code c) 58 then code c - 48 else code c - 87

abbrev pub from_hex : String → List ℕ
from_hex String.[] = []
from_hex (String.◌∷◌ c String.[]) = []
from_hex (String.◌∷◌ c (String.◌∷◌ d String.[])) = (value c * 16 + value d) ∷ []
from_hex (String.◌∷◌ c (String.◌∷◌ d (String.◌∷◌ e s))) = (value c * 16 + value d) ∷ from_hex s

-- The digits from a position on have the values from there on.
abbrev Matches : List Char → ℕ → Type 0
Matches [] n = Unit {0}
Matches (c ∷ cs) n = (value c ≡ n) × Matches cs (suc n)

value-digit_at :
    (cs : List Char) (n d : ℕ) → Matches cs n → d < length cs → value (digit_at cs d) ≡ n + d
value-digit_at [] n d h l = absurd (omega arith)
value-digit_at (c ∷ cs) n zero h l = omega (arith, h.0)
value-digit_at (c ∷ cs) n (suc d) h l = omega (arith, value-digit_at cs (suc n) d h.1 (omega arith))

hex_value : (d : ℕ) → d < 16 → value (digit_at hex_digits d) ≡ d
hex_value d h = omega (arith, value-digit_at hex_digits 0 d (omega arith) h)

byte_value :
    (b : ℕ)
    → IsByte b
    → value (digit_at hex_digits (b / 16)) * 16 + value (digit_at hex_digits (b % 16)) ≡ b
byte_value b h = omega (arith, hex_value (b / 16) (omega arith), hex_value (b % 16) (omega arith))

-- The text of at least one byte has two digits for each byte and a colon between two, so 95
-- characters for the 32 bytes of a fingerprint; and the bytes are read back from it, so different
-- fingerprints have different texts.
pub to_hex-from_hex :
    (b : ℕ) (bs : List ℕ)
    → IsBytes (b ∷ bs)
    → (from_hex (to_hex (b ∷ bs)) ≡ b ∷ bs) × (chars (to_hex (b ∷ bs)) ≡ 2 + 3 * length bs)
unfolding to_hex
to_hex-from_hex b [] h = (ap (λ v. v ∷ []) (byte_value b h.0), refl)
to_hex-from_hex b (c ∷ bs) h =
    let (back, size) = to_hex-from_hex c bs h.1 in
    (ap₂ (λ (v : ℕ) (vs : List ℕ). v ∷ vs) (byte_value b h.0) back, omega (arith, size))
