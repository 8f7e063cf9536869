-- ===== src/Protocol/Buf.antt =====
-- The `bytes` crate, which the repository only calls: its buffers as lists of bytes, its `put_*`
-- and `get_*` as parameters with the documented big-endian behaviour, and the reading of a buffer
-- that is consumed from the front. `none` stands for the documented panic on a short buffer.
use quicview.Prelude.{
  ℕ, ◌+◌, ◌*◌, ◌/◌, ◌%◌, ◌^◌, ◌<◌, ◌≡◌, refl, List, [], ◌∷◌, ◌++◌, Option, none, some, arith,
  length, Result, ok, err, panic, IsByte, ap, ap₂, sym, ◌∙◌,
}
use quicview.Prelude.Int.{ℤ, IsI32, to_u32, to_i32, to_u32-to_i32, to_i32-to_u32}
use quicview.Protocol.Error.{ProtocolError}

-- The four bytes of a 32-bit word, the highest first, and the word of four bytes.
abbrev pub be_bytes : ℕ → List ℕ
be_bytes v = (v / 2 ^ 24) ∷ (v / 2 ^ 16 % 256) ∷ (v / 2 ^ 8 % 256) ∷ (v % 256) ∷ []

abbrev pub be_word : ℕ → ℕ → ℕ → ℕ → ℕ
be_word a b c d = a * 2 ^ 24 + b * 2 ^ 16 + c * 2 ^ 8 + d

pub be_word_bytes :
    (v : ℕ) → be_word (v / 2 ^ 24) (v / 2 ^ 16 % 256) (v / 2 ^ 8 % 256) (v % 256) ≡ v
be_word_bytes v = omega arith

pub be_word-lt :
    (a b c d : ℕ) → IsByte a → IsByte b → IsByte c → IsByte d → be_word a b c d < 2 ^ 32
be_word-lt a b c d ha hb hc hd = omega arith

pub be_bytes_word :
    (a b c d : ℕ)
    → IsByte a
    → IsByte b
    → IsByte c
    → IsByte d
    → be_bytes (be_word a b c d) ≡ a ∷ b ∷ c ∷ d ∷ []
be_bytes_word a b c d ha hb hc hd = ground arith

-- Four bytes at the front are a word at the front.
pub word_then :
    (a b c d : ℕ) (xs ys : List ℕ)
    → IsByte a × IsByte b × IsByte c × IsByte d
    → xs ≡ ys
    → a ∷ b ∷ c ∷ d ∷ xs ≡ be_bytes (be_word a b c d) ++ ys
word_then a b c d xs ys (ha, hb, hc, hd) e =
    ap₂ (λ (w t : List ℕ). w ++ t) (sym (be_bytes_word a b c d ha hb hc hd)) e

pub int_then :
    (a b c d : ℕ) (xs ys : List ℕ)
    → IsByte a × IsByte b × IsByte c × IsByte d
    → xs ≡ ys
    → a ∷ b ∷ c ∷ d ∷ xs ≡ be_bytes (to_u32 (to_i32 (be_word a b c d))) ++ ys
int_then a b c d xs ys h e =
    word_then a b c d xs ys h e
    ∙ ap (λ (w : ℕ). be_bytes w ++ ys) (sym (to_u32-to_i32 _ (be_word-lt a b c d h.0 h.1 h.2 h.3)))

-- An `i32` comes back from its bytes.
pub int_bytes :
    (z : ℤ)
    → IsI32 z
    → to_i32 (
        be_word
          (to_u32 z / 2 ^ 24)
          (to_u32 z / 2 ^ 16 % 256)
          (to_u32 z / 2 ^ 8 % 256)
          (to_u32 z % 256))
      ≡ z
int_bytes z h = ap to_i32 (be_word_bytes (to_u32 z)) ∙ to_i32-to_u32 z h

-- An `f32` is its bit pattern.
pub record Buf : Type 0 where
  pub put_u8 : ℕ → List ℕ → List ℕ
  pub put_u16 : ℕ → List ℕ → List ℕ
  pub put_u32 : ℕ → List ℕ → List ℕ
  pub put_i32 : ℤ → List ℕ → List ℕ
  pub put_f32 : ℕ → List ℕ → List ℕ
  pub get_u8 : List ℕ → Option (ℕ × List ℕ)
  pub get_u16 : List ℕ → Option (ℕ × List ℕ)
  pub get_u32 : List ℕ → Option (ℕ × List ℕ)
  pub get_i32 : List ℕ → Option (ℤ × List ℕ)
  pub get_f32 : List ℕ → Option (ℕ × List ℕ)
  pub put_u8_lem : (v : ℕ) (dst : List ℕ) → put_u8 v dst ≡ dst ++ (v ∷ [])
  pub put_u16_lem : (v : ℕ) (dst : List ℕ) → put_u16 v dst ≡ dst ++ ((v / 256) ∷ (v % 256) ∷ [])
  pub put_u32_lem : (v : ℕ) (dst : List ℕ) → put_u32 v dst ≡ dst ++ be_bytes v
  pub put_i32_lem : (z : ℤ) (dst : List ℕ) → put_i32 z dst ≡ dst ++ be_bytes (to_u32 z)
  pub put_f32_lem : (v : ℕ) (dst : List ℕ) → put_f32 v dst ≡ dst ++ be_bytes v
  pub get_u8_lem : (a : ℕ) (src : List ℕ) → get_u8 (a ∷ src) ≡ some (a, src)
  pub get_u16_lem : (a b : ℕ) (src : List ℕ) → get_u16 (a ∷ b ∷ src) ≡ some (a * 256 + b, src)
  pub get_u32_lem :
      (a b c d : ℕ) (src : List ℕ) → get_u32 (a ∷ b ∷ c ∷ d ∷ src) ≡ some (be_word a b c d, src)
  pub get_i32_lem :
      (a b c d : ℕ) (src : List ℕ)
      → get_i32 (a ∷ b ∷ c ∷ d ∷ src) ≡ some (to_i32 (be_word a b c d), src)
  pub get_f32_lem :
      (a b c d : ℕ) (src : List ℕ) → get_f32 (a ∷ b ∷ c ∷ d ∷ src) ≡ some (be_word a b c d, src)
  pub get_u8_short : (src : List ℕ) → length src < 1 → get_u8 src ≡ none
  pub get_u16_short : (src : List ℕ) → length src < 2 → get_u16 src ≡ none
  pub get_u32_short : (src : List ℕ) → length src < 4 → get_u32 src ≡ none
  pub get_i32_short : (src : List ℕ) → length src < 4 → get_i32 src ≡ none
  pub get_f32_short : (src : List ℕ) → length src < 4 → get_f32 src ≡ none

-- A computation that consumes a buffer: its outcome, and what is left of the buffer.
abbrev pub Read : Type 0 → Type 0
Read A = List ℕ → Result ProtocolError A × List ℕ

-- The continuation of a computation that has come to an outcome.
abbrev pub continue :
    {A B : Type 0}
    → Result ProtocolError A × List ℕ
    → (A → Read B)
    → Result ProtocolError B × List ℕ
continue (ok a, rest) f = f a rest
continue (err e, rest) f = (err e, rest)
continue (panic, rest) f = (panic, rest)

infixl 5 ◌>>=◌
abbrev pub ◌>>=◌ : {A B : Type 0} → Read A → (A → Read B) → Read B
◌>>=◌ m f src = continue (m src) f

abbrev pub remaining : Read ℕ
remaining src = (ok (length src), src)

abbrev pub lift : {A : Type 0} → Result ProtocolError A → Read A
lift r src = (r, src)

abbrev pub or_panic : {A : Type 0} → Option (A × List ℕ) → List ℕ → Result ProtocolError A × List ℕ
or_panic none src = (panic, src)
or_panic (some (a, rest)) src = (ok a, rest)

-- One `get_*`.
abbrev pub get : {A : Type 0} → (List ℕ → Option (A × List ℕ)) → Read A
get g src = or_panic (g src) src

-- A concrete buffer, which shows that the laws can be met.
word_or_none : List ℕ → Option (ℕ × List ℕ)
word_or_none (a ∷ b ∷ c ∷ d ∷ src) = some (be_word a b c d, src)
word_or_none _ = none

int_or_none : List ℕ → Option (ℤ × List ℕ)
int_or_none (a ∷ b ∷ c ∷ d ∷ src) = some (to_i32 (be_word a b c d), src)
int_or_none _ = none

half_or_none : List ℕ → Option (ℕ × List ℕ)
half_or_none (a ∷ b ∷ src) = some (a * 256 + b, src)
half_or_none _ = none

byte_or_none : List ℕ → Option (ℕ × List ℕ)
byte_or_none (a ∷ src) = some (a, src)
byte_or_none _ = none

word_short : (src : List ℕ) → length src < 4 → word_or_none src ≡ none
unfolding word_or_none
word_short (a ∷ b ∷ c ∷ d ∷ src) h = absurd (omega arith)
word_short _ h = refl

int_short : (src : List ℕ) → length src < 4 → int_or_none src ≡ none
unfolding int_or_none
int_short (a ∷ b ∷ c ∷ d ∷ src) h = absurd (omega arith)
int_short _ h = refl

half_short : (src : List ℕ) → length src < 2 → half_or_none src ≡ none
unfolding half_or_none
half_short (a ∷ b ∷ src) h = absurd (omega arith)
half_short _ h = refl

byte_short : (src : List ℕ) → length src < 1 → byte_or_none src ≡ none
unfolding byte_or_none
byte_short (a ∷ src) h = absurd (omega arith)
byte_short [] h = refl

unfoldable pub list_buf : Buf
unfolding word_or_none int_or_none half_or_none byte_or_none byte_short half_short word_short
    int_short
list_buf = record {
  put_u8 = λ v dst. dst ++ (v ∷ []);
  put_u16 = λ v dst. dst ++ ((v / 256) ∷ (v % 256) ∷ []);
  put_u32 = λ v dst. dst ++ be_bytes v;
  put_i32 = λ z dst. dst ++ be_bytes (to_u32 z);
  put_f32 = λ v dst. dst ++ be_bytes v;
  get_u8 = byte_or_none;
  get_u16 = half_or_none;
  get_u32 = word_or_none;
  get_i32 = int_or_none;
  get_f32 = word_or_none;
  put_u8_lem = λ v dst. refl;
  put_u16_lem = λ v dst. refl;
  put_u32_lem = λ v dst. refl;
  put_i32_lem = λ z dst. refl;
  put_f32_lem = λ v dst. refl;
  get_u8_lem = λ a src. refl;
  get_u16_lem = λ a b src. refl;
  get_u32_lem = λ a b c d src. refl;
  get_i32_lem = λ a b c d src. refl;
  get_f32_lem = λ a b c d src. refl;
  get_u8_short = byte_short;
  get_u16_short = half_short;
  get_u32_short = word_short;
  get_i32_short = int_short;
  get_f32_short = word_short;
}
