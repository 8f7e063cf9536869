-- ===== src/Session/Auth/Laws.antt =====
-- The comparison that looks at every byte decides equality.
use quicview.Prelude.{
  ℕ, bit_xor, bit_or, ◌≡◌, ◌≢◌, refl, ap₂, ◌↔◌, List, [], ◌∷◌, true, ok, err, length, arith,
}
use quicview.Prelude.Bits.{bit_xor_self, bit_xor-eq-zero, bit_or-eq-zero}
use quicview.Session.Error.{auth_failed}
use quicview.Session.Auth.{
  SessionToken, PresharedKeyValidator, diff_loop, constant_time_eq, validate,
}

diff_loop_zero :
    (d : ℕ) (xs ys : List ℕ) → length xs ≡ length ys → diff_loop d xs ys ≡ 0 → (d ≡ 0) × (xs ≡ ys)
unfolding diff_loop
diff_loop_zero d [] [] h e = (e, refl)
diff_loop_zero d [] (y ∷ ys) h e = absurd (omega arith)
diff_loop_zero d (x ∷ xs) [] h e = absurd (omega arith)
diff_loop_zero d (x ∷ xs) (y ∷ ys) h e =
    let (z, same) = diff_loop_zero (bit_or d (bit_xor x y)) xs ys (omega arith) e in
    let parts = bit_or-eq-zero d (bit_xor x y) z in
    (parts.0, ap₂ ◌∷◌ (bit_xor-eq-zero x y parts.1) same)

diff_loop_self : (xs : List ℕ) → diff_loop 0 xs xs ≡ 0
unfolding diff_loop
diff_loop_self [] = refl
diff_loop_self (x ∷ xs) = rw (bit_xor_self x) (diff_loop_self xs)

-- The comparison says yes exactly to equal byte strings.
pub constant_time_eq_iff : (a b : List ℕ) → (constant_time_eq a b ≡ true) ↔ (a ≡ b)
unfolding constant_time_eq
constant_time_eq_iff a b = (
  λ e. (diff_loop_zero 0 a b (ground arith) (ground arith)).1,
  λ e. rw e (ground (arith, diff_loop_self b)),
)

-- A pre-shared key validator accepts exactly the token that is the key, and answers every other
-- token with the error of a failed authentication.
pub validate_iff :
    (v : PresharedKeyValidator) (token : SessionToken)
    → ((validate v token ≡ ok tt) ↔ (token.bytes ≡ v.expected))
      × ((validate v token ≡ err (auth_failed "invalid token")) ↔ (token.bytes ≢ v.expected))
unfolding validate
validate_iff v token = ground (arith, constant_time_eq_iff token.bytes v.expected)
