-- ===== src/Session/Auth.antt =====
-- crates/quicview-session/src/auth.rs: tokens, validators, the constant-time comparison.
pub mod Laws
use quicview.Prelude.{
  ℕ, bit_xor, bit_or, List, [], ◌∷◌, Bool, true, false, Result, ok, err, length, ◌==◌, not,
  if◌then◌else◌,
}
use quicview.Session.Error.{SessionError, auth_failed}

-- `SessionToken(Vec<u8>)`.
pub record SessionToken : Type 0 where
  pub bytes : List ℕ

pub record PresharedKeyValidator : Type 0 where
  pub expected : List ℕ

-- `diff |= x ^ y` over the zipped bytes.
unfoldable pub diff_loop : ℕ → List ℕ → List ℕ → ℕ
diff_loop diff [] ys = diff
diff_loop diff (x ∷ xs) [] = diff
diff_loop diff (x ∷ xs) (y ∷ ys) = diff_loop (bit_or diff (bit_xor x y)) xs ys

unfoldable pub constant_time_eq : List ℕ → List ℕ → Bool
unfolding diff_loop
constant_time_eq a b = if not (length a == length b) then false else diff_loop 0 a b == 0

-- `AcceptAll`.
unfoldable pub accept_all : SessionToken → Result SessionError (Unit {0})
accept_all token = ok tt

unfoldable pub validate : PresharedKeyValidator → SessionToken → Result SessionError (Unit {0})
unfolding constant_time_eq
validate v token =
    if constant_time_eq token.bytes v.expected then ok tt else err (auth_failed "invalid token")
