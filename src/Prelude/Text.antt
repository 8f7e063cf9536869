-- ===== src/Prelude/Text.antt =====
-- Messages: texts joined as `format!` joins them, and numbers in decimal.
use Prim.Native.Nat.{ℕ, zero, suc, ◌+◌, ◌/◌, ◌%◌}
use Prim.Native.String.{String, slice, ◌++◌}
use mathlib.Core.List.{List, [], ◌∷◌}
use quicview.Prelude.Tests.{ltb, if◌then◌else◌}

digit : ℕ → String
digit d = slice "0123456789" d (d + 1)

-- One round for each digit; `n + 1` rounds are more than enough.
show_loop : ℕ → ℕ → String
unfolding digit
show_loop zero n = ""
show_loop (suc fuel) n =
    let rest = show_loop fuel (n / 10) in if ltb n 10 then digit n else rest ++ digit (n % 10)

unfoldable pub show : ℕ → String
unfolding show_loop
show n = show_loop (suc n) n

unfoldable pub concat : List String → String
concat [] = ""
concat (s ∷ ss) = s ++ concat ss
