-- ===== src/Input/Forwarder/Receiver.antt =====
-- The receiver of a forwarder in forwarder.rs is handed out once.
use quicview.Prelude.{ℕ, zero, suc, ◌+◌, ◌≡◌, ◌≤◌, refl, Option, none, some, arith}
use quicview.Input.Forwarder.{Mpsc, InputForwarder, take_receiver}

module _ {O R : Type 0} (mpsc : Mpsc O R) where
  abbrev is_taken : Option R → ℕ
  is_taken none = 0
  is_taken (some r) = 1

  is_taken_le : (o : Option R) → is_taken o ≤ 1
  is_taken_le none = omega arith
  is_taken_le (some r) = omega arith

  -- How many of so many calls hand out a receiver.
  abbrev takes : ℕ → InputForwarder R → ℕ
  takes zero f = 0
  takes (suc n) f = let (f1, r) = take_receiver mpsc f in is_taken r + takes n f1

  taken_before : (n : ℕ) → takes n (record { rx = none }) ≡ 0
  unfolding take_receiver
  taken_before zero = refl
  taken_before (suc n) = omega (arith, taken_before n)

  -- However often it is asked, a forwarder hands out its receiver at most once.
  takes-take_receiver : (n : ℕ) (f : InputForwarder R) → takes n f ≤ 1
  unfolding take_receiver
  takes-take_receiver zero f = omega arith
  takes-take_receiver (suc n) f = omega (arith, taken_before n, is_taken_le f.rx)
