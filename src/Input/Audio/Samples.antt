-- ===== src/Input/Audio/Samples.antt =====
-- The samples that a read returns.
use quicview.Prelude.{ℕ, ◌*◌, ◌-◌, ◌/◌, ◌^◌, ◌<◌, ◌≡◌, refl, ap, ok, err, replicate, arith}
use quicview.Input.Error.{injection_failed}
use quicview.Input.Audio.{SilentAudioCapture, start, stop, read_samples, silence}
use native.Mathlib.Nat.{mod-eq_of_lt, mul-le-mul}

-- A product of factors that fit stays below the product of their bounds.
read_fits : (rate channels : ℕ) → rate < 2 ^ 32 → channels < 2 ^ 16 → rate / 100 * channels < 2 ^ 64
read_fits rate channels h k = omega (
  arith,
  mul-le-mul {n₁ = rate / 100} {m₁ = channels} {n₂ = 2 ^ 32 - 1} {m₂ = 2 ^ 16 - 1} (omega arith)
      (omega arith),
)

-- Reading after `start` gives a hundredth of a second of silence for every channel, which no `u32`
-- rate and `u16` number of channels makes wrap; reading after `stop` fails.
pub read_samples-start-stop :
    (s : SilentAudioCapture)
    → s.sample_rate < 2 ^ 32
    → s.channels < 2 ^ 16
    → (read_samples (start s).0 ≡ ok (replicate (s.sample_rate / 100 * s.channels) silence))
      × (read_samples (stop s).0 ≡ err (injection_failed "audio capture not started"))
unfolding read_samples start stop
read_samples-start-stop s h k = (
  ap (λ (n : ℕ). ok (replicate n silence))
      (mod-eq_of_lt (read_fits (s.sample_rate) (s.channels) h k)),
  refl,
)
