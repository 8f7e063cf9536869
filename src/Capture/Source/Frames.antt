-- ===== src/Capture/Source/Frames.antt =====
-- The frames of the test capture source.
use quicview.Prelude.{ℕ, zero, suc}
use quicview.Capture.Source.{TestCaptureSource, grab}

-- The source after `n` grabs, whatever they answer.
unfoldable pub grabs : ℕ → TestCaptureSource → TestCaptureSource
unfolding grab
grabs zero s = s
grabs (suc n) s = grabs n (grab s).0
