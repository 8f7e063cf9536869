-- ===== src/Cli/Serve/Stops.antt =====
-- After Ctrl+C the server of main.rs stops, in whatever order its tasks run.
use quicview.Prelude.{suc, ◌+◌, ◌≡◌, ◌⊎◌, List, [], ◌∷◌, length, true}
use quicview.Cli.Serve.{serving, stopped, Server, Event, accepted, ended, interrupted, stops}

module _ {E : Type 0} where
  -- No viewer is accepted, and Ctrl+C is not pressed again.
  abbrev pub IsClosing : List (Event E) → Type 0
  IsClosing [] = Unit
  IsClosing (accepted r ∷ es) = ⊥
  IsClosing (interrupted ∷ es) = ⊥
  IsClosing (ended o ∷ es) = IsClosing es
  IsClosing (stops ∷ es) = IsClosing es

  -- Each step so far ended a session or the loop, and the loop ends last.
  abbrev Closes : Server E → List (Event E) → Server E → Type 0
  Closes s es t =
      ((t.phase ≡ serving)
        × (t.triggered ≡ true)
        × (length es + length t.sessions ≡ length s.sessions))
      ⊎ ((t.phase ≡ stopped) × (length es + length t.sessions ≡ suc (length s.sessions)))
