-- ===== src/Tests/Sessions.antt =====
-- Authentication, negotiation, power and discovery (crates/quicview-session), and the counters of
-- the application (crates/quicview).
use mathlib.Core.Option
use mathlib.Core.List.{Perm}
use mathlib.Core.List.Perm
use quicview.Prelude.{
  ℕ, ◌-◌, ◌%◌, ◌^◌, ◌≤◌, ◌<◌, ◌≡◌, ◌≢◌, refl, List, [], ◌∷◌, none, some, ok, err, true, arith, ◌↔◌,
}
use quicview.Protocol.Message.{SessionOffer, NegotiateDisplay}
use quicview.Session.Error.{auth_failed}
use quicview.Session.Auth.{PresharedKeyValidator, SessionToken, validate}
use quicview.Session.Auth.Laws.{validate_iff}
use quicview.Session.Negotiation.{
  NegotiationState, offer_received, displays_selected, accepted, Negotiator, Call, offers, selects,
  accepts, rejects, step, run, accept, full_resolution,
}
use quicview.Session.Negotiation
use quicview.Session.Negotiation.Transitions.{Transition, step_iff}
use quicview.Session.Negotiation.Handshake.{IsWithin, accepted_after_handshake}
use quicview.Session.Power.{
  PowerState, PowerManager, active, state, wake, touch, register, tick, not_registered,
  sleeping_displays,
}
use quicview.Session.Power
use quicview.Session.Power.History.{registers, touches, ticks, lives_through, answers, state-run}
use quicview.Session.Power.History
use quicview.App.Metrics.{opens, closes, sends}
use quicview.App.Metrics
use quicview.App.Metrics.Counts.{opened, closed, sent_bytes}
use quicview.App.Metrics.Threads.{
  active, total, bytes_out, Addition, add_all, additions_of, add_all_counts,
}
use quicview.App.Metrics.Threads

abbrev secret : PresharedKeyValidator
secret = record { expected = 115 ∷ 51 ∷ [] }

abbrev guess : SessionToken
guess = record { bytes = 115 ∷ 52 ∷ [] }

validate_iff_example :
    ((validate secret guess ≡ ok tt) ↔ (guess.bytes ≡ secret.expected))
    × ((validate secret guess ≡ err (auth_failed "invalid token"))
        ↔ (guess.bytes ≢ secret.expected))
validate_iff_example = validate_iff secret guess

abbrev host_offer : SessionOffer
host_offer = record {
  host_name = "desk";
  displays = [];
  layout = record { entries = [] };
  max_fps = 60;
  supports_virtual_display = true;
}

abbrev choice : List NegotiateDisplay
choice =
    record {
      display_id = some 0;
      resolution = record { width = 1920; height = 1080 };
      refresh_hz = 60;
    }
    ∷ []

abbrev offered_state : Negotiator
offered_state = record { state = offer_received host_offer }

abbrev chosen_state : Negotiator
chosen_state = record { state = displays_selected choice }

step_iff_example :
    (step offered_state (selects choice) ≡ (chosen_state, true))
    ↔ Transition (offer_received host_offer) (selects choice) (displays_selected choice)
step_iff_example = step_iff offered_state chosen_state (selects choice)

-- A selection that comes too early is refused and changes nothing.
abbrev calls : List Call
calls = selects [] ∷ offers host_offer ∷ accepts ∷ selects choice ∷ accepts ∷ []

all_accepted : (run Negotiation.new calls).state ≡ accepted
unfolding run step Negotiation.new
all_accepted = refl

accepted_after_handshake_example :
    (o : SessionOffer) × (sel : List NegotiateDisplay) × IsWithin
      (offers o ∷ selects sel ∷ accepts ∷ [])
      calls
accepted_after_handshake_example = accepted_after_handshake calls all_accepted

abbrev two_displays : PowerManager
two_displays = register (register (Power.new 1000) 7 0) 8 900

ticked : tick two_displays 1500 ≡ ((tick two_displays 1500).0, 7 ∷ [])
unfolding tick register Power.new
ticked = refl

seven_registered : state two_displays 7 ≢ none
unfolding state register Power.new
seven_registered e = ground arith

abbrev counted : List Metrics.Call
counted = opens ∷ sends 100 ∷ opens ∷ closes ∷ []

two_opened : (closed counted ≡ 1) × (opened counted ≡ 2)
unfolding opened closed
two_opened = (refl, refl)

-- The same calls by two threads: one sends between the two additions of the other's `opens`.
abbrev interleaved : List Addition
interleaved =
    (active, 1)
    ∷ (Threads.sent, 1)
    ∷ (total, 1)
    ∷ (bytes_out, 100)
    ∷ (active, 1)
    ∷ (total, 1)
    ∷ (active, 2 ^ 64 - 1)
    ∷ []

interleaved-Perm : Perm interleaved (additions_of counted)
interleaved-Perm = Perm.cons (active, 1) (Perm.swap (total, 1) (Threads.sent, 1) _)

counted_fits : (closed counted ≤ opened counted) × (opened counted < 2 ^ 64)
counted_fits = omega (arith, two_opened.0, two_opened.1)

add_all_counts_example :
    (add_all interleaved Metrics.new ≡ Metrics.run Metrics.new counted)
    × ((add_all interleaved Metrics.new).active_connections ≡ opened counted - closed counted)
    × ((add_all interleaved Metrics.new).total_connections ≡ opened counted)
    × ((add_all interleaved Metrics.new).bytes_sent ≡ sent_bytes counted % 2 ^ 64)
add_all_counts_example =
    add_all_counts counted interleaved interleaved-Perm counted_fits.0 counted_fits.1

-- Display 7 dozes off and is touched again, while 8 stays asleep.
abbrev dozing : List History.Call
dozing = registers 7 0 ∷ registers 8 0 ∷ ticks 1500 ∷ touches 7 1600 ∷ []

state-run_example :
    (state (History.run (Power.new 1000) dozing) 7
      ≡ Option.map (λ (p : PowerState × ℕ). p.0) (lives_through 1000 7 none dozing))
    × ((wake (History.run (Power.new 1000) dozing) 7 1700).1
        ≡ answers 7 (Option.map (λ (p : PowerState × ℕ). p.0) (lives_through 1000 7 none dozing)))
state-run_example = state-run 1000 dozing 7 1700
