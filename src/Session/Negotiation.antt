-- ===== src/Session/Negotiation.antt =====
-- crates/quicview-session/src/negotiation.rs: the negotiation state machine.
pub mod Transitions
pub mod Handshake
use quicview.Prelude.{List, [], ◌∷◌, some, Bool, true, false, String, Result, ok, err, panic}
use quicview.Protocol.Display.{DisplayId, Resolution}
use quicview.Protocol.Message.{SessionOffer, NegotiateDisplay}
use quicview.Session.Error.{SessionError, negotiation_failed}

pub data NegotiationState : Type 0 where
  awaiting_offer : NegotiationState
  offer_received : SessionOffer → NegotiationState
  displays_selected : List NegotiateDisplay → NegotiationState
  accepted : NegotiationState
  rejected : String → NegotiationState

pub record Negotiator : Type 0 where
  pub state : NegotiationState

unfoldable pub new : Negotiator
new = record { state = awaiting_offer }

unfoldable pub receive_offer :
    Negotiator → SessionOffer → Negotiator × Result SessionError (Unit {0})
receive_offer n offer = elim n.state [
  | awaiting_offer ↦ (record { state = offer_received offer }, ok tt)
  | _ ↦ (n, err (negotiation_failed "unexpected offer in current state"))
]

unfoldable pub select_displays :
    Negotiator → List NegotiateDisplay → Negotiator × Result SessionError (Unit {0})
select_displays n selections = elim n.state [
  | offer_received offer ↦ (record { state = displays_selected selections }, ok tt)
  | _ ↦ (n, err (negotiation_failed "must receive offer before selecting displays"))
]

-- `mem::replace` puts `Accepted` in first, and the old state is put back on failure.
unfoldable pub accept : Negotiator → Negotiator × Result SessionError (List NegotiateDisplay)
accept n = elim n.state [
  | displays_selected sel ↦ (record { state = accepted }, ok sel)
  | other ↦ (record { state = other }, err (negotiation_failed "nothing to accept"))
]

unfoldable pub reject : Negotiator → String → Negotiator
reject n reason = record { state = rejected reason }

unfoldable pub full_resolution : DisplayId → Resolution → NegotiateDisplay
full_resolution display_id resolution = record {
  display_id = some display_id;
  resolution = resolution;
  refresh_hz = 60;
}

-- The calls that drive a negotiator.
pub data Call : Type 0 where
  offers : SessionOffer → Call
  selects : List NegotiateDisplay → Call
  accepts : Call
  rejects : String → Call

abbrev is_ok : {A : Type 0} → Result SessionError A → Bool
is_ok (ok a) = true
is_ok (err e) = false
is_ok panic = false

-- The negotiator after a call, and whether the call returned `Ok`.
unfoldable pub step : Negotiator → Call → Negotiator × Bool
unfolding receive_offer select_displays accept reject
step n (offers offer) = let (n', r) = receive_offer n offer in (n', is_ok r)
step n (selects sel) = let (n', r) = select_displays n sel in (n', is_ok r)
step n accepts = let (n', r) = accept n in (n', is_ok r)
step n (rejects reason) = (reject n reason, true)

unfoldable pub run : Negotiator → List Call → Negotiator
run n [] = n
run n (c ∷ cs) = run (step n c).0 cs
