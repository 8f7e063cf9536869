-- ===== src/Session/Negotiation/Transitions.antt =====
-- The machine against the transitions that its comments name.
use quicview.Prelude.{◌≡◌, refl, ◌↔◌, List, true, false, String, ok, arith, ap}
use quicview.Protocol.Message.{SessionOffer, NegotiateDisplay}
use quicview.Session.Negotiation.{
  NegotiationState, awaiting_offer, offer_received, displays_selected, accepted, rejected,
  Negotiator, Call, offers, selects, accepts, rejects, step, accept,
}

-- AwaitingOffer to OfferReceived, OfferReceived to DisplaysSelected, DisplaysSelected to Accepted,
-- and any state to Rejected.
pub data Transition (s : NegotiationState) (c : Call) (t : NegotiationState) : Type 0 where
  offered :
      (o : SessionOffer)
      → s ≡ awaiting_offer
      → c ≡ offers o
      → t ≡ offer_received o
      → Transition s c t
  selected :
      (o : SessionOffer) (sel : List NegotiateDisplay)
      → s ≡ offer_received o
      → c ≡ selects sel
      → t ≡ displays_selected sel
      → Transition s c t
  agreed :
      (sel : List NegotiateDisplay)
      → s ≡ displays_selected sel
      → c ≡ accepts
      → t ≡ accepted
      → Transition s c t
  refused : (reason : String) → c ≡ rejects reason → t ≡ rejected reason → Transition s c t

state_of :
    (s t : NegotiationState)
    → ◌≡◌ {A = Negotiator} (record { state = s }) (record { state = t })
    → s ≡ t
state_of s t e = ap (λ (n : Negotiator). n.state) e

step_sound :
    (s t : NegotiationState) (c : Call)
    → step (record { state = s }) c ≡ (record { state = t }, true)
    → Transition s c t
unfolding step
step_sound awaiting_offer t (offers o) e = offered o refl refl (ground arith)
step_sound (offer_received o) t (selects sel) e = selected o sel refl refl (ground arith)
step_sound (displays_selected sel) t accepts e = agreed sel refl refl (ground arith)
step_sound s t (rejects reason) e = refused reason refl (ground arith)
step_sound _ t c e = cc

step_complete :
    (s t : NegotiationState) (c : Call)
    → Transition s c t
    → step (record { state = s }) c ≡ (record { state = t }, true)
unfolding step
step_complete s t c (offered o es ec et) = ground arith
step_complete s t c (selected o sel es ec et) = ground arith
step_complete s t c (agreed sel es ec et) = ground arith
step_complete s t c (refused reason ec et) = ground arith

-- A call returns `Ok` with a new state exactly when the machine has that transition.
pub step_iff : (n m : Negotiator) (c : Call) → (step n c ≡ (m, true)) ↔ Transition n.state c m.state
step_iff n m c = (step_sound n.state m.state c, step_complete n.state m.state c)

step_error_at :
    (s : NegotiationState) (c : Call)
    → (step (record { state = s }) c).1 ≡ false
    → (step (record { state = s }) c).0 ≡ record { state = s }
unfolding step
step_error_at awaiting_offer (offers o) e = cc
step_error_at (offer_received o) (selects sel) e = cc
step_error_at (displays_selected sel) accepts e = cc
step_error_at s (rejects reason) e = cc
step_error_at _ c e = refl

-- A call that returns an error leaves the state as it was.
pub step_error : (n : Negotiator) (c : Call) → (step n c).1 ≡ false → (step n c).0 ≡ n
step_error n c e = step_error_at n.state c e

-- `accept` returns a selection exactly when that selection is waiting to be accepted.
accept_iff :
    (n : Negotiator) (sel : List NegotiateDisplay)
    → ((accept n).1 ≡ ok sel) ↔ (n.state ≡ displays_selected sel)
unfolding accept
accept_iff n sel = ground arith
