-- ===== src/Session/Negotiation/Handshake.antt =====
-- What a history of calls must hold for the negotiator to be where it is.
use quicview.Prelude.{◌≡◌, refl, ap, ◌∙◌, List, [], ◌∷◌, String}
use quicview.Protocol.Message.{SessionOffer, NegotiateDisplay}
use quicview.Session.Negotiation.{
  NegotiationState, awaiting_offer, offer_received, displays_selected, accepted, rejected,
  Negotiator, new, Call, offers, selects, accepts, rejects, step, run,
}

-- The calls of the first list stand in the second in this order, with others between them.
pub data IsWithin : List Call → List Call → Type 0 where
  done : (cs : List Call) → IsWithin [] cs
  skip : {ps cs : List Call} (c : Call) → IsWithin ps cs → IsWithin ps (c ∷ cs)
  take : {ps cs : List Call} (c : Call) → IsWithin ps cs → IsWithin (c ∷ ps) (c ∷ cs)

-- What is left to happen before the negotiation is accepted.
abbrev Remaining : NegotiationState → List Call → Type 0
Remaining awaiting_offer cs =
    (o : SessionOffer) × (sel : List NegotiateDisplay) × IsWithin
      (offers o ∷ selects sel ∷ accepts ∷ []) cs
Remaining (offer_received o) cs =
    (sel : List NegotiateDisplay) × IsWithin (selects sel ∷ accepts ∷ []) cs
Remaining (displays_selected sel) cs = IsWithin (accepts ∷ []) cs
Remaining accepted cs = Unit {0}
Remaining (rejected reason) cs = ⊥

remaining :
    (s : NegotiationState) (cs : List Call)
    → (run (record { state = s }) cs).state ≡ accepted
    → Remaining s cs
unfolding run step
remaining awaiting_offer [] e = cc
remaining awaiting_offer (offers o ∷ cs) e =
    let (sel, w) = remaining (offer_received o) cs e in (o, sel, take (offers o) w)
remaining awaiting_offer (selects s ∷ cs) e =
    let (o, sel, w) = remaining awaiting_offer cs e in (o, sel, skip (selects s) w)
remaining awaiting_offer (accepts ∷ cs) e =
    let (o, sel, w) = remaining awaiting_offer cs e in (o, sel, skip accepts w)
remaining awaiting_offer (rejects reason ∷ cs) e = absurd (remaining (rejected reason) cs e)
remaining (offer_received o) [] e = cc
remaining (offer_received o) (offers o' ∷ cs) e =
    let (sel, w) = remaining (offer_received o) cs e in (sel, skip (offers o') w)
remaining (offer_received o) (selects s ∷ cs) e =
    (s, take (selects s) (remaining (displays_selected s) cs e))
remaining (offer_received o) (accepts ∷ cs) e =
    let (sel, w) = remaining (offer_received o) cs e in (sel, skip accepts w)
remaining (offer_received o) (rejects reason ∷ cs) e = absurd (remaining (rejected reason) cs e)
remaining (displays_selected sel) [] e = cc
remaining (displays_selected sel) (offers o ∷ cs) e =
    skip (offers o) (remaining (displays_selected sel) cs e)
remaining (displays_selected sel) (selects s ∷ cs) e =
    skip (selects s) (remaining (displays_selected sel) cs e)
remaining (displays_selected sel) (accepts ∷ cs) e = take accepts (done cs)
remaining (displays_selected sel) (rejects reason ∷ cs) e =
    absurd (remaining (rejected reason) cs e)
remaining accepted cs e = tt
remaining (rejected reason) [] e = cc
remaining (rejected reason) (offers o ∷ cs) e = remaining (rejected reason) cs e
remaining (rejected reason) (selects s ∷ cs) e = remaining (rejected reason) cs e
remaining (rejected reason) (accepts ∷ cs) e = remaining (rejected reason) cs e
remaining (rejected reason) (rejects r ∷ cs) e = remaining (rejected r) cs e

-- If a new negotiator is accepted after some calls, then an offer, a selection and an acceptance
-- stand among those calls, in that order.
pub accepted_after_handshake :
    (cs : List Call)
    → (run new cs).state ≡ accepted
    → (o : SessionOffer) × (sel : List NegotiateDisplay) × IsWithin
        (offers o ∷ selects sel ∷ accepts ∷ [])
        cs
unfolding new
accepted_after_handshake cs e = remaining awaiting_offer cs e

rejected_stays_at :
    (reason : String) (cs : List Call)
    → (reason' : String) × ((run (record { state = rejected reason }) cs).state ≡ rejected reason')
unfolding run step
rejected_stays_at reason [] = (reason, refl)
rejected_stays_at reason (offers o ∷ cs) = rejected_stays_at reason cs
rejected_stays_at reason (selects s ∷ cs) = rejected_stays_at reason cs
rejected_stays_at reason (accepts ∷ cs) = rejected_stays_at reason cs
rejected_stays_at reason (rejects r ∷ cs) = rejected_stays_at r cs

-- A rejected negotiation stays rejected through any further ones; only the
-- reason can be another.
pub rejected_stays :
    (n : Negotiator) (reason : String) (cs : List Call)
    → n.state ≡ rejected reason
    → (reason' : String) × ((run n cs).state ≡ rejected reason')
rejected_stays n reason cs e =
    let (reason', h) = rejected_stays_at reason cs in
    (reason', ap (λ (s : NegotiationState). (run (record { state = s }) cs).state) e ∙ h)
