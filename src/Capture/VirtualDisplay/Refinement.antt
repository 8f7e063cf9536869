-- ===== src/Capture/VirtualDisplay/Refinement.antt =====
-- The virtual displays of virtual_display.rs as a map from ids to displays.
use quicview.Prelude.{
  ℕ, ◌+◌, ◌^◌, ◌≤◌, ◌<◌, ◌≡◌, refl, ap, ap₂, sym, ◌∙◌, inl, inr, Option, none, some, List, [], ◌∷◌,
  arith, ok, err, length, ◌==◌, if◌then◌else◌, Bool-cases, Option-cases,
}
use mathlib.Core.Path.{subst}
use quicview.Protocol.Display.{DisplayId, Resolution}
use quicview.Capture.Error.{display_not_found}
use quicview.Capture.VirtualDisplay.{
  Entry, StubVirtualDisplay, new, create, resize_first, resize, destroy,
}
use quicview.Capture.VirtualDisplay.Ids.{
  find, is_found, AllBelow, create-AllBelow, destroy-AllBelow, destroy_lem, resize_lem,
}
use quicview.Capture.VirtualDisplay.Map.{
  Call, creates, resizes, destroys, Answer, done, step, run, Displays, no_displays, resized,
  map_step, map_run,
}

abbrev Represents : StubVirtualDisplay → Displays → Type 0
Represents s m =
    (s.next_id ≡ m.next)
    × AllBelow s.next_id s.displays
    × ((j : DisplayId) → find j s.displays ≡ m.shown j)

abbrev AllBelowIn : ℕ → Option (List Entry) → Type 0
AllBelowIn n none = Unit {0}
AllBelowIn n (some es) = AllBelow n es

below_cons :
    (n : ℕ) (e : Entry) (o : Option (List Entry))
    → e.id < n
    → AllBelowIn n o
    → AllBelowIn n (elim o [ none ↦ none | some es ↦ some (e ∷ es) ])
below_cons n e none h k = tt
below_cons n e (some es) h k = (h, k)

resize_first-AllBelow :
    (n : ℕ) (d : DisplayId) (r : Resolution) (es : List Entry)
    → AllBelow n es
    → AllBelowIn n (resize_first d r es)
unfolding resize_first
resize_first-AllBelow n d r [] h = tt
resize_first-AllBelow n d r (e ∷ es) h = elim (Bool-cases (e.id == d)) [
  | inl hit ↦ rw (hit, resize_first) h
  | inr miss ↦
      rw (miss, resize_first)
        (below_cons n e (resize_first d r es) h.0 (resize_first-AllBelow n d r es h.1))
]

resize-AllBelow :
    (s : StubVirtualDisplay) (d : DisplayId) (r : Resolution)
    → AllBelow s.next_id s.displays
    → AllBelow (resize s d r).0.next_id (resize s d r).0.displays
unfolding resize
resize-AllBelow s d r h = elim (Option-cases (resize_first d r s.displays)) [
  | inl e ↦ rw (e, resize) h
  | inr (es, e) ↦
      rw (e, resize)
        (subst (AllBelowIn s.next_id) e (resize_first-AllBelow s.next_id d r s.displays h))
]

next_of_destroy : (s : StubVirtualDisplay) (d : DisplayId) → (destroy s d).0.next_id ≡ s.next_id
unfolding destroy
next_of_destroy s d = refl

next_of_resize :
    (s : StubVirtualDisplay) (d : DisplayId) (r : Resolution) → (resize s d r).0.next_id ≡ s.next_id
unfolding resize
next_of_resize s d r = elim (Option-cases (resize_first d r s.displays)) [
  | inl e ↦ rw (e, resize) refl
  | inr (es, e) ↦ rw (e, resize) refl
]

abbrev Agree : StubVirtualDisplay × Answer → Displays × Answer → Type 0
Agree (s, a) (m, b) = (a ≡ b) × Represents s m

create-Represents :
    (s : StubVirtualDisplay) (m : Displays) (r : Resolution) (hz : ℕ)
    → s.next_id + 1 < 2 ^ 32
    → Represents s m
    → Agree (create s r hz) (map_step m (creates r hz))
unfolding create
create-Represents s m r hz fits (n, below, shown) =
    let made = create-AllBelow s r hz 0 fits below in
    (
      ap ok n,
      (
        omega arith,
        made.2,
        λ j.
            (create-AllBelow s r hz j fits below).1
            ∙ ap₂
                (λ (x : DisplayId) (e : Option Entry).
                  if x == j then some (record { id = x; resolution = r; refresh_hz = hz }) else e)
                n (shown j),
      ),
    )

done_found :
    (d : DisplayId) (o : Option Entry)
    → done (if is_found o then ok tt else err (display_not_found d))
      ≡ (if is_found o then ok 0 else err (display_not_found d))
done_found d none = refl
done_found d (some e) = refl

abbrev with_resolution : Resolution → Option Entry → Option Entry
with_resolution r none = none
with_resolution r (some e) = some (record e { resolution = r })

destroy-Represents :
    (s : StubVirtualDisplay) (m : Displays) (d : DisplayId)
    → Represents s m
    → Agree ((destroy s d).0, done (destroy s d).1) (map_step m (destroys d))
destroy-Represents s m d (n, below, shown) = (
  ap done (destroy_lem s d 0).0
      ∙ done_found d (find d s.displays)
      ∙ ap (λ o. if is_found o then ok 0 else err (display_not_found d)) (shown d),
  (
    next_of_destroy s d ∙ n,
    destroy-AllBelow s d below,
    λ j. (destroy_lem s d j).1 ∙ ap (λ e. if d == j then none else e) (shown j),
  ),
)

resize-Represents :
    (s : StubVirtualDisplay) (m : Displays) (d : DisplayId) (r : Resolution)
    → Represents s m
    → Agree ((resize s d r).0, done (resize s d r).1) (map_step m (resizes d r))
resize-Represents s m d r (n, below, shown) = elim (resize_lem s d r 0) [
  | inl (absent, same) ↦ rw (sym (shown d) ∙ absent, same) (refl, (n, below, shown))
  | inr (e, found, answers, changed) ↦ rw (sym (shown d) ∙ found) (
    ap done answers,
    (
      next_of_resize s d r ∙ n,
      resize-AllBelow s d r below,
      λ j. elim (resize_lem s d r j) [
        | inl (absent, same) ↦ ground arith
        | inr (e1, found1, answers1, changed1) ↦
            changed1
            ∙ ap₂ (λ (o f : Option Entry). if d == j then o else f)
                (ap (with_resolution r) (sym found1 ∙ found)) (shown j)
      ],
    ),
  )
]

step-Represents :
    (s : StubVirtualDisplay) (m : Displays) (c : Call)
    → s.next_id + 1 < 2 ^ 32
    → Represents s m
    → Agree (step s c) (map_step m c)
unfolding step
step-Represents s m (creates r hz) fits h = create-Represents s m r hz fits h
step-Represents s m (resizes d r) fits h = resize-Represents s m d r h
step-Represents s m (destroys d) fits h = destroy-Represents s m d h

next_of_resized :
    (m : Displays) (d : DisplayId) (r : Resolution) (o : Option Entry)
    → (resized m d r o).0.next ≤ m.next + 1
next_of_resized m d r none = omega arith
next_of_resized m d r (some e) = omega arith

next_of_map_step : (m : Displays) (c : Call) → (map_step m c).0.next ≤ m.next + 1
next_of_map_step m (creates r hz) = omega arith
next_of_map_step m (resizes d r) = next_of_resized m d r (m.shown d)
next_of_map_step m (destroys d) = omega arith

run-Represents :
    (s : StubVirtualDisplay) (m : Displays) (cs : List Call)
    → s.next_id + length cs < 2 ^ 32
    → Represents s m
    → ((run s cs).1 ≡ (map_run m cs).1) × Represents (run s cs).0 (map_run m cs).0
unfolding run
run-Represents s m [] fits h = (refl, h)
run-Represents s m (c ∷ cs) fits h =
    let (a, h1) = step-Represents s m c (omega arith) h in
    let (as1, h2) =
      run-Represents (step s c).0 (map_step m c).0 cs
        (omega (arith, h1.0, h.0, next_of_map_step m c)) h1 in
    (ap₂ (λ (x : Answer) (xs : List Answer). x ∷ xs) a as1, h2)

-- The stub is a map from ids to displays. After any calls of `create`, `resize` and `destroy` from a
-- new stub, fewer than the ids that are left, every call has answered what the map answers (`create`
-- a fresh id, counted from 100; the others an error exactly when the id is not there), and looking up
-- an id in the stub's entries is looking it up in the map.
pub run-map_run :
    (cs : List Call) (j : DisplayId)
    → 100 + length cs < 2 ^ 32
    → ((run new cs).1 ≡ (map_run no_displays cs).1)
      × (find j (run new cs).0.displays ≡ (map_run no_displays cs).0.shown j)
unfolding new find
run-map_run cs j fits =
    let (answers, h) = run-Represents new no_displays cs fits (refl, tt, λ j. refl) in
    (answers, h.2 j)
