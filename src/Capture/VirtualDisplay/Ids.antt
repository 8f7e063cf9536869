-- ===== src/Capture/VirtualDisplay/Ids.antt =====
-- Which ids the stub's displays have, and what each operation answers.
use quicview.Prelude.{
  ℕ, ◌+◌, ◌^◌, ◌≤◌, ◌<◌, ◌≡◌, refl, ◌⊎◌, inl, inr, Option, none, some, List, [], ◌∷◌, ◌++◌, Bool,
  true, false, not, arith, ok, err, length, ◌==◌, if◌then◌else◌, Bool-cases, All, All-append,
  All-map,
}
use quicview.Protocol.Display.{DisplayId, Resolution}
use quicview.Capture.Error.{display_not_found}
use quicview.Capture.VirtualDisplay.{
  Entry, StubVirtualDisplay, create, resize_first, resize, retain_others, destroy,
}

unfoldable pub find : DisplayId → List Entry → Option Entry
find d [] = none
find d (e ∷ es) = if e.id == d then some e else find d es

abbrev pub is_found : Option Entry → Bool
is_found none = false
is_found (some e) = true

find-append :
    (d : DisplayId) (es : List Entry) (e : Entry)
    → find d (es ++ e ∷ [])
      ≡ (if is_found (find d es) then find d es else (if e.id == d then some e else none))
unfolding find
find-append d [] e = refl
find-append d (x ∷ xs) e = ground (arith, find-append d xs e)

pub find-retain_others :
    (d j : DisplayId) (es : List Entry)
    → find j (retain_others d es) ≡ (if d == j then none else find j es)
unfolding find retain_others
find-retain_others d j [] = ground arith
find-retain_others d j (e ∷ es) = ground (arith, find-retain_others d j es)

-- The ids are below the next one.
abbrev pub AllBelow : ℕ → List Entry → Type 0
AllBelow n = All (λ (e : Entry). e.id < n)

below_absent : (n : ℕ) (es : List Entry) → AllBelow n es → find n es ≡ none
unfolding find
below_absent n [] h = refl
below_absent n (e ∷ es) h = ground (arith, h.0, below_absent n es h.1)

-- A display made while the next id does not wrap has an id that no display had, it is found under
-- that id afterwards, every other id stays as it was, and the ids stay below the next one.
pub create-AllBelow :
    (s : StubVirtualDisplay) (r : Resolution) (hz : ℕ) (j : DisplayId)
    → s.next_id + 1 < 2 ^ 32
    → AllBelow s.next_id s.displays
    → (find s.next_id s.displays ≡ none)
      × (find j (create s r hz).0.displays ≡ (
          if s.next_id == j
          then some (record { id = s.next_id; resolution = r; refresh_hz = hz })
          else find j s.displays))
      × AllBelow (create s r hz).0.next_id (create s r hz).0.displays
unfolding create find
create-AllBelow s r hz j fits below = (
  below_absent _ s.displays below,
  ground (
    arith,
    find-append j s.displays (record { id = s.next_id; resolution = r; refresh_hz = hz }),
    below_absent _ s.displays below,
  ),
  All-append _ s.displays _
      (All-map _ _ s.displays (λ (e : Entry) (h : e.id < s.next_id). omega arith) below)
      (omega arith, tt),
)

retain_others-AllBelow :
    (n : ℕ) (d : DisplayId) (es : List Entry) → AllBelow n es → AllBelow n (retain_others d es)
unfolding retain_others
retain_others-AllBelow n d [] h = tt
retain_others-AllBelow n d (e ∷ es) h = elim (Bool-cases (e.id == d)) [
  | inl hit ↦ rw hit (retain_others-AllBelow n d es h.1)
  | inr miss ↦ rw miss (h.0, retain_others-AllBelow n d es h.1)
]

pub destroy-AllBelow :
    (s : StubVirtualDisplay) (d : DisplayId)
    → AllBelow s.next_id s.displays
    → AllBelow (destroy s d).0.next_id (destroy s d).0.displays
unfolding destroy
destroy-AllBelow s d h = retain_others-AllBelow s.next_id d s.displays h

length-retain_others : (d : DisplayId) (es : List Entry) → length (retain_others d es) ≤ length es
unfolding retain_others
length-retain_others d [] = omega arith
length-retain_others d (e ∷ es) = ground (arith, length-retain_others d es)

retain_others_same :
    (d : DisplayId) (es : List Entry)
    → (length (retain_others d es) == length es) ≡ not (is_found (find d es))
unfolding find retain_others
retain_others_same d [] = refl
retain_others_same d (e ∷ es) = ground (arith, retain_others_same d es, length-retain_others d es)

-- `destroy` fails exactly if no display has the id; afterwards none has it, and every other id is
-- as it was.
pub destroy_lem :
    (s : StubVirtualDisplay) (d j : DisplayId)
    → ((destroy s d).1
        ≡ (if is_found (find d s.displays) then ok tt else err (display_not_found d)))
      × (find j (destroy s d).0.displays ≡ (if d == j then none else find j s.displays))
unfolding destroy
destroy_lem s d j =
    (ground (arith, retain_others_same d s.displays), find-retain_others d j s.displays)

find-resize_first :
    (d : DisplayId) (r : Resolution) (j : DisplayId) (es : List Entry)
    → ((find d es ≡ none) × (resize_first d r es ≡ none))
      ⊎ ((e : Entry) × (es' : List Entry) × (find d es ≡ some e)
          × (resize_first d r es ≡ some es')
          × (find j es' ≡ (if d == j then some (record e { resolution = r }) else find j es)))
unfolding resize_first find
find-resize_first d r j [] = inl (refl, refl)
find-resize_first d r j (e ∷ es) = elim (Bool-cases (e.id == d)) [
  | inl hit ↦
      inr (
        e,
        record e { resolution = r } ∷ es,
        rw hit refl,
        rw (hit, resize_first) refl,
        ground arith,
      )
  | inr miss ↦ elim (find-resize_first d r j es) [
    | inl (absent, e0) ↦ inl (rw miss absent, rw (miss, resize_first, e0) refl)
    | inr (x, es', found, e1, law) ↦
        inr (x, e ∷ es', rw miss found, rw (miss, resize_first, e1) refl, ground arith)
  ]
]

-- `resize` fails exactly if no display has the id, with nothing changed; otherwise the display that
-- has the id has the new resolution and its old refresh rate, and every other id is as it was.
pub resize_lem :
    (s : StubVirtualDisplay) (d : DisplayId) (r : Resolution) (j : DisplayId)
    → ((find d s.displays ≡ none) × (resize s d r ≡ (s, err (display_not_found d))))
      ⊎ ((e : Entry) × (find d s.displays ≡ some e)
          × ((resize s d r).1 ≡ ok tt)
          × (find j (resize s d r).0.displays
              ≡ (if d == j then some (record e { resolution = r }) else find j s.displays)))
unfolding resize
resize_lem s d r j = elim (find-resize_first d r j s.displays) [
  | inl (absent, e0) ↦ inl (absent, rw (e0, resize) refl)
  | inr (e, es', found, e1, law) ↦ inr (e, found, rw (e1, resize) refl, rw (e1, resize) law)
]
