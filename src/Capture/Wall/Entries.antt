-- ===== src/Capture/Wall/Entries.antt =====
-- The clients' list after an insertion and a removal, and what a lookup finds in it.
use quicview.Prelude.{
  ◌≡◌, refl, sym, ◌≢◌, inl, inr, Option, none, some, List, [], ◌∷◌, arith, ◌==◌, Bool-cases, All,
}
use quicview.Capture.Wall.{SocketAddr, WallClient, insert, remove, lookup}

-- No two clients have one display.
abbrev pub Separate : List WallClient → Type 0
Separate [] = Unit {0}
Separate (c ∷ cs) = All (λ (x : WallClient). x.display_id ≢ c.display_id) cs × Separate cs

pub insert-All {κ} :
    (P : WallClient → Type κ) (c : WallClient) (xs : List WallClient)
    → P c
    → All P xs
    → All P (insert c xs)
unfolding insert
insert-All P c [] p h = (p, tt)
insert-All P c (x ∷ xs) p h = elim (Bool-cases (x.addr == c.addr)) [
  | inl hit ↦ rw hit (p, h.1)
  | inr miss ↦ rw miss (h.0, insert-All P c xs p h.1)
]

pub remove-All {κ} :
    (P : WallClient → Type κ) (a : SocketAddr) (xs : List WallClient)
    → All P xs
    → All P (remove a xs)
unfolding remove
remove-All P a [] h = tt
remove-All P a (x ∷ xs) h = elim (Bool-cases (x.addr == a)) [
  | inl hit ↦ rw hit (remove-All P a xs h.1)
  | inr miss ↦ rw miss (h.0, remove-All P a xs h.1)
]

abbrev pub IfFound {κ} : (WallClient → Type κ) → Option WallClient → Type κ
IfFound P none = Unit
IfFound P (some c) = P c

pub lookup-All {κ} :
    (P : WallClient → Type κ) (a : SocketAddr) (xs : List WallClient)
    → All P xs
    → IfFound P (lookup a xs)
unfolding lookup
lookup-All P a [] h = tt
lookup-All P a (x ∷ xs) h = elim (Bool-cases (x.addr == a)) [
  | inl hit ↦ rw hit h.0
  | inr miss ↦ rw miss (lookup-All P a xs h.1)
]

pub insert-Separate :
    (c : WallClient) (xs : List WallClient)
    → All (λ (x : WallClient). x.display_id ≢ c.display_id) xs
    → Separate xs
    → Separate (insert c xs)
unfolding insert
insert-Separate c [] f h = (tt, tt)
insert-Separate c (x ∷ xs) f h = elim (Bool-cases (x.addr == c.addr)) [
  | inl hit ↦ rw hit (f.1, h.1)
  | inr miss ↦ rw miss (insert-All _ c xs (λ e. f.0 (sym e)) h.0, insert-Separate c xs f.1 h.1)
]

pub remove-Separate : (a : SocketAddr) (xs : List WallClient) → Separate xs → Separate (remove a xs)
unfolding remove
remove-Separate a [] h = tt
remove-Separate a (x ∷ xs) h = elim (Bool-cases (x.addr == a)) [
  | inl hit ↦ rw hit (remove-Separate a xs h.1)
  | inr miss ↦ rw miss (remove-All _ a xs h.0, remove-Separate a xs h.1)
]

-- None of the clients has the display of the given one.
abbrev pub Freed : List WallClient → WallClient → Type 0
Freed xs c = All (λ (x : WallClient). x.display_id ≢ c.display_id) xs

IfFound-map {κ ρ} :
    (P : WallClient → Type κ) (Q : WallClient → Type ρ) (Z : WallClient → Type ρ)
    → ((c : WallClient) → P c → Q c → Z c)
    → (o : Option WallClient) → IfFound P o
    → IfFound Q o
    → IfFound Z o
IfFound-map P Q Z f none p q = tt
IfFound-map P Q Z f (some c) p q = f c p q

pub lookup-Freed :
    (a : SocketAddr) (xs : List WallClient)
    → Separate xs
    → IfFound (Freed (remove a xs)) (lookup a xs)
unfolding lookup remove
lookup-Freed a [] h = tt
lookup-Freed a (x ∷ xs) h = elim (Bool-cases (x.addr == a)) [
  | inl hit ↦ rw hit (remove-All _ a xs h.0)
  | inr miss ↦ rw miss (
      IfFound-map _ _ _ (λ c p q. (λ e. p (sym e), q)) (lookup a xs) (lookup-All _ a xs h.0)
        (lookup-Freed a xs h.1))
]

pub lookup-insert : (c : WallClient) (xs : List WallClient) → lookup c.addr (insert c xs) ≡ some c
unfolding lookup insert
lookup-insert c [] = ground arith
lookup-insert c (x ∷ xs) = ground (arith, lookup-insert c xs)

pub lookup-remove : (a : SocketAddr) (xs : List WallClient) → lookup a (remove a xs) ≡ none
unfolding lookup remove
lookup-remove a [] = refl
lookup-remove a (x ∷ xs) = ground (arith, lookup-remove a xs)
