-- ===== src/App/Metrics/Threads.antt =====
-- The counters of metrics.rs when threads call at the same time: the atomic additions of their calls
-- come in some order, also between the two additions of one call.
use mathlib.Core.Logic.{∥∥₁_elim}
use mathlib.Core.List.{Perm, Permᴰ}
use native.Mathlib.Decide.{ℕ_discrete}
use quicview.Prelude.{
  ℕ, ◌-◌, ◌%◌, ◌^◌, ◌≤◌, ◌<◌, ◌≡◌, refl, ap, ap₂, sym, ◌∙◌, Bool, true, false, ◌==◌, List, [], ◌∷◌,
  ◌++◌, arith,
}
use quicview.App.Metrics.{
  Metrics, new, fetch_add, Call, sends, receives, opens, closes, fails, step, run,
}
use quicview.App.Metrics.Counts.{opened, closed, sent_bytes, run_counts}

pub data Counter : Type 0 where
  sent received bytes_out bytes_in active total errors : Counter

abbrev code : Counter → ℕ
code sent = 0
code received = 1
code bytes_out = 2
code bytes_in = 3
code active = 4
code total = 5
code errors = 6

abbrev pub Addition : Type 0
Addition = Counter × ℕ

abbrev bump : Bool → ℕ → ℕ → ℕ
bump true n x = fetch_add x n
bump false n x = x

-- One atomic addition.
abbrev pub add : Addition → Metrics → Metrics
add (k, n) m = record {
  frames_sent = bump (code k == 0) n m.frames_sent;
  frames_received = bump (code k == 1) n m.frames_received;
  bytes_sent = bump (code k == 2) n m.bytes_sent;
  bytes_received = bump (code k == 3) n m.bytes_received;
  active_connections = bump (code k == 4) n m.active_connections;
  total_connections = bump (code k == 5) n m.total_connections;
  errors = bump (code k == 6) n m.errors;
}

abbrev pub add_all : List Addition → Metrics → Metrics
add_all [] m = m
add_all (u ∷ us) m = add_all us (add u m)

-- The additions of a call; `fetch_sub` of 1 adds 2 ^ 64 - 1.
abbrev pub additions : Call → List Addition
additions (sends b) = (sent, 1) ∷ (bytes_out, b) ∷ []
additions (receives b) = (received, 1) ∷ (bytes_in, b) ∷ []
additions opens = (active, 1) ∷ (total, 1) ∷ []
additions closes = (active, 2 ^ 64 - 1) ∷ []
additions fails = (errors, 1) ∷ []

abbrev pub additions_of : List Call → List Addition
additions_of [] = []
additions_of (c ∷ cs) = additions c ++ additions_of cs

bump_swap : (b d : Bool) (n p x : ℕ) → bump b n (bump d p x) ≡ bump d p (bump b n x)
bump_swap true true n p x = omega arith
bump_swap true false n p x = refl
bump_swap false true n p x = refl
bump_swap false false n p x = refl

add_swap : (u v : Addition) (m : Metrics) → add u (add v m) ≡ add v (add u m)
add_swap (k, n) (l, p) m = λ i. record {
  frames_sent = bump_swap (code k == 0) (code l == 0) n p m.frames_sent i;
  frames_received = bump_swap (code k == 1) (code l == 1) n p m.frames_received i;
  bytes_sent = bump_swap (code k == 2) (code l == 2) n p m.bytes_sent i;
  bytes_received = bump_swap (code k == 3) (code l == 3) n p m.bytes_received i;
  active_connections = bump_swap (code k == 4) (code l == 4) n p m.active_connections i;
  total_connections = bump_swap (code k == 5) (code l == 5) n p m.total_connections i;
  errors = bump_swap (code k == 6) (code l == 6) n p m.errors i;
}

step-additions : (c : Call) (m : Metrics) → step m c ≡ add_all (additions c) m
unfolding step
step-additions (sends b) m = refl
step-additions (receives b) m = refl
step-additions opens m = refl
step-additions closes m = refl
step-additions fails m = refl

add_all-append :
    (us vs : List Addition) (m : Metrics) → add_all (us ++ vs) m ≡ add_all vs (add_all us m)
add_all-append [] vs m = refl
add_all-append (u ∷ us) vs m = add_all-append us vs (add u m)

run-add_all : (cs : List Call) (m : Metrics) → run m cs ≡ add_all (additions_of cs) m
unfolding run
run-add_all [] m = refl
run-add_all (c ∷ cs) m =
    run-add_all cs (step m c)
    ∙ ap (add_all (additions_of cs)) (step-additions c m)
    ∙ sym (add_all-append (additions c) (additions_of cs) m)

add_all-Permᴰ : {us vs : List Addition} → Permᴰ us vs → (m : Metrics) → add_all us m ≡ add_all vs m
add_all-Permᴰ Permᴰ.nil m = refl
add_all-Permᴰ (Permᴰ.cons {l₂ = vs} e p) m =
    add_all-Permᴰ p (add _ m) ∙ ap (λ u. add_all vs (add u m)) e
add_all-Permᴰ (Permᴰ.swap {b = b} {b' = b'} {l = l} e f) m =
    ap (add_all l) (add_swap b _ m ∙ ap₂ (λ u v. add u (add v m)) e f)
add_all-Permᴰ (Permᴰ.trans p q) m = add_all-Permᴰ p m ∙ add_all-Permᴰ q m

Metrics-discrete : Discrete Metrics
Metrics-discrete = hlevel (ℕ_discrete)

add_all-run :
    (cs : List Call) (us : List Addition) (m : Metrics)
    → Perm us (additions_of cs)
    → add_all us m ≡ run m cs
add_all-run cs us m p =
    ∥∥₁_elim p (hlevel (Metrics-discrete)) (λ q. add_all-Permᴰ q m ∙ sym (run-add_all cs m))

-- The calls of any threads on new counters, with the additions of each call made one at a time and
-- in any order among those of the others, leave all the counters as the same calls do one after
-- another. If not more connections were closed than opened, and fewer than 2 ^ 64 opened, those in
-- total and those that are open are as many as there were, also where the last went below 0 for a
-- while; the bytes sent are those of the calls modulo 2 ^ 64.
pub add_all_counts :
    (cs : List Call) (us : List Addition)
    → Perm us (additions_of cs)
    → closed cs ≤ opened cs
    → opened cs < 2 ^ 64
    → (add_all us new ≡ run new cs)
      × ((add_all us new).active_connections ≡ opened cs - closed cs)
      × ((add_all us new).total_connections ≡ opened cs)
      × ((add_all us new).bytes_sent ≡ sent_bytes cs % 2 ^ 64)
add_all_counts cs us p h k =
    let same = add_all-run cs us new p in
    let (a, t, b) = run_counts cs h k in
    (
      same,
      ap (λ (m : Metrics). m.active_connections) same ∙ a,
      ap (λ (m : Metrics). m.total_connections) same ∙ t,
      ap (λ (m : Metrics). m.bytes_sent) same ∙ b,
    )
