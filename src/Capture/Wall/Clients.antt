-- ===== src/Capture/Wall/Clients.antt =====
-- Every client of the wall has a virtual display of its own.
use quicview.Prelude.{
  ◌+◌, ◌^◌, ◌<◌, ◌≡◌, refl, ◌≢◌, inl, inr, Option, none, some, List, [], ◌∷◌, true, arith, ok,
  length, ◌==◌, if◌then◌else◌, Option-cases, All, All-map, All-both,
}
use quicview.Prelude.Int.{ℤ}
use quicview.Protocol.Display.{DisplayId, Resolution}
use quicview.Capture.VirtualDisplay.{Entry}
use quicview.Capture.VirtualDisplay.Ids.{
  find, is_found, AllBelow, create-AllBelow, destroy_lem, destroy-AllBelow,
}
use quicview.Capture.Wall.{
  SocketAddr, WallClient, DisplayWall, new, remove, lookup, add_client, remove_client, Call, adds,
  removes, step, run,
}
use quicview.Capture.Wall.Entries.{
  Separate, insert-All, remove-All, IfFound, lookup-All, insert-Separate, remove-Separate, Freed,
  lookup-Freed, lookup-insert, lookup-remove,
}

-- The client's display is one of those listed.
abbrev pub Shown : List Entry → WallClient → Type 0
Shown es c = is_found (find c.display_id es) ≡ true

abbrev pub IsLinked : DisplayWall → Type 0
IsLinked w =
    AllBelow w.virtual_displays.next_id w.virtual_displays.displays
    × All (λ (c : WallClient). c.display_id < w.virtual_displays.next_id) w.clients
    × All (Shown w.virtual_displays.displays) w.clients
    × Separate w.clients

-- A new client under a new id keeps every client's display apart and listed.
add_client-IsLinked :
    (w : DisplayWall) (a : SocketAddr) (x y : ℤ) (r : Resolution)
    → w.virtual_displays.next_id + 1 < 2 ^ 32
    → IsLinked w
    → IsLinked (add_client w a x y r).0
unfolding add_client
add_client-IsLinked w a x y r fits (below, ids, shown, apart) =
    let n = w.virtual_displays.next_id in
    let made = (λ (j : DisplayId). create-AllBelow w.virtual_displays r 60 j fits below) in
    (
      (made n).2,
      insert-All _ _ w.clients (omega arith)
          (All-map _ _ w.clients (λ (c : WallClient) (h : c.display_id < n). omega arith) ids),
      insert-All _ _ w.clients (ground (arith, (made n).1)) (
          All-map _ _ w.clients (λ (c : WallClient) h. ground (arith, (made c.display_id).1))
            shown),
      insert-Separate _ w.clients
          (All-map _ _ w.clients (λ (c : WallClient) (h : c.display_id < n). omega arith) ids)
          apart,
    )

abbrev Answers : DisplayWall → SocketAddr → Type 0
Answers w a = IsLinked (remove_client w a).0 × ((remove_client w a).1 ≡ ok tt)

remove_client-cases :
    (w : DisplayWall) (a : SocketAddr) (o : Option WallClient)
    → lookup a w.clients ≡ o
    → IsLinked w
    → IfFound (Freed (remove a w.clients)) o
    → IfFound (Shown w.virtual_displays.displays) o
    → Answers w a
unfolding remove_client
remove_client-cases w a none e linked freed shown = rw (e, remove_client) (linked, refl)
remove_client-cases w a (some c) e (below, ids, listed, apart) freed shown =
    rw (e, remove_client)
      (
        (
          destroy-AllBelow w.virtual_displays c.display_id below,
          remove-All _ a w.clients ids,
          All-both _ _ _ (remove a w.clients)
              (λ (x : WallClient) (p : x.display_id ≢ c.display_id) q.
                ground (arith, (destroy_lem w.virtual_displays c.display_id x.display_id).1))
              freed (remove-All _ a w.clients listed),
          remove-Separate a w.clients apart,
        ),
        ground (arith, (destroy_lem w.virtual_displays c.display_id c.display_id).0),
      )

-- If every client's display is listed, below the next id and no other client's, then removing a
-- client always succeeds, also for an address that has none, and the same holds afterwards.
remove_client-IsLinked :
    (w : DisplayWall) (a : SocketAddr)
    → IsLinked w
    → IsLinked (remove_client w a).0 × ((remove_client w a).1 ≡ ok tt)
remove_client-IsLinked w a h =
    remove_client-cases w a _ refl h (lookup-Freed a w.clients h.3) (lookup-All _ a w.clients h.2)

next_id-remove_client :
    (w : DisplayWall) (a : SocketAddr)
    → (remove_client w a).0.virtual_displays.next_id ≡ w.virtual_displays.next_id
unfolding remove_client
next_id-remove_client w a = elim (Option-cases (lookup a w.clients)) [
  | inl e ↦ rw (e, remove_client) refl
  | inr (c, e) ↦ rw (e, remove_client) refl
]

run-IsLinked_from :
    (w : DisplayWall) (cs : List Call)
    → w.virtual_displays.next_id + length cs < 2 ^ 32
    → IsLinked w
    → IsLinked (run w cs)
unfolding run step
run-IsLinked_from w [] fits h = h
run-IsLinked_from w (adds a x y r ∷ cs) fits h =
    run-IsLinked_from (step w (adds a x y r)) cs (unfold add_client in omega arith)
      (add_client-IsLinked w a x y r (omega arith) h)
run-IsLinked_from w (removes a ∷ cs) fits h =
    run-IsLinked_from (step w (removes a)) cs (omega (arith, next_id-remove_client w a))
      (remove_client-IsLinked w a h).0

-- After any calls on a new wall, fewer than 2 ^ 32 - 100 of them, every client has a listed virtual
-- display that no other client has.
pub run-IsLinked : (cs : List Call) → 100 + length cs < 2 ^ 32 → IsLinked (run new cs)
unfolding new
run-IsLinked cs fits = run-IsLinked_from new cs fits (tt, tt, tt, tt)

removed_lem :
    (w : DisplayWall) (a : SocketAddr) (c : WallClient) (j : DisplayId)
    → lookup a w.clients ≡ some c
    → (lookup a (remove_client w a).0.clients ≡ none)
      × (find j (remove_client w a).0.virtual_displays.displays
          ≡ (if c.display_id == j then none else find j w.virtual_displays.displays))
unfolding remove_client
removed_lem w a c j e =
    rw (e, remove_client)
      (lookup-remove a w.clients, (destroy_lem w.virtual_displays c.display_id j).1)

-- An address that is added again while its client is there has a second virtual display: removing
-- the address leaves no client there, but the first display stays listed.
added_twice_leaks :
    (w : DisplayWall) (a : SocketAddr) (x y : ℤ) (r : Resolution)
    → w.virtual_displays.next_id + 2 < 2 ^ 32
    → IsLinked w
    → let w' = (remove_client (add_client (add_client w a x y r).0 a x y r).0 a).0 in
      (lookup a w'.clients ≡ none)
      × (is_found (find w.virtual_displays.next_id w'.virtual_displays.displays) ≡ true)
unfolding add_client
added_twice_leaks w a x y r fits h =
    let n = w.virtual_displays.next_id in
    let w1 = (add_client w a x y r).0 in
    let c : WallClient = record {
      addr = a;
      display_id = w1.virtual_displays.next_id;
      grid_x = x;
      grid_y = y;
      resolution = r;
    } in
    let made = create-AllBelow w.virtual_displays r 60 n (omega arith) h.0 in
    let again = create-AllBelow w1.virtual_displays r 60 n (omega arith) made.2 in
    let gone = removed_lem (add_client w1 a x y r).0 a c n (lookup-insert c w1.clients) in
    (gone.0, ground (arith, gone.1, again.1, made.1))
