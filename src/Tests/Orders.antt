-- ===== src/Tests/Orders.antt =====
-- Walls of displays and the discovery of services (crates/quicview-capture, crates/quicview-session).
use quicview.Prelude.{none, ◌==◌, if◌then◌else◌, ◌⊎◌, All, refl, some, ◌≡◌, List, [], ◌∷◌, arith}
use quicview.Prelude.Int.{pos, negsuc, ◌*ℤ◌, ◌+ℤ◌}
use quicview.Protocol.Display.{Resolution}
use quicview.Protocol.Display.Layout.{OnDesktop}
use quicview.Capture.VirtualDisplay.{create}
use quicview.Capture.Wall.{SocketAddr, WallClient, entry_of, adds, removes, run, get_client, layout}
use quicview.Capture.Wall
use quicview.Capture.Wall.Tiles.{Apart, IsGridded, layout-Apart}
use quicview.Session.Discovery.{ServiceRecord, injects, advertise, stop_advertise}
use quicview.Session.Discovery
use quicview.Session.Discovery.Laws.{listed, discover-advertise}

abbrev small : Resolution
small = record { width = 800; height = 600 }

abbrev office : ServiceRecord
office = record { host_name = "office"; addr = 7; role = "host" }

abbrev attic : ServiceRecord
attic = record { host_name = "attic"; addr = 8; role = "extender" }

discover-advertise_example :
    (listed (advertise (Discovery.run Discovery.new (injects attic ∷ [])) office).0 7 ≡ some office)
    × (listed
          (stop_advertise (advertise (Discovery.run Discovery.new (injects attic ∷ [])) office).0).0
          8
        ≡ (if 7 == 8 then none else listed (Discovery.run Discovery.new (injects attic ∷ [])) 8))
    × (listed
          (stop_advertise
            (advertise
              (advertise (Discovery.run Discovery.new (injects attic ∷ [])) office).0
              attic).0).0
          7
        ≡ some office)
    × (listed
          (stop_advertise
            (stop_advertise
              (advertise
                (advertise (Discovery.run Discovery.new (injects attic ∷ [])) office).0
                attic).0).0).0
          7
        ≡ some office)
discover-advertise_example =
    discover-advertise (injects attic ∷ []) office attic 8 (λ e. ground (arith, e))

-- Three displays of one size in an angle; the one at the top left has left.
abbrev angle : List Wall.Call
angle =
    adds 1 (pos 0) (pos 0) small
    ∷ adds 2 (pos 1) (pos 0) small
    ∷ adds 3 (negsuc 0) (pos 1) small
    ∷ removes 1
    ∷ []

abbrev at_right : WallClient
at_right = record { addr = 2; display_id = 101; grid_x = pos 1; grid_y = pos 0; resolution = small }

abbrev below_left : WallClient
below_left = record {
  addr = 3;
  display_id = 102;
  grid_x = negsuc 0;
  grid_y = pos 1;
  resolution = small;
}

angle-IsGridded : IsGridded small angle
unfolding ◌*ℤ◌ ◌+ℤ◌
angle-IsGridded = ground arith

right_shown : get_client (run Wall.new angle) 2 ≡ some at_right
unfolding run Wall.new Wall.step Wall.add_client Wall.remove_client get_client create
right_shown = refl

left_shown : get_client (run Wall.new angle) 3 ≡ some below_left
unfolding run Wall.new Wall.step Wall.add_client Wall.remove_client get_client create
left_shown = refl

layout-Apart_example :
    All OnDesktop (layout (run Wall.new angle)).entries
    × (((pos 1 ≡ negsuc 0) × (pos 0 ≡ pos 1)) ⊎ Apart (entry_of at_right) (entry_of below_left))
layout-Apart_example =
    layout-Apart small angle 2 3 at_right below_left angle-IsGridded right_shown left_shown
