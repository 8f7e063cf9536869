-- ===== src/Capture/Wall.antt =====
-- crates/quicview-capture/src/wall.rs: clients and the virtual displays they show. A `HashMap` is a
-- list of its entries, each key once, in no order that the code relies on; a socket address is a
-- number that stands for the address and is only compared. `i32` arithmetic wraps.
pub mod Entries
pub mod Clients
pub mod Tiles
use quicview.Prelude.{
  ℕ, Option, none, some, List, [], ◌∷◌, map, Bool, true, false, Result, ok, err, panic, length,
  ◌==◌, if◌then◌else◌,
}
use quicview.Prelude.Int.{ℤ, ◌*ℤ◌, to_i32, wrap_i32}
use quicview.Protocol.Display.{DisplayId, Resolution}
use quicview.Protocol.Display.Layout.{DisplayEntry, DisplayLayout}
use quicview.Capture.Error.{CaptureError}
use quicview.Capture.VirtualDisplay.{StubVirtualDisplay, create, destroy}
use quicview.Capture.VirtualDisplay

abbrev pub SocketAddr : Type 0
SocketAddr = ℕ

pub record WallClient : Type 0 where
  pub addr : SocketAddr
  pub display_id : DisplayId
  pub grid_x : ℤ
  pub grid_y : ℤ
  pub resolution : Resolution

pub record DisplayWall : Type 0 where
  pub clients : List WallClient
  pub virtual_displays : StubVirtualDisplay

unfoldable pub new : DisplayWall
unfolding VirtualDisplay.new
new = record { clients = []; virtual_displays = VirtualDisplay.new }

-- `HashMap::insert`, `remove` and `get`, keyed by the client's address.
unfoldable pub insert : WallClient → List WallClient → List WallClient
insert c [] = c ∷ []
insert c (x ∷ xs) = if x.addr == c.addr then c ∷ xs else x ∷ insert c xs

unfoldable pub remove : SocketAddr → List WallClient → List WallClient
remove a [] = []
remove a (x ∷ xs) = let rest = remove a xs in if x.addr == a then rest else x ∷ rest

unfoldable pub lookup : SocketAddr → List WallClient → Option WallClient
lookup a [] = none
lookup a (x ∷ xs) = if x.addr == a then some x else lookup a xs

-- The rest of `add_client` after `create` has answered.
unfoldable pub with_display :
    DisplayWall
    → SocketAddr
    → ℤ
    → ℤ
    → Resolution
    → StubVirtualDisplay × Result CaptureError DisplayId
    → DisplayWall × Result CaptureError DisplayId
unfolding insert
with_display w a x y r (displays, ok d) = (
  record {
    clients =
        insert (record { addr = a; display_id = d; grid_x = x; grid_y = y; resolution = r })
          w.clients;
    virtual_displays = displays;
  },
  ok d,
)
with_display w a x y r (displays, err e) = (record w { virtual_displays = displays }, err e)
with_display w a x y r (displays, panic) = (record w { virtual_displays = displays }, panic)

unfoldable pub add_client :
    DisplayWall → SocketAddr → ℤ → ℤ → Resolution → DisplayWall × Result CaptureError DisplayId
unfolding with_display create
add_client w a x y r = with_display w a x y r (create w.virtual_displays r 60)

unfoldable pub remove_client :
    DisplayWall → SocketAddr → DisplayWall × Result CaptureError (Unit {0})
unfolding remove lookup destroy
remove_client w a = elim (lookup a w.clients) [
  | none ↦ (w, ok tt)
  | some c ↦ (
    record {
      clients = remove a w.clients;
      virtual_displays = (destroy w.virtual_displays c.display_id).0;
    },
    (destroy w.virtual_displays c.display_id).1,
  )
]

unfoldable pub entry_of : WallClient → DisplayEntry
entry_of c = record {
  display_id = c.display_id;
  x = wrap_i32 (c.grid_x *ℤ to_i32 c.resolution.width);
  y = wrap_i32 (c.grid_y *ℤ to_i32 c.resolution.height);
  resolution = c.resolution;
}

unfoldable pub layout : DisplayWall → DisplayLayout
unfolding entry_of
layout w = record { entries = map entry_of w.clients }

unfoldable pub client_count : DisplayWall → ℕ
client_count w = length w.clients

unfoldable pub get_client : DisplayWall → SocketAddr → Option WallClient
unfolding lookup
get_client w a = lookup a w.clients

-- The calls that change the wall.
pub data Call : Type 0 where
  adds : SocketAddr → ℤ → ℤ → Resolution → Call
  removes : SocketAddr → Call

unfoldable pub step : DisplayWall → Call → DisplayWall
unfolding add_client remove_client
step w (adds a x y r) = (add_client w a x y r).0
step w (removes a) = (remove_client w a).0

unfoldable pub run : DisplayWall → List Call → DisplayWall
run w [] = w
run w (c ∷ cs) = run (step w c) cs
