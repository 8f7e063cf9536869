-- ===== src/Session/Discovery.antt =====
-- crates/quicview-session/src/discovery.rs: the in-memory discovery service. A `HashMap` is a list
-- of its entries, each key once, in no order that the code relies on; a socket address is a number
-- that stands for the address and is only compared.
pub mod Laws
use quicview.Prelude.{ℕ, Option, none, some, List, [], ◌∷◌, String, Result, ok, ◌==◌, if◌then◌else◌}

abbrev pub SocketAddr : Type 0
SocketAddr = ℕ

pub record ServiceRecord : Type 0 where
  pub host_name : String
  pub addr : SocketAddr
  pub role : String

pub data DiscoveryError : Type 0 where
  failed : String → DiscoveryError
  platform_not_supported : DiscoveryError

-- `HashMap::insert`, `remove` and `get`, and `values`, keyed by the record's address.
unfoldable pub insert : ServiceRecord → List ServiceRecord → List ServiceRecord
insert r [] = r ∷ []
insert r (s ∷ ss) = if s.addr == r.addr then r ∷ ss else s ∷ insert r ss

unfoldable pub remove : SocketAddr → List ServiceRecord → List ServiceRecord
remove a [] = []
remove a (s ∷ ss) = if s.addr == a then ss else s ∷ remove a ss

unfoldable pub lookup : SocketAddr → List ServiceRecord → Option ServiceRecord
lookup a [] = none
lookup a (s ∷ ss) = if s.addr == a then some s else lookup a ss

pub record MemoryDiscovery : Type 0 where
  pub services : List ServiceRecord
  pub advertised : Option ServiceRecord

unfoldable pub new : MemoryDiscovery
new = record { services = []; advertised = none }

unfoldable pub inject_service : MemoryDiscovery → ServiceRecord → MemoryDiscovery
unfolding insert
inject_service d r = record d { services = insert r d.services }

unfoldable pub remove_service : MemoryDiscovery → SocketAddr → MemoryDiscovery
unfolding remove
remove_service d a = record d { services = remove a d.services }

unfoldable pub advertise :
    MemoryDiscovery → ServiceRecord → MemoryDiscovery × Result DiscoveryError (Unit {0})
unfolding insert
advertise d r = (record { services = insert r d.services; advertised = some r }, ok tt)

unfoldable pub stop_advertise : MemoryDiscovery → MemoryDiscovery × Result DiscoveryError (Unit {0})
unfolding remove
stop_advertise d = elim d.advertised [
  | none ↦ (d, ok tt)
  | some r ↦ (record { services = remove r.addr d.services; advertised = none }, ok tt)
]

unfoldable pub discover : MemoryDiscovery → Result DiscoveryError (List ServiceRecord)
discover d = ok d.services

-- The calls that change the service.
pub data Call : Type 0 where
  injects : ServiceRecord → Call
  removes : SocketAddr → Call
  advertises : ServiceRecord → Call
  stops : Call

unfoldable pub step : MemoryDiscovery → Call → MemoryDiscovery
unfolding inject_service remove_service advertise stop_advertise
step d (injects r) = inject_service d r
step d (removes a) = remove_service d a
step d (advertises r) = (advertise d r).0
step d stops = (stop_advertise d).0

unfoldable pub run : MemoryDiscovery → List Call → MemoryDiscovery
run d [] = d
run d (c ∷ cs) = run (step d c) cs
