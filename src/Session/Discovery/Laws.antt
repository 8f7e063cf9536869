-- ===== src/Session/Discovery/Laws.antt =====
-- Each address has one record, and an advertised record is found until it is withdrawn.
use quicview.Prelude.{
  ◌≡◌, ◌≢◌, refl, inl, inr, Option, ok, err, panic, none, some, List, [], ◌∷◌, arith, ◌==◌,
  if◌then◌else◌, Option-cases,
}
use quicview.Session.Discovery.{
  SocketAddr, ServiceRecord, MemoryDiscovery, insert, remove, lookup, inject_service,
  remove_service, advertise, stop_advertise, discover, new, Call, injects, removes, advertises,
  stops, step, run,
}

-- No two records have one address.
abbrev pub Distinct : List ServiceRecord → Type 0
Distinct [] = Unit {0}
Distinct (s ∷ ss) = (lookup s.addr ss ≡ none) × Distinct ss

pub lookup-insert :
    (r : ServiceRecord) (a : SocketAddr) (ss : List ServiceRecord)
    → lookup a (insert r ss) ≡ (if r.addr == a then some r else lookup a ss)
unfolding lookup insert
lookup-insert r a [] = refl
lookup-insert r a (s ∷ ss) = ground (arith, lookup-insert r a ss)

pub lookup-remove :
    (b a : SocketAddr) (ss : List ServiceRecord)
    → Distinct ss
    → lookup a (remove b ss) ≡ (if b == a then none else lookup a ss)
unfolding lookup remove
lookup-remove b a [] d = ground arith
lookup-remove b a (s ∷ ss) d = ground (arith, lookup-remove b a ss d.1)

insert-Distinct :
    (r : ServiceRecord) (ss : List ServiceRecord) → Distinct ss → Distinct (insert r ss)
unfolding insert
insert-Distinct r [] d = (unfold lookup in refl, tt)
insert-Distinct r (s ∷ ss) d = ground (arith, lookup-insert r s.addr ss, insert-Distinct r ss d.1)

remove-Distinct : (b : SocketAddr) (ss : List ServiceRecord) → Distinct ss → Distinct (remove b ss)
unfolding remove
remove-Distinct b [] d = tt
remove-Distinct b (s ∷ ss) d =
    ground (arith, lookup-remove b s.addr ss d.1, remove-Distinct b ss d.1)

stop-Distinct : (d : MemoryDiscovery) → Distinct d.services → Distinct (stop_advertise d).0.services
unfolding stop_advertise
stop-Distinct d v = elim (Option-cases d.advertised) [
  | inl e ↦ rw (e, stop_advertise) v
  | inr (r, e) ↦ rw (e, stop_advertise) (remove-Distinct r.addr d.services v)
]

pub step-Distinct :
    (d : MemoryDiscovery) (c : Call) → Distinct d.services → Distinct (step d c).services
unfolding step inject_service remove_service advertise
step-Distinct d (injects r) v = insert-Distinct r d.services v
step-Distinct d (removes a) v = remove-Distinct a d.services v
step-Distinct d (advertises r) v = insert-Distinct r d.services v
step-Distinct d stops v = stop-Distinct d v

run-Distinct_from :
    (d : MemoryDiscovery) (cs : List Call) → Distinct d.services → Distinct (run d cs).services
unfolding run
run-Distinct_from d [] v = v
run-Distinct_from d (c ∷ cs) v = run-Distinct_from (step d c) cs (step-Distinct d c v)

-- After any calls on a new service no two of its records have the same address.
pub run-Distinct : (cs : List Call) → Distinct (run new cs).services
unfolding new
run-Distinct cs = run-Distinct_from _ cs tt

advertise-stop :
    (d : MemoryDiscovery) (r : ServiceRecord) (a : SocketAddr)
    → Distinct d.services
    → (lookup r.addr (advertise d r).0.services ≡ some r)
      × (lookup a (stop_advertise (advertise d r).0).0.services
          ≡ (if r.addr == a then none else lookup a d.services))
unfolding advertise stop_advertise
advertise-stop d r a v = ground (
  arith,
  lookup-insert r r.addr d.services,
  lookup-insert r a d.services,
  lookup-remove r.addr a (insert r d.services) (insert-Distinct r d.services v),
)

advertise_twice_leaves :
    (d : MemoryDiscovery) (r s : ServiceRecord)
    → Distinct d.services
    → r.addr ≢ s.addr
    → let d' = (stop_advertise (advertise (advertise d r).0 s).0).0 in
      (lookup r.addr d'.services ≡ some r) × (lookup r.addr (stop_advertise d').0.services ≡ some r)
unfolding advertise stop_advertise
advertise_twice_leaves d r s v ne = ground (
  arith,
  lookup-insert r r.addr d.services,
  lookup-insert s r.addr (insert r d.services),
  lookup-remove s.addr r.addr (insert s (insert r d.services))
      (insert-Distinct s _ (insert-Distinct r d.services v)),
)

-- What `discover` lists for an address.
abbrev pub listed : MemoryDiscovery → SocketAddr → Option ServiceRecord
listed d a = elim (discover d) [ ok rs ↦ lookup a rs | err e ↦ none | panic ↦ none ]

-- After any calls on a new service: a record that is advertised is the one that `discover` lists for
-- its address, and stopping it unlists that address and leaves every other one as it was before.
-- But a service that advertises a record and then another at a different address unlists only the
-- second when it stops: the first is still listed, also if it stops again.
pub discover-advertise :
    (cs : List Call) (r s : ServiceRecord) (a : SocketAddr)
    → r.addr ≢ s.addr
    → let d = run new cs in
      let once = (advertise d r).0 in
      let twice = (stop_advertise (advertise once s).0).0 in
      (listed once r.addr ≡ some r)
      × (listed (stop_advertise once).0 a ≡ (if r.addr == a then none else listed d a))
      × (listed twice r.addr ≡ some r)
      × (listed (stop_advertise twice).0 r.addr ≡ some r)
unfolding discover
discover-advertise cs r s a ne =
    let d = run new cs in
    let (found, stopped) = advertise-stop d r a (run-Distinct cs) in
    let (kept, still) = advertise_twice_leaves d r s (run-Distinct cs) ne in
    (found, stopped, kept, still)
