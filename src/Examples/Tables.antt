-- ===== src/Examples/Tables.antt =====
-- Routes that are added, replaced and looked up.
use antop.Base.{
  ℕ, ◌+◌, ◌<◌, ◌≡◌, ◌⊎◌, ◌↔◌, ◌&&◌, refl, true, false, List, [], ◌∷◌, ◌++◌, some, none, Bool, map,
  length, drop, get_elem?, set, remove_first, htons,
}
use antop.Base.Run.{ok, crash}
use antop.Addr.{Addr, null_addr, addr_eq, check_addr_space}
use antop.Node.{Neighbor, sub8}
use antop.Routing.{payload, Packet, RtAuxInfo, rv_route}
use antop.Routing.Untried.{free_at, untried}
use antop.Routing.Table.{
  Route, Request, new_route, del_route, RtMessage, RtOutside, Router, routes, rt_table_dump,
  max_ttl, return_from, skips, data_cb, fill, next_node, after_next,
}
use antop.Routing.Forward.{forward, send_back, no_gateway}
use antop.Routing.Hooks.{pre_routing, route, leaves_alone, is_allocation, route_rv, is_rv}
use antop.Routing.Dump
use antop.Routing.Dump.{View, view, main_messages, overlay}
use antop.Routing.Requests
use antop.Routing.Requests.{replacements, deletions}
use antop.Routing.Arrival
use antop.Routing.Packets.{nf_drop, pre_routing_case, pre_routing_verdict}
use antop.Routing.Verdict.{taken}
use antop.Routing.Install
use antop.Routing.Install.{rerouted}
use antop.Examples.{host}
use antop.Examples.Networks.{outside}
use antop.Examples.Routes.{to_above, untouched, crossing, crossing-MasksFit}

-- A kernel with one table, to which routes are added at the end.
abbrev message : Addr → Addr → ℕ → ℕ → RtMessage
message dst gtw mask distance = record {
  inet6 = true;
  dst_len = mask;
  table = some 254;
  dst = some dst;
  priority = some distance;
  gateway = some gtw;
}

abbrev has_gateway : Addr → Addr → RtMessage → Bool
has_gateway dst gtw m = elim m.dst [
  | none ↦ false
  | some d ↦ elim m.gateway [ none ↦ false | some g ↦ addr_eq d dst && addr_eq g gtw ]
]

abbrev kernel : List RtMessage → List Request → List RtMessage
kernel ms [] = ms
kernel ms (new_route dst gtw mask distance ∷ rest) =
    kernel (ms ++ message dst gtw mask distance ∷ []) rest
kernel ms (del_route dst gtw mask distance ∷ rest) =
    kernel (remove_first (has_gateway dst gtw) ms) rest

abbrev no_route : Route
no_route = record {
  dst = null_addr;
  gtw = null_addr;
  metric = 0;
  dst_mask = 0;
  distance = 0;
  table = 0;
}

abbrev pub linux : RtOutside
linux = record {
  node = outside;
  answer = kernel [];
  fresh_route = no_route;
  fresh_info = untouched;
  fresh_nat = record { dst = null_addr; src = null_addr };
  nat_next_null = true;
  stack = host 9;
}

-- The route of a packet that waits for its next hop.
abbrev pub waiting : Router
waiting = record {
  node = crossing;
  route_t = no_route;
  route_rest = [];
  rt_info = untouched ∷ [];
  nat_table = [];
  requests = new_route (host 1) no_gateway 128 max_ttl ∷ [];
  timers = [];
}

abbrev chosen : Route
chosen = record (no_route) {
  dst = host 1;
  gtw = no_gateway;
  dst_mask = 128;
  distance = max_ttl;
  table = 254;
}

chosen_found : get_elem? (routes (rt_table_dump linux waiting)) 0 ≡ some chosen
unfolding rt_table_dump fill skips data_cb next_node after_next
chosen_found = refl

chosen_dst : addr_eq chosen.dst to_above.dst ≡ true
unfolding addr_eq
chosen_dst = refl

forward-installs_example :
    ((st1 : Router) × (forward linux to_above (some 0) 0 untouched waiting
        ≡ ok (send_back linux to_above st1))
      × (st1.requests ≡ waiting.requests))
    ⊎ ((i : ℕ) × (n : Neighbor) × (info' : RtAuxInfo) × (st' : Router) × (forward linux to_above
            (some 0)
            0
            untouched
            waiting
          ≡ ok (record (to_above) { ttl = sub8 to_above.ttl 1 }, st'))
        × (get_elem? crossing.neigh_table i ≡ some n)
        × (free_at i crossing.neigh_table untouched.visited_bitmap ≡ true)
        × (st'.requests ≡ rerouted chosen n.prim_addr waiting.requests)
        × (st'.rt_info ≡ set waiting.rt_info 0 info')
        × (untried crossing.neigh_table info'.visited_bitmap
            < untried crossing.neigh_table untouched.visited_bitmap))
    ⊎ ((forward linux to_above (some 0) 0 untouched waiting ≡ crash)
        × (waiting.nat_table ≡ [])
        × (linux.nat_next_null ≡ false))
forward-installs_example =
    Install.forward-installs linux to_above 0 0 untouched waiting chosen crossing-MasksFit
      chosen_found chosen_dst

send_back-requests_example :
    ((send_back linux to_above waiting).1).requests
    ≡ waiting.requests
      ++ replacements
          (host 1)
          null_addr
          (routes (rt_table_dump linux (rt_table_dump linux waiting)))
send_back-requests_example = Requests.send_back-requests linux to_above waiting

-- A solution for an address in the upper half.
abbrev to_own_space : Packet
to_own_space = record (to_above) { dst = host 0x00c0 }

-- `route` returns a value for it.
dropped : pre_routing_case linux 0 to_own_space waiting ≡ ok (nf_drop to_own_space, waiting)
unfolding pre_routing_case pre_routing_verdict route leaves_alone is_allocation payload addr_eq
    route_rv is_rv rv_route check_addr_space htons
dropped = refl

pre_routing_case-drop_iff_example :
    ((pkt' : Packet) × (nf_drop to_own_space ≡ nf_drop pkt'))
    ↔ (taken pre_routing to_own_space crossing ≡ true)
pre_routing_case-drop_iff_example =
    Arrival.pre_routing_case-drop_iff linux 0 to_own_space waiting waiting (nf_drop to_own_space)
      refl dropped

rt_table_dump-stale_example :
    (current : List Route) × (last : Route) × (routes (rt_table_dump linux waiting)
      ≡ current
        ++ last
          ∷ drop (length (main_messages (linux.answer waiting.requests)) + 1) (routes waiting))
    × (map view current
        ≡ overlay no_route (main_messages (linux.answer waiting.requests)) (routes waiting))
rt_table_dump-stale_example = Dump.rt_table_dump-stale linux waiting

return_from-requests_example :
    (return_from linux to_above waiting).requests
    ≡ waiting.requests
      ++ deletions (host 1) (routes (rt_table_dump linux waiting))
      ++ new_route (host 1) null_addr 128 max_ttl ∷ []
return_from-requests_example = Requests.return_from-requests linux to_above waiting
