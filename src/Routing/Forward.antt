-- ===== src/Routing/Forward.antt =====
-- `send_to_next_neighbor` of pkt_handle.c as a whole: the route that it looks up or adds, its
-- auxiliary entry, and the requests that it makes when it sends the packet on or back.
use antop.Base.{
  ℕ, suc, ◌+◌, ◌%◌, ◌^◌, Bool, true, false, not, ◌&&◌, ◌==◌, ltb, List, [], ◌∷◌, ◌++◌, Option, none,
  some, if◌then◌else◌, some_elem, set, get_elem?, bit_or,
}
use antop.Base.Run.{Run, ok, crash, ◌>>=◌}
use antop.Addr.{Addr, addr_eq, null_addr}
use antop.Node.{Neighbor, sub8}
use antop.Routing.{Packet, RtAuxInfo, mark_from, all_visited, next_hop}
use antop.Routing.Entries.{add_rt_info}
use antop.Routing.Table.{
  Route, RtOutside, Router, routes, rt_table_dump, add_rt_route, del_rt_route, add_src_nat, max_ttl,
  or_else,
}

-- `a < b` of two values of type `int`, kept as 32 bits.
unfoldable pub slt : ℕ → ℕ → Bool
slt a b = ltb ((a + 2 ^ 31) % 2 ^ 32) ((b + 2 ^ 31) % 2 ^ 32)

-- `set_returned`, and the hop limit that is one more.
unfoldable pub set_returned : Packet → Packet
set_returned pkt = record pkt { flags = bit_or pkt.flags 1; ttl = (pkt.ttl + 1) % 256 }

-- The gateway of a route that is not complete.
abbrev pub no_gateway : Addr
no_gateway = record (null_addr) { w0 = 0x0120; w1 = 0xb80d }

-- An entry for the destination, but not the one that is the destination itself.
unfoldable pub leads_to : Addr → Route → Bool
leads_to dst rt = addr_eq rt.dst dst && not (addr_eq rt.gtw dst)

-- The loop that finds the new entry: the last one of that destination.
unfoldable pub last_entry : Addr → ℕ → List Route → Option ℕ → Option ℕ
last_entry dst i [] rt_id = rt_id
last_entry dst i (rt ∷ rest) rt_id =
    last_entry dst (i + 1) rest (if addr_eq rt.dst dst then some i else rt_id)

-- The loop that finds the entry with the shortest distance.
unfoldable pub best_entry : Addr → ℕ → List Route → Option ℕ → ℕ → Option ℕ
best_entry dst aux [] best min_dist = best
best_entry dst aux (rt ∷ rest) best min_dist =
    let better = slt rt.distance min_dist && addr_eq rt.dst dst in
    best_entry dst (aux + 1) rest (if better then some aux else best)
      (if better then rt.distance else min_dist)

-- The place of the first auxiliary entry of a route, counted from `k`.
unfoldable pub place_of_id : ℕ → ℕ → List RtAuxInfo → Option ℕ
place_of_id id k [] = none
place_of_id id k (e ∷ es) = if e.route_id == id then some k else place_of_id id (k + 1) es

-- The place of the entry that `add_rt_info` returns.
unfoldable pub place_added : Addr → List RtAuxInfo → ℕ
place_added stack [] = 0
place_added stack (e ∷ []) = 1
place_added stack (e ∷ f ∷ es) =
    let later = place_added stack (f ∷ es) in if addr_eq e.dst stack then 0 else suc later

-- The loops for the reverse entry, when all neighbours were visited. For a missing `;` the inner one
-- looks at the auxiliary entries before that of the route. The outer loop always runs to its end.
unfoldable pub seen_before : Addr → ℕ → List RtAuxInfo → Bool
seen_before dst i [] = false
seen_before dst i (e ∷ es) =
    if e.route_id == i then false else if addr_eq e.src dst then true else seen_before dst i es

unfoldable pub mark_returned : List RtAuxInfo → ℕ → List Route → Packet → Packet
mark_returned infos i [] pkt = pkt
mark_returned infos i (rt ∷ rest) pkt =
    let found = addr_eq rt.dst pkt.src && not (rt.dst_mask == 64) && seen_before pkt.dst i infos in
    mark_returned infos (i + 1) rest (if found then set_returned pkt else pkt)

-- All routes to the destination get the new gateway.
unfoldable pub replace_routes : Addr → Addr → List Route → Router → Router
replace_routes dst nh [] st = st
replace_routes dst nh (rt ∷ rest) st =
    let replaced =
      del_rt_route rt.dst rt.gtw rt.dst_mask rt.distance
        (add_rt_route rt.dst nh 128 rt.distance st) in
    replace_routes dst nh rest (if addr_eq rt.dst dst then replaced else st)

-- All neighbours were visited. The next hop is the address that the packet came from.
unfoldable pub send_back : RtOutside → Packet → Router → Packet × Router
send_back out pkt st =
    let st1 = rt_table_dump out st in
    let st2 = rt_table_dump out st1 in
    (mark_returned st1.rt_info 0 (routes st1) pkt, replace_routes pkt.dst pkt.from (routes st2) st2)

-- The route gets the neighbour as its gateway, and the neighbour is marked.
unfoldable pub send_via :
    RtOutside → Packet → ℕ → RtAuxInfo → ℕ → Route → Neighbor → Router → Run (Packet × Router)
send_via out pkt place info nh_idx rt n st =
    let st1 = del_rt_route rt.dst rt.gtw rt.dst_mask rt.distance st in
    let st2 = add_rt_route rt.dst n.prim_addr 128 rt.distance st1 in
    let marked : RtAuxInfo = record info { visited_bitmap = set info.visited_bitmap nh_idx true } in
    let st3 : Router = record st2 { rt_info = set st2.rt_info place marked } in
    let sent : Packet = record pkt { ttl = sub8 pkt.ttl 1 } in
    let nated = add_src_nat out rt.dst st.node.sec_addr st.nat_table in
    let nat = if n.sec_addr_conn == 0 then ok st.nat_table else nated in
    do nat_table ← nat; ok (sent, record st3 { nat_table = nat_table })

-- With the index of the neighbour: the route is looked up again.
unfoldable pub install :
    RtOutside → Packet → Option ℕ → ℕ → RtAuxInfo → Option ℕ → Router → Run (Packet × Router)
install out pkt rt_id place info none st = ok (pkt, st)
install out pkt none place info (some nh_idx) st = crash
install out pkt (some id) place info (some nh_idx) st =
    let st1 = rt_table_dump out st in
    let kept : Packet × Router = (pkt, st1) in
    elim (get_elem? (routes st1) id) [
      | none ↦ crash
      | some rt ↦ elim (get_elem? st.node.neigh_table nh_idx) [
        | none ↦ if addr_eq rt.dst pkt.dst then crash else ok kept
        | some n ↦
            if addr_eq rt.dst pkt.dst then send_via out pkt place info nh_idx rt n st1 else ok kept
      ]
    ]

-- From the mark of the sender on, for the auxiliary entry `info` at `place`.
unfoldable pub forward :
    RtOutside → Packet → Option ℕ → ℕ → RtAuxInfo → Router → Run (Packet × Router)
forward out pkt rt_id place info st =
    let info1 = mark_from pkt.from 0 st.node.neigh_table info in
    let st1 : Router = record st { rt_info = set st.rt_info place info1 } in
    let returned = send_back out pkt st1 in
    if all_visited st.node.neigh_table info1.visited_bitmap
    then ok returned
    else do nh_idx ← next_hop pkt st.node info1; install out pkt rt_id place info1 nh_idx st1

-- A new auxiliary entry, and then on.
unfoldable pub with_new_info : RtOutside → Packet → Option ℕ → Router → Run (Packet × Router)
with_new_info out pkt rt_id st = do
  (infos, timers) ← add_rt_info out.fresh_info out.stack pkt.dst none (or_else rt_id 255) st.rt_info
  let place = place_added out.stack st.rt_info
  let st1 : Router = record st { rt_info = infos; timers = st.timers ++ timers }
  elim (get_elem? infos place) [ none ↦ crash | some info ↦ forward out pkt rt_id place info st1 ]

-- No entry was found, so one is added.
unfoldable pub with_new_route : RtOutside → Packet → Router → Run (Packet × Router)
with_new_route out pkt st =
    let st1 = rt_table_dump out (add_rt_route pkt.dst no_gateway 128 max_ttl st) in
    let kept : Packet × Router = (pkt, st1) in
    elim (last_entry pkt.dst 0 (routes st1) none) [
      | none ↦ ok kept
      | some id ↦ with_new_info out pkt (some id) st1
    ]

-- There are entries: the best of them, and its auxiliary entry if there is one.
unfoldable pub with_best : RtOutside → Packet → Router → Run (Packet × Router)
with_best out pkt st =
    let st1 = rt_table_dump out st in
    elim (best_entry pkt.dst 0 (routes st1) none (max_ttl + 1)) [
      | none ↦ with_new_info out pkt none st1
      | some best ↦ elim (place_of_id best 0 st1.rt_info) [
        | none ↦ with_new_info out pkt (some best) st1
        | some place ↦ elim (get_elem? st1.rt_info place) [
          | none ↦ crash
          | some info ↦ forward out pkt (some best) place info st1
        ]
      ]
    ]

unfoldable pub send_to_next_neighbor : RtOutside → Packet → Router → Run (Packet × Router)
send_to_next_neighbor out pkt st =
    let st1 = rt_table_dump out st in
    let kept : Packet × Router = (pkt, st1) in
    let added = with_new_route out pkt st1 in
    let known = with_best out pkt st1 in
    elim st1.node.neigh_table [
      | [] ↦ ok kept
      | ◌∷◌ n ns ↦ if some_elem (leads_to pkt.dst) (routes st1) then known else added
    ]
