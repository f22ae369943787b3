-- ===== src/Routing/Hooks.antt =====
-- `route` of pkt_handle.c, which the hooks call for a packet.
use antop.Base.{
  ℕ, ◌+◌, ◌-◌, ◌%◌, ◌^◌, Bool, true, false, not, ◌&&◌, ◌||◌, ◌==◌, ltb, List, [], ◌∷◌, ◌++◌, Option,
  none, some, if◌then◌else◌, some_elem, get_elem?,
}
use antop.Base.Run.{Run, ok, crash, ◌>>=◌}
use antop.Addr.{Addr, addr_eq}
use antop.Node.{Node, Neighbor, rv_reg, rv_addr_lookup, rv_addr_solve}
use antop.Routing.{Packet, RtAuxInfo, payload, rv_route, rv_accept, rv_drop}
use antop.Routing.Entries.{add_rt_info}
use antop.Routing.Table.{
  Route, RtOutside, Router, routes, rt_table_dump, add_rt_route, del_rt_route, return_from, max_ttl,
}
use antop.Routing.Forward.{slt, set_returned, leads_to, send_to_next_neighbor}

pub data Hook : Type 0 where
  pre_routing local_in forward_hook local_out post_routing : Hook

abbrev pub is_pre_routing : Hook → Bool
is_pre_routing pre_routing = true
is_pre_routing local_in = false
is_pre_routing forward_hook = false
is_pre_routing local_out = false
is_pre_routing post_routing = false

-- `route` ends without `return` in some cases: the value is then `none`.
abbrev pub Verdict : Type 0
Verdict = Packet × Router × Option ℕ

abbrev accepted : Packet → Router → Verdict
accepted pkt st = (pkt, st, some rv_accept)

abbrev pub accept_sent : Packet × Router → Run Verdict
accept_sent (pkt, st) = ok (accepted pkt st)

-- The packets of the allocation of addresses.
unfoldable pub is_allocation : Packet → Node → Bool
is_allocation pkt s = let t = (payload pkt s).type_field in ltb 0 t && ltb t 5

-- The rendezvous packets.
unfoldable pub is_rv : Packet → Node → Bool
is_rv pkt s =
    let t = (payload pkt s).type_field in t == rv_reg || t == rv_addr_lookup || t == rv_addr_solve

-- The first tests of `route`: packets of the allocation, from the node to itself, or of another
-- prefix of 16 bits.
unfoldable pub leaves_alone : Packet → Node → Bool
leaves_alone pkt s =
    is_allocation pkt s
    || (addr_eq pkt.dst s.prim_addr && addr_eq pkt.src s.prim_addr)
    || not (pkt.dst.w0 == s.prim_addr.w0)

-- The first auxiliary entry of route `i` is for this source.
unfoldable pub is_reverse : Addr → ℕ → List RtAuxInfo → Bool
is_reverse src i [] = false
is_reverse src i (e ∷ es) = if e.route_id == i then addr_eq e.src src else is_reverse src i es

-- The loop over the routes to the source of the packet: it is in a loop of the network, or each of
-- them is replaced, and the last one is the reverse entry.
pub data Scan : Type 0 where
  looping : Router → Scan
  scanned : Option Route → Router → Scan

unfoldable pub scan_reverse : Packet → ℕ → ℕ → List Route → Option Route → Router → Scan
scan_reverse pkt distance i [] reverse st = scanned reverse st
scan_reverse pkt distance i (rt ∷ rest) reverse st =
    let to_src = addr_eq rt.dst pkt.src in
    let replaced =
      add_rt_route rt.dst pkt.from 128 distance (del_rt_route rt.dst rt.gtw 128 rt.distance st) in
    let later =
      scan_reverse pkt distance (i + 1) rest (if to_src then some rt else reverse)
        (if to_src then replaced else st) in
    if to_src && is_reverse pkt.dst i st.rt_info && slt rt.metric distance
    then looping st
    else later

-- `MAX_TTL - ttl`, of type `int`.
abbrev pub hops_done : Packet → ℕ
hops_done pkt = (max_ttl + 2 ^ 32 - pkt.ttl) % 2 ^ 32

-- The packet is sent back where it came from.
unfoldable pub bounce : RtOutside → Packet → Router → Packet × Router
bounce out pkt st = (set_returned pkt, return_from out (set_returned pkt) st)

-- The reverse entry: its destination and gateway, where there is none yet.
unfoldable pub new_reverse : RtOutside → Packet → Route
new_reverse out pkt = record (out.fresh_route) { dst = pkt.src; gtw = pkt.from }

-- The reverse entry is looked up, and gets an auxiliary entry.
unfoldable pub find_route : Addr → Addr → ℕ → List Route → Option (ℕ × Route)
find_route dst gtw i [] = none
find_route dst gtw i (rt ∷ rest) =
    let later = find_route dst gtw (i + 1) rest in
    if addr_eq rt.dst dst && addr_eq rt.gtw gtw then some (i, rt) else later

unfoldable pub join : RtOutside → Packet → Route → Router → Run Verdict
join out pkt reverse st =
    let st1 = rt_table_dump out st in
    elim (find_route reverse.dst reverse.gtw 0 (routes st1)) [
      | none ↦ ok (accepted pkt st1)
      | some (i, rt) ↦ do
        (infos, timers) ← add_rt_info out.fresh_info out.stack rt.dst (some pkt.src) i st1.rt_info
        ok (pkt, record st1 { rt_info = infos; timers = st1.timers ++ timers }, none)
    ]

-- Without a reverse entry nothing is returned.
unfoldable pub join_or_end : RtOutside → Option Route → Packet × Router → Run Verdict
join_or_end out none (pkt, st) = ok (pkt, st, none)
join_or_end out (some reverse) (pkt, st) = join out pkt reverse st

-- The loop over the neighbours: one that is the next hop of route `k`, and not available, makes the
-- packet go to the next neighbour. Every dump may change that route.
unfoldable pub retry : RtOutside → ℕ → List Neighbor → Packet → Router → Run (Packet × Router)
retry out k [] pkt st = ok (pkt, st)
retry out k (it ∷ rest) pkt st =
    let kept : Packet × Router = (pkt, st) in
    let sent = send_to_next_neighbor out pkt st in
    elim (get_elem? (routes st) k) [
      | none ↦ crash
      | some rt ↦ do
        (pkt', st') ← (if addr_eq it.prim_addr rt.gtw && it.available == 0 then sent else ok kept)
        retry out k rest pkt' st'
    ]

-- The first route that leads to the destination.
unfoldable pub first_leading : Addr → ℕ → List Route → Option (ℕ × Route)
first_leading dst k [] = none
first_leading dst k (rt ∷ rest) =
    let later = first_leading dst (k + 1) rest in if leads_to dst rt then some (k, rt) else later

-- After the reverse entry.
unfoldable pub route_on : RtOutside → Hook → Packet → Option Route → Router → Run Verdict
route_on out hook pkt reverse st =
    let st1 = rt_table_dump out st in
    let sent = send_to_next_neighbor out pkt st1 >>= accept_sent in
    let found : Run Verdict = elim (first_leading pkt.dst 0 (routes st1)) [
      | none ↦ sent
      | some (k, rt) ↦
          let kept : Packet × Router = (pkt, st1) in
          let bounced = addr_eq rt.gtw pkt.from && is_pre_routing hook in
          let (pkt1, st2) = if bounced then bounce out pkt st1 else kept in
          retry out k st2.node.neigh_table pkt1 st2 >>= join_or_end out reverse
    ] in
    if addr_eq pkt.dst st.node.prim_addr then ok (accepted pkt st) else found

-- The reverse entry is for packets that arrive, and whose source is no neighbour.
unfoldable pub wants_reverse : Hook → Packet → Node → Bool
wants_reverse hook pkt s =
    not (addr_eq pkt.from s.prim_addr)
    && not (some_elem (λ (n : Neighbor). addr_eq n.prim_addr pkt.src) s.neigh_table)
    && is_pre_routing hook

unfoldable pub after_scan : RtOutside → Hook → Packet → Scan → Run Verdict
after_scan out hook pkt (looping st) = let (pkt', st') = bounce out pkt st in ok (accepted pkt' st')
after_scan out hook pkt (scanned (some rt) st) = route_on out hook pkt (some rt) st
after_scan out hook pkt (scanned none st) =
    route_on out hook pkt (some (new_reverse out pkt))
      (add_rt_route pkt.src pkt.from 128 (hops_done pkt) st)

unfoldable pub route_reverse : RtOutside → Hook → Packet → Router → Run Verdict
route_reverse out hook pkt st =
    let st1 = rt_table_dump out st in
    after_scan out hook pkt (scan_reverse pkt (hops_done pkt) 0 (routes st1) none st1)

-- After the rendezvous packets.
unfoldable pub route_packet : RtOutside → Hook → Packet → Router → Run Verdict
route_packet out hook pkt st =
    let with_reverse = route_reverse out hook pkt st in
    let without = route_on out hook pkt none st in
    if wants_reverse hook pkt st.node then with_reverse else without

-- The rendezvous packets for other nodes go through `rv_route`.
unfoldable pub route_rv : RtOutside → Hook → Packet → Router → Run Verdict
route_rv out hook pkt st =
    let plain = route_packet out hook pkt st in
    if not (is_rv pkt st.node && not (addr_eq pkt.dst st.node.prim_addr)) then plain else do
      (s, verdict) ← rv_route out.node pkt st.node
      let st1 : Router = record st { node = s }
      let dropped : Verdict = (pkt, st1, some rv_drop)
      let passed = route_packet out hook pkt st1
      if verdict == rv_drop then ok dropped else passed

unfoldable pub route : RtOutside → Hook → Packet → Router → Run Verdict
route out hook pkt st =
    let (pkt', st') = bounce out pkt st in
    let passed = route_rv out hook pkt st in
    if leaves_alone pkt st.node
    then ok (accepted pkt st)
    else if is_pre_routing hook && addr_eq pkt.src st.node.prim_addr
    then ok (accepted pkt' st')
    else passed
