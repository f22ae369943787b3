-- ===== src/Routing.antt =====
-- pkt_handle.c: what the hooks do with a packet. `rv_route` takes the rendezvous packets that are
-- for this node; `send_to_next_neighbor` tries the neighbours for the next hop, one after the other,
-- and keeps for each route the bitmap of those that were tried. Here is the choice of the hop; the
-- routes, the whole of `send_to_next_neighbor` and `route` are in the modules below.
pub mod Local
pub mod Bound
pub mod Untried
pub mod Hops
pub mod Entries
pub mod Table
pub mod Forward
pub mod Hooks
pub mod Dump
pub mod Requests
pub mod Install
pub mod Verdict
pub mod Header
pub mod Packets
pub mod Arrival
pub mod Outgoing
pub mod Segments
use antop.Base.{
  ℕ, zero, suc, ◌+◌, Bool, true, false, not, ◌&&◌, ◌||◌, ◌==◌, ltb, List, [], ◌∷◌, Option, none,
  some, if◌then◌else◌, some_elem, set,
}
use antop.Base.Run.{Run, ok, crash, ◌>>=◌}
use antop.Addr.{Addr, addr_eq, check_addr_space, dist, dist_w_mask}
use antop.Node.{
  Node, Neighbor, RecoveredAddr, RvCtrlPkt, Outside, Effect, emit, rv_reg, rv_addr_lookup,
  rv_addr_solve,
}
use antop.Names.{rv_table_add, answer_rv_query}

-- The fields of a packet that are read or written here. The UDP payload is at `UDP_PKT_OFF` in a packet with
-- the option header, and 32 bytes before in one without.
pub record Packet : Type 0 where
  pub src : Addr
  pub dst : Addr
  pub from : Addr
  pub flags : ℕ
  pub ttl : ℕ
  pub with_option : RvCtrlPkt
  pub without_option : RvCtrlPkt

-- The payload: only the packets of this node have the option header.
unfoldable pub payload : Packet → Node → RvCtrlPkt
payload pkt s = if addr_eq pkt.src s.prim_addr then pkt.with_option else pkt.without_option

-- `!check_addr_space(addr, addr2, mask)`.
unfoldable pub in_space : Addr → Addr → ℕ → Bool
in_space addr addr2 mask = check_addr_space addr addr2 mask == 0

-- The returns of `RV_ACCEPT`, which leave the packet to the routing.
unfoldable pub rv_accepts : Addr → Node → Bool
unfolding in_space
rv_accepts addr s =
    let recovered =
      some_elem (λ (r : RecoveredAddr). in_space addr r.prim_addr r.prim_mask) s.rcvd_addr in
    not (in_space addr s.prim_addr s.prim_mask)
    && ((not recovered && not s.sec_addr_flag)
        || (s.sec_addr_flag && not (in_space addr s.sec_addr s.sec_mask)))

abbrev pub rv_accept : ℕ
rv_accept = 1

abbrev pub rv_drop : ℕ
rv_drop = 2

-- The packet is processed here.
unfoldable pub process_rv : Outside → RvCtrlPkt → Node → Run Node
unfolding rv_table_add answer_rv_query
process_rv out rv s =
    let answer = answer_rv_query out.fresh_rv out.name_tail rv s.rv_table in
    let answered = emit (Effect.send_rv answer rv.src_addr 1) s in
    if rv.type_field == rv_addr_lookup
    then ok answered
    else if not (rv.type_field == rv_reg)
    then ok s
    else do table ← rv_table_add rv s.rv_table; ok (record s { rv_table = table })

-- `rv_route`: the node after it, and what it returns.
unfoldable pub rv_route : Outside → Packet → Node → Run (Node × ℕ)
unfolding rv_accepts process_rv payload
rv_route out pkt s =
    let passed : Node × ℕ = (s, rv_accept) in
    if rv_accepts pkt.dst s
    then ok passed
    else do s' ← process_rv out (payload pkt s) s; ok (s', rv_drop)

-- `struct rt_aux_info`: `visited_bitmap` has `MAX_NEIGHBORS` entries.
pub record RtAuxInfo : Type 0 where
  pub src : Addr
  pub dst : Addr
  pub gtw : Addr
  pub visited_bitmap : List Bool
  pub count : ℕ
  pub route_id : ℕ

-- The neighbour that the packet came from is marked, if there is one of that address. A mark past
-- the bitmap is undefined in C, and changes nothing here.
unfoldable pub mark_from : Addr → ℕ → List Neighbor → RtAuxInfo → RtAuxInfo
mark_from from i [] info = info
mark_from from i (n ∷ ns) info =
    let found : RtAuxInfo = record info {
      visited_bitmap = set info.visited_bitmap i true;
      count = info.count + 1;
    } in
    if addr_eq n.prim_addr from then found else mark_from from (i + 1) ns info

-- The loop that computes `all_visited`, over the neighbours and the bitmap.
unfoldable pub all_visited : List Neighbor → List Bool → Bool
all_visited [] bs = true
all_visited (n ∷ ns) [] = true
all_visited (n ∷ ns) (b ∷ bs) = not (n.available == 1 && not b) && all_visited ns bs

-- A neighbour that may be tried.
unfoldable pub free : Neighbor → Bool → Bool
free n visited = not visited && not (n.available == 0)

-- The loop for the neighbour closest to the destination: `i` is its index, `nh_idx` and `best_dist`
-- are what it has so far. Of two at the same distance the later one is taken if the destination is
-- in its address space.
unfoldable pub closest :
    (Neighbor → ℕ) → Addr → ℕ → List Neighbor → List Bool → Option ℕ → ℕ → Option ℕ
unfolding free in_space
closest d dst i [] bs nh_idx best_dist = nh_idx
closest d dst i (n ∷ ns) [] nh_idx best_dist = nh_idx
closest d dst i (n ∷ ns) (b ∷ bs) nh_idx best_dist =
    let better =
      ltb (d n) best_dist || (d n == best_dist && in_space dst n.prim_addr n.prim_mask) in
    let take = free n b && better in
    closest d dst (i + 1) ns bs (if take then some i else nh_idx) (if take then d n else best_dist)

-- The loop for the next neighbour in the table, which does not test for its end.
unfoldable pub next_available : ℕ → List Neighbor → List Bool → Run (Option ℕ)
unfolding free
next_available i ns [] = ok none
next_available i [] (b ∷ bs) = crash
next_available i (n ∷ ns) (b ∷ bs) =
    let later = next_available (i + 1) ns bs in if free n b then ok (some i) else later

-- `NEIGHBORS_BEFORE_PARENT`.
abbrev pub neighbors_before_parent : ℕ
neighbors_before_parent = 2

-- The distance to a neighbour: with its mask for the rendezvous packets.
unfoldable pub hop_dist : Packet → Node → Neighbor → ℕ
unfolding payload
hop_dist pkt s n =
    let t = (payload pkt s).type_field in
    if t == rv_reg || t == rv_addr_lookup || t == rv_addr_solve
    then dist_w_mask pkt.dst n.prim_addr n.prim_mask
    else dist pkt.dst n.prim_addr

-- The choice of `nh_idx`, when not all neighbours are visited. The test of the first neighbour, the
-- parent, comes before the loop.
unfoldable pub next_hop : Packet → Node → RtAuxInfo → Run (Option ℕ)
unfolding closest next_available hop_dist
next_hop pkt s info =
    let parent = next_available 0 s.neigh_table info.visited_bitmap in
    if ltb info.count neighbors_before_parent
    then ok (closest (hop_dist pkt s) pkt.dst 0 s.neigh_table info.visited_bitmap none 10000)
    else parent

-- What becomes of the packet: back to where it came from, nowhere, or to a neighbour.
pub data Hop : Type 0 where
  back no_hop : Hop
  hop : ℕ → Hop

unfoldable pub mark_hop : RtAuxInfo → Option ℕ → Hop × RtAuxInfo
mark_hop info none = (no_hop, info)
mark_hop info (some i) = (hop i, record info { visited_bitmap = set info.visited_bitmap i true })

-- `send_to_next_neighbor`, from the mark of the sender on: the hop, and the route's entry with the
-- neighbour that is tried marked. The kernel still has the route, so it is found again.
unfoldable pub try_neighbor : Packet → Node → RtAuxInfo → Run (Hop × RtAuxInfo)
unfolding mark_from all_visited next_hop mark_hop
try_neighbor pkt s info =
    let info1 = mark_from pkt.from 0 s.neigh_table info in
    let returned : Hop × RtAuxInfo = (back, info1) in
    if all_visited s.neigh_table info1.visited_bitmap
    then ok returned
    else do nh_idx ← next_hop pkt s info1; ok (mark_hop info1 nh_idx)
