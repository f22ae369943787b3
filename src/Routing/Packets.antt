-- ===== src/Routing/Packets.antt =====
-- `print_pkt` of pkt_handle.c for the packets that arrive, with what `cb` answers to the kernel for
-- each hook. Outgoing has the hook of the packets of the node itself, on bytes.
use antop.Base.{ℕ, ◌&&◌, ◌==◌, ltb, List, [], ◌∷◌, Option, if◌then◌else◌}
use antop.Base.Run.{Run, ok, ◌>>=◌}
use antop.Addr.{Addr, dist}
use antop.Node.{Neighbor}
use antop.Routing.{Packet, rv_drop}
use antop.Routing.Table.{RtOutside, Router, add_rt_route, max_ttl, or_else}
use antop.Routing.Hooks.{pre_routing, forward_hook, route}

-- `nfq_set_verdict` with the packet: `NF_ACCEPT` or `NF_DROP`.
pub data NfVerdict : Type 0 where
  nf_accept nf_drop : Packet → NfVerdict

abbrev pub ipproto_icmpv6 : ℕ
ipproto_icmpv6 = 58

abbrev pub icmp6_echo_request : ℕ
icmp6_echo_request = 128

-- The loop over the neighbours: the distance and the gateway that it has so far.
unfoldable pub nearest_neighbor : (Addr → ℕ) → List Neighbor → ℕ → Addr → Addr
nearest_neighbor d [] distancia gw = gw
nearest_neighbor d (it ∷ rest) distancia gw =
    let near = ltb (d it.prim_addr) distancia in
    nearest_neighbor d rest (if near then d it.prim_addr else distancia)
      (if near then it.prim_addr else gw)

-- The hook of the packets for this node: an echo request gets a route back to its source. `gw` is
-- what lies on the stack, where there is no neighbour.
unfoldable pub local_in_case : Addr → ℕ → ℕ → Packet → Router → NfVerdict × Router
local_in_case gw ip6_nxt icmp6_type pkt st =
    let hop = nearest_neighbor (dist pkt.src) st.node.neigh_table 99 gw in
    let echo = ip6_nxt == ipproto_icmpv6 && icmp6_type == icmp6_echo_request in
    (nf_accept pkt, if echo then add_rt_route pkt.src hop 128 max_ttl st else st)

-- The packets that are forwarded are routed and accepted.
unfoldable pub forward_case : RtOutside → Packet → Router → Run (NfVerdict × Router)
forward_case out pkt st = do
  (pkt', st', v) ← route out forward_hook pkt st
  ok (nf_accept pkt', st')

-- Before the routing a packet is dropped where `route` returns `RV_DROP`. `left` is what the caller
-- finds where `route` ends without a value.
unfoldable pub pre_routing_verdict : ℕ → Option ℕ → Packet → NfVerdict
pre_routing_verdict left v pkt = if or_else v left == rv_drop then nf_drop pkt else nf_accept pkt

unfoldable pub pre_routing_case : RtOutside → ℕ → Packet → Router → Run (NfVerdict × Router)
pre_routing_case out left pkt st = do
  (pkt', st', v) ← route out pre_routing pkt st
  ok (pre_routing_verdict left v pkt', st')
