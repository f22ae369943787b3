-- ===== src/Examples/Routes.antt =====
-- Packets on their way.
use antop.Base.{none, ◌++◌, ◌≡◌, refl, false, List, [], ◌∷◌, arith}
use antop.Base.Run.{ok}
use antop.Addr.{null_addr, addr_eq}
use antop.Node.{Node, Neighbor, RvCtrlPkt, rv_addr_solve}
use antop.Routing.{Packet, RtAuxInfo}
use antop.Routing.Bound.{MasksFit}
use antop.Routing.Entries
use antop.Routing.Entries.{
  has_dst, has_route, add_rt_info, del_rt_info, new_rt_info, clear_vb, entry_of, cleared, vb_t,
  route_t, t_vb, t_route,
}
use antop.Examples.{host}
use antop.Examples.Networks.{below, clear_rv, clear_neighbor}

abbrev solution : RvCtrlPkt
solution = record (clear_rv) { type_field = rv_addr_solve }

-- For an address above the node, from no neighbour.
abbrev pub to_above : Packet
to_above = record {
  src = null_addr;
  dst = host 0x0001;
  from = null_addr;
  flags = 4;
  ttl = 10;
  with_option = solution;
  without_option = solution;
}

abbrev pub untouched : RtAuxInfo
untouched = record {
  src = null_addr;
  dst = null_addr;
  gtw = null_addr;
  visited_bitmap = false ∷ false ∷ [];
  count = 0;
  route_id = 3;
}

abbrev two_ways : List Neighbor
two_ways =
    record (clear_neighbor) { prim_addr = host 0x00c0; prim_mask = 2; available = 1 }
    ∷ record (clear_neighbor) { prim_addr = host 0; prim_mask = 1; available = 1 }
    ∷ []

abbrev pub crossing : Node
crossing = record (below) { neigh_table = two_ways }

pub crossing-MasksFit : MasksFit crossing.neigh_table
crossing-MasksFit = (omega arith, (omega arith, tt))

unlike : has_dst (host 9) (untouched ∷ []) ≡ false
unfolding has_dst addr_eq
unlike = refl

unknown : has_route (host 1) untouched.gtw (untouched ∷ []) ≡ false
unfolding has_route addr_eq
unknown = refl

unused : has_route (host 1) (host 5) (untouched ∷ []) ≡ false
unfolding has_route addr_eq
unused = refl

other_gtw : addr_eq (host 5) untouched.gtw ≡ false
unfolding addr_eq
other_gtw = refl

-- A route that is not known yet; nothing on the stack looks like the known one.
del_rt_info-add_rt_info_example :
    (table : List RtAuxInfo) × (add_rt_info untouched (host 9) (host 1) none 4 (untouched ∷ [])
      ≡ ok (table, vb_t (host 1) t_vb ∷ route_t (host 1) t_route ∷ []))
    × (table ≡ (untouched ∷ []) ++ new_rt_info untouched (host 1) none 4 ∷ [])
    × (del_rt_info (host 1) null_addr table ≡ untouched ∷ [])
    × (del_rt_info (host 1) (host 5) table ≡ table)
del_rt_info-add_rt_info_example =
    Entries.del_rt_info-add_rt_info untouched (host 9) (host 1) (host 5) none 4 untouched [] unlike
      unknown unused other_gtw
