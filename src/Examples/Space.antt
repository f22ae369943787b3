-- ===== src/Examples/Space.antt =====
-- Addresses and their allocation.
use antop.Base.{
  ℕ, ◌+◌, ◌≡◌, refl, ◌↔◌, ◌⊎◌, ◌≢◌, List, [], ◌∷◌, ◌++◌, none, some, arith, ◌==◌, take,
  if◌then◌else◌,
}
use antop.Addr.{IsAddr, dist, check_addr_space, null_addr}
use antop.Addr.Hamming.{hamming}
use antop.Addr.Bits.{host_bits}
use antop.Addr.Metric
use antop.Node.{Node}
use antop.Alloc.{next_addr}
use antop.Alloc.Partition
use antop.Alloc.Protocol.{pap_own, adopt}
use antop.Alloc.Network
use antop.Alloc.Unique
use antop.Alloc.Network.{owners, Grown, Join, IsFresh, grant, child}
use antop.Alloc.Races
use antop.Alloc.Races.{Request, handle_all, second_pap, raced}
use antop.Examples.{host, null_addr-IsAddr, clear_pkt, root_node}

two_bits : dist (host 0x0003) (host 0) ≡ 2
unfolding dist antop.Base.htons
two_bits = refl

first_child : next_addr null_addr 0 ≡ record (null_addr) { w4 = 0x0080 }
unfolding next_addr antop.Alloc.toggle antop.Base.htons
first_child = refl

host-IsAddr : IsAddr (host 0x0080)
host-IsAddr = record {
  b0 = omega arith;
  b1 = omega arith;
  b2 = omega arith;
  b3 = omega arith;
  b4 = omega arith;
  b5 = omega arith;
  b6 = omega arith;
  b7 = omega arith;
}

dist-hamming_example :
    dist (host 0x0003) (host 1) ≡ hamming (host_bits (host 0x0003)) (host_bits (host 1))
dist-hamming_example = Metric.dist-hamming (host 0x0003) (host 1)

InSpace_example :
    (check_addr_space (host 0x0080) null_addr 1 ≡ 0)
    ↔ (take 1 (host_bits (host 0x0080)) ≡ take 1 (host_bits null_addr))
InSpace_example =
    Metric.InSpace_iff (host 0x0080) null_addr 1 host-IsAddr null_addr-IsAddr (omega arith)

next_addr_partition_example :
    ((check_addr_space (host 0x0080) null_addr 0 ≡ 0) ↔ (
      (check_addr_space (host 0x0080) null_addr (0 + 1) ≡ 0)
      ⊎ (check_addr_space (host 0x0080) (next_addr null_addr 0) (0 + 1) ≡ 0)))
    × ¬ (
        (check_addr_space (host 0x0080) null_addr (0 + 1) ≡ 0)
        × (check_addr_space (host 0x0080) (next_addr null_addr 0) (0 + 1) ≡ 0))
next_addr_partition_example =
    Partition.next_addr_partition null_addr (host 0x0080) 0 null_addr-IsAddr host-IsAddr
      (omega arith)

root_node-IsFresh : IsFresh root_node
root_node-IsFresh = record {
  addr = null_addr-IsAddr;
  mask_le = omega arith;
  dim_le = omega arith;
  none_offered = refl;
  none_recovered = refl;
}

-- The root, after one node has joined.
abbrev first_parent : Node
first_parent = grant clear_pkt clear_pkt null_addr root_node

abbrev first_joined : Node
first_joined = child clear_pkt root_node root_node

one_join : Grown (root_node ∷ []) (first_parent ∷ first_joined ∷ [])
one_join = Grown.next Grown.here (
    Join.joins clear_pkt clear_pkt null_addr [] [] root_node root_node (omega arith) refl refl refl
      refl)

Grown-owners_one_example : owners (host 0x0080) (first_parent ∷ first_joined ∷ []) ≡ 1
Grown-owners_one_example =
    Network.Grown-owners_one root_node (first_parent ∷ first_joined ∷ []) (host 0x0080)
      root_node-IsFresh refl host-IsAddr one_join

Grown-addr_unique_example : first_parent.prim_addr ≢ first_joined.prim_addr
Grown-addr_unique_example =
    Unique.Grown-addr_unique root_node [] [] [] first_parent first_joined root_node-IsFresh refl
      one_join

two_children_same_addr_example :
    ((adopt (pap_own clear_pkt root_node) root_node).prim_addr
      ≡ (adopt (second_pap clear_pkt clear_pkt (host 1) root_node) root_node).prim_addr)
    × ((adopt (pap_own clear_pkt root_node) root_node).prim_mask
        ≡ (adopt (second_pap clear_pkt clear_pkt (host 1) root_node) root_node).prim_mask)
    × ((raced clear_pkt clear_pkt (host 1) (host 2) root_node).prim_mask ≡ root_node.prim_mask + 2)
two_children_same_addr_example =
    Races.two_children_same_addr clear_pkt clear_pkt (host 1) (host 2) root_node root_node root_node
      root_node-IsFresh (omega arith)
