-- ===== src/Routing/Arrival.antt =====
-- The packets that arrive: the route back to the source of an echo request, and what is dropped.
use antop.Base.{
  ℕ, ◌≡◌, ◌↔◌, refl, sym, ap, ◌∙◌, inl, inr, true, false, ◌==◌, ltb, List, [], ◌∷◌, ◌++◌, some,
  none, map, Option, Bool, Bool-cases, subst, arith, ==_iff,
}
use antop.Base.Run.{ok, crash, Run-cases}
use antop.Addr.{Addr, dist}
use antop.Addr.Metric.{dist_metric}
use antop.Addr.Nearest.{Among, AllFrom, Chosen, nearer-Chosen, farther-Chosen}
use antop.Node.{Neighbor}
use antop.Routing.{Packet, rv_drop}
use antop.Routing.Table.{new_route, RtOutside, Router, add_rt_route, max_ttl}
use antop.Routing.Hooks.{pre_routing, route}
use antop.Routing.Verdict.{taken, route-drop_iff}
use antop.Routing.Packets.{
  NfVerdict, nf_accept, nf_drop, ipproto_icmpv6, icmp6_echo_request, nearest_neighbor,
  local_in_case, pre_routing_verdict, pre_routing_case,
}

-- The primary addresses of the neighbours.
abbrev pub addresses : List Neighbor → List Addr
addresses = map (λ (n : Neighbor). n.prim_addr)

nearest_neighbor-Chosen :
    (d : Addr → ℕ) (ns : List Neighbor) (m : ℕ) (gw : Addr)
    → Chosen d (addresses ns) m gw (nearest_neighbor d ns m gw)
nearest_neighbor-Chosen d [] m gw = inl (unfold nearest_neighbor in refl, tt)
nearest_neighbor-Chosen d (n ∷ ns) m gw =
    let P : Addr → Type 0 = Chosen d (addresses (n ∷ ns)) m gw in
    let a = n.prim_addr in
    elim (Bool-cases (ltb (d a) m)) [
      | inl near ↦
          let r = nearest_neighbor d ns (d a) a in
          let all = nearest_neighbor-Chosen d ns (d a) a in
          let same : nearest_neighbor d (n ∷ ns) m gw ≡ r =
            unfold nearest_neighbor in rw near refl in
          subst P (sym same) (nearer-Chosen d a r gw (addresses ns) m (ground (arith, near)) all)
      | inr far ↦
          let r = nearest_neighbor d ns m gw in
          let all = nearest_neighbor-Chosen d ns m gw in
          let same : nearest_neighbor d (n ∷ ns) m gw ≡ r =
            unfold nearest_neighbor in rw far refl in
          subst P (sym same) (farther-Chosen d a r gw (addresses ns) m (ground (arith, far)) all)
    ]

-- An echo request for this node, which has a neighbour, is accepted, and one request is made: for a
-- route back to its source over one of the neighbours, and none is nearer to the source.
pub local_in_case-nearest :
    (gw : Addr) (pkt : Packet) (st : Router) (n : Neighbor) (ns : List Neighbor)
    → st.node.neigh_table ≡ n ∷ ns
    → (hop : Addr) × Among hop (addresses (n ∷ ns))
      × AllFrom (dist pkt.src) (dist pkt.src hop) (addresses (n ∷ ns))
      × ((local_in_case gw ipproto_icmpv6 icmp6_echo_request pkt st).0 ≡ nf_accept pkt)
      × ((local_in_case gw ipproto_icmpv6 icmp6_echo_request pkt st).1.requests
          ≡ st.requests ++ new_route pkt.src hop 128 max_ttl ∷ [])
unfolding local_in_case add_rt_route
local_in_case-nearest gw pkt st n ns e =
    let d = dist pkt.src in
    let hop = nearest_neighbor d (n ∷ ns) 99 gw in
    let bound = (dist_metric pkt.src n.prim_addr n.prim_addr).3 in
    elim (nearest_neighbor-Chosen d (n ∷ ns) 99 gw) [
      | inl (same, (far, all)) ↦ absurd (omega (arith, bound, far))
      | inr (among, lt, all) ↦ (hop, among, all, refl, rw e refl)
    ]

accept_drop : (p q : Packet) → nf_accept p ≡ nf_drop q → ⊥
accept_drop p q h = cc

absent : (n : ℕ) → ◌≡◌ {A = Option ℕ} none (some n) → ⊥
absent n h = cc

other_drop : (n : ℕ) → (n == rv_drop) ≡ false → some n ≡ some rv_drop → ⊥
other_drop n d h = let e : n ≡ rv_drop = cc in absurd (ground (arith, e, d))

pre_routing_verdict-drop_iff :
    (left : ℕ) (v : Option ℕ) (pkt : Packet) (b : Bool)
    → (left == rv_drop) ≡ false
    → (v ≡ some rv_drop) ↔ (b ≡ true)
    → ((pkt' : Packet) × (pre_routing_verdict left v pkt ≡ nf_drop pkt')) ↔ (b ≡ true)
unfolding pre_routing_verdict
pre_routing_verdict-drop_iff left none pkt b l iff =
    rw l (λ e. absurd (accept_drop pkt e.0 e.1), λ t. absurd (absent rv_drop (iff.1 t)))
pre_routing_verdict-drop_iff left (some n) pkt b l iff = elim (Bool-cases (n == rv_drop)) [
  | inl d ↦ rw d (λ _. iff.0 (ap some ((==_iff n rv_drop).0 d)), λ t. (pkt, refl))
  | inr d ↦ rw d (λ e. absurd (accept_drop pkt e.0 e.1), λ t. absurd (other_drop n d (iff.1 t)))
]

crash_ok : (r : NfVerdict × Router) → crash ≡ ok r → ⊥
crash_ok r h = cc

verdict_of : (r : NfVerdict × Router) (w : NfVerdict) (st : Router) → ok r ≡ ok (w, st) → r.0 ≡ w
verdict_of r w st h = cc

-- When `route` returns, with a value or with another one than `RV_DROP` left in its place, a packet
-- is dropped before the routing exactly if it is a rendezvous packet that the node takes.
pub pre_routing_case-drop_iff :
    (out : RtOutside) (left : ℕ) (pkt : Packet) (st st' : Router) (verdict : NfVerdict)
    → (left == rv_drop) ≡ false
    → pre_routing_case out left pkt st ≡ ok (verdict, st')
    → ((pkt' : Packet) × (verdict ≡ nf_drop pkt')) ↔ (taken pre_routing pkt st.node ≡ true)
unfolding pre_routing_case
pre_routing_case-drop_iff out left pkt st st' verdict l h =
    elim (Run-cases (route out pre_routing pkt st)) [
      | inl c ↦ absurd (crash_ok (verdict, st') (sym (rw c refl) ∙ h))
      | inr ((p, s, v), r) ↦
          let iff = route-drop_iff out pre_routing pkt p st s v r in
          let same : pre_routing_verdict left v p ≡ verdict =
            verdict_of (pre_routing_verdict left v p, s) verdict st' (sym (rw r refl) ∙ h) in
          let Dropped : NfVerdict → Type 0 = λ w. (pkt' : Packet) × (w ≡ nf_drop pkt') in
          subst (λ w. Dropped w ↔ (taken pre_routing pkt st.node ≡ true)) same
            (pre_routing_verdict-drop_iff left v p (taken pre_routing pkt st.node) l iff)
    ]
