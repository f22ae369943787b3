-- ===== src/Routing/Install.antt =====
-- The route that `send_to_next_neighbor` installs.
use antop.Base.{
  ℕ, zero, suc, ◌<◌, ◌%◌, ◌≡◌, ◌⊎◌, refl, ap, ◌∙◌, inl, inr, Bool, true, false, ◌==◌, List, [], ◌∷◌,
  ◌++◌, some, if◌then◌else◌, set, get_elem?, Bool-cases, arith,
}
use antop.Base.Run.{Run, ok, crash}
use antop.Addr.{Addr, addr_eq}
use antop.Node.{Neighbor, sub8}
use antop.Routing.{Packet, RtAuxInfo, mark_from, all_visited}
use antop.Routing.Bound.{MasksFit, MasksFit-AllNear}
use antop.Routing.Untried.{
  untried, free_at, untried-set, all_visited-untried, mark_from-untried, mark_from-free,
}
use antop.Routing.Hops.{next_hop-found}
use antop.Routing.Table.{
  Route, Request, new_route, del_route, RtOutside, SrcNat, Router, routes, rt_table_dump,
  add_rt_route, del_rt_route, add_src_nat, has_nat,
}
use antop.Routing.Forward.{forward, install, send_via, send_back}

-- A neighbour that may be tried is in the table.
free_at-get_elem? :
    (k : ℕ) (ns : List Neighbor) (bs : List Bool)
    → free_at k ns bs ≡ true
    → (n : Neighbor) × (get_elem? ns k ≡ some n)
unfolding free_at
free_at-get_elem? k [] bs h = absurd (ground arith)
free_at-get_elem? k (n ∷ ns) [] h = absurd (ground arith)
free_at-get_elem? zero (n ∷ ns) (b ∷ bs) h = (n, refl)
free_at-get_elem? (suc k) (n ∷ ns) (b ∷ bs) h = free_at-get_elem? k ns bs h

-- The table of the addresses that are translated takes one more, or its first node has no end.
abbrev NatOutcome : RtOutside → List SrcNat → Run (List SrcNat) → Type 0
NatOutcome out nat r =
    ((nat' : List SrcNat) × (r ≡ ok nat'))
    ⊎ ((r ≡ crash) × (nat ≡ []) × (out.nat_next_null ≡ false))

add_src_nat-NatOutcome :
    (out : RtOutside) (dst src : Addr) (nat : List SrcNat)
    → NatOutcome out nat (add_src_nat out dst src nat)
unfolding add_src_nat
add_src_nat-NatOutcome out dst src [] = elim (Bool-cases out.nat_next_null) [
  | inl h ↦ inl (out.fresh_nat ∷ record { dst = dst; src = src } ∷ [], rw h refl)
  | inr h ↦ inr (rw h refl, refl, h)
]
add_src_nat-NatOutcome out dst src (e ∷ es) = elim (Bool-cases (has_nat dst (e ∷ es))) [
  | inl old ↦ inl (e ∷ es, rw old refl)
  | inr new ↦ inl ((e ∷ es) ++ record { dst = dst; src = src } ∷ [], rw new refl)
]

conn-NatOutcome :
    (out : RtOutside) (dst src : Addr) (conn : ℕ) (nat : List SrcNat)
    → NatOutcome out nat (if conn == 0 then ok nat else add_src_nat out dst src nat)
conn-NatOutcome out dst src conn nat = elim (Bool-cases (conn == 0)) [
  | inl e ↦ rw e (inl (nat, refl))
  | inr e ↦ rw e (add_src_nat-NatOutcome out dst src nat)
]

set-set : {A : Type 0} (xs : List A) (k : ℕ) (a b : A) → set (set xs k a) k b ≡ set xs k b
set-set [] k a b = refl
set-set (x ∷ xs) zero a b = refl
set-set (x ∷ xs) (suc k) a b = ap (λ (rest : List _). x ∷ rest) (set-set xs k a b)

-- The requests for a route that gets a new gateway.
abbrev pub rerouted : Route → Addr → List Request → List Request
rerouted rt nh rs =
    rs
    ++ del_route rt.dst rt.gtw (rt.dst_mask % 256) rt.distance ∷ []
    ++ new_route rt.dst nh 128 rt.distance ∷ []

send_via-installs :
    (out : RtOutside) (pkt : Packet) (place : ℕ) (info : RtAuxInfo) (i : ℕ) (rt : Route)
    (n : Neighbor) (st : Router)
    → ((st' : Router) × (send_via out pkt place info i rt n st
          ≡ ok (record pkt { ttl = sub8 pkt.ttl 1 }, st'))
        × (st'.requests ≡ rerouted rt n.prim_addr st.requests)
        × (st'.rt_info
            ≡ set st.rt_info place
                (record info { visited_bitmap = set info.visited_bitmap i true })))
      ⊎ ((send_via out pkt place info i rt n st ≡ crash)
          × (st.nat_table ≡ [])
          × (out.nat_next_null ≡ false))
unfolding send_via add_rt_route del_rt_route
send_via-installs out pkt place info i rt n st =
    elim (conn-NatOutcome out rt.dst st.node.sec_addr n.sec_addr_conn st.nat_table) [
      | inl (nat', r) ↦
          let st1 = del_rt_route rt.dst rt.gtw rt.dst_mask rt.distance st in
          let st2 = add_rt_route rt.dst n.prim_addr 128 rt.distance st1 in
          let marked : RtAuxInfo = record info {
            visited_bitmap = set info.visited_bitmap i true;
          } in
          inl (
            record st2 { rt_info = set st2.rt_info place marked; nat_table = nat' },
            rw r refl,
            refl,
            refl,
          )
      | inr (r, empty, garbage) ↦ inr (rw r refl, empty, garbage)
    ]

-- Where the route is still in the list and the masks of the neighbours fit in an `unsigned char`,
-- `send_to_next_neighbor` sends the packet back, or its route gets an available neighbour as its
-- gateway that was not tried: the old route is deleted, then the new one is added, and of the
-- neighbours at least one less may still be tried. Or it crashes, which it does only when it adds the
-- first node to `nat_table` and the `next` of that node, which is never set, is not null.
pub forward-installs :
    (out : RtOutside) (pkt : Packet) (id place : ℕ) (info : RtAuxInfo) (st : Router) (rt : Route)
    → MasksFit st.node.neigh_table
    → get_elem? (routes (rt_table_dump out st)) id ≡ some rt
    → addr_eq rt.dst pkt.dst ≡ true
    → ((st1 : Router) × (forward out pkt (some id) place info st ≡ ok (send_back out pkt st1))
        × (st1.requests ≡ st.requests))
      ⊎ ((i : ℕ) × (n : Neighbor) × (info' : RtAuxInfo) × (st' : Router) × (forward out pkt
              (some id)
              place
              info
              st
            ≡ ok (record pkt { ttl = sub8 pkt.ttl 1 }, st'))
          × (get_elem? st.node.neigh_table i ≡ some n)
          × (free_at i st.node.neigh_table info.visited_bitmap ≡ true)
          × (st'.requests ≡ rerouted rt n.prim_addr st.requests)
          × (st'.rt_info ≡ set st.rt_info place info')
          × (untried st.node.neigh_table info'.visited_bitmap
              < untried st.node.neigh_table info.visited_bitmap))
      ⊎ ((forward out pkt (some id) place info st ≡ crash)
          × (st.nat_table ≡ [])
          × (out.nat_next_null ≡ false))
unfolding forward install rt_table_dump
forward-installs out pkt id place info st rt fit found same =
    let ns = st.node.neigh_table in
    let info1 = mark_from pkt.from 0 ns info in
    let bs = info1.visited_bitmap in
    let st1 : Router = record st { rt_info = set st.rt_info place info1 } in
    elim (Bool-cases (all_visited ns bs)) [
      | inl e ↦ inl (st1, rw e refl, refl)
      | inr e ↦
          let h = all_visited-untried ns bs e in
          let (i, r, f) =
            next_hop-found pkt st.node info1 (MasksFit-AllNear pkt st.node ns fit) h in
          let (n, at) = free_at-get_elem? i ns bs f in
          elim (send_via-installs out pkt place info1 i rt n (rt_table_dump out st1)) [
            | inr (v, empty, garbage) ↦ inr (inr (rw (e, r, found, at, same) v, empty, garbage))
            | inl (st', v, rs, is) ↦ inr (
                inl (
                  i,
                  n,
                  record info1 { visited_bitmap = set bs i true },
                  st',
                  rw (e, r, found, at, same) v,
                  at,
                  mark_from-free pkt.from 0 i ns ns info f,
                  rs,
                  is ∙ set-set st.rt_info place info1 _,
                  omega (arith, untried-set i ns bs f, mark_from-untried pkt.from 0 ns ns info),
                ))
          ]
    ]
