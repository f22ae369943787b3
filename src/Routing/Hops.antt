-- ===== src/Routing/Hops.antt =====
-- Every try of `send_to_next_neighbor` marks one more neighbour, so the tries end.
use antop.Base.{
  ℕ, zero, suc, ◌+◌, ◌<◌, ◌≡◌, ◌⊎◌, inl, inr, refl, sym, ap, ◌∙◌, Bool, true, ◌&&◌, ◌||◌, ◌==◌, ltb,
  List, [], ◌∷◌, Option, none, some, set, arith, subst, Bool-cases,
}
use antop.Base.Run.{ok}
use antop.Addr.{Addr}
use antop.Node.{Node, Neighbor}
use antop.Routing.Bound.{AllNear, MasksFit, MasksFit-AllNear}
use antop.Routing.{
  Packet, RtAuxInfo, mark_from, all_visited, free, closest, next_available, hop_dist, next_hop,
  back, hop, mark_hop, try_neighbor, in_space,
}
use antop.Routing.Untried.{
  untried, free_at, untried-set, all_visited-untried, mark_from-untried, mark_from-free,
}

-- The place `j`, counted from `i`, may be tried.
abbrev Free : ℕ → ℕ → List Neighbor → List Bool → Type 0
Free i j ns bs = (k : ℕ) × (j ≡ i + k) × (free_at k ns bs ≡ true)

later-Free :
    (i j : ℕ) (n : Neighbor) (b : Bool) (ns : List Neighbor) (bs : List Bool)
    → Free (i + 1) j ns bs
    → Free i j (n ∷ ns) (b ∷ bs)
unfolding free_at
later-Free i j n b ns bs (k, e, f) = (suc k, omega arith, f)

module _ (d : Neighbor → ℕ) (dst : Addr) where
  -- What the loop returns is what it had, or a neighbour that may be tried.
  closest-Free :
      (i j : ℕ) (ns : List Neighbor) (bs : List Bool) (nh : Option ℕ) (best : ℕ)
      → closest d dst i ns bs nh best ≡ some j
      → (nh ≡ some j) ⊎ Free i j ns bs
  unfolding closest free_at
  closest-Free i j [] bs nh best h = inl h
  closest-Free i j (n ∷ ns) [] nh best h = inl h
  closest-Free i j (n ∷ ns) (b ∷ bs) nh best h =
      let better = ltb (d n) best || (d n == best && in_space dst n.prim_addr n.prim_mask) in
      elim (Bool-cases (free n b && better)) [
        | inl e ↦ elim (closest-Free (i + 1) j ns bs (some i) (d n) (sym (rw e refl) ∙ h)) [
          | inl here ↦ inr (zero, ground arith, ground arith)
          | inr there ↦ inr (later-Free i j n b ns bs there)
        ]
        | inr e ↦ elim (closest-Free (i + 1) j ns bs nh best (sym (rw e refl) ∙ h)) [
          | inl kept ↦ inl kept
          | inr there ↦ inr (later-Free i j n b ns bs there)
        ]
      ]

  -- Once the loop has one, it returns one.
  closest-kept :
      (i j : ℕ) (ns : List Neighbor) (bs : List Bool) (best : ℕ)
      → (m : ℕ) × (closest d dst i ns bs (some j) best ≡ some m)
  unfolding closest
  closest-kept i j [] bs best = (j, refl)
  closest-kept i j (n ∷ ns) [] best = (j, refl)
  closest-kept i j (n ∷ ns) (b ∷ bs) best =
      let better = ltb (d n) best || (d n == best && in_space dst n.prim_addr n.prim_mask) in
      elim (Bool-cases (free n b && better)) [
        | inl e ↦ rw e (closest-kept (i + 1) i ns bs (d n))
        | inr e ↦ rw e (closest-kept (i + 1) j ns bs best)
      ]

  -- It has one if there is one.
  closest-found :
      (i : ℕ) (ns : List Neighbor) (bs : List Bool)
      → AllNear d ns
      → 0 < untried ns bs
      → (m : ℕ) × (closest d dst i ns bs none 10000 ≡ some m)
  unfolding closest untried
  closest-found i [] bs near h = absurd (omega arith)
  closest-found i (n ∷ ns) [] near h = absurd (omega arith)
  closest-found i (n ∷ ns) (b ∷ bs) near h = elim (Bool-cases (free n b)) [
    | inl e ↦
        let near_n : ltb (d n) 10000 ≡ true = ground (arith, near.0) in
        rw (e, near_n) (closest-kept (i + 1) i ns bs (d n))
    | inr e ↦ rw e (closest-found (i + 1) ns bs near.1 (ground arith))
  ]

next_available-found :
    (i : ℕ) (ns : List Neighbor) (bs : List Bool)
    → 0 < untried ns bs
    → (m : ℕ) × (next_available i ns bs ≡ ok (some m)) × Free i m ns bs
unfolding next_available untried free_at
next_available-found i [] bs h = absurd (omega arith)
next_available-found i (n ∷ ns) [] h = absurd (omega arith)
next_available-found i (n ∷ ns) (b ∷ bs) h = elim (Bool-cases (free n b)) [
  | inl e ↦ (i, rw e refl, (zero, omega arith, e))
  | inr e ↦
      let (m, r, f) = next_available-found (i + 1) ns bs (ground arith) in
      (m, rw e r, later-Free i m n b ns bs f)
]

-- Counted from 0 the place is the index.
from_zero : (m : ℕ) (ns : List Neighbor) (bs : List Bool) → Free 0 m ns bs → free_at m ns bs ≡ true
from_zero m ns bs (k, e, f) =
    let same : k ≡ m = omega arith in subst (λ (i : ℕ). free_at i ns bs ≡ true) same f

chosen-Free :
    (m : ℕ) (ns : List Neighbor) (bs : List Bool)
    → (none ≡ some m) ⊎ Free 0 m ns bs
    → free_at m ns bs ≡ true
chosen-Free m ns bs (inl e) = cc
chosen-Free m ns bs (inr f) = from_zero m ns bs f

pub next_hop-found :
    (pkt : Packet) (s : Node) (info : RtAuxInfo)
    → AllNear (hop_dist pkt s) s.neigh_table
    → 0 < untried s.neigh_table info.visited_bitmap
    → (m : ℕ) × (next_hop pkt s info ≡ ok (some m))
      × (free_at m s.neigh_table info.visited_bitmap ≡ true)
next_hop-found pkt s info near h =
    let ns = s.neigh_table in
    let bs = info.visited_bitmap in
    let (m, r) = closest-found (hop_dist pkt s) pkt.dst 0 ns bs near h in
    let (k, r', f') = next_available-found 0 ns bs h in
    elim (Bool-cases (ltb info.count 2)) [
      | inl e ↦ (
        m,
        unfold next_hop in rw e (ap (λ (o : Option ℕ). ok o) r),
        chosen-Free m ns bs (closest-Free (hop_dist pkt s) pkt.dst 0 m ns bs none 10000 r),
      )
      | inr e ↦ (k, unfold next_hop in rw e r', from_zero k ns bs f')
    ]

-- A try never reads past the table: it either sends the packet back, or finds a next hop, which is
-- an available neighbour that was not tried, and there is then at least one neighbour less to try.
-- The masks of the neighbours fit in an `unsigned char`.
pub try_neighbor-untried :
    (pkt : Packet) (s : Node) (info : RtAuxInfo)
    → MasksFit s.neigh_table
    → (info' : RtAuxInfo) × ((try_neighbor pkt s info ≡ ok (back, info'))
        ⊎ ((i : ℕ) × (try_neighbor pkt s info ≡ ok (hop i, info'))
            × (free_at i s.neigh_table info.visited_bitmap ≡ true)
            × (untried s.neigh_table info'.visited_bitmap
                < untried s.neigh_table info.visited_bitmap)))
try_neighbor-untried pkt s info v =
    let ns = s.neigh_table in
    let info1 = mark_from pkt.from 0 ns info in
    let bs = info1.visited_bitmap in
    elim (Bool-cases (all_visited ns bs)) [
      | inl e ↦ (info1, inl (unfold try_neighbor in rw e refl))
      | inr e ↦
          let h = all_visited-untried ns bs e in
          let (i, r, f) = next_hop-found pkt s info1 (MasksFit-AllNear pkt s ns v) h in
          (
            record info1 { visited_bitmap = set bs i true },
            inr (
              i,
              unfold try_neighbor mark_hop in rw (e, r) refl,
              mark_from-free pkt.from 0 i ns ns info f,
              omega (arith, untried-set i ns bs f, mark_from-untried pkt.from 0 ns ns info),
            ),
          )
    ]
