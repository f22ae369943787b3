-- ===== src/HeartBeat/Heard.antt =====
-- The heart beats that `process_hb` takes in.
use antop.Base.{
  ◌≡◌, refl, ap, ◌∙◌, inl, inr, Bool, true, false, not, ◌&&◌, ◌||◌, ◌==◌, ltb, List, some_elem,
  Bool-cases, arith,
}
use antop.Base.Run.{Run, ok}
use antop.Addr.{addr_eq, dist}
use antop.Node.{Node, Neighbor, CtrlPkt, Outside}
use antop.Neighbors.Supervision.{survivors, here}
use antop.Neighbors.Hearing.{fresh_entry, hear-survivors}
use antop.Fragment.{detector_de_fragmentacion}
use antop.Mezcla.{Detected, detector_de_mezcla}
use antop.HeartBeat.{changing, keep_neighbor, process_hb_same, process_hb}

-- The sender is another node, and a neighbour at the primary address or at the secondary one. Before
-- there is a primary address every other node is one.
unfoldable pub from_neighbor : CtrlPkt → Node → Bool
from_neighbor hb s =
    not (addr_eq hb.prim_addr s.prim_addr)
    && not (addr_eq hb.prim_addr s.sec_addr)
    && (not s.prim_addr_flag
        || dist s.prim_addr hb.prim_addr == 1
        || (s.sec_addr_flag && dist s.sec_addr hb.prim_addr == 1))

-- The table has the sender, and the search for a lost root goes on with it.
abbrev pub Hears : Outside → CtrlPkt → Node → Run Node → Type 0
Hears out hb s r =
    (table : List Neighbor) × (r
      ≡ ok (detector_de_fragmentacion out (record s { neigh_table = table })))
    × (fresh_entry hb.prim_addr table ≡ true)
    × (some_elem (here hb.prim_addr) (survivors table) ≡ true)

keep_neighbor-Hears :
    (out : Outside) (hb : CtrlPkt) (flag : Bool) (s : Node)
    → Hears out hb s (keep_neighbor out hb flag s)
unfolding keep_neighbor
keep_neighbor-Hears out hb flag s =
    let (table, r, fresh, kept) =
      hear-survivors out.fresh_neighbor out.fresh_neighbor hb flag s.neigh_table in
    (table, rw r refl, fresh, kept)

process_hb_same-keeps :
    (out : Outside) (hb : CtrlPkt) (s : Node)
    → from_neighbor hb s ≡ true
    → (flag : Bool) × (process_hb_same out hb s ≡ keep_neighbor out hb flag s)
unfolding process_hb_same from_neighbor
process_hb_same-keeps out hb s h =
    let own : (addr_eq hb.prim_addr s.prim_addr || addr_eq hb.prim_addr s.sec_addr) ≡ false =
      ground arith in
    elim (Bool-cases (not (not (dist s.prim_addr hb.prim_addr == 1) && s.prim_addr_flag))) [
      | inl near ↦ (false, rw (own, near) refl)
      | inr far ↦
          let flag : not s.sec_addr_flag ≡ false = ground arith in
          let linked : not (dist s.sec_addr hb.prim_addr == 1) ≡ false = ground arith in
          (true, rw (own, far, flag, linked) refl)
    ]

detector_de_mezcla-same :
    (out : Outside) (hb : CtrlPkt) (s : Node)
    → (s.red_numero == hb.ad_addr.red_numero) ≡ true
    → detector_de_mezcla out hb s ≡ (s, Detected.same_network)
unfolding detector_de_mezcla
detector_de_mezcla-same out hb s same =
    let not_less : ltb s.red_numero hb.ad_addr.red_numero ≡ false = ground (arith, same) in
    rw (not_less, same) refl

process_hb-same :
    (out : Outside) (hb : CtrlPkt) (s : Node)
    → changing s ≡ false
    → (s.red_numero == hb.ad_addr.red_numero) ≡ true
    → process_hb out hb s ≡ process_hb_same out hb s
unfolding process_hb
process_hb-same out hb s idle same =
    let detected = detector_de_mezcla-same out hb s same in
    let node : (detector_de_mezcla out hb s).0 ≡ s = ap (λ (p : Node × Detected). p.0) detected in
    rw (idle, detected) (ap (process_hb_same out hb) node)

-- While no fragmentation or mixing is under way, a heart beat of the node's network from another node
-- that is a neighbour is taken in, whatever the table is: its sender is then in the table with count
-- 0, and would be among the survivors of the next round of `check_neighbors`, and what is left to do
-- is `detector_de_fragmentacion`, with this table.
pub process_hb-hears :
    (out : Outside) (hb : CtrlPkt) (s : Node)
    → changing s ≡ false
    → (s.red_numero == hb.ad_addr.red_numero) ≡ true
    → from_neighbor hb s ≡ true
    → (table : List Neighbor) × (process_hb out hb s
        ≡ ok (detector_de_fragmentacion out (record s { neigh_table = table })))
      × (fresh_entry hb.prim_addr table ≡ true)
      × (some_elem (here hb.prim_addr) (survivors table) ≡ true)
process_hb-hears out hb s idle same near =
    let (flag, kept) = process_hb_same-keeps out hb s near in
    let (table, r, fresh, survives) = keep_neighbor-Hears out hb flag s in
    (table, process_hb-same out hb s idle same ∙ kept ∙ r, fresh, survives)
