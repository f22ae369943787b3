-- ===== src/Fragment/Start.antt =====
-- What a node that starts a network of its own tells its neighbours.
use antop.Base.{
  ℕ, ◌≡◌, refl, ◌∙◌, sym, ap, Bool, true, false, List, [], ◌∷◌, ◌++◌, ◌&&◌, ◌==◌, if◌then◌else◌,
  arith, some_elem, remove_first, inl, inr, Bool-cases,
}
use mathlib.Core.List.{append-nil, append_assoc}
use antop.Addr.{Addr, addr_eq, dist}
use antop.Alloc.Network.{addr_eq_refl}
use antop.Node.{Node, Neighbor, Outside, Effect, new_red_numero}
use antop.Neighbors.{delete_neighbor}
use antop.Shift.{shift, del_and_addnew}
use antop.Names.{rv_table_delete, clear_rv_tables}
use antop.Fragment.{far_pkt, send_far, send_fars, new_network, fragmentacion}

-- One FAR for every neighbour, in order, but for those at the other end of a secondary link.
unfoldable pub fars : Outside → Addr → Addr → Bool → Addr → ℕ → ℕ → List Neighbor → List Effect
fars out src old sec_flag sec mask red [] = []
fars out src old sec_flag sec mask red (it ∷ rest) =
    let later = fars out src old sec_flag sec mask red rest in
    if sec_flag && dist sec it.prim_addr == 1
    then later
    else Effect.send (far_pkt out src it.prim_addr old mask red) it.prim_addr 20 ∷ later

-- The node without the first entry of its table.
delete_first :
    (it : Neighbor) (rest : List Neighbor) (s : Node)
    → s.neigh_table ≡ it ∷ rest
    → (delete_neighbor it s).0
      ≡ record s { neigh_table = rest; rv_table = rv_table_delete it.prim_addr s.rv_table }
unfolding delete_neighbor
delete_first it rest s e =
    let found : some_elem (λ (n : Neighbor). addr_eq n.prim_addr it.prim_addr) s.neigh_table
        ≡ true =
      rw e (unfold some_elem in ground (arith, addr_eq_refl it.prim_addr)) in
    let removed : remove_first (λ (n : Neighbor). addr_eq n.prim_addr it.prim_addr) s.neigh_table
        ≡ rest =
      rw e (unfold remove_first in ground (arith, addr_eq_refl it.prim_addr)) in
    rw (found, removed) refl

module _ (out : Outside) (src old : Addr) (it : Neighbor) (rest : List Neighbor) (s : Node) where
  skip_linked :
      s.neigh_table ≡ it ∷ rest
      → (s.sec_addr_flag && dist s.sec_addr it.prim_addr == 1) ≡ true
      → send_fars out src old (it ∷ rest) s
        ≡ send_fars out src old rest
            (record s { neigh_table = rest; rv_table = rv_table_delete it.prim_addr s.rv_table })
  unfolding send_fars
  skip_linked e linked = ap (send_fars out src old rest) (rw linked (delete_first it rest s e))

  tell_free :
      s.neigh_table ≡ it ∷ rest
      → (s.sec_addr_flag && dist s.sec_addr it.prim_addr == 1) ≡ false
      → send_fars out src old (it ∷ rest) s
        ≡ send_fars out src old rest (record (send_far out src it.prim_addr old s) {
          neigh_table = rest;
          rv_table = rv_table_delete it.prim_addr s.rv_table;
        })
  unfolding send_fars send_far
  tell_free e free =
      ap (send_fars out src old rest)
        (rw free (delete_first it rest (send_far out src it.prim_addr old s) e))

module _ (out : Outside) (src old : Addr) where
  send_fars_lem :
      (ns : List Neighbor) (s : Node)
      → s.neigh_table ≡ ns
      → ((send_fars out src old ns s).neigh_table ≡ [])
        × ((send_fars out src old ns s).effects
            ≡ s.effects
              ++ fars out src old s.sec_addr_flag s.sec_addr s.prim_mask_inicial s.red_numero ns)
  unfolding fars send_far
  send_fars_lem [] s e = unfold send_fars in (e, sym (append-nil s.effects))
  send_fars_lem (it ∷ rest) s e =
      let table = rv_table_delete it.prim_addr s.rv_table in
      let told = send_far out src it.prim_addr old s in
      elim (Bool-cases (s.sec_addr_flag && dist s.sec_addr it.prim_addr == 1)) [
        | inl linked ↦
            rw (skip_linked out src old it rest s e linked, linked)
              (send_fars_lem rest (record s { neigh_table = rest; rv_table = table }) refl)
        | inr free ↦
            rw (tell_free out src old it rest s e free, free)
              (let later =
                  send_fars_lem rest (record told { neigh_table = rest; rv_table = table }) refl in
                (later.0, later.1 ∙ append_assoc s.effects _ _))
      ]

new_network-fields :
    (out : Outside) (s : Node)
    → let s1 = new_network out s in
      (s1.prim_addr ≡ shift s.hc_dim 1 s.prim_mask_inicial s.root s.prim_addr)
      × (s1.neigh_table ≡ s.neigh_table)
      × (s1.sec_addr_flag ≡ s.sec_addr_flag)
      × (s1.sec_addr ≡ s.sec_addr)
      × (s1.prim_mask_inicial ≡ s.prim_mask_inicial)
      × (s1.red_numero ≡ new_red_numero out)
unfolding new_network del_and_addnew clear_rv_tables
new_network-fields out s = ground arith

-- The node leaves its network: its table is empty, and every former neighbour but those at the
-- other end of its secondary link has got one FAR, with the new address, which is the old one
-- shifted by the initial mask, and with that mask and the new network's number, after the effects
-- of `new_network`. The initial mask is then 0.
pub fragmentacion_lem :
    (out : Outside) (s : Node)
    → let addr = shift s.hc_dim 1 s.prim_mask_inicial s.root s.prim_addr in
      ((fragmentacion out s).neigh_table ≡ [])
      × ((fragmentacion out s).prim_mask_inicial ≡ 0)
      × ((fragmentacion out s).effects
          ≡ (new_network out s).effects
            ++ fars out addr s.prim_addr s.sec_addr_flag s.sec_addr s.prim_mask_inicial
                (new_red_numero out)
                s.neigh_table)
unfolding fragmentacion
fragmentacion_lem out s =
    let s1 = new_network out s in
    let (e0, e1, e2, e3, e4, e5) = new_network-fields out s in
    let all = send_fars_lem out s1.prim_addr s.prim_addr s1.neigh_table s1 refl in
    (all.0, refl, all.1 ∙ cc)
