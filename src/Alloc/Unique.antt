-- ===== src/Alloc/Unique.antt =====
-- Addresses are unique in a network that grew by complete exchanges.
use antop.Base.{◌≡◌, refl, sym, subst, ◌≢◌, List, [], ◌∷◌, ◌++◌, arith}
use antop.Addr.{check_addr_space}
use antop.Addr.Metric.{InSpace_iff}
use antop.Node.{Node}
use antop.Alloc.Network.{
  IsFresh, owners, owners-append, Grown, Grown-AllFresh, AllFresh-split, Grown-owners_one,
}

own_space : (s : Node) → IsFresh s → check_addr_space s.prim_addr s.prim_addr s.prim_mask ≡ 0
own_space s v = (InSpace_iff s.prim_addr s.prim_addr s.prim_mask v.addr v.addr v.mask_le).1 refl

-- No two nodes of a network have the same primary address, if it has grown by complete exchanges
-- from one fresh node of mask 0.
pub Grown-addr_unique :
    (root : Node) (xs ys zs : List Node) (s t : Node)
    → IsFresh root
    → root.prim_mask ≡ 0
    → Grown (root ∷ []) (xs ++ s ∷ (ys ++ t ∷ zs))
    → s.prim_addr ≢ t.prim_addr
unfolding owners
Grown-addr_unique root xs ys zs s t v first g same =
    let all = Grown-AllFresh {start = root ∷ []} (v, tt) g in
    let right = AllFresh-split xs (s ∷ (ys ++ t ∷ zs)) all in
    let last = AllFresh-split ys (t ∷ zs) right.1.1 in
    let at_s = own_space s right.1.0 in
    let at_t =
      subst (λ a. check_addr_space a t.prim_addr t.prim_mask ≡ 0) (sym same)
        (own_space t last.1.0) in
    ground (
      arith,
      Grown-owners_one root (xs ++ s ∷ (ys ++ t ∷ zs)) s.prim_addr v first right.1.0.addr g,
      owners-append s.prim_addr xs (s ∷ (ys ++ t ∷ zs)),
      owners-append s.prim_addr ys (t ∷ zs),
      at_s,
      at_t,
    )
