-- ===== src/Alloc/Network.antt =====
-- A network that grows by complete exchanges: a PAR that is answered by a PAP out of the parent's
-- own space, the PAN of the child, and the parent's PANC.
use antop.Base.{
  ℕ, ◌+◌, ◌≤◌, ◌<◌, ◌≡◌, refl, ◌∙◌, true, false, List, [], ◌∷◌, ◌++◌, none, arith, ◌==◌,
  if◌then◌else◌,
}
use antop.Addr.{Addr, IsAddr, addr_eq, check_addr_space}
use antop.Node.{Node, CtrlPkt}
use antop.Addr.Metric.{InSpace_iff}
use antop.Alloc.{next_addr}
use antop.Alloc.Partition.{next_addr_partition, next_addr-IsAddr}
use antop.Alloc.Protocol.{
  send_pap, pap_own, process_pan, pan_pkt, adopt, send_panc, confirm, offered, last_rcvd,
}

-- How many nodes of a network have an address in their space.
unfoldable pub owners : Addr → List Node → ℕ
owners x [] = 0
owners x (s ∷ ss) = (if check_addr_space x s.prim_addr s.prim_mask == 0 then 1 else 0) + owners x ss

-- The parent after a whole exchange.
unfoldable pub grant : CtrlPkt → CtrlPkt → Addr → Node → Node
unfolding send_pap pap_own process_pan pan_pkt
grant fresh fresh' if_addr s =
    let p = pap_own fresh s in
    process_pan fresh' (pan_pkt if_addr p.prim_addr p.ad_addr.addr p.ad_addr.red_numero)
      (send_pap fresh if_addr s)

-- A node that has never recovered an address, in a hypercube of at most 64 dimensions.
pub record IsFresh (s : Node) : Type 0 where
  pub addr : IsAddr s.prim_addr
  pub mask_le : s.prim_mask ≤ 64
  pub dim_le : s.hc_dim ≤ 64
  pub none_offered : s.rcvd_offered ≡ none
  pub none_recovered : s.rcvd_addr ≡ []

pub addr_eq_refl : (a : Addr) → addr_eq a a ≡ true
unfolding addr_eq
addr_eq_refl a = ground arith

pub addr_eq-other : (a b d : Addr) → addr_eq a b ≡ true → addr_eq b d ≡ false → addr_eq a d ≡ false
unfolding addr_eq
addr_eq-other a b d h g = ground arith

grant_lem :
    (fresh fresh' : CtrlPkt) (if_addr : Addr) (s : Node)
    → IsFresh s
    → s.prim_mask < s.hc_dim
    → ((grant fresh fresh' if_addr s).prim_addr ≡ s.prim_addr)
      × ((grant fresh fresh' if_addr s).prim_mask ≡ s.prim_mask + 1)
      × ((grant fresh fresh' if_addr s).hc_dim ≡ s.hc_dim)
      × ((grant fresh fresh' if_addr s).rcvd_offered ≡ none)
      × ((grant fresh fresh' if_addr s).rcvd_addr ≡ [])
unfolding grant send_panc confirm offered last_rcvd
grant_lem fresh fresh' if_addr s v h = ground (arith, addr_eq_refl s.prim_addr)

-- The child: another node, `blank`, that adopts the proposal.
unfoldable pub child : CtrlPkt → Node → Node → Node
unfolding pap_own adopt
child fresh s blank = adopt (pap_own fresh s) blank

child_lem :
    (fresh : CtrlPkt) (s blank : Node)
    → IsFresh s
    → s.prim_mask < s.hc_dim
    → ((child fresh s blank).prim_addr ≡ next_addr s.prim_addr s.prim_mask)
      × ((child fresh s blank).prim_mask ≡ s.prim_mask + 1)
      × ((child fresh s blank).hc_dim ≡ s.hc_dim)
unfolding child
child_lem fresh s blank v h = ground arith

-- One exchange in a network: `s` grants an address to `blank`, which joins at the end.
pub data Join (before after : List Node) : Type 0 where
  joins :
      (fresh fresh' : CtrlPkt) (if_addr : Addr) (xs ys : List Node) (s blank : Node)
      → s.prim_mask < s.hc_dim
      → blank.rcvd_offered ≡ none
      → blank.rcvd_addr ≡ []
      → before ≡ xs ++ s ∷ ys
      → after ≡ xs ++ grant fresh fresh' if_addr s ∷ (child fresh s blank ∷ ys)
      → Join before after

pub data Grown (start : List Node) : List Node → Type 0 where
  here : Grown start start
  next : {mid last : List Node} → Grown start mid → Join mid last → Grown start last

abbrev pub AllFresh : List Node → Type 0
AllFresh [] = Unit {0}
AllFresh (s ∷ ss) = IsFresh s × AllFresh ss

pub AllFresh-split : (xs ys : List Node) → AllFresh (xs ++ ys) → AllFresh xs × AllFresh ys
AllFresh-split [] ys h = (tt, h)
AllFresh-split (x ∷ xs) ys h = ((h.0, (AllFresh-split xs ys h.1).0), (AllFresh-split xs ys h.1).1)

AllFresh-join : (xs ys : List Node) → AllFresh xs → AllFresh ys → AllFresh (xs ++ ys)
AllFresh-join [] ys p q = q
AllFresh-join (x ∷ xs) ys p q = (p.0, AllFresh-join xs ys p.1 q)

pub owners-append : (x : Addr) (xs ys : List Node) → owners x (xs ++ ys) ≡ owners x xs + owners x ys
unfolding owners
owners-append x [] ys = omega arith
owners-append x (s ∷ ss) ys = omega (arith, owners-append x ss ys)

-- The two halves together own what the parent owned before.
owners-halves :
    (x a : Addr) (m : ℕ)
    → IsAddr a
    → IsAddr x
    → m < 64
    → (if check_addr_space x a m == 0 then 1 else 0)
      ≡ (if check_addr_space x a (m + 1) == 0 then 1 else 0)
        + (if check_addr_space x (next_addr a m) (m + 1) == 0 then 1 else 0)
owners-halves x a m va vx h = ground (arith, next_addr_partition a x m va vx h)

grant-IsFresh :
    (fresh fresh' : CtrlPkt) (if_addr : Addr) (s : Node)
    → s.prim_mask < s.hc_dim
    → IsFresh s
    → IsFresh (grant fresh fresh' if_addr s)
grant-IsFresh fresh fresh' if_addr s h v =
    let e = grant_lem fresh fresh' if_addr s v h in
    record {
      addr = rw e.0 v.addr;
      mask_le = rw e.1 (omega (arith, v.dim_le));
      dim_le = rw e.2 v.dim_le;
      none_offered = e.3;
      none_recovered = e.4;
    }

child-IsFresh :
    (fresh : CtrlPkt) (s blank : Node)
    → s.prim_mask < s.hc_dim
    → blank.rcvd_offered ≡ none
    → blank.rcvd_addr ≡ []
    → IsFresh s
    → IsFresh (child fresh s blank)
unfolding child
child-IsFresh fresh s blank h none_offered none_recovered v =
    let e = child_lem fresh s blank v h in
    record {
      addr = rw e.0 (next_addr-IsAddr s.prim_addr s.prim_mask v.addr);
      mask_le = rw e.1 (omega (arith, v.dim_le));
      dim_le = rw e.2 v.dim_le;
      none_offered = none_offered;
      none_recovered = none_recovered;
    }

joined-owners :
    (x : Addr) (fresh fresh' : CtrlPkt) (if_addr : Addr) (s blank : Node) (ys : List Node)
    → IsAddr x
    → IsFresh s
    → s.prim_mask < s.hc_dim
    → owners x (grant fresh fresh' if_addr s ∷ (child fresh s blank ∷ ys)) ≡ owners x (s ∷ ys)
unfolding owners
joined-owners x fresh fresh' if_addr s blank ys vx v h =
    let e = grant_lem fresh fresh' if_addr s v h in
    let c = child_lem fresh s blank v h in
    rw (e.0, e.1, c.0, c.1)
      (omega (arith, owners-halves x s.prim_addr s.prim_mask v.addr vx (omega (arith, v.dim_le))))

Join-AllFresh : {before after : List Node} → AllFresh before → Join before after → AllFresh after
Join-AllFresh f (joins fresh fresh' if_addr xs ys s blank h p q e e') =
    let parts = AllFresh-split xs (s ∷ ys) (rw e at f) in
    rw e' (
      AllFresh-join xs _ parts.0 (
        grant-IsFresh fresh fresh' if_addr s h parts.1.0,
        (child-IsFresh fresh s blank h p q parts.1.0, parts.1.1),
      ))

Join-owners :
    {before after : List Node} (x : Addr)
    → IsAddr x
    → AllFresh before
    → Join before after
    → owners x after ≡ owners x before
Join-owners x vx f (joins fresh fresh' if_addr xs ys s blank h p q e e') =
    let parts = AllFresh-split xs (s ∷ ys) (rw e at f) in
    rw (
      e,
      e',
      owners-append x xs (grant fresh fresh' if_addr s ∷ (child fresh s blank ∷ ys)),
      owners-append x xs (s ∷ ys),
      joined-owners x fresh fresh' if_addr s blank ys vx parts.1.0 h,
    )

pub Grown-AllFresh : {start last : List Node} → AllFresh start → Grown start last → AllFresh last
Grown-AllFresh f here = f
Grown-AllFresh f (next g j) = Join-AllFresh (Grown-AllFresh f g) j

Grown-owners :
    {start last : List Node} (x : Addr)
    → IsAddr x
    → AllFresh start
    → Grown start last
    → owners x last ≡ owners x start
Grown-owners x vx f here = refl
Grown-owners x vx f (next g j) = Join-owners x vx (Grown-AllFresh f g) j ∙ Grown-owners x vx f g

-- However a network grows by complete exchanges from one fresh node of mask 0, every address lies in
-- the space of exactly one of its nodes.
pub Grown-owners_one :
    (s : Node) (last : List Node) (x : Addr)
    → IsFresh s
    → s.prim_mask ≡ 0
    → IsAddr x
    → Grown (s ∷ []) last
    → owners x last ≡ 1
unfolding owners
Grown-owners_one s last x v root vx g =
    let all : check_addr_space x s.prim_addr 0 ≡ 0 =
      (InSpace_iff x s.prim_addr 0 vx v.addr (omega arith)).1 refl in
    Grown-owners x vx (v, tt) g ∙ ground (arith, root, all)
