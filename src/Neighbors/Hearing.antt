-- ===== src/Neighbors/Hearing.antt =====
-- A neighbour whose heart beats arrive is kept.
use antop.Base.{
  ℕ, zero, suc, ◌+◌, ◌≤◌, ◌≡◌, refl, Bool, true, false, List, [], ◌∷◌, ◌++◌, none, some, arith,
  if◌then◌else◌, some_elem, Option-cases, Bool-cases, inl, inr,
}
use antop.Base.Int.{pos, negsuc}
use antop.Base.Run.{ok}
use antop.Addr.{Addr, addr_eq, null_addr}
use antop.Alloc.Network.{addr_eq_refl}
use antop.Node.{Neighbor, CtrlPkt}
use antop.Neighbors.{
  next_count, hear, place_of, find_neighbor, refresh, add_neighbor, fill, init_neigh_table,
}
use antop.Neighbors.Supervision.{survivors, here, addr_eq_comm}

-- There is an entry of that address with count 0.
unfoldable pub fresh_entry : Addr → List Neighbor → Bool
fresh_entry a [] = false
fresh_entry a (n ∷ ns) =
    if addr_eq n.prim_addr a
    then elim n.count [
      | pos k ↦ elim k [ zero ↦ true | suc j ↦ fresh_entry a ns ]
      | negsuc k ↦ fresh_entry a ns
    ]
    else fresh_entry a ns

place_of-le : (a : Addr) (k j : ℕ) (ns : List Neighbor) → place_of a k ns ≡ some j → k ≤ j
unfolding place_of
place_of-le a k j [] h = cc
place_of-le a k j (n ∷ ns) h = ground (arith, place_of-le a (k + 1) j ns)

refresh-fresh_entry :
    (hb : CtrlPkt) (i k : ℕ) (ns : List Neighbor)
    → place_of hb.prim_addr k ns ≡ some (k + i)
    → fresh_entry hb.prim_addr (refresh i hb ns) ≡ true
unfolding place_of refresh fresh_entry
refresh-fresh_entry hb i k [] h = cc
refresh-fresh_entry hb zero k (n ∷ ns) h =
    ground (arith, place_of-le hb.prim_addr (k + 1) k ns, addr_eq_comm hb.prim_addr n.prim_addr)
refresh-fresh_entry hb (suc i) k (n ∷ ns) h =
    let e : k + suc i ≡ k + 1 + i = omega arith in
    let later = refresh-fresh_entry hb i (k + 1) ns in
    ground (arith, later, addr_eq_comm hb.prim_addr n.prim_addr, e)

fresh_entry-append :
    (a : Addr) (xs : List Neighbor) (n : Neighbor)
    → addr_eq n.prim_addr a ≡ true
    → n.count ≡ pos 0
    → fresh_entry a (xs ++ n ∷ []) ≡ true
unfolding fresh_entry
fresh_entry-append a [] n h c = ground arith
fresh_entry-append a (x ∷ xs) n h c = ground (arith, fresh_entry-append a xs n h c)

fresh_entry-survivors :
    (a : Addr) (ns : List Neighbor)
    → fresh_entry a ns ≡ true
    → some_elem (here a) (survivors ns) ≡ true
unfolding fresh_entry survivors some_elem next_count
fresh_entry-survivors a [] h = cc
fresh_entry-survivors a (n ∷ ns) h = ground (arith, fresh_entry-survivors a ns)

-- The table after a heart beat, with an entry of the sender.
abbrev Heard : Neighbor → Neighbor → CtrlPkt → Bool → List Neighbor → Type 0
Heard fresh fresh' hb flag table =
    (table' : List Neighbor) × (hear fresh fresh' hb flag table ≡ ok table')
    × (fresh_entry hb.prim_addr table' ≡ true)

fill-prim_addr :
    (hb : CtrlPkt) (flag : Bool) (n : Neighbor)
    → (addr_eq (fill hb flag n).prim_addr hb.prim_addr ≡ true) × ((fill hb flag n).count ≡ pos 0)
unfolding fill
fill-prim_addr hb flag n = (addr_eq_refl hb.prim_addr, refl)

hear_empty :
    (fresh fresh' n : Neighbor) (hb : CtrlPkt) (flag : Bool) (ns : List Neighbor)
    → addr_eq null_addr n.prim_addr ≡ true
    → Heard fresh fresh' hb flag (n ∷ ns)
unfolding hear init_neigh_table find_neighbor add_neighbor
hear_empty fresh fresh' n hb flag ns h =
    let filled = fill-prim_addr hb flag n in
    let swapped = addr_eq_comm null_addr n.prim_addr in
    (
      fill hb flag n ∷ [],
      ground (arith, swapped),
      fresh_entry-append hb.prim_addr [] (fill hb flag n) filled.0 filled.1,
    )

hear_known :
    (fresh fresh' n : Neighbor) (hb : CtrlPkt) (flag : Bool) (ns : List Neighbor) (i : ℕ)
    → addr_eq null_addr n.prim_addr ≡ false
    → place_of hb.prim_addr 0 (n ∷ ns) ≡ some i
    → Heard fresh fresh' hb flag (n ∷ ns)
unfolding hear init_neigh_table find_neighbor
hear_known fresh fresh' n hb flag ns i h p = (
  refresh i hb (n ∷ ns),
  ground (arith, p),
  refresh-fresh_entry hb i 0 (n ∷ ns) (ground (arith, p)),
)

hear_new :
    (fresh fresh' n : Neighbor) (hb : CtrlPkt) (flag : Bool) (ns : List Neighbor)
    → addr_eq null_addr n.prim_addr ≡ false
    → place_of hb.prim_addr 0 (n ∷ ns) ≡ none
    → Heard fresh fresh' hb flag (n ∷ ns)
unfolding hear init_neigh_table find_neighbor add_neighbor
hear_new fresh fresh' n hb flag ns h p =
    let filled = fill-prim_addr hb flag fresh' in
    let swapped = addr_eq_comm null_addr n.prim_addr in
    (
      (n ∷ ns) ++ fill hb flag fresh' ∷ [],
      ground (arith, p, swapped),
      fresh_entry-append hb.prim_addr (n ∷ ns) (fill hb flag fresh') filled.0 filled.1,
    )

hear_first : (fresh fresh' : Neighbor) (hb : CtrlPkt) (flag : Bool) → Heard fresh fresh' hb flag []
unfolding hear init_neigh_table
hear_first fresh fresh' hb flag =
    hear_empty fresh fresh' (record fresh { prim_addr = null_addr }) hb flag []
      (addr_eq_refl null_addr)

hear-Heard :
    (fresh fresh' : Neighbor) (hb : CtrlPkt) (flag : Bool) (table : List Neighbor)
    → Heard fresh fresh' hb flag table
hear-Heard fresh fresh' hb flag [] = hear_first fresh fresh' hb flag
hear-Heard fresh fresh' hb flag (n ∷ ns) = elim (Bool-cases (addr_eq null_addr n.prim_addr)) [
  | inl empty ↦ hear_empty fresh fresh' n hb flag ns empty
  | inr filled ↦ elim (Option-cases (place_of hb.prim_addr 0 (n ∷ ns))) [
    | inl new ↦ hear_new fresh fresh' n hb flag ns filled new
    | inr (i, known) ↦ hear_known fresh fresh' n hb flag ns i filled known
  ]
]

-- `hear` takes a heart beat in whatever the table is, and its sender is then in the table with count
-- 0 and is among the survivors of the next round of `check_neighbors`.
pub hear-survivors :
    (fresh fresh' : Neighbor) (hb : CtrlPkt) (flag : Bool) (table : List Neighbor)
    → (table' : List Neighbor) × (hear fresh fresh' hb flag table ≡ ok table')
      × (fresh_entry hb.prim_addr table' ≡ true)
      × (some_elem (here hb.prim_addr) (survivors table') ≡ true)
hear-survivors fresh fresh' hb flag table =
    let (table', r, f) = hear-Heard fresh fresh' hb flag table in
    (table', r, f, fresh_entry-survivors hb.prim_addr table' f)
