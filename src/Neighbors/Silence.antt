-- ===== src/Neighbors/Silence.antt =====
-- A neighbour that is not heard is lost after three rounds.
use antop.Base.{
  ℕ, zero, suc, ◌≡◌, refl, sym, ap, ◌∙◌, Bool, true, false, List, [], ◌∷◌, Option, none, some,
  arith, some_elem, subst, Option-cases, inl, inr,
}
use antop.Base.Int.{pos, negsuc}
use antop.Addr.{Addr}
use antop.Node.{Node, Neighbor, Effect, TimerName, emit, t_lhb}
use antop.Neighbors.{next_count, check_neighbors}
use antop.Neighbors.Supervision.{survivors, Distinct, AllEnd, here, check_neighbors-survivors}

-- `n` rounds of `check_neighbors`, with nothing in between.
unfoldable pub rounds : ℕ → ℕ → Node → Option Node
unfolding check_neighbors
rounds zero fuel s = some s
rounds (suc n) fuel s = elim (check_neighbors fuel s) [ none ↦ none | some s' ↦ rounds n fuel s' ]

-- The counts that the program uses: -1, and the natural numbers.
unfoldable pub counted : List Neighbor → Bool
counted [] = true
counted (n ∷ ns) = elim n.count [
  | pos k ↦ counted ns
  | negsuc k ↦ elim k [ zero ↦ counted ns | suc j ↦ false ]
]

survivors-elem :
    (a : Addr) (ns : List Neighbor)
    → some_elem (here a) ns ≡ false
    → some_elem (here a) (survivors ns) ≡ false
unfolding survivors some_elem
survivors-elem a [] h = refl
survivors-elem a (n ∷ ns) h = ground (arith, survivors-elem a ns)

survivors-Distinct : (ns : List Neighbor) → Distinct ns → Distinct (survivors ns)
unfolding survivors some_elem
survivors-Distinct [] d = tt
survivors-Distinct (n ∷ ns) d =
    ground (arith, survivors-Distinct ns d.1, survivors-elem n.prim_addr ns d.0)

survivors-AllEnd :
    (fuel : ℕ) (a : Addr) (ns : List Neighbor) → AllEnd fuel a ns → AllEnd fuel a (survivors ns)
unfolding survivors
survivors-AllEnd fuel a [] e = tt
survivors-AllEnd fuel a (n ∷ ns) e = elim (Option-cases (next_count n.count)) [
  | inl c ↦ rw (survivors, c) (survivors-AllEnd fuel a ns e.1)
  | inr (count, c) ↦ rw (survivors, c) (e.0, survivors-AllEnd fuel a ns e.1)
]

survivors_thrice :
    (ns : List Neighbor) → counted ns ≡ true → survivors (survivors (survivors ns)) ≡ []
unfolding survivors counted next_count
survivors_thrice [] c = refl
survivors_thrice (n ∷ ns) c = ground (arith, survivors_thrice ns)

-- The table after some rounds.
abbrev pub survivors_of : ℕ → List Neighbor → List Neighbor
survivors_of zero ns = ns
survivors_of (suc n) ns = survivors_of n (survivors ns)

rounds-survivors :
    (n fuel : ℕ) (s : Node)
    → Distinct s.neigh_table
    → AllEnd fuel s.prim_addr s.neigh_table
    → (s' : Node) × (rounds n fuel s ≡ some s') × (s'.neigh_table ≡ survivors_of n s.neigh_table)
unfolding rounds
rounds-survivors zero fuel s d ends = (s, refl, refl)
rounds-survivors (suc n) fuel s d ends =
    let (s1, r, t, u, v) = check_neighbors-survivors fuel s d ends in
    let s2 = emit (Effect.start_timer TimerName.chk_neigh_t t_lhb) s1 in
    let (s', r', t') =
      rounds-survivors n fuel s2 (subst Distinct (sym t) (survivors-Distinct s.neigh_table d)) (
        subst (λ a. AllEnd fuel a s1.neigh_table) (sym v)
          (subst (AllEnd fuel s.prim_addr) (sym t)
            (survivors-AllEnd fuel s.prim_addr s.neigh_table ends))) in
    (s', rw (rounds, r) r', t' ∙ ap (survivors_of n) t)

-- When the table repeats no address, every count is -1 or not negative, and `check_succesor` ends for
-- every entry, three rounds of `check_neighbors` without a heart beat in between leave no neighbour.
pub rounds-silent :
    (fuel : ℕ) (s : Node)
    → Distinct s.neigh_table
    → AllEnd fuel s.prim_addr s.neigh_table
    → counted s.neigh_table ≡ true
    → (s' : Node) × (rounds 3 fuel s ≡ some s') × (s'.neigh_table ≡ [])
rounds-silent fuel s d ends c =
    let (s', r, t) = rounds-survivors 3 fuel s d ends in
    (s', r, t ∙ survivors_thrice s.neigh_table c)
