-- ===== src/Neighbors/Supervision.antt =====
-- What one round of `check_neighbors` does to the whole table.
use antop.Base.{
  ℕ, ◌≡◌, ◌≢◌, refl, sym, ap, ap₂, ◌∙◌, Bool, true, false, List, [], ◌∷◌, ◌++◌, none, some, arith,
  if◌then◌else◌, remove_first, some_elem, Option-cases, inl, inr, subst,
}
use antop.Base.Int.{ℤ}
use antop.Addr.{Addr, addr_eq}
use antop.Alloc.Network.{addr_eq_refl}
use antop.Node.{Node, Neighbor, RecoveredAddr, Effect, TimerName, emit, t_lhb}
use antop.Succesor.{check_succesor}
use antop.Neighbors.{
  next_count, lose, check_from, check_neighbors, delete_neighbor, recover_addr_space,
}
use mathlib.Core.List.{append-nil, append_assoc}

-- The neighbours that stay, with their next counts.
unfoldable pub survivors : List Neighbor → List Neighbor
survivors [] = []
survivors (n ∷ ns) = elim (next_count n.count) [
  | some count ↦ record n { count = count } ∷ survivors ns
  | none ↦ survivors ns
]

-- The spaces of the lost children, in the order of the table.
unfoldable pub recovered : ℕ → Addr → List Neighbor → List RecoveredAddr
recovered fuel prim_addr [] = []
recovered fuel prim_addr (n ∷ ns) = elim (next_count n.count) [
  | some count ↦ recovered fuel prim_addr ns
  | none ↦ elim (check_succesor fuel prim_addr n.prim_addr) [
    | none ↦ recovered fuel prim_addr ns
    | some succesor ↦
        if succesor
        then record { prim_addr = n.prim_addr; prim_mask = n.prim_mask_inicial }
          ∷ recovered fuel prim_addr ns
        else recovered fuel prim_addr ns
  ]
]

abbrev pub here : Addr → Neighbor → Bool
here a n = addr_eq n.prim_addr a

-- No address is in the table twice.
abbrev pub Distinct : List Neighbor → Type 0
Distinct [] = Unit {0}
Distinct (n ∷ ns) = (some_elem (here n.prim_addr) ns ≡ false) × Distinct ns

-- `check_succesor` ends for every entry.
abbrev pub AllEnd : ℕ → Addr → List Neighbor → Type 0
AllEnd fuel prim_addr [] = Unit {0}
AllEnd fuel prim_addr (n ∷ ns) =
    (check_succesor fuel prim_addr n.prim_addr ≢ none) × AllEnd fuel prim_addr ns

-- No entry of `seen` has the address of one of `rest`.
abbrev Apart : List Neighbor → List Neighbor → Type 0
Apart seen [] = Unit {0}
Apart seen (n ∷ ns) = (some_elem (here n.prim_addr) seen ≡ false) × Apart seen ns

pub some_elem-append :
    (p : Neighbor → Bool) (xs ys : List Neighbor)
    → some_elem p (xs ++ ys) ≡ (if some_elem p xs then true else some_elem p ys)
unfolding some_elem
some_elem-append p [] ys = refl
some_elem-append p (x ∷ xs) ys = ground (arith, some_elem-append p xs ys)

remove_first-append :
    (p : Neighbor → Bool) (xs : List Neighbor) (x : Neighbor) (ys : List Neighbor)
    → some_elem p xs ≡ false
    → p x ≡ true
    → remove_first p (xs ++ x ∷ ys) ≡ xs ++ ys
unfolding remove_first some_elem
remove_first-append p [] x ys h e = ground arith
remove_first-append p (z ∷ zs) x ys h e = ground (arith, remove_first-append p zs x ys)

-- Deleting the entry that the loop stands at.
lose-neigh_table :
    (succesor : Bool) (seen rest : List Neighbor) (it : Neighbor) (s : Node)
    → s.neigh_table ≡ seen ++ it ∷ rest
    → some_elem (here it.prim_addr) seen ≡ false
    → ((lose succesor it s).neigh_table ≡ seen ++ rest)
      × ((lose succesor it s).prim_addr ≡ s.prim_addr)
      × ((lose succesor it s).rcvd_addr ≡ (
          if succesor
          then s.rcvd_addr
            ++ record { prim_addr = it.prim_addr; prim_mask = it.prim_mask_inicial } ∷ []
          else s.rcvd_addr))
unfolding lose delete_neighbor recover_addr_space some_elem
lose-neigh_table succesor seen rest it s e h = ground (
  arith,
  remove_first-append (here it.prim_addr) seen it rest h (addr_eq_refl it.prim_addr),
  some_elem-append (here it.prim_addr) seen (it ∷ rest),
  addr_eq_refl it.prim_addr,
)

pub addr_eq_comm : (a b : Addr) → addr_eq a b ≡ addr_eq b a
unfolding addr_eq
addr_eq_comm a b = ground arith

Apart-snoc :
    (seen rest : List Neighbor) (it : Neighbor)
    → Apart seen rest
    → some_elem (here it.prim_addr) rest ≡ false
    → Apart (seen ++ it ∷ []) rest
unfolding some_elem
Apart-snoc seen [] it a h = tt
Apart-snoc seen (n ∷ ns) it a h = ground (
  arith,
  some_elem-append (here n.prim_addr) seen (it ∷ []),
  addr_eq_comm n.prim_addr it.prim_addr,
  Apart-snoc seen ns it a.1,
)

-- The state in which the loop over `rest` ends.
abbrev Ended : ℕ → List Neighbor → List Neighbor → Node → Type 0
Ended fuel seen rest s =
    (s' : Node) × (check_from fuel seen rest s ≡ some s')
    × (s'.neigh_table ≡ seen ++ survivors rest)
    × (s'.rcvd_addr ≡ s.rcvd_addr ++ recovered fuel s.prim_addr rest)
    × (s'.prim_addr ≡ s.prim_addr)

no_round :
    (fuel : ℕ) (seen : List Neighbor) (s : Node) → s.neigh_table ≡ seen ++ [] → Ended fuel seen [] s
unfolding check_from survivors recovered
no_round fuel seen s e = (s, refl, e, sym (append-nil s.rcvd_addr), refl)

-- One round of the loop, on a neighbour that stays.
keep_round :
    (fuel : ℕ) (seen rest : List Neighbor) (it : Neighbor) (count : ℤ) (s : Node)
    → next_count it.count ≡ some count
    → let it' = record it { count = count } in
      (check_from fuel seen (it ∷ rest) s
        ≡ check_from fuel (seen ++ it' ∷ []) rest (record s { neigh_table = seen ++ it' ∷ rest }))
      × (survivors (it ∷ rest) ≡ it' ∷ survivors rest)
      × (recovered fuel s.prim_addr (it ∷ rest) ≡ recovered fuel s.prim_addr rest)
unfolding check_from survivors recovered
keep_round fuel seen rest it count s c = (rw (check_from, c), rw (survivors, c), rw (recovered, c))

-- And on one that is lost.
lose_round :
    (fuel : ℕ) (seen rest : List Neighbor) (it : Neighbor) (succesor : Bool) (s : Node)
    → next_count it.count ≡ none
    → check_succesor fuel s.prim_addr it.prim_addr ≡ some succesor
    → some_elem (here it.prim_addr) seen ≡ false
    → (check_from fuel seen (it ∷ rest) s ≡ check_from fuel seen rest (lose succesor it s))
      × (survivors (it ∷ rest) ≡ survivors rest)
      × (s.rcvd_addr ++ recovered fuel s.prim_addr (it ∷ rest)
          ≡ (if succesor
              then s.rcvd_addr
                ++ record { prim_addr = it.prim_addr; prim_mask = it.prim_mask_inicial } ∷ []
              else s.rcvd_addr)
            ++ recovered fuel s.prim_addr rest)
unfolding check_from survivors recovered
lose_round fuel seen rest it true s c k h = (
  rw (check_from, c, k, h),
  rw (survivors, c),
  rw (recovered, c, k)
      (sym (
        append_assoc s.rcvd_addr
          (record { prim_addr = it.prim_addr; prim_mask = it.prim_mask_inicial } ∷ [])
          (recovered fuel s.prim_addr rest))),
)
lose_round fuel seen rest it false s c k h =
    (rw (check_from, c, k, h), rw (survivors, c), rw (recovered, c, k))

check_from-Ended :
    (fuel : ℕ) (seen rest : List Neighbor) (s : Node)
    → s.neigh_table ≡ seen ++ rest
    → Distinct rest
    → Apart seen rest
    → AllEnd fuel s.prim_addr rest
    → Ended fuel seen rest s
check_from-Ended fuel seen [] s e d a ends = no_round fuel seen s e
check_from-Ended fuel seen (it ∷ rest) s e d a ends = elim (Option-cases (next_count it.count)) [
  | inr (count, c) ↦
      let it' = record it { count = count } in
      let s0 = record s { neigh_table = seen ++ it' ∷ rest } in
      let round = keep_round fuel seen rest it count s c in
      let (s', r, t, u, v) =
        check_from-Ended fuel (seen ++ it' ∷ []) rest s0 (sym (append_assoc seen (it' ∷ []) rest))
          d.1 (Apart-snoc seen rest it' a.1 d.0) ends.1 in
      (
        s',
        round.0 ∙ r,
        t ∙ append_assoc seen (it' ∷ []) (survivors rest) ∙ ap (◌++◌ seen) (sym round.1),
        u ∙ ap (◌++◌ s.rcvd_addr) (sym round.2),
        v,
      )
  | inl c ↦ elim (Option-cases (check_succesor fuel s.prim_addr it.prim_addr)) [
    | inl none_yet ↦ absurd (ends.0 none_yet)
    | inr (succesor, k) ↦
        let lost = lose-neigh_table succesor seen rest it s e a.0 in
        let s0 = lose succesor it s in
        let round = lose_round fuel seen rest it succesor s c k a.0 in
        let (s', r, t, u, v) =
          check_from-Ended fuel seen rest s0 lost.0 d.1 a.1
            (subst (λ x. AllEnd fuel x rest) (sym lost.1) ends.1) in
        (
          s',
          round.0 ∙ r,
          t ∙ ap (◌++◌ seen) (sym round.1),
          u ∙ ap₂ (λ rs x. rs ++ recovered fuel x rest) lost.2 lost.1 ∙ sym round.2,
          v ∙ lost.1,
        )
  ]
]

Apart-nil : (ns : List Neighbor) → Apart [] ns
unfolding some_elem
Apart-nil [] = tt
Apart-nil (n ∷ ns) = (refl, Apart-nil ns)

-- One round over a table without repeated addresses: the timer starts again, the survivors stay
-- with their next counts, and the spaces of the lost children are added to the recovered ones. This
-- is under the condition that `check_succesor` ends for every entry.
pub check_neighbors-survivors :
    (fuel : ℕ) (s : Node)
    → Distinct s.neigh_table
    → AllEnd fuel s.prim_addr s.neigh_table
    → (s' : Node) × (check_neighbors fuel s
        ≡ some (emit (Effect.start_timer TimerName.chk_neigh_t t_lhb) s'))
      × (s'.neigh_table ≡ survivors s.neigh_table)
      × (s'.rcvd_addr ≡ s.rcvd_addr ++ recovered fuel s.prim_addr s.neigh_table)
      × (s'.prim_addr ≡ s.prim_addr)
unfolding check_neighbors
check_neighbors-survivors fuel s d ends =
    let (s', r, t, u, v) =
      check_from-Ended fuel [] s.neigh_table s refl d (Apart-nil s.neigh_table) ends in
    (s', rw (check_neighbors, r), t, u, v)
