-- ===== src/Neighbors.antt =====
-- heart_beat.c: the table of neighbours, their supervision, and the recovery of address space.
pub mod Supervision
pub mod Silence
pub mod Hearing
use antop.Base.{
  ℕ, zero, suc, ◌+◌, ◌/◌, ltb, Bool, true, false, List, [], ◌∷◌, ◌++◌, Option, none, some,
  if◌then◌else◌, remove_first, some_elem,
}
use antop.Base.Int.{ℤ, pos, negsuc}
use antop.Base.Run.{Run, ok, crash, ◌>>=◌}
use antop.Addr.{Addr, addr_eq, null_addr}
use antop.Node.{Node, Neighbor, CtrlPkt, Effect, TimerName, emit, n_inact, t_lhb}
use antop.Succesor.{check_succesor}
use antop.Names.{rv_table_delete}

-- `neigh_table == NULL`.
unfoldable pub no_neighbors : List Neighbor → Bool
no_neighbors [] = true
no_neighbors (n ∷ ns) = false

-- `init_neigh_table`: a null table becomes one entry, of unknown contents but for a zero address.
unfoldable pub init_neigh_table : Neighbor → List Neighbor → List Neighbor
init_neigh_table fresh [] = record fresh { prim_addr = null_addr } ∷ []
init_neigh_table fresh (n ∷ ns) = n ∷ ns

-- What `add_neighbor` writes into the entry `it`.
unfoldable pub fill : CtrlPkt → Bool → Neighbor → Neighbor
fill hb sec_flag it = record it {
  count = pos 0;
  prim_addr = hb.prim_addr;
  available = 1;
  prim_mask = hb.ad_addr.mask;
  prim_mask_inicial = hb.ad_addr.t_lenght;
  sec_addr_conn = if sec_flag then 1 else 0;
}

-- `add_neighbor`. A head of zero address is the empty entry of a new table, and is filled; `next`
-- of the filled entry is set to null. The null table is read through.
unfoldable pub add_neighbor : Neighbor → CtrlPkt → Bool → List Neighbor → Run (List Neighbor)
unfolding fill
add_neighbor fresh hb sec_flag [] = crash
add_neighbor fresh hb sec_flag (n ∷ ns) =
    if addr_eq n.prim_addr null_addr
    then ok (fill hb sec_flag n ∷ [])
    else ok ((n ∷ ns) ++ fill hb sec_flag fresh ∷ [])

-- The place of the first neighbour with that address, counted from `i`.
unfoldable pub place_of : Addr → ℕ → List Neighbor → Option ℕ
place_of p_addr i [] = none
place_of p_addr i (n ∷ ns) =
    if addr_eq p_addr n.prim_addr then some i else place_of p_addr (i + 1) ns

-- `find_neighbor`: the entry, by its place.
unfoldable pub find_neighbor : Addr → List Neighbor → Run (Option ℕ)
unfolding place_of
find_neighbor p_addr [] = crash
find_neighbor p_addr (n ∷ ns) =
    if addr_eq null_addr n.prim_addr then ok none else ok (place_of p_addr 0 (n ∷ ns))

-- The entry that a heart beat refreshes in `process_hb`.
unfoldable pub refresh : ℕ → CtrlPkt → List Neighbor → List Neighbor
refresh i hb [] = []
refresh zero hb (n ∷ ns) = record n { count = pos 0; prim_mask = hb.ad_addr.mask } ∷ ns
refresh (suc i) hb (n ∷ ns) = n ∷ refresh i hb ns

-- The part of `process_hb` that keeps the table: create it if needed, then add the sender or
-- refresh its entry.
unfoldable pub hear : Neighbor → Neighbor → CtrlPkt → Bool → List Neighbor → Run (List Neighbor)
unfolding init_neigh_table find_neighbor add_neighbor refresh
hear fresh fresh' hb flag_aux table = do
  let table' = init_neigh_table fresh table
  found ← find_neighbor hb.prim_addr table'
  elim found [ none ↦ add_neighbor fresh' hb flag_aux table' | some i ↦ ok (refresh i hb table') ]

-- `delete_neighbor`: unlinks the first entry with the neighbour's address, and with it the first
-- name registered under that address; -1 if there is none.
unfoldable pub delete_neighbor : Neighbor → Node → Node × ℤ
unfolding rv_table_delete
delete_neighbor neigh s =
    let here = λ (n : Neighbor). addr_eq n.prim_addr neigh.prim_addr in
    if some_elem here s.neigh_table
    then (
      record s {
        neigh_table = remove_first here s.neigh_table;
        rv_table = rv_table_delete neigh.prim_addr s.rv_table;
      },
      pos 0,
    )
    else (s, negsuc 0)

-- `recover_addr_space`: the space goes to the end of the list, with the neighbour's initial mask.
unfoldable pub recover_addr_space : Neighbor → Node → Node
recover_addr_space neigh s = record s {
  rcvd_addr =
      s.rcvd_addr
      ++ record { prim_addr = neigh.prim_addr; prim_mask = neigh.prim_mask_inicial } ∷ [];
}

-- What `check_neighbors` makes of a counter: the next count, or `none` for a neighbour to delete.
unfoldable pub next_count : ℤ → Option ℤ
next_count (pos zero) = some (negsuc 0)
next_count (pos (suc n)) = if ltb (suc n) n_inact then some (pos (suc n + 1)) else none
next_count (negsuc zero) = some (pos 1)
next_count (negsuc (suc n)) = some (negsuc (suc n))

-- The node without the neighbour, and with its space if it was a child.
unfoldable pub lose : Bool → Neighbor → Node → Node
unfolding recover_addr_space delete_neighbor
lose succesor it s = (delete_neighbor it (if succesor then recover_addr_space it s else s)).0

-- The loop of `check_neighbors`, at the entry `it` after those of `seen`: the table is `seen`,
-- `it` and `rest`. What is deleted is the first entry of that address, so another one if the
-- address is in `seen` too. `none` is `check_succesor` not ending within the fuel.
unfoldable pub check_from : ℕ → List Neighbor → List Neighbor → Node → Option Node
unfolding next_count lose
check_from fuel seen [] s = some s
check_from fuel seen (it ∷ rest) s = elim (next_count it.count) [
  | some count ↦
      let it' = record it { count = count } in
      check_from fuel (seen ++ it' ∷ []) rest (record s { neigh_table = seen ++ it' ∷ rest })
  | none ↦ elim (check_succesor fuel s.prim_addr it.prim_addr) [
    | none ↦ none
    | some succesor ↦
        let here = λ (n : Neighbor). addr_eq n.prim_addr it.prim_addr in
        let seen' = if some_elem here seen then remove_first here seen ++ it ∷ [] else seen in
        check_from fuel seen' rest (lose succesor it s)
  ]
]

unfoldable pub check_neighbors : ℕ → Node → Option Node
unfolding check_from
check_neighbors fuel s = elim (check_from fuel [] s.neigh_table s) [
  | none ↦ none
  | some s' ↦ some (emit (Effect.start_timer TimerName.chk_neigh_t t_lhb) s')
]
