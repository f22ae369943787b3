-- ===== src/Secondary/Table.antt =====
-- The table of the nodes that have a secondary link with this one.
use antop.Base.{
  ℕ, ◌≡◌, refl, Bool, true, false, List, [], ◌∷◌, ◌++◌, arith, if◌then◌else◌, some_elem,
}
use antop.Base.Run.{ok}
use antop.Addr.{Addr, addr_eq, null_addr}
use antop.Alloc.Network.{addr_eq_refl}
use antop.Node.{Node, Nsl, CtrlPkt, Effect}
use antop.Secondary.{
  monitor, check_n_s_l_table, init_tables_secondary_link, add_n_s_l_table,
  check_addr_in_n_s_l_table, process_sap1, send_san1, san_pkt,
}

monitor_same : (flag : Bool) (rest : List Nsl) (s : Node) → monitor flag rest s ≡ s
unfolding monitor
monitor_same flag [] s = refl
monitor_same flag (e ∷ rest) s = monitor_same false rest s

-- `check_n_s_l_table` never removes an entry, whether its node is a neighbour or not: it changes
-- nothing while the table has an entry.
pub check_n_s_l_table_lem :
    (e : Nsl) (es : List Nsl) (s : Node) → s.n_s_l_table ≡ e ∷ es → check_n_s_l_table s ≡ s
unfolding check_n_s_l_table
check_n_s_l_table_lem e es s h = ground (arith, monitor_same false s.n_s_l_table s)

listed-append :
    (addr : Addr) (mask : ℕ) (es : List Nsl)
    → check_addr_in_n_s_l_table addr (es ++ record { addr = addr; mask = mask } ∷ []) ≡ 1
unfolding check_addr_in_n_s_l_table some_elem
listed-append addr mask [] = ground (arith, addr_eq_refl addr)
listed-append addr mask (e ∷ es) = ground (arith, listed-append addr mask es)

-- The table after `add_n_s_l_table` on a table that is not null.
added : Addr → ℕ → Nsl → List Nsl → List Nsl
added addr mask e es =
    let entry : Nsl = record { addr = addr; mask = mask } in
    if addr_eq e.addr null_addr then entry ∷ [] else (e ∷ es) ++ entry ∷ []

add_n_s_l_table-added :
    (addr : Addr) (mask : ℕ) (e : Nsl) (es : List Nsl)
    → (add_n_s_l_table addr mask (e ∷ es) ≡ ok (added addr mask e es))
      × (check_addr_in_n_s_l_table addr (added addr mask e es) ≡ 1)
unfolding add_n_s_l_table added
add_n_s_l_table-added addr mask e es =
    ground (arith, listed-append addr mask [], listed-append addr mask (e ∷ es))

head_entry : List Nsl → Nsl
head_entry [] = record { addr = null_addr; mask = 0 }
head_entry (e ∷ es) = e

later_entries : List Nsl → List Nsl
later_entries [] = []
later_entries (e ∷ es) = es

init-entries : (es : List Nsl) → init_tables_secondary_link es ≡ head_entry es ∷ later_entries es
unfolding init_tables_secondary_link head_entry later_entries
init-entries [] = refl
init-entries (e ∷ es) = refl

-- `process_sap1` never reads a null table. After it the proposed address is in the table, the flag
-- says so, and the SAN is sent.
pub process_sap1_lem :
    (msg : CtrlPkt) (s : Node)
    → (s' : Node) × (process_sap1 msg s ≡ ok s')
      × (check_addr_in_n_s_l_table msg.ad_addr.addr s'.n_s_l_table ≡ 1)
      × (s'.flag_neigh_by_second ≡ true)
      × (s'.effects
          ≡ s.effects
            ++ Effect.send (san_pkt msg.ad_addr.addr msg.ad_addr.mask s.prim_mask s) msg.src_addr 20
              ∷ [])
unfolding process_sap1 send_san1 san_pkt
process_sap1_lem msg s =
    let e = head_entry s.n_s_l_table in
    let es = later_entries s.n_s_l_table in
    let table = added msg.ad_addr.addr msg.ad_addr.mask e es in
    let put = add_n_s_l_table-added msg.ad_addr.addr msg.ad_addr.mask e es in
    (
      send_san1 msg.src_addr msg.ad_addr.addr msg.ad_addr.mask s.prim_mask
          (record s { n_s_l_table = table; flag_neigh_by_second = true }),
      rw (init-entries s.n_s_l_table, put.0) refl,
      put.1,
      refl,
      refl,
    )
