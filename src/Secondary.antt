-- ===== src/Secondary.antt =====
-- secondary.c: secondary addresses, which link two nodes that are not neighbours in the hypercube.
pub mod Table
use antop.Base.{
  ℕ, ◌+◌, ◌%◌, Bool, true, false, List, [], ◌∷◌, ◌++◌, Option, none, some, ◌==◌, ltb, if◌then◌else◌,
  remove_first, some_elem, ◌&&◌,
}
use antop.Base.Int.{ℤ, pos, negsuc}
use antop.Base.Run.{Run, ok, crash, ◌>>=◌}
use antop.Addr.{Addr, addr_eq, null_addr, dist}
use antop.Node.{
  Node, Neighbor, CtrlPkt, Nsl, RecoveredAddr, Effect, TimerName, emit, sap, san, t_san,
}
use antop.Alloc.Protocol.{del_rcvd_addr_table}
use antop.Neighbors.{add_neighbor, recover_addr_space}

-- `san_t_handler`.
unfoldable pub san_t_handler : Node → Node
san_t_handler s = record s { flag_addr_avai = true }

-- The packet of `send_sap1`, written over memory from `malloc`.
unfoldable pub sap_pkt : CtrlPkt → Addr → ℕ → Node → CtrlPkt
sap_pkt fresh sec_addr sec_mask s = record fresh {
  pkt_type_f = sap;
  prim_addr = s.prim_addr;
  src_addr = s.prim_addr;
  ad_addr = record (fresh.ad_addr) {
    addr = sec_addr;
    mask = sec_mask % 256;
    red_numero = s.red_numero;
  };
}

-- `send_sap1`: nothing while a SAN is awaited, or for an address that is no neighbour of this
-- node's; else the timer is started, the SAP is sent and the SAN is awaited.
unfoldable pub send_sap1 : CtrlPkt → Addr → Addr → ℕ → Node → Node
unfolding sap_pkt
send_sap1 fresh dst sec_addr sec_mask s =
    if s.flag_addr_avai
    then if dist sec_addr s.prim_addr == 1
      then record (emit (Effect.send (sap_pkt fresh sec_addr sec_mask s) dst 20)
          (emit (Effect.start_timer TimerName.san_t t_san) s)) { flag_addr_avai = false }
      else s
    else s

-- The packet of `send_san1`, which `memset` clears first.
unfoldable pub san_pkt : Addr → ℕ → ℕ → Node → CtrlPkt
san_pkt sec_addr sec_mask prim_mask_source s = record {
  pkt_type_f = san;
  t_length = 0;
  src_addr = s.prim_addr;
  prim_addr_len = 0;
  prim_addr = s.prim_addr;
  ad_addr = record {
    t_lenght = prim_mask_source;
    addr_bit_len = 0;
    addr = sec_addr;
    mask = sec_mask;
    conn_count = 0;
    red_numero = s.red_numero;
  };
}

unfoldable pub send_san1 : Addr → Addr → ℕ → ℕ → Node → Node
unfolding san_pkt
send_san1 dst sec_addr sec_mask prim_mask_source s =
    emit (Effect.send (san_pkt sec_addr sec_mask prim_mask_source s) dst 20) s

-- `init_tables_secondary_link`: a null table becomes one entry of zero address and mask.
unfoldable pub init_tables_secondary_link : List Nsl → List Nsl
init_tables_secondary_link [] = record { addr = null_addr; mask = 0 } ∷ []
init_tables_secondary_link (e ∷ es) = e ∷ es

-- `add_n_s_l_table`. A head of zero address is filled, and its `next` set to null. The null table
-- is read through.
unfoldable pub add_n_s_l_table : Addr → ℕ → List Nsl → Run (List Nsl)
add_n_s_l_table addr mask [] = crash
add_n_s_l_table addr mask (e ∷ es) =
    let entry : Nsl = record { addr = addr; mask = mask } in
    if addr_eq e.addr null_addr then ok (entry ∷ []) else ok ((e ∷ es) ++ entry ∷ [])

-- `del_n_s_l_table`: 0, or -1 if the address is not in the table.
unfoldable pub del_n_s_l_table : Addr → List Nsl → List Nsl × ℤ
del_n_s_l_table addr table =
    let here = λ (e : Nsl). addr_eq e.addr addr in
    (remove_first here table, if some_elem here table then pos 0 else negsuc 0)

-- The inner loop of `check_n_s_l_table`, which leaves 1 in `flag` if the address is a neighbour's.
unfoldable pub find_flag : Addr → Bool → List Neighbor → Bool
find_flag addr flag [] = flag
find_flag addr flag (n ∷ ns) = find_flag addr (if addr_eq addr n.prim_addr then true else flag) ns

-- Its outer loop, over the entries `rest` of the table. `if(flag=0)` assigns 0 to the flag and
-- tests that value.
unfoldable pub monitor : Bool → List Nsl → Node → Node
unfolding find_flag del_n_s_l_table
monitor flag [] s = s
monitor flag (e ∷ rest) s =
    let found = find_flag e.addr flag s.neigh_table in
    let assigned = false in
    let after_del =
      monitor assigned rest (record s { n_s_l_table = (del_n_s_l_table e.addr s.n_s_l_table).0 }) in
    let after_reset = monitor false rest s in if assigned then after_del else after_reset

-- `check_n_s_l_table`.
unfoldable pub check_n_s_l_table : Node → Node
unfolding monitor
check_n_s_l_table s =
    let s' = monitor false s.n_s_l_table s in
    elim s'.n_s_l_table [ [] ↦ record s' { flag_neigh_by_second = false } | e ∷ es ↦ s' ]

-- `check_addr_in_n_s_l_table`.
unfoldable pub check_addr_in_n_s_l_table : Addr → List Nsl → ℕ
check_addr_in_n_s_l_table addr table = if some_elem (λ e. addr_eq e.addr addr) table then 1 else 0

-- `process_sap1`.
unfoldable pub process_sap1 : CtrlPkt → Node → Run Node
unfolding init_tables_secondary_link add_n_s_l_table send_san1
process_sap1 msg s = do
  table ←
      add_n_s_l_table msg.ad_addr.addr msg.ad_addr.mask (init_tables_secondary_link s.n_s_l_table)
  ok (
      send_san1 msg.src_addr msg.ad_addr.addr msg.ad_addr.mask s.prim_mask
        (record s { n_s_l_table = table; flag_neigh_by_second = true }))

-- `process_san1`: the proposed address becomes the secondary one, and the proposer a neighbour and
-- the node at its other end.
unfoldable pub process_san1 : Neighbor → CtrlPkt → Node → Run Node
unfolding del_rcvd_addr_table add_neighbor
process_san1 fresh msg s =
    let addr = msg.ad_addr.addr in
    let mask = msg.ad_addr.mask in
    let msg_aux = record msg { ad_addr = record (msg.ad_addr) { mask = msg.ad_addr.t_lenght } } in
    let s1 = emit (Effect.sleep 2) (
      emit (Effect.add_if_addr addr) (record s {
        sec_addr_flag = true;
        flag_addr_avai = true;
        sec_addr = addr;
        sec_mask = mask;
      })) in
    let longer = ltb s.prim_mask mask && dist addr s.prim_addr == 1 in
    let s2 = record s1 { prim_mask = if longer then mask else s.prim_mask } in
    let s3 = (del_rcvd_addr_table addr s2).0 in
    do
      table ← add_neighbor fresh msg_aux false s3.neigh_table
      ok (record s3 { neigh_table = table; addr_node_secondary_link = msg.prim_addr })

-- Whether the secondary link still stands, for `check_neigh_of_secondary_address`.
unfoldable pub link_stands : Node → Bool
link_stands s =
    if dist s.sec_addr s.prim_addr == 1
    then some_elem
        (λ (it : Neighbor).
          addr_eq it.prim_addr s.addr_node_secondary_link && dist s.sec_addr it.prim_addr == 1)
        s.neigh_table
    else false

-- The secondary address is given up. Its space goes back to the primary one, or to the recovered
-- ones.
unfoldable pub give_up : Neighbor → Node → Node
unfolding recover_addr_space
give_up fresh s =
    let neighbor_aux = record fresh {
      prim_mask = s.sec_mask;
      prim_mask_inicial = s.sec_mask;
      prim_addr = s.sec_addr;
    } in
    let s1 = record s {
      sec_addr_flag = false;
      sec_addr = null_addr;
      addr_node_secondary_link = null_addr;
      sec_mask = 0;
    } in
    let shorter = record s1 { prim_mask = (s.prim_mask + 255) % 256 } in
    let s2 = if s.prim_mask == s.sec_mask then shorter else recover_addr_space neighbor_aux s1 in
    emit (Effect.sleep 2) (emit (Effect.del_if_addr s.sec_addr) s2)

-- `check_neigh_of_secondary_address`.
unfoldable pub check_neigh_of_secondary_address : Neighbor → Node → Node
unfolding link_stands give_up
check_neigh_of_secondary_address fresh s =
    if s.sec_addr_flag then (if link_stands s then s else give_up fresh s) else s
