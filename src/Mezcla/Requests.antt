-- ===== src/Mezcla/Requests.antt =====
-- `process_mar1` of mezcla.c.
use antop.Base.{
  ◌+◌, ◌%◌, List, [], ◌∷◌, Bool, true, false, not, ◌&&◌, ◌||◌, ◌==◌, ltb, if◌then◌else◌, some_elem,
}
use antop.Base.Run.{Run, ok, ◌>>=◌}
use antop.Addr.{Addr, addr_eq, dist}
use antop.Node.{Node, Neighbor, CtrlPkt, Outside, Effect, emit, sub8}
use antop.Names.{clear_rv_tables}
use antop.Neighbors.{no_neighbors, init_neigh_table, add_neighbor, delete_neighbor}
use antop.Secondary.{check_addr_in_n_s_l_table}
use antop.Shift.{del_and_addnew}
use antop.Mezcla.{send_mar1, send_mar2, send_man1, shift_mezcla, mix_rcvd, end_mezcla}

-- `process_mar1` for the secondary address.
unfoldable pub process_mar1_secondary : Outside → CtrlPkt → Node → Run Node
unfolding send_man1 shift_mezcla del_and_addnew end_mezcla
process_mar1_secondary out msg s =
    let ad = msg.ad_addr in
    let s1 = send_man1 out s.sec_addr msg.prim_addr msg.src_addr ad.mask ad.red_numero (record s {
      flag_mezcla = true;
      flag_mezcla_secundaria = true;
      sec_mask = sub8 (s.sec_mask + ad.mask + 1) ad.t_lenght;
      red_numero = ad.red_numero;
    }) in
    let addr = shift_mezcla s.hc_dim s.root msg.src_addr s.sec_addr ad.mask ad.t_lenght in
    let s2 =
      emit (Effect.sleep 2) (del_and_addnew s.sec_addr addr 0 (record s1 { sec_addr = addr })) in
    if s.flag_mezcla_primaria then end_mezcla out s2 else ok s2

-- Whether the sender is the node with the default address.
unfoldable pub from_default : CtrlPkt → Node → Bool
from_default msg s = addr_eq msg.prim_addr s.dir_default

-- The loop that looks for the neighbours of the sender's former address.
unfoldable pub ndisc_all : Addr → List Neighbor → Node → Node
ndisc_all addr [] s = s
ndisc_all addr (it ∷ rest) s =
    ndisc_all addr rest
      (if addr_eq addr it.prim_addr then emit (Effect.ndisc it.prim_addr) s else s)

-- The receiver of the default node's message takes it as a neighbour, under its former address,
-- unless a neighbour has that address.
unfoldable pub meet : Outside → CtrlPkt → Node → Run Node
unfolding ndisc_all add_neighbor no_neighbors
meet out aux_msg s =
    let known =
      some_elem (λ (it : Neighbor). addr_eq aux_msg.prim_addr it.prim_addr) s.neigh_table in
    let s1 = ndisc_all aux_msg.prim_addr s.neigh_table s in
    if known || no_neighbors s.neigh_table then ok s1 else do
      table ← add_neighbor out.fresh_neighbor aux_msg false s.neigh_table
      ok (record s1 { neigh_table = table })

-- What the loop over the neighbours keeps: the node, `flag`, and `aux5`, which every MAR2 shifts
-- once more.
pub record Rounds : Type 0 where
  pub node : Node
  pub flag : Bool
  pub aux5 : Addr

-- A round of the loop of `process_mar1`, for a neighbour that is not the sender; `old` is the
-- node's address.
unfoldable pub mar1_round : Outside → CtrlPkt → Addr → Neighbor → Rounds → Rounds
unfolding delete_neighbor send_mar1 send_mar2 shift_mezcla
mar1_round out msg old it r =
    let s = r.node in
    let mf = s.prim_mask_mezcla in
    let mask = msg.ad_addr.mask in
    let below =
      ltb (dist s.root old) (dist s.root it.prim_addr)
      || not (check_addr_in_n_s_l_table it.prim_addr s.n_s_l_table == 0) in
    let told = send_mar1 out s.prim_addr it.prim_addr msg.src_addr mask mf s in
    let aux5 = shift_mezcla s.hc_dim s.root msg.src_addr r.aux5 mask mf in
    let longer = (s.prim_mask + 1) % 256 in
    let given =
      send_mar2 out s.prim_addr it.prim_addr aux5 longer (record s { prim_mask = longer }) in
    let gone : Rounds = record r { node = (delete_neighbor it s).0 } in
    let with_mar1 : Rounds = record r { node = (delete_neighbor it told).0; flag = true } in
    let with_mar2 : Rounds = record {
      node = (delete_neighbor it given).0;
      flag = true;
      aux5 = aux5;
    } in
    if s.sec_addr_flag && ltb 1 (dist old it.prim_addr)
    then gone
    else if below
    then with_mar1
    else with_mar2

-- Its loop, which passes over the sender unless `flag_monitoreo` is set.
unfoldable pub mar1_rounds :
    Outside → CtrlPkt → Addr → Addr → Bool → List Neighbor → Rounds → Rounds
unfolding mar1_round
mar1_rounds out msg old sender flag_monitoreo [] r = r
mar1_rounds out msg old sender flag_monitoreo (it ∷ rest) r =
    let turn = not (addr_eq sender it.prim_addr) || flag_monitoreo in
    mar1_rounds out msg old sender flag_monitoreo rest
      (if turn then mar1_round out msg old it r else r)

-- The masks of the node in the other network.
unfoldable pub mix_masks : CtrlPkt → Node → Node
mix_masks msg s = record s {
  red_numero = msg.ad_addr.red_numero;
  prim_mask = sub8 (s.prim_mask + msg.ad_addr.mask + 1) s.prim_mask_mezcla;
  prim_mask_inicial = sub8 (msg.ad_addr.mask + 1 + s.prim_mask_inicial) s.prim_mask_mezcla;
}

-- The node takes its address in the other network.
unfoldable pub move : CtrlPkt → Node → Node
unfolding shift_mezcla del_and_addnew
move msg s =
    let addr =
      shift_mezcla s.hc_dim s.root msg.src_addr s.prim_addr msg.ad_addr.mask s.prim_mask_mezcla in
    emit (Effect.sleep 2) (del_and_addnew s.prim_addr addr 1 (record s { prim_addr = addr }))

unfoldable pub move_rcvd : CtrlPkt → Node → Node
unfolding mix_rcvd
move_rcvd msg s = record s {
  rcvd_addr = mix_rcvd s.hc_dim s.root msg.src_addr msg.ad_addr.mask s.prim_mask_mezcla s.rcvd_addr;
}

-- The end of `process_mar1` and `process_mar2` when no message went to a neighbour.
unfoldable pub settle : Outside → Node → Run Node
unfolding end_mezcla
settle out s = if not s.sec_addr_flag || s.flag_mezcla_secundaria then end_mezcla out s else ok s

-- The answer to the sender.
unfoldable pub answer_mar1 : Outside → CtrlPkt → Node → Node
unfolding send_man1
answer_mar1 out msg s =
    send_man1 out s.prim_addr msg.prim_addr msg.src_addr msg.ad_addr.mask s.red_numero s

-- The end of `process_mar1` for a receiver without neighbours: the sender becomes one, and is
-- answered from the new address.
unfoldable pub finish_alone : Outside → CtrlPkt → CtrlPkt → Node → Run Node
unfolding answer_mar1 move move_rcvd settle init_neigh_table add_neighbor
finish_alone out msg aux_msg s = do
  table ←
      add_neighbor out.fresh_neighbor aux_msg false
        (init_neigh_table out.fresh_neighbor s.neigh_table)
  settle out (move_rcvd msg (answer_mar1 out msg (move msg (record s { neigh_table = table }))))

-- The end of `process_mar1`: without a message to a neighbour the node takes its new address.
unfoldable pub finish_mar1 : Outside → CtrlPkt → CtrlPkt → Bool → Node → Run Node
unfolding answer_mar1 move move_rcvd settle finish_alone from_default no_neighbors
finish_mar1 out msg aux_msg flag s =
    let settled = settle out (move_rcvd msg (move msg (answer_mar1 out msg s))) in
    if flag
    then ok (answer_mar1 out msg s)
    else if from_default msg s && no_neighbors s.neigh_table
    then finish_alone out msg aux_msg s
    else settled

-- The middle of `process_mar1`: the masks, and the loop over the neighbours if it is run at all.
unfoldable pub tell_mar1 : Outside → CtrlPkt → Addr → Bool → Bool → Node → Rounds
unfolding mix_masks mar1_rounds clear_rv_tables
tell_mar1 out msg sender flag_monitoreo looping s =
    let s1 = clear_rv_tables (mix_masks msg s) in
    let start : Rounds = record { node = s1; flag = false; aux5 = s.prim_addr } in
    let looped = mar1_rounds out msg s.prim_addr sender flag_monitoreo s1.neigh_table start in
    if looping then looped else start

-- `process_mar1` for the primary address, up to its masks: the sender is met, and
-- `prim_mask_mezcla` is set.
unfoldable pub receive_mar1 : Outside → CtrlPkt → CtrlPkt → Node → Run Node
unfolding meet from_default
receive_mar1 out msg aux_msg s =
    let s0 = record s { flag_mezcla = true; flag_mezcla_primaria = true } in
    let ntr = record (s.neighbor_to_root) { distance = 99 } in
    let relayed = record s0 { neighbor_to_root = ntr; prim_mask_mezcla = msg.ad_addr.t_lenght } in
    if not (from_default msg s) then ok relayed else do
      s1 ← meet out aux_msg s0
      ok (record s1 { neighbor_to_root = ntr; prim_mask_mezcla = s.prim_mask_inicial })

-- Whether the loop of `process_mar1` is run: `flag_sin_sucesores`, `flag_padre_caso_especial` and
-- `flag_neigh_by_second`.
unfoldable pub mar1_loops : CtrlPkt → Node → Bool
unfolding from_default no_neighbors
mar1_loops msg s =
    let flag_sin_sucesores = s.prim_mask == s.prim_mask_inicial in
    let flag_padre_caso_especial = from_default msg s && not (no_neighbors s.neigh_table) in
    not flag_sin_sucesores || flag_padre_caso_especial || s.flag_neigh_by_second

-- `process_mar1` for the primary address.
unfoldable pub process_mar1_primary : Outside → CtrlPkt → Node → Run Node
unfolding receive_mar1 tell_mar1 finish_mar1 from_default mar1_loops
process_mar1_primary out msg s =
    let default = from_default msg s in
    let aux_msg = if default then record msg { prim_addr = msg.src_addr } else msg in
    let sender = aux_msg.prim_addr in
    let known = some_elem (λ (it : Neighbor). addr_eq sender it.prim_addr) s.neigh_table in
    do
      s1 ← receive_mar1 out msg aux_msg s
      let r = tell_mar1 out msg sender (default && known) (mar1_loops msg s) s1
      finish_mar1 out msg aux_msg r.flag r.node

-- `process_mar1`.
unfoldable pub process_mar1 : Outside → CtrlPkt → Node → Run Node
unfolding process_mar1_secondary process_mar1_primary
process_mar1 out msg s =
    if addr_eq msg.ad_addr.addr s.sec_addr
    then process_mar1_secondary out msg s
    else process_mar1_primary out msg s
