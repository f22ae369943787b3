-- ===== src/Mezcla/Grants.antt =====
-- `process_mar2` of mezcla.c.
use antop.Base.{
  ◌+◌, ◌-◌, ◌%◌, bit_or, List, [], ◌∷◌, Bool, true, false, not, ◌&&◌, ◌||◌, ◌==◌, ltb,
  if◌then◌else◌,
}
use antop.Base.Run.{Run, ok}
use antop.Addr.{Addr, addr_eq, dist}
use antop.Node.{Node, Neighbor, CtrlPkt, Outside, Effect, emit}
use antop.Names.{clear_rv_tables}
use antop.Neighbors.{delete_neighbor}
use antop.Shift.{shift_unos, zip_words, del_and_addnew}
use antop.Mezcla.{send_mar2, send_man2, first_bit, end_mezcla}
use antop.Mezcla.Requests.{settle}

-- The address that a MAR2 gives: the sender's, with one bit more.
unfoldable pub given_addr : CtrlPkt → Node → Addr
unfolding shift_unos zip_words
given_addr msg s =
    zip_words bit_or (shift_unos 0 (128 + msg.ad_addr.mask - s.hc_dim - 1) first_bit) msg.src_addr

-- `process_mar2` for the secondary address.
unfoldable pub process_mar2_secondary : Outside → CtrlPkt → Node → Run Node
unfolding send_man2 given_addr del_and_addnew end_mezcla
process_mar2_secondary out msg s =
    let ad = msg.ad_addr in
    let s1 = send_man2 out s.sec_addr msg.prim_addr msg.src_addr ad.mask ad.red_numero (record s {
      flag_mezcla = true;
      flag_mezcla_secundaria = true;
      sec_mask = ad.mask;
      red_numero = ad.red_numero;
    }) in
    let addr = given_addr msg s in
    let s2 =
      emit (Effect.sleep 2) (del_and_addnew s.sec_addr addr 0 (record s1 { sec_addr = addr })) in
    if s.flag_mezcla_primaria then end_mezcla out s2 else ok s2

-- A round of the loop of `process_mar2`, for a neighbour that is not the sender.
unfoldable pub mar2_round : Outside → Addr → Neighbor → Node × Bool → Node × Bool
unfolding delete_neighbor send_mar2
mar2_round out addr it (s, flag) =
    let longer = (s.prim_mask + 1) % 256 in
    let given =
      send_mar2 out s.prim_addr it.prim_addr addr longer (record s { prim_mask = longer }) in
    let gone : Node × Bool = ((delete_neighbor it s).0, flag) in
    let with_mar2 : Node × Bool = ((delete_neighbor it given).0, true) in
    if s.sec_addr_flag && ltb 1 (dist s.prim_addr it.prim_addr) then gone else with_mar2

unfoldable pub mar2_rounds : Outside → CtrlPkt → Addr → List Neighbor → Node × Bool → Node × Bool
unfolding mar2_round
mar2_rounds out msg addr [] r = r
mar2_rounds out msg addr (it ∷ rest) r =
    mar2_rounds out msg addr rest
      (if addr_eq msg.prim_addr it.prim_addr then r else mar2_round out addr it r)

-- `process_mar2` for the primary address, up to the end of its loop.
unfoldable pub tell_mar2 : Outside → CtrlPkt → Node → Node × Bool
unfolding mar2_rounds given_addr clear_rv_tables
tell_mar2 out msg s =
    let s1 = clear_rv_tables (record s {
      flag_mezcla = true;
      flag_mezcla_primaria = true;
      red_numero = msg.ad_addr.red_numero;
      prim_mask = msg.ad_addr.mask;
      prim_mask_inicial = msg.ad_addr.mask;
      neighbor_to_root = record (s.neighbor_to_root) { distance = 99 };
    }) in
    let start : Node × Bool = (s1, false) in
    let looped = mar2_rounds out msg (given_addr msg s) s1.neigh_table start in
    if not (s.prim_mask == s.prim_mask_inicial) || s.flag_neigh_by_second then looped else start

-- Its end: the answer, and without a message to a neighbour the new address at once.
unfoldable pub finish_mar2 : Outside → CtrlPkt → Node × Bool → Run Node
unfolding send_man2 given_addr del_and_addnew settle
finish_mar2 out msg (s, flag) =
    let answered =
      send_man2 out s.prim_addr msg.prim_addr msg.src_addr s.prim_mask s.red_numero s in
    let addr = given_addr msg s in
    let moved =
      emit (Effect.sleep 2)
        (del_and_addnew s.prim_addr addr 1 (record answered { prim_addr = addr })) in
    if flag then ok answered else settle out (record moved { rcvd_addr = [] })

-- `process_mar2`.
unfoldable pub process_mar2 : Outside → CtrlPkt → Node → Run Node
unfolding process_mar2_secondary tell_mar2 finish_mar2
process_mar2 out msg s =
    if addr_eq msg.ad_addr.addr s.sec_addr
    then process_mar2_secondary out msg s
    else finish_mar2 out msg (tell_mar2 out msg s)
