-- ===== src/Dispatch.antt =====
-- `antop_process_pkt` of antop_socket.c: what a packet of each type does to the node, and the step
-- relation of a node, by packets and by the handlers of its timers.
pub mod Invariant
pub mod Fragments
pub mod Mixes
pub mod Moves
pub mod Beats
pub mod Step
use antop.Base.{
  ℕ, bit_and, Bool, true, false, not, ◌&&◌, ◌||◌, ◌==◌, Option, none, some, if◌then◌else◌,
}
use antop.Base.Run.{Run, ok, ◌>>=◌}
use antop.Addr.{addr_eq}
use antop.Node.{
  Node, CtrlPkt, RvCtrlPkt, Outside, Effect, emit, par, pap, pan, hb_type, sap, san, rv_reg,
  rv_addr_lookup, rv_addr_solve, far, fan, mar1, mar2, man1, man2,
}
use antop.Alloc.Protocol.{send_pap, process_pan}
use antop.Names.{rv_table_add, answer_rv_query}
use antop.Secondary.{process_sap1, process_san1}
use antop.Fragment.{process_far, process_fan}
use antop.Mezcla.Requests.{process_mar1}
use antop.Mezcla.Grants.{process_mar2}
use antop.Mezcla.Answers.{process_man1, process_man2, leave_default}
use antop.HeartBeat.{process_hb, changing}

-- The bytes received, read as either of the two structures; both start with the type.
pub record Message : Type 0 where
  pub type_f : ℕ
  pub ctrl : CtrlPkt
  pub rv : RvCtrlPkt

-- The packet is of the node's own network.
unfoldable pub same_network : Message → Node → Bool
same_network msg s = msg.ctrl.ad_addr.red_numero == s.red_numero

unfoldable pub case_hb : Outside → Message → Node → Run Node
unfolding changing process_hb
case_hb out msg s = if changing s then ok s else process_hb out msg.ctrl s

unfoldable pub case_rv_reg : Message → Node → Run Node
unfolding rv_table_add
case_rv_reg msg s = do table ← rv_table_add msg.rv s.rv_table; ok (record s { rv_table = table })

unfoldable pub case_rv_lookup : Outside → Message → Node → Node
unfolding answer_rv_query
case_rv_lookup out msg s =
    let answer = answer_rv_query out.fresh_rv out.name_tail msg.rv s.rv_table in
    emit (Effect.send_rv answer msg.rv.src_addr 1) s

-- `answer_dns_query` gets the packet if the name was solved, and NULL if not.
unfoldable pub case_rv_solve : Message → Node → Node
case_rv_solve msg s =
    let solved = not (bit_and msg.rv.flags 1 == 0) in
    emit (Effect.answer_dns (if solved then some msg.rv else none)) s

unfoldable pub case_sap : Message → Node → Run Node
unfolding same_network changing process_sap1
case_sap msg s =
    if not (same_network msg s) then ok s else if changing s then ok s else process_sap1 msg.ctrl s

-- A MAR1 of the node's own network is the end of the wait under the default address.
unfoldable pub recover_default : Message → Node → Node
unfolding same_network leave_default
recover_default msg s =
    if same_network msg s && addr_eq s.prim_addr s.dir_default then leave_default s else s

unfoldable pub case_mar1 : Outside → Message → Node → Run Node
unfolding recover_default same_network process_mar1
case_mar1 out msg s =
    let s1 = recover_default msg s in
    let accepted =
      (not (same_network msg s1) || s1.sec_addr_flag)
      && addr_eq msg.ctrl.ad_addr.addr s1.prim_addr in
    if accepted then process_mar1 out msg.ctrl s1 else ok s1

unfoldable pub case_mar2 : Outside → Message → Node → Run Node
unfolding same_network process_mar2
case_mar2 out msg s =
    if not (same_network msg s) || s.sec_addr_flag then process_mar2 out msg.ctrl s else ok s

-- `antop_process_pkt`.
unfoldable pub antop_process_pkt : Outside → Message → Node → Run Node
unfolding send_pap process_pan case_hb case_rv_reg case_rv_lookup case_rv_solve case_sap
    process_san1 process_far process_fan case_mar1 case_mar2 same_network process_man1 process_man2
antop_process_pkt out msg s =
    if msg.type_f == par
    then ok (send_pap out.fresh_pkt msg.ctrl.src_addr s)
    else if msg.type_f == pap
    then ok s
    else if msg.type_f == pan
    then ok (process_pan out.fresh_pkt msg.ctrl s)
    else if msg.type_f == hb_type
    then case_hb out msg s
    else if msg.type_f == rv_reg
    then case_rv_reg msg s
    else if msg.type_f == rv_addr_lookup
    then ok (case_rv_lookup out msg s)
    else if msg.type_f == rv_addr_solve
    then ok (case_rv_solve msg s)
    else if msg.type_f == sap
    then case_sap msg s
    else if msg.type_f == san
    then process_san1 out.fresh_neighbor msg.ctrl s
    else if msg.type_f == far
    then process_far out msg.ctrl s
    else if msg.type_f == fan
    then process_fan out s
    else if msg.type_f == mar1
    then case_mar1 out msg s
    else if msg.type_f == mar2
    then case_mar2 out msg s
    else if msg.type_f == man1
    then (if same_network msg s then process_man1 out msg.ctrl s else ok s)
    else if msg.type_f == man2
    then (if same_network msg s then process_man2 out msg.ctrl s else ok s)
    else ok s
