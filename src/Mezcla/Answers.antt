-- ===== src/Mezcla/Answers.antt =====
-- `process_man1` and `process_man2` of mezcla.c, and the recovery of the node's own address from the
-- default one.
use antop.Base.{◌+◌, ◌%◌, [], false, not, ◌&&◌, ◌||◌, ◌==◌, if◌then◌else◌}
use antop.Base.Run.{Run, ok}
use antop.Addr.{addr_eq}
use antop.Node.{Node, CtrlPkt, Outside, Effect, emit}
use antop.Shift.{del_and_addnew}
use antop.Mezcla.{end_mezcla}
use antop.Mezcla.Requests.{move, move_rcvd}

-- The node gives up the default address for its former one.
unfoldable pub leave_default : Node → Node
unfolding del_and_addnew
leave_default s =
    let s1 = emit (Effect.sleep 2) (del_and_addnew s.prim_addr s.prim_addr_aux 2 s) in
    record s1 { prim_addr = s.prim_addr_aux; flag_mezcla = false }

-- The first part of `process_man1`, for the node with the default address.
unfoldable pub enter : CtrlPkt → Node → Node
unfolding leave_default
enter msg s =
    let s1 = leave_default s in
    if s.flag_mezcla && addr_eq s.prim_addr s.dir_default
    then (if msg.ad_addr.mask == s.prim_mask
        then record s1 { prim_mask = (s.prim_mask + 1) % 256 }
        else s1)
    else s

-- Both addresses are done, or there is one only.
unfoldable pub settle_both : Outside → Node → Run Node
unfolding end_mezcla
settle_both out s =
    if not s.sec_addr_flag || (s.flag_mezcla_primaria && s.flag_mezcla_secundaria)
    then end_mezcla out s
    else ok s

-- `process_man1`.
unfoldable pub process_man1 : Outside → CtrlPkt → Node → Run Node
unfolding enter move move_rcvd settle_both
process_man1 out msg s =
    let s1 = enter msg s in
    if s1.flag_mezcla then settle_both out (move_rcvd msg (move msg s1)) else ok s1

-- `process_man2`.
unfoldable pub process_man2 : Outside → CtrlPkt → Node → Run Node
unfolding del_and_addnew settle_both
process_man2 out msg s =
    let addr = msg.src_addr in
    let moved =
      emit (Effect.sleep 2) (del_and_addnew s.prim_addr addr 1 (record s { prim_addr = addr })) in
    if s.flag_mezcla then settle_both out (record moved { rcvd_addr = [] }) else ok s
