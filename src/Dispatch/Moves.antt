-- ===== src/Dispatch/Moves.antt =====
-- The handlers of mezcla.c as wholes keep the invariant.
use antop.Base.{
  ◌+◌, ◌%◌, Bool, true, false, not, List, [], ◌∷◌, ◌&&◌, ◌||◌, ◌==◌, ltb, if◌then◌else◌, some_elem,
}
use antop.Base.Run.{ok, ◌>>=◌}
use antop.Addr.{Addr, addr_eq, dist}
use antop.Node.{Node, Neighbor, CtrlPkt, Outside, Effect, emit}
use antop.Names.{clear_rv_tables}
use antop.Neighbors.{no_neighbors, init_neigh_table, delete_neighbor, add_neighbor}
use antop.Shift.{del_and_addnew}
use antop.Mezcla.{send_mar2, send_man2, shift_mezcla, end_mezcla}
use antop.Mezcla.Requests.{
  process_mar1_secondary, from_default, meet, Rounds, mar1_rounds, mix_masks, move, move_rcvd,
  settle, answer_mar1, finish_alone, finish_mar1, tell_mar1, receive_mar1, mar1_loops,
  process_mar1_primary, process_mar1,
}
use antop.Mezcla.Grants.{
  given_addr, process_mar2_secondary, mar2_round, mar2_rounds, tell_mar2, finish_mar2, process_mar2,
}
use antop.Mezcla.Answers.{leave_default, enter, settle_both, process_man1, process_man2}
use antop.Dispatch.Invariant.{
  Core, core, Ends, if-holds, bind-Ends, then-Ends, swap-Inv, Inv, delete_neighbor-Inv,
  clear_rv_tables-Inv,
}
use antop.Dispatch.Mixes.{
  mar1_rounds-Inv, meet-Inv, process_mar1_secondary-Inv, settle-Inv, settle_both-Inv,
  end_mezcla-Inv,
}

module _ (c : Core) (out : Outside) where
  move-Inv : (msg : CtrlPkt) (s : Node) → Inv c s → Inv c (move_rcvd msg (move msg s))
  unfolding move_rcvd move core
  move-Inv msg s v =
      let addr =
        shift_mezcla s.hc_dim s.root msg.src_addr s.prim_addr msg.ad_addr.mask s.prim_mask_mezcla in
      swap-Inv c s.prim_addr addr 1 (record s { prim_addr = addr }) v

  answer_mar1-Inv : (msg : CtrlPkt) (s : Node) → Inv c s → Inv c (answer_mar1 out msg s)
  unfolding answer_mar1 core
  answer_mar1-Inv msg s v = v

  finish_alone-Inv :
      (msg aux : CtrlPkt) (s : Node) → Inv c s → Ends (Inv c) (finish_alone out msg aux s)
  unfolding finish_alone
  finish_alone-Inv msg aux s v =
      let added =
        add_neighbor out.fresh_neighbor aux false
          (init_neigh_table out.fresh_neighbor s.neigh_table) in
      let moved = λ (table : List Neighbor).
        move_rcvd msg (answer_mar1 out msg (move msg (record s { neigh_table = table }))) in
      bind-Ends (Inv c) added (λ (table : List Neighbor). settle out (moved table))
        (λ (table : List Neighbor) e.
          settle-Inv c out (moved table) (
            unfold move_rcvd answer_mar1 core in move-Inv msg (record s { neigh_table = table }) v))

  finish_mar1-Inv :
      (msg aux : CtrlPkt) (flag : Bool) (s : Node)
      → Inv c s
      → Ends (Inv c) (finish_mar1 out msg aux flag s)
  unfolding finish_mar1
  finish_mar1-Inv msg aux flag s v =
      let answered = answer_mar1 out msg s in
      let v1 = answer_mar1-Inv msg s v in
      let moved = move_rcvd msg (move msg answered) in
      let settled = settle out moved in
      let alone = finish_alone out msg aux s in
      let b = from_default msg s && no_neighbors s.neigh_table in
      if-holds (Ends (Inv c)) flag (ok answered) (if b then alone else settled) v1 (
        if-holds (Ends (Inv c)) b alone settled (finish_alone-Inv msg aux s v)
          (settle-Inv c out moved (move-Inv msg answered v1)))

  tell_mar1-Inv :
      (msg : CtrlPkt) (sender : Addr) (m looping : Bool) (s : Node)
      → Inv c s
      → Inv c (tell_mar1 out msg sender m looping s).node
  unfolding tell_mar1 mix_masks
  tell_mar1-Inv msg sender m looping s v =
      let s1 = clear_rv_tables (mix_masks msg s) in
      let v1 = clear_rv_tables-Inv c (mix_masks msg s) (unfold core in v) in
      let start : Rounds = record { node = s1; flag = false; aux5 = s.prim_addr } in
      if-holds (λ (r : Rounds). Inv c r.node) looping
        (mar1_rounds out msg s.prim_addr sender m s1.neigh_table start) start
        (mar1_rounds-Inv c out msg s.prim_addr sender m s1.neigh_table start v1) v1

  receive_mar1-Inv :
      (msg aux : CtrlPkt) (s : Node) → Inv c s → Ends (Inv c) (receive_mar1 out msg aux s)
  unfolding receive_mar1 core
  receive_mar1-Inv msg aux s v =
      let s0 = record s { flag_mezcla = true; flag_mezcla_primaria = true } in
      let ntr = record (s.neighbor_to_root) { distance = 99 } in
      let relayed = record s0 { neighbor_to_root = ntr; prim_mask_mezcla = msg.ad_addr.t_lenght } in
      let next = λ (s1 : Node).
        ok (record s1 { neighbor_to_root = ntr; prim_mask_mezcla = s.prim_mask_inicial }) in
      if-holds (Ends (Inv c)) (not (from_default msg s)) (ok relayed) (meet out aux s0 >>= next) v (
        then-Ends (Inv c) (Inv c) (meet out aux s0) next (meet-Inv c out aux s0 v)
          (λ (n : Node) w. w))

  process_mar1_primary-Inv :
      (msg : CtrlPkt) (s : Node) → Inv c s → Ends (Inv c) (process_mar1_primary out msg s)
  unfolding process_mar1_primary
  process_mar1_primary-Inv msg s v =
      let default = from_default msg s in
      let aux = if default then record msg { prim_addr = msg.src_addr } else msg in
      let known = some_elem (λ (it : Neighbor). addr_eq aux.prim_addr it.prim_addr) s.neigh_table in
      let told = tell_mar1 out msg aux.prim_addr (default && known) (mar1_loops msg s) in
      then-Ends (Inv c) (Inv c) (receive_mar1 out msg aux s)
        (λ (n : Node). finish_mar1 out msg aux (told n).flag (told n).node)
        (receive_mar1-Inv msg aux s v)
        (λ (n : Node) w.
          finish_mar1-Inv msg aux (told n).flag (told n).node
            (tell_mar1-Inv msg aux.prim_addr (default && known) (mar1_loops msg s) n w))

  pub process_mar1-Inv :
      (msg : CtrlPkt) (s : Node) → Inv c s → Ends (Inv c) (process_mar1 out msg s)
  unfolding process_mar1
  process_mar1-Inv msg s v =
      if-holds (Ends (Inv c)) (addr_eq msg.ad_addr.addr s.sec_addr)
        (process_mar1_secondary out msg s) (process_mar1_primary out msg s)
        (process_mar1_secondary-Inv c out msg s v) (process_mar1_primary-Inv msg s v)

  process_mar2_secondary-Inv :
      (msg : CtrlPkt) (s : Node) → Inv c s → Ends (Inv c) (process_mar2_secondary out msg s)
  unfolding process_mar2_secondary send_man2 core
  process_mar2_secondary-Inv msg s v =
      let ad = msg.ad_addr in
      let s1 = send_man2 out s.sec_addr msg.prim_addr msg.src_addr ad.mask ad.red_numero (record s {
        flag_mezcla = true;
        flag_mezcla_secundaria = true;
        sec_mask = ad.mask;
        red_numero = ad.red_numero;
      }) in
      let addr = given_addr msg s in
      let s1' = record s1 { sec_addr = addr } in
      let s2 = emit (Effect.sleep 2) (del_and_addnew s.sec_addr addr 0 s1') in
      let v2 = swap-Inv c s.sec_addr addr 0 s1' v in
      if-holds (Ends (Inv c)) s.flag_mezcla_primaria (end_mezcla out s2) (ok s2)
        (end_mezcla-Inv c out s2 v2) v2

  mar2_round-Inv :
      (addr : Addr) (it : Neighbor) (r : Node × Bool)
      → Inv c r.0
      → Inv c (mar2_round out addr it r).0
  unfolding mar2_round
  mar2_round-Inv addr it (s, flag) v =
      let longer = (s.prim_mask + 1) % 256 in
      let given =
        send_mar2 out s.prim_addr it.prim_addr addr longer (record s { prim_mask = longer }) in
      let gone : Node × Bool = ((delete_neighbor it s).0, flag) in
      let with_mar2 : Node × Bool = ((delete_neighbor it given).0, true) in
      if-holds (λ (r : Node × Bool). Inv c r.0)
        (s.sec_addr_flag && ltb 1 (dist s.prim_addr it.prim_addr)) gone with_mar2
        (delete_neighbor-Inv c it s v) (delete_neighbor-Inv c it given (unfold send_mar2 core in v))

  mar2_rounds-Inv :
      (msg : CtrlPkt) (addr : Addr) (ns : List Neighbor) (r : Node × Bool)
      → Inv c r.0
      → Inv c (mar2_rounds out msg addr ns r).0
  unfolding mar2_rounds
  mar2_rounds-Inv msg addr [] r v = v
  mar2_rounds-Inv msg addr (it ∷ rest) r v =
      let own = addr_eq msg.prim_addr it.prim_addr in
      mar2_rounds-Inv msg addr rest (if own then r else mar2_round out addr it r) (
        if-holds (λ (r : Node × Bool). Inv c r.0) own r (mar2_round out addr it r) v
          (mar2_round-Inv addr it r v))

  tell_mar2-Inv : (msg : CtrlPkt) (s : Node) → Inv c s → Inv c (tell_mar2 out msg s).0
  unfolding tell_mar2
  tell_mar2-Inv msg s v =
      let s0 = record s {
        flag_mezcla = true;
        flag_mezcla_primaria = true;
        red_numero = msg.ad_addr.red_numero;
        prim_mask = msg.ad_addr.mask;
        prim_mask_inicial = msg.ad_addr.mask;
        neighbor_to_root = record (s.neighbor_to_root) { distance = 99 };
      } in
      let s1 = clear_rv_tables s0 in
      let v1 = clear_rv_tables-Inv c s0 (unfold core in v) in
      let start : Node × Bool = (s1, false) in
      if-holds (λ (r : Node × Bool). Inv c r.0)
        (not (s.prim_mask == s.prim_mask_inicial) || s.flag_neigh_by_second)
        (mar2_rounds out msg (given_addr msg s) s1.neigh_table start) start
        (mar2_rounds-Inv msg (given_addr msg s) s1.neigh_table start v1) v1

  finish_mar2-Inv :
      (msg : CtrlPkt) (r : Node × Bool) → Inv c r.0 → Ends (Inv c) (finish_mar2 out msg r)
  unfolding finish_mar2 send_man2 core
  finish_mar2-Inv msg (s, flag) v =
      let answered =
        send_man2 out s.prim_addr msg.prim_addr msg.src_addr s.prim_mask s.red_numero s in
      let addr = given_addr msg s in
      let s1 = record answered { prim_addr = addr } in
      let moved = emit (Effect.sleep 2) (del_and_addnew s.prim_addr addr 1 s1) in
      let s2 = record moved { rcvd_addr = [] } in
      if-holds (Ends (Inv c)) flag (ok answered) (settle out s2) v
        (settle-Inv c out s2 (swap-Inv c s.prim_addr addr 1 s1 v))

  pub process_mar2-Inv :
      (msg : CtrlPkt) (s : Node) → Inv c s → Ends (Inv c) (process_mar2 out msg s)
  unfolding process_mar2
  process_mar2-Inv msg s v =
      if-holds (Ends (Inv c)) (addr_eq msg.ad_addr.addr s.sec_addr)
        (process_mar2_secondary out msg s) (finish_mar2 out msg (tell_mar2 out msg s))
        (process_mar2_secondary-Inv msg s v)
        (finish_mar2-Inv msg (tell_mar2 out msg s) (tell_mar2-Inv msg s v))

  pub leave_default-Inv : (s : Node) → Inv c s → Inv c (leave_default s)
  unfolding leave_default core
  leave_default-Inv s v = swap-Inv c s.prim_addr s.prim_addr_aux 2 s v

  enter-Inv : (msg : CtrlPkt) (s : Node) → Inv c s → Inv c (enter msg s)
  unfolding enter
  enter-Inv msg s v =
      let s1 = leave_default s in
      let v1 = leave_default-Inv s v in
      let s2 = record s1 { prim_mask = (s.prim_mask + 1) % 256 } in
      let known = msg.ad_addr.mask == s.prim_mask in
      if-holds (Inv c) (s.flag_mezcla && addr_eq s.prim_addr s.dir_default)
        (if known then s2 else s1) s (if-holds (Inv c) known s2 s1 (unfold core in v1) v1) v

  pub process_man1-Inv :
      (msg : CtrlPkt) (s : Node) → Inv c s → Ends (Inv c) (process_man1 out msg s)
  unfolding process_man1
  process_man1-Inv msg s v =
      let s1 = enter msg s in
      let v1 = enter-Inv msg s v in
      let s2 = move_rcvd msg (move msg s1) in
      if-holds (Ends (Inv c)) s1.flag_mezcla (settle_both out s2) (ok s1)
        (settle_both-Inv c out s2 (move-Inv msg s1 v1)) v1

  pub process_man2-Inv :
      (msg : CtrlPkt) (s : Node) → Inv c s → Ends (Inv c) (process_man2 out msg s)
  unfolding process_man2 core
  process_man2-Inv msg s v =
      let s1 = record s { prim_addr = msg.src_addr } in
      let moved = emit (Effect.sleep 2) (del_and_addnew s.prim_addr msg.src_addr 1 s1) in
      let s2 = record moved { rcvd_addr = [] } in
      if-holds (Ends (Inv c)) s.flag_mezcla (settle_both out s2) (ok s)
        (settle_both-Inv c out s2 (swap-Inv c s.prim_addr msg.src_addr 1 s1 v)) v
