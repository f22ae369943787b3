-- ===== src/Dispatch/Step.antt =====
-- A node in time: the packets that it takes in and the handlers of its timers, in any order.
use antop.Base.{ℕ, ◌≡◌, subst, ◌&&◌, ◌||◌, not, ◌==◌, Bool, some, if◌then◌else◌, List}
use antop.Base.Run.{ok}
use antop.Addr.{addr_eq}
use antop.Node.{
  Node, LookupTable, Outside, par, pap, pan, hb_type, sap, san, rv_reg, rv_addr_lookup,
  rv_addr_solve, far, fan, mar1, mar2, man1, man2,
}
use antop.Alloc.Protocol.{send_pap, process_pan}
use antop.Names.{rv_table_add}
use antop.Names.Table.{rv_table_add-NamesOnce}
use antop.Names.Servers.{register_rv}
use antop.Neighbors.{check_neighbors}
use antop.Secondary.{process_sap1, process_san1, san_t_handler}
use antop.Fragment.{process_far, process_fan}
use antop.Mezcla.Requests.{process_mar1}
use antop.Mezcla.Grants.{process_mar2}
use antop.Mezcla.Answers.{process_man1, process_man2, leave_default}
use antop.HeartBeat.{process_hb, changing, send_hb}
use antop.Dispatch.{
  Message, same_network, case_hb, case_rv_reg, case_rv_lookup, case_rv_solve, case_sap,
  recover_default, case_mar1, case_mar2, antop_process_pkt,
}
use antop.Dispatch.Invariant.{
  Core, core, Good, Ends, if-holds, bind-Ends, Inv, same-Inv, with_table, register_rv-Inv,
}
use antop.Dispatch.Fragments.{process_far-Inv, process_fan-Inv}
use antop.Dispatch.Moves.{
  process_mar1-Inv, process_mar2-Inv, process_man1-Inv, process_man2-Inv, leave_default-Inv,
}
use antop.Dispatch.Beats.{
  send_pap-core, process_pan-core, process_sap1-Inv, process_san1-Inv, process_hb-Inv, send_hb-Inv,
  check_neighbors-Inv,
}

-- One step, of a run that does not crash.
pub data Step (s : Node) : Node → Type 0 where
  packet :
      (out : Outside) (msg : Message) (s' : Node) → antop_process_pkt out msg s ≡ ok s' → Step s s'
  hb_timer : (out : Outside) (timer : Bool) → Step s (send_hb out timer s)
  chk_neigh_timer : (fuel : ℕ) (s' : Node) → check_neighbors fuel s ≡ some s' → Step s s'
  san_timer : Step s (san_t_handler s)
  rv_timer : (out : Outside) (s' : Node) → register_rv out s ≡ ok s' → Step s s'

pub data Reaches (s : Node) : Node → Type 0 where
  stay : Reaches s s
  next : (t u : Node) → Reaches s t → Step t u → Reaches s u

module _ (c : Core) (out : Outside) where
  case_rv_reg-Inv : (msg : Message) (s : Node) → Inv c s → Ends (Inv c) (case_rv_reg msg s)
  unfolding case_rv_reg
  case_rv_reg-Inv msg s v =
      bind-Ends {A = List LookupTable} (Inv c) (rv_table_add msg.rv s.rv_table)
        (λ (table : List LookupTable). ok (record s { rv_table = table }))
        (λ (table : List LookupTable) e.
          with_table c s table
            (rv_table_add-NamesOnce msg.rv s.rv_table table (unfold core in v.names) e) v)

  case_sap-Inv : (msg : Message) (s : Node) → Inv c s → Ends (Inv c) (case_sap msg s)
  unfolding case_sap
  case_sap-Inv msg s v =
      let taken = process_sap1 msg.ctrl s in
      if-holds (Ends (Inv c)) (not (same_network msg s)) (ok s) (if changing s then ok s else taken)
        v
        (if-holds (Ends (Inv c)) (changing s) (ok s) taken v (process_sap1-Inv c out msg.ctrl s v))

  case_mar1-Inv : (msg : Message) (s : Node) → Inv c s → Ends (Inv c) (case_mar1 out msg s)
  unfolding case_mar1 recover_default
  case_mar1-Inv msg s v =
      let b = same_network msg s && addr_eq s.prim_addr s.dir_default in
      let s1 = if b then leave_default s else s in
      let v1 = if-holds (Inv c) b (leave_default s) s (leave_default-Inv c out s v) v in
      if-holds (Ends (Inv c))
        ((not (same_network msg s1) || s1.sec_addr_flag)
          && addr_eq msg.ctrl.ad_addr.addr s1.prim_addr)
        (process_mar1 out msg.ctrl s1) (ok s1) (process_mar1-Inv c out msg.ctrl s1 v1) v1

  case_mar2-Inv : (msg : Message) (s : Node) → Inv c s → Ends (Inv c) (case_mar2 out msg s)
  unfolding case_mar2
  case_mar2-Inv msg s v =
      if-holds (Ends (Inv c)) (not (same_network msg s) || s.sec_addr_flag)
        (process_mar2 out msg.ctrl s) (ok s) (process_mar2-Inv c out msg.ctrl s v) v

  case_hb-Inv : (msg : Message) (s : Node) → Inv c s → Ends (Inv c) (case_hb out msg s)
  unfolding case_hb
  case_hb-Inv msg s v =
      if-holds (Ends (Inv c)) (changing s) (ok s) (process_hb out msg.ctrl s) v
        (process_hb-Inv c out msg.ctrl s v)

  -- A rule for each type of packet.
  antop_process_pkt-Inv :
      (msg : Message) (s : Node) → Inv c s → Ends (Inv c) (antop_process_pkt out msg s)
  unfolding antop_process_pkt
  antop_process_pkt-Inv msg s v =
      let P = Ends (Inv c) in
      let s1 = send_pap out.fresh_pkt msg.ctrl.src_addr s in
      let s2 = process_pan out.fresh_pkt msg.ctrl s in
      let own_man1 = if same_network msg s then process_man1 out msg.ctrl s else ok s in
      let own_man2 = if same_network msg s then process_man2 out msg.ctrl s else ok s in
      let r14 = if msg.type_f == man2 then own_man2 else ok s in
      let r13 = if msg.type_f == man1 then own_man1 else r14 in
      let r12 = if msg.type_f == mar2 then case_mar2 out msg s else r13 in
      let r11 = if msg.type_f == mar1 then case_mar1 out msg s else r12 in
      let r10 = if msg.type_f == fan then process_fan out s else r11 in
      let r9 = if msg.type_f == far then process_far out msg.ctrl s else r10 in
      let r8 = if msg.type_f == san then process_san1 out.fresh_neighbor msg.ctrl s else r9 in
      let r7 = if msg.type_f == sap then case_sap msg s else r8 in
      let r6 = if msg.type_f == rv_addr_solve then ok (case_rv_solve msg s) else r7 in
      let r5 = if msg.type_f == rv_addr_lookup then ok (case_rv_lookup out msg s) else r6 in
      let r4 = if msg.type_f == rv_reg then case_rv_reg msg s else r5 in
      let r3 = if msg.type_f == hb_type then case_hb out msg s else r4 in
      let r2 = if msg.type_f == pan then ok s2 else r3 in
      let r1 = if msg.type_f == pap then ok s else r2 in
      if-holds P (msg.type_f == par) (ok s1) r1
        (same-Inv c s s1 (send_pap-core out.fresh_pkt msg.ctrl.src_addr s) v)
        (if-holds P (msg.type_f == pap) (ok s) r2 v (
          if-holds P (msg.type_f == pan) (ok s2) r3
            (same-Inv c s s2 (process_pan-core out.fresh_pkt msg.ctrl s) v)
            (if-holds P (msg.type_f == hb_type) (case_hb out msg s) r4 (case_hb-Inv msg s v) (
              if-holds P (msg.type_f == rv_reg) (case_rv_reg msg s) r5 (case_rv_reg-Inv msg s v) (
                if-holds P (msg.type_f == rv_addr_lookup) (ok (case_rv_lookup out msg s)) r6
                  (unfold case_rv_lookup core in v)
                  (if-holds P (msg.type_f == rv_addr_solve) (ok (case_rv_solve msg s)) r7
                    (unfold case_rv_solve core in v)
                    (if-holds P (msg.type_f == sap) (case_sap msg s) r8 (case_sap-Inv msg s v) (
                      if-holds P (msg.type_f == san) (process_san1 out.fresh_neighbor msg.ctrl s) r9
                        (process_san1-Inv c out msg.ctrl s v)
                        (if-holds P (msg.type_f == far) (process_far out msg.ctrl s) r10
                          (process_far-Inv c out msg.ctrl s v)
                          (if-holds P (msg.type_f == fan) (process_fan out s) r11
                            (process_fan-Inv c out s v)
                            (if-holds P (msg.type_f == mar1) (case_mar1 out msg s) r12
                              (case_mar1-Inv msg s v)
                              (if-holds P (msg.type_f == mar2) (case_mar2 out msg s) r13
                                (case_mar2-Inv msg s v)
                                (if-holds P (msg.type_f == man1) own_man1 r14
                                  (if-holds P (same_network msg s) (process_man1 out msg.ctrl s)
                                    (ok s) (process_man1-Inv c out msg.ctrl s v) v)
                                  (if-holds P (msg.type_f == man2) own_man2 (ok s)
                                    (if-holds P (same_network msg s) (process_man2 out msg.ctrl s)
                                      (ok s) (process_man2-Inv c out msg.ctrl s v) v)
                                    v))))))))))))))

-- Every step keeps the invariant.
Step-Inv : (c : Core) (s t : Node) → Inv c s → Step s t → Inv c t
Step-Inv c s t v (packet out msg t' e) =
    subst (Ends (Inv c)) e (antop_process_pkt-Inv c out msg s v)
Step-Inv c s t v (hb_timer out timer) = send_hb-Inv c out timer s v
Step-Inv c s t v (chk_neigh_timer fuel t' e) = check_neighbors-Inv c fuel s t v e
Step-Inv c s t v san_timer = unfold san_t_handler core in v
Step-Inv c s t v (rv_timer out t' e) = subst (Ends (Inv c)) e (register_rv-Inv c out s v)

-- Whatever packets arrive and timers expire, in any order, while the node runs its root, dimensions,
-- default address and name stay, each name is in its rendezvous table once, and a flag of a part of
-- the fragmentation is set only while the flag of the whole is.
pub Reaches-Good : (s t : Node) → Good (core s) (core s) → Reaches s t → Good (core s) (core t)
Reaches-Good s t v stay = v
Reaches-Good s t v (next u t' r e) = Step-Inv (core s) u t (Reaches-Good s u v r) e
