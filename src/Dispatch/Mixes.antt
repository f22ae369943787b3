-- ===== src/Dispatch/Mixes.antt =====
-- The handlers of mezcla.c keep the invariant.
use antop.Base.{
  ℕ, ◌+◌, ◌-◌, ◌%◌, ◌≡◌, refl, Bool, true, false, not, List, [], ◌∷◌, ◌&&◌, ◌||◌, ◌==◌, ltb,
  if◌then◌else◌, arith, inl, inr, Option-cases, some_elem,
}
use antop.Base.Run.{ok, ◌>>=◌}
use antop.Addr.{Addr, addr_eq, dist}
use antop.Node.{Node, Neighbor, CtrlPkt, Outside, Effect, emit, sub8}
use antop.Alloc.Protocol.{del_rcvd_addr_table}
use antop.Neighbors.{no_neighbors, delete_neighbor, add_neighbor}
use antop.Secondary.{check_addr_in_n_s_l_table}
use antop.Shift.{del_and_addnew}
use antop.Mezcla.{
  Detected, send_mar1, send_mar2, send_man1, delay, returned_space, ask_to_enter, mezcla,
  detector_de_mezcla, shift_mezcla, end_mezcla,
}
use antop.Mezcla.Requests.{
  process_mar1_secondary, ndisc_all, meet, Rounds, mar1_round, mar1_rounds, settle,
}
use antop.Mezcla.Answers.{settle_both}
use antop.Dispatch.Invariant.{
  Core, core, Ends, if-holds, bind-Ends, swap-Inv, Inv, same-Inv, delete_neighbor-Inv,
  register_rv-Inv,
}

ndisc_all-core : (a : Addr) (ns : List Neighbor) (s : Node) → core (ndisc_all a ns s) ≡ core s
unfolding ndisc_all core
ndisc_all-core a [] s = refl
ndisc_all-core a (it ∷ rest) s =
    ground
      (arith, ndisc_all-core a rest s, ndisc_all-core a rest (emit (Effect.ndisc it.prim_addr) s))

module _ (c : Core) (out : Outside) where
  ask_to_enter-Inv :
      (dst : Addr) (mask : ℕ) (s : Node) → Inv c s → Inv c (ask_to_enter out dst mask s)
  unfolding ask_to_enter delay send_mar1 core
  ask_to_enter-Inv dst mask s v =
      let s1 = emit (Effect.sleep 2) (record s { flag_mezcla = true }) in
      let s2 = record s1 { prim_addr_aux = s.prim_addr; prim_addr = s.dir_default } in
      swap-Inv c s2.prim_addr s2.dir_default 2 s2 v

  mezcla-Inv : (dst : Addr) (s : Node) → Inv c s → Inv c (mezcla out dst s)
  unfolding mezcla core
  mezcla-Inv dst s v = elim (Option-cases (returned_space s.rcvd_addr)) [
    | inl e ↦ rw (mezcla, e) (ask_to_enter-Inv dst s.prim_mask s v)
    | inr (it, e) ↦
        rw (mezcla, e)
          (ask_to_enter-Inv dst (it.prim_mask - 1) (del_rcvd_addr_table it.prim_addr s).0
            (unfold del_rcvd_addr_table in v))
  ]

  pub detector_de_mezcla-Inv :
      (hb : CtrlPkt) (s : Node) → Inv c s → Inv c (detector_de_mezcla out hb s).0
  unfolding detector_de_mezcla
  detector_de_mezcla-Inv hb s v =
      let P = λ (r : Node × Detected). Inv c r.0 in
      let unknown : Node × Detected = (s, Detected.not_returned) in
      let same : Node × Detected = (s, Detected.same_network) in
      let lower : Node × Detected = (s, Detected.lower_network) in
      let entered : Node × Detected = (mezcla out hb.prim_addr s, Detected.mixed) in
      let is_lower = ltb hb.ad_addr.red_numero s.red_numero in
      let rest = if is_lower then lower else unknown in
      let is_same = s.red_numero == hb.ad_addr.red_numero in
      if-holds P (ltb s.red_numero hb.ad_addr.red_numero && not s.flag_conexion && s.flag_init)
        entered (if is_same then same else rest) (mezcla-Inv hb.prim_addr s v)
        (if-holds P is_same same rest v (if-holds P is_lower lower unknown v v))

  pub end_mezcla-Inv : (s : Node) → Inv c s → Ends (Inv c) (end_mezcla out s)
  unfolding end_mezcla core
  end_mezcla-Inv s v =
      register_rv-Inv c out
        (record s {
          flag_mezcla = false;
          flag_mezcla_primaria = false;
          flag_mezcla_secundaria = false;
        })
        v

  pub settle-Inv : (s : Node) → Inv c s → Ends (Inv c) (settle out s)
  unfolding settle
  settle-Inv s v =
      if-holds (Ends (Inv c)) (not s.sec_addr_flag || s.flag_mezcla_secundaria) (end_mezcla out s)
        (ok s) (end_mezcla-Inv s v) v

  pub settle_both-Inv : (s : Node) → Inv c s → Ends (Inv c) (settle_both out s)
  unfolding settle_both
  settle_both-Inv s v =
      if-holds (Ends (Inv c))
        (not s.sec_addr_flag || (s.flag_mezcla_primaria && s.flag_mezcla_secundaria))
        (end_mezcla out s) (ok s) (end_mezcla-Inv s v) v

  pub process_mar1_secondary-Inv :
      (msg : CtrlPkt) (s : Node) → Inv c s → Ends (Inv c) (process_mar1_secondary out msg s)
  unfolding process_mar1_secondary send_man1 core
  process_mar1_secondary-Inv msg s v =
      let ad = msg.ad_addr in
      let s1 = send_man1 out s.sec_addr msg.prim_addr msg.src_addr ad.mask ad.red_numero (record s {
        flag_mezcla = true;
        flag_mezcla_secundaria = true;
        sec_mask = sub8 (s.sec_mask + ad.mask + 1) ad.t_lenght;
        red_numero = ad.red_numero;
      }) in
      let addr = shift_mezcla s.hc_dim s.root msg.src_addr s.sec_addr ad.mask ad.t_lenght in
      let s1' = record s1 { sec_addr = addr } in
      let s2 = emit (Effect.sleep 2) (del_and_addnew s.sec_addr addr 0 s1') in
      let v2 = swap-Inv c s.sec_addr addr 0 s1' v in
      if-holds (Ends (Inv c)) s.flag_mezcla_primaria (end_mezcla out s2) (ok s2)
        (end_mezcla-Inv s2 v2) v2

  pub meet-Inv : (msg : CtrlPkt) (s : Node) → Inv c s → Ends (Inv c) (meet out msg s)
  unfolding meet core
  meet-Inv msg s v =
      let known = some_elem (λ (it : Neighbor). addr_eq msg.prim_addr it.prim_addr) s.neigh_table in
      let s1 = ndisc_all msg.prim_addr s.neigh_table s in
      let v1 = same-Inv c s s1 (ndisc_all-core msg.prim_addr s.neigh_table s) v in
      let added = add_neighbor out.fresh_neighbor msg false s.neigh_table in
      let next = λ (table : List Neighbor). ok (record s1 { neigh_table = table }) in
      if-holds (Ends (Inv c)) (known || no_neighbors s.neigh_table) (ok s1) (added >>= next) v1
        (bind-Ends (Inv c) added next (λ (table : List Neighbor) e. v1))

  mar1_round-Inv :
      (msg : CtrlPkt) (old : Addr) (it : Neighbor) (r : Rounds)
      → Inv c r.node
      → Inv c (mar1_round out msg old it r).node
  unfolding mar1_round
  mar1_round-Inv msg old it r v =
      let s = r.node in
      let mf = s.prim_mask_mezcla in
      let mask = msg.ad_addr.mask in
      let below =
        ltb (dist s.root old) (dist s.root it.prim_addr)
        || not (check_addr_in_n_s_l_table it.prim_addr s.n_s_l_table == 0) in
      let told = send_mar1 out s.prim_addr it.prim_addr msg.src_addr mask mf s in
      let aux5 = shift_mezcla s.hc_dim s.root msg.src_addr r.aux5 mask mf in
      let longer = (s.prim_mask + 1) % 256 in
      let s' = record s { prim_mask = longer } in
      let given = send_mar2 out s.prim_addr it.prim_addr aux5 longer s' in
      let gone : Rounds = record r { node = (delete_neighbor it s).0 } in
      let with_mar1 : Rounds = record r { node = (delete_neighbor it told).0; flag = true } in
      let with_mar2 : Rounds = record {
        node = (delete_neighbor it given).0;
        flag = true;
        aux5 = aux5;
      } in
      let P = λ (r : Rounds). Inv c r.node in
      if-holds P (s.sec_addr_flag && ltb 1 (dist old it.prim_addr)) gone
        (if below then with_mar1 else with_mar2) (delete_neighbor-Inv c it s v)
        (if-holds P below with_mar1 with_mar2
          (delete_neighbor-Inv c it told (unfold send_mar1 core in v))
          (delete_neighbor-Inv c it given (unfold send_mar2 core in v)))

  pub mar1_rounds-Inv :
      (msg : CtrlPkt) (old sender : Addr) (m : Bool) (ns : List Neighbor) (r : Rounds)
      → Inv c r.node
      → Inv c (mar1_rounds out msg old sender m ns r).node
  unfolding mar1_rounds
  mar1_rounds-Inv msg old sender m [] r v = v
  mar1_rounds-Inv msg old sender m (it ∷ rest) r v =
      let turn = not (addr_eq sender it.prim_addr) || m in
      mar1_rounds-Inv msg old sender m rest (if turn then mar1_round out msg old it r else r) (
        if-holds (λ (r : Rounds). Inv c r.node) turn (mar1_round out msg old it r) r
          (mar1_round-Inv msg old it r v) v)
