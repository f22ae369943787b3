-- ===== src/Dispatch/Fragments.antt =====
-- The handlers of fragmentacion.c keep the invariant.
use antop.Base.{
  ◌≡◌, refl, ◌∙◌, Bool, true, false, not, List, [], ◌∷◌, ◌&&◌, ◌||◌, ◌==◌, ltb, if◌then◌else◌,
  arith, some_elem,
}
use antop.Base.Run.{ok, ◌>>=◌}
use antop.Addr.{Addr, addr_eq, null_addr, dist}
use antop.Node.{Node, Neighbor, CtrlPkt, Outside, Effect, emit, new_red_numero, sub8}
use antop.Names.{clear_rv_tables}
use antop.Neighbors.{no_neighbors, delete_neighbor, add_neighbor}
use antop.Shift.{shift, del_and_addnew}
use antop.Fragment.{
  send_far, send_fan, closest_to_root, send_fars, new_network, fragmentacion,
  detector_de_fragmentacion, end_fragmentacion, process_far_secondary, far_round, far_rounds,
  follow_far, finish_far, process_far, process_fan, check_if_i_am_only, shift_rcvd,
}
use antop.Dispatch.Invariant.{
  Core, core, Ends, if-holds, bind-Ends, swap-Inv, del_and_addnew-core, Inv, same-Inv, with_flags,
  delete_neighbor-Inv, clear_rv_tables-Inv, register_rv-Inv,
}

send_far-core : (out : Outside) (a b d : Addr) (s : Node) → core (send_far out a b d s) ≡ core s
unfolding send_far core
send_far-core out a b d s = refl

send_fan-core : (out : Outside) (a b : Addr) (s : Node) → core (send_fan out a b s) ≡ core s
unfolding send_fan core
send_fan-core out a b s = refl

closest_to_root-core : (ns : List Neighbor) (s : Node) → core (closest_to_root ns s) ≡ core s
unfolding closest_to_root core
closest_to_root-core [] s = refl
closest_to_root-core (it ∷ rest) s = closest_to_root-core rest _ ∙ ground arith

module _ (c : Core) (out : Outside) where
  send_fars-Inv :
      (a b : Addr) (ns : List Neighbor) (s : Node) → Inv c s → Inv c (send_fars out a b ns s)
  unfolding send_fars
  send_fars-Inv a b [] s v = v
  send_fars-Inv a b (it ∷ rest) s v =
      let told = send_far out a it.prim_addr b s in
      let linked = s.sec_addr_flag && dist s.sec_addr it.prim_addr == 1 in
      let s' = if linked then s else told in
      send_fars-Inv a b rest (delete_neighbor it s').0 (
        delete_neighbor-Inv c it s' (
          if-holds (Inv c) linked s told v
            (same-Inv c s told (send_far-core out a it.prim_addr b s) v)))

  new_network-Inv : (s : Node) → Inv c s → Inv c (new_network out s)
  unfolding new_network core
  new_network-Inv s v =
      let first = if s.sec_addr_flag then true else s.flag_fragmentacion_primaria in
      let addr = shift s.hc_dim 1 s.prim_mask_inicial s.root s.prim_addr in
      let s0 = record s {
        flag_fragmentacion = true;
        flag_fragmentacion_primaria = first;
        red_numero = new_red_numero out;
        prim_addr = addr;
      } in
      let s2 = emit (Effect.sleep 2) (del_and_addnew s.prim_addr addr 1 s0) in
      clear_rv_tables-Inv c s2 (
        swap-Inv c s.prim_addr addr 1 s0
          (with_flags c s true first s.flag_fragmentacion_secundaria (λ e. refl) (λ e. refl) v))

  fragmentacion-Inv : (s : Node) → Inv c s → Inv c (fragmentacion out s)
  unfolding fragmentacion core
  fragmentacion-Inv s v =
      let s1 = new_network out s in
      send_fars-Inv s1.prim_addr s.prim_addr s1.neigh_table s1 (new_network-Inv s v)

  pub detector_de_fragmentacion-Inv : (s : Node) → Inv c s → Inv c (detector_de_fragmentacion out s)
  unfolding detector_de_fragmentacion
  detector_de_fragmentacion-Inv s v =
      let s1 = closest_to_root s.neigh_table s in
      let v1 = same-Inv c s s1 (closest_to_root-core s.neigh_table s) v in
      let flag =
        some_elem (λ (it : Neighbor). addr_eq s1.neighbor_to_root.addr it.prim_addr)
          s1.neigh_table in
      let s2 = if out.ping6 s1.root == 0 then fragmentacion out s1 else s1 in
      if-holds (Inv c) (addr_eq s.prim_addr s.root) s (if flag then s1 else s2) v (
        if-holds (Inv c) flag s1 s2 v1 (
          if-holds (Inv c) (out.ping6 s1.root == 0) (fragmentacion out s1) s1
            (fragmentacion-Inv s1 v1) v1))

  end_fragmentacion-Inv : (s : Node) → Inv c s → Ends (Inv c) (end_fragmentacion out s)
  unfolding end_fragmentacion
  end_fragmentacion-Inv s v =
      let s1 = record s {
        flag_fragmentacion = false;
        flag_fragmentacion_primaria = false;
        flag_fragmentacion_secundaria = false;
      } in
      register_rv-Inv c out s1 (with_flags c s false false false (λ e. e) (λ e. e) v)

  process_far_secondary-Inv :
      (msg : CtrlPkt) (s : Node) → Inv c s → Ends (Inv c) (process_far_secondary out msg s)
  unfolding process_far_secondary core
  process_far_secondary-Inv msg s v =
      let s0 = record s { flag_fragmentacion = true; flag_fragmentacion_secundaria = true } in
      let s1 = send_fan out s.sec_addr msg.prim_addr s0 in
      let v1 =
        same-Inv c s0 s1 (send_fan-core out s.sec_addr msg.prim_addr s0)
          (with_flags c s true s.flag_fragmentacion_primaria true (λ e. refl) (λ e. refl) v) in
      let addr = shift s.hc_dim 1 msg.ad_addr.mask s.root s.sec_addr in
      let s1' = record s1 { red_numero = msg.ad_addr.red_numero; sec_addr = addr } in
      let s2 = emit (Effect.sleep 2) (del_and_addnew s.sec_addr addr 0 s1') in
      let s3 = record s2 { sec_mask = sub8 s.sec_mask msg.ad_addr.mask } in
      let v3 = swap-Inv c s.sec_addr addr 0 s1' v1 in
      if-holds (Ends (Inv c)) s.flag_fragmentacion_primaria (end_fragmentacion out s3) (ok s3)
        (end_fragmentacion-Inv s3 v3) v3

  far_round-Inv :
      (msg : CtrlPkt) (a b : Addr) (it : Neighbor) (r : Node × Bool)
      → Inv c r.0
      → Inv c (far_round out msg a b it r).0
  unfolding far_round
  far_round-Inv msg a b it (s, flag) v =
      let told = send_far out a it.prim_addr b s in
      let P = λ (r : Node × Bool). Inv c r.0 in
      let gone : Node × Bool = ((delete_neighbor it s).0, flag) in
      let sent : Node × Bool = ((delete_neighbor it told).0, true) in
      let kept : Node × Bool = (s, flag) in
      let below =
        not (addr_eq s.neighbor_to_root.addr it.prim_addr)
        && not (addr_eq s.prim_addr it.prim_addr)
        && not (addr_eq msg.src_addr it.prim_addr) in
      let linked = s.sec_addr_flag && ltb 1 (dist b it.prim_addr) in
      let v_gone = delete_neighbor-Inv c it s v in
      let v_sent =
        delete_neighbor-Inv c it told
          (same-Inv c s told (send_far-core out a it.prim_addr b s) v) in
      if-holds P below (if linked then gone else sent)
        (if addr_eq msg.src_addr it.prim_addr then gone else kept)
        (if-holds P linked gone sent v_gone v_sent)
        (if-holds P (addr_eq msg.src_addr it.prim_addr) gone kept v_gone v)

  far_rounds-Inv :
      (msg : CtrlPkt) (a b : Addr) (ns : List Neighbor) (r : Node × Bool)
      → Inv c r.0
      → Inv c (far_rounds out msg a b ns r).0
  unfolding far_rounds
  far_rounds-Inv msg a b [] r v = v
  far_rounds-Inv msg a b (it ∷ rest) r v =
      far_rounds-Inv msg a b rest (far_round out msg a b it r) (far_round-Inv msg a b it r v)

  follow_far-Inv :
      (msg : CtrlPkt) (s : Node)
      → s.flag_fragmentacion ≡ true
      → Inv c s
      → Inv c (follow_far out msg s).0
  unfolding follow_far core
  follow_far-Inv msg s on v =
      let mask = msg.ad_addr.mask in
      let s0 = record s {
        flag_fragmentacion_primaria = true;
        prim_mask_inicial = mask;
        neighbor_to_root = record { addr = msg.prim_addr; distance = dist s.root msg.prim_addr };
      } in
      let s1 = send_fan out s.prim_addr msg.prim_addr s0 in
      let v1 = same-Inv c s0 s1 (send_fan-core out s.prim_addr msg.prim_addr s0) (
        with_flags c s s.flag_fragmentacion true s.flag_fragmentacion_secundaria (λ e. on) (λ e. on)
          v) in
      let addr = shift s.hc_dim 1 mask s.root s.prim_addr in
      let s1' = record s1 { red_numero = msg.ad_addr.red_numero; prim_addr = addr } in
      let s2 = emit (Effect.sleep 2) (del_and_addnew s.prim_addr addr 1 s1') in
      let s2' = record s2 { rcvd_addr = shift_rcvd s.hc_dim mask s.root s.rcvd_addr } in
      let s3 = clear_rv_tables s2' in
      let v3 = clear_rv_tables-Inv c s2' (swap-Inv c s.prim_addr addr 1 s1' v1) in
      let none_sent : Node × Bool = (s3, false) in
      if-holds (λ (r : Node × Bool). Inv c r.0)
        (not (s.prim_mask == s.prim_mask_inicial) || s.flag_neigh_by_second)
        (far_rounds out msg addr s.prim_addr s3.neigh_table none_sent) none_sent
        (far_rounds-Inv msg addr s.prim_addr s3.neigh_table none_sent v3) v3

  finish_far-Inv : (r : Node × Bool) → Inv c r.0 → Ends (Inv c) (finish_far out r)
  unfolding finish_far
  finish_far-Inv (s, flag) v =
      if-holds (Ends (Inv c)) (not flag && (not s.sec_addr_flag || s.flag_fragmentacion_secundaria))
        (end_fragmentacion out s) (ok s) (end_fragmentacion-Inv s v) v

  pub process_far-Inv : (msg : CtrlPkt) (s : Node) → Inv c s → Ends (Inv c) (process_far out msg s)
  unfolding process_far core
  process_far-Inv msg s v =
      let started =
        λ (table : List Neighbor). record s { flag_fragmentacion = true; neigh_table = table } in
      let added = add_neighbor out.fresh_neighbor msg false s.neigh_table in
      let next = λ (table : List Neighbor). finish_far out (follow_far out msg (started table)) in
      if-holds (Ends (Inv c)) (addr_eq msg.ad_addr.addr s.sec_addr)
        (process_far_secondary out msg s) (added >>= next) (process_far_secondary-Inv msg s v)
        (bind-Ends (Inv c) added next (λ (table : List Neighbor) e.
          finish_far-Inv (follow_far out msg (started table)) (
            follow_far-Inv msg (started table) refl (
              with_flags c s true s.flag_fragmentacion_primaria s.flag_fragmentacion_secundaria
                (λ e. refl) (λ e. refl) v))))

  pub process_fan-Inv : (s : Node) → Inv c s → Ends (Inv c) (process_fan out s)
  unfolding process_fan
  process_fan-Inv s v =
      let both =
        not s.sec_addr_flag || (s.flag_fragmentacion_primaria && s.flag_fragmentacion_secundaria) in
      let ended = if both then end_fragmentacion out s else ok s in
      if-holds (Ends (Inv c)) s.flag_fragmentacion ended (ok s)
        (if-holds (Ends (Inv c)) both (end_fragmentacion out s) (ok s) (end_fragmentacion-Inv s v)
          v)
        v

  pub check_if_i_am_only-Inv : (s : Node) → Inv c s → Inv c (check_if_i_am_only out s)
  unfolding check_if_i_am_only core
  check_if_i_am_only-Inv s v =
      let s1 = del_and_addnew s.prim_addr s.root 2 s in
      let v1 = same-Inv c s s1 (del_and_addnew-core s.prim_addr s.root 2 s) v in
      let alone = record s1 {
        prim_addr = s.root;
        prim_mask = 0;
        prim_mask_inicial = 0;
        red_numero = new_red_numero out;
        neighbor_to_root = record (s.neighbor_to_root) { distance = 99 };
        sec_mask = 0;
        sec_addr = null_addr;
        flag_fragmentacion = false;
        flag_fragmentacion_primaria = false;
        flag_fragmentacion_secundaria = false;
        flag_mezcla = false;
        flag_mezcla_primaria = false;
        flag_mezcla_secundaria = false;
        rcvd_addr = [];
      } in
      if-holds (Inv c) (no_neighbors s.neigh_table && not (addr_eq s.prim_addr s.root)) alone s
        (with_flags c s1 false false false (λ e. e) (λ e. e) v1) v
