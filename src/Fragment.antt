-- ===== src/Fragment.antt =====
-- fragmentacion.c: a node that has lost its way to the root starts a network of its own, and its
-- descendants move with it (messages FAR and FAN). `borrar_tabla_de_rutas`, which the handlers call
-- for the routes, leaves its loop before the first round, and so changes nothing.
pub mod Start
use antop.Base.{
  ℕ, ◌%◌, List, [], ◌∷◌, Bool, true, false, not, ◌&&◌, ◌||◌, ◌==◌, leb, ltb, if◌then◌else◌,
  some_elem, map,
}
use antop.Base.Run.{Run, ok, ◌>>=◌}
use antop.Addr.{Addr, addr_eq, null_addr, dist}
use antop.Node.{
  Node, Neighbor, CtrlPkt, RecoveredAddr, Outside, Effect, emit, far, fan, new_red_numero, sub8,
}
use antop.Names.{clear_rv_tables}
use antop.Names.Servers.{register_rv}
use antop.Neighbors.{no_neighbors, add_neighbor, delete_neighbor}
use antop.Secondary.{check_addr_in_n_s_l_table}
use antop.Shift.{shift, del_and_addnew}

-- The packet of `send_far`, for the node's `prim_mask_inicial` and `red_numero`.
unfoldable pub far_pkt : Outside → Addr → Addr → Addr → ℕ → ℕ → CtrlPkt
far_pkt out src dst src_old prim_mask_inicial red_numero = record (out.fresh_pkt) {
  pkt_type_f = far;
  src_addr = src_old;
  prim_addr = src;
  ad_addr = record (out.fresh_pkt.ad_addr) {
    addr = dst;
    mask = prim_mask_inicial;
    red_numero = red_numero;
  };
}

-- `send_far(sock, src, dst, src_old)`.
unfoldable pub send_far : Outside → Addr → Addr → Addr → Node → Node
unfolding far_pkt
send_far out src dst src_old s =
    emit (Effect.send (far_pkt out src dst src_old s.prim_mask_inicial s.red_numero) dst 20) s

-- `send_fan(sock, src, dst)`.
unfoldable pub send_fan : Outside → Addr → Addr → Node → Node
send_fan out src dst s =
    emit
      (Effect.send
        (record (out.fresh_pkt) {
          pkt_type_f = fan;
          src_addr = src;
          ad_addr = record (out.fresh_pkt.ad_addr) { red_numero = s.red_numero };
        })
        dst 20)
      s

-- The first loop of `detector_de_fragmentacion`: the neighbour closest to the root, the last of
-- equals, among those at distance 1 that are not secondary links.
unfoldable pub closest_to_root : List Neighbor → Node → Node
closest_to_root [] s = s
closest_to_root (it ∷ rest) s =
    let distance = dist s.root it.prim_addr in
    let better =
      leb distance s.neighbor_to_root.distance
      && dist s.prim_addr it.prim_addr == 1
      && check_addr_in_n_s_l_table it.prim_addr s.n_s_l_table == 0 in
    let closer = record s {
      neighbor_to_root = record { addr = it.prim_addr; distance = distance };
    } in
    closest_to_root rest (if better then closer else s)

-- The recovered spaces move with the node.
unfoldable pub shift_rcvd : ℕ → ℕ → Addr → List RecoveredAddr → List RecoveredAddr
unfolding shift
shift_rcvd hc_dim mask root = map (λ (r : RecoveredAddr). record {
  prim_mask = sub8 r.prim_mask mask;
  prim_addr = shift hc_dim 1 mask root r.prim_addr;
})

-- The loop of `fragmentacion` over the neighbours, which all leave the table. `src` and `src_old`
-- are the node's new and old addresses.
unfoldable pub send_fars : Outside → Addr → Addr → List Neighbor → Node → Node
unfolding send_far delete_neighbor
send_fars out src src_old [] s = s
send_fars out src src_old (it ∷ rest) s =
    let linked = s.sec_addr_flag && dist s.sec_addr it.prim_addr == 1 in
    let s' = if linked then s else send_far out src it.prim_addr src_old s in
    send_fars out src src_old rest (delete_neighbor it s').0

-- `fragmentacion` up to its loop.
unfoldable pub new_network : Outside → Node → Node
unfolding shift del_and_addnew shift_rcvd clear_rv_tables
new_network out s =
    let addr = shift s.hc_dim 1 s.prim_mask_inicial s.root s.prim_addr in
    let s1 = del_and_addnew s.prim_addr addr 1 (record s {
      flag_fragmentacion = true;
      flag_fragmentacion_primaria = if s.sec_addr_flag then true else s.flag_fragmentacion_primaria;
      red_numero = new_red_numero out;
      prim_addr = addr;
    }) in
    let s2 = emit (Effect.sleep 2) s1 in
    clear_rv_tables (record s2 {
      prim_mask = sub8 s.prim_mask s.prim_mask_inicial;
      rcvd_addr = shift_rcvd s.hc_dim s.prim_mask_inicial s.root s.rcvd_addr;
    })

-- `fragmentacion`.
unfoldable pub fragmentacion : Outside → Node → Node
unfolding new_network send_fars
fragmentacion out s =
    let s1 = new_network out s in
    record (send_fars out s1.prim_addr s.prim_addr s1.neigh_table s1) { prim_mask_inicial = 0 }

-- `detector_de_fragmentacion`.
unfoldable pub detector_de_fragmentacion : Outside → Node → Node
unfolding closest_to_root fragmentacion
detector_de_fragmentacion out s =
    let s1 = closest_to_root s.neigh_table s in
    let flag =
      some_elem (λ (it : Neighbor). addr_eq s1.neighbor_to_root.addr it.prim_addr) s1.neigh_table in
    if addr_eq s.prim_addr s.root
    then s
    else if flag
    then s1
    else if out.ping6 s1.root == 0
    then fragmentacion out s1
    else s1

-- The end of the process, and the registration of the names.
unfoldable pub end_fragmentacion : Outside → Node → Run Node
unfolding register_rv
end_fragmentacion out s = register_rv out (record s {
  flag_fragmentacion = false;
  flag_fragmentacion_primaria = false;
  flag_fragmentacion_secundaria = false;
})

-- `process_far` for the secondary address.
unfoldable pub process_far_secondary : Outside → CtrlPkt → Node → Run Node
unfolding send_fan shift del_and_addnew end_fragmentacion
process_far_secondary out msg s =
    let mask = msg.ad_addr.mask in
    let s1 =
      send_fan out s.sec_addr msg.prim_addr
        (record s { flag_fragmentacion = true; flag_fragmentacion_secundaria = true }) in
    let addr = shift s.hc_dim 1 mask s.root s.sec_addr in
    let s2 = emit (Effect.sleep 2) (
      del_and_addnew s.sec_addr addr 0
        (record s1 { red_numero = msg.ad_addr.red_numero; sec_addr = addr })) in
    let s3 = record s2 { sec_mask = sub8 s.sec_mask mask } in
    if s.flag_fragmentacion_primaria then end_fragmentacion out s3 else ok s3

-- One round of the loop of `process_far` over the neighbours, with the flag that a FAR was sent.
unfoldable pub far_round : Outside → CtrlPkt → Addr → Addr → Neighbor → Node × Bool → Node × Bool
unfolding send_far delete_neighbor
far_round out msg src src_old it (s, flag) =
    let below =
      not (addr_eq s.neighbor_to_root.addr it.prim_addr)
      && not (addr_eq s.prim_addr it.prim_addr)
      && not (addr_eq msg.src_addr it.prim_addr) in
    let gone : Node × Bool = ((delete_neighbor it s).0, flag) in
    let told : Node × Bool =
      ((delete_neighbor it (send_far out src it.prim_addr src_old s)).0, true) in
    let kept : Node × Bool = (s, flag) in
    if below
    then if s.sec_addr_flag && ltb 1 (dist src_old it.prim_addr) then gone else told
    else if addr_eq msg.src_addr it.prim_addr
    then gone
    else kept

unfoldable pub far_rounds :
    Outside → CtrlPkt → Addr → Addr → List Neighbor → Node × Bool → Node × Bool
unfolding far_round
far_rounds out msg src src_old [] r = r
far_rounds out msg src src_old (it ∷ rest) r =
    far_rounds out msg src src_old rest (far_round out msg src src_old it r)

-- `process_far` for the primary address, once the sender is a neighbour.
unfoldable pub follow_far : Outside → CtrlPkt → Node → Node × Bool
unfolding send_fan shift del_and_addnew shift_rcvd clear_rv_tables far_rounds
follow_far out msg s =
    let mask = msg.ad_addr.mask in
    let s1 = send_fan out s.prim_addr msg.prim_addr (record s {
      flag_fragmentacion_primaria = true;
      prim_mask_inicial = mask;
      neighbor_to_root = record { addr = msg.prim_addr; distance = dist s.root msg.prim_addr };
    }) in
    let addr = shift s.hc_dim 1 mask s.root s.prim_addr in
    let s2 = emit (Effect.sleep 2) (
      del_and_addnew s.prim_addr addr 1
        (record s1 { red_numero = msg.ad_addr.red_numero; prim_addr = addr })) in
    let s3 =
      clear_rv_tables (record s2 { rcvd_addr = shift_rcvd s.hc_dim mask s.root s.rcvd_addr }) in
    let looped = far_rounds out msg addr s.prim_addr s3.neigh_table (s3, false) in
    let none_sent : Node × Bool = (s3, false) in
    let (s4, flag) =
      if not (s.prim_mask == s.prim_mask_inicial) || s.flag_neigh_by_second
      then looped
      else none_sent in
    (
      record s4 {
        prim_mask = sub8 s.prim_mask mask;
        prim_mask_inicial = sub8 s.prim_mask_inicial mask;
      },
      flag,
    )

-- Its end: without a FAR on its way no FAN is awaited.
unfoldable pub finish_far : Outside → Node × Bool → Run Node
unfolding end_fragmentacion
finish_far out (s, flag) =
    if not flag && (not s.sec_addr_flag || s.flag_fragmentacion_secundaria)
    then end_fragmentacion out s
    else ok s

-- `process_far`.
unfoldable pub process_far : Outside → CtrlPkt → Node → Run Node
unfolding process_far_secondary follow_far add_neighbor finish_far
process_far out msg s =
    if addr_eq msg.ad_addr.addr s.sec_addr then process_far_secondary out msg s else do
      table ← add_neighbor out.fresh_neighbor msg false s.neigh_table
      finish_far out
          (follow_far out msg (record s { flag_fragmentacion = true; neigh_table = table }))

-- `process_fan`.
unfoldable pub process_fan : Outside → Node → Run Node
unfolding end_fragmentacion
process_fan out s =
    if s.flag_fragmentacion
    then if not s.sec_addr_flag
        || (s.flag_fragmentacion_primaria && s.flag_fragmentacion_secundaria)
      then end_fragmentacion out s
      else ok s
    else ok s

-- `check_if_i_am_only`.
unfoldable pub check_if_i_am_only : Outside → Node → Node
unfolding del_and_addnew no_neighbors
check_if_i_am_only out s =
    let s1 = del_and_addnew s.prim_addr s.root 2 s in
    let alone = record s1 {
      prim_addr = s.root;
      prim_mask = 0;
      prim_mask_inicial = 0;
      red_numero = new_red_numero out;
      neighbor_to_root = record (s.neighbor_to_root) { distance = 99 };
      sec_mask = 0;
      sec_addr = null_addr;
      flag_fragmentacion = false;
      flag_fragmentacion_primaria = false;
      flag_fragmentacion_secundaria = false;
      flag_mezcla = false;
      flag_mezcla_primaria = false;
      flag_mezcla_secundaria = false;
      rcvd_addr = [];
    } in
    if no_neighbors s.neigh_table && not (addr_eq s.prim_addr s.root) then alone else s
