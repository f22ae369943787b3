-- ===== src/HeartBeat.antt =====
-- The heart beats of heart_beat.c as whole handlers, `send_hb` and `process_hb`, and the offer of a
-- secondary address, `chk_sec_addr1` of secondary.c.
pub mod Reach
pub mod Heard
use antop.Base.{
  ℕ, zero, suc, ◌+◌, ◌-◌, ◌%◌, bit_or, List, [], ◌∷◌, Bool, true, false, not, ◌&&◌, ◌||◌, ◌==◌, leb,
  Option, none, some, if◌then◌else◌,
}
use antop.Base.Run.{Run, ok, ◌>>=◌}
use antop.Addr.{Addr, addr_eq, null_addr, dist}
use antop.Node.{
  Node, CtrlPkt, RecoveredAddr, Outside, Effect, TimerName, emit, all_nodes, hb_type, t_hb,
}
use antop.Neighbors.{hear}
use antop.Secondary.{
  init_tables_secondary_link, send_sap1, check_neigh_of_secondary_address, check_n_s_l_table,
}
use antop.Shift.{shift_unos, zip_words}
use antop.Fragment.{check_if_i_am_only, detector_de_fragmentacion}
use antop.Mezcla.{Detected, detector_de_mezcla, first_bit}

-- The offer of one address in `chk_sec_addr1`.
unfoldable pub offer_sec : Outside → Addr → Addr → ℕ → Node → Node
unfolding init_tables_secondary_link send_sap1
offer_sec out dst addr mask s =
    send_sap1 out.fresh_pkt dst addr mask
      (record s { n_s_l_table = init_tables_secondary_link s.n_s_l_table })

-- Its first loop: a recovered space at distance 1 from the neighbour.
unfoldable pub rcvd_near : Addr → List RecoveredAddr → Option RecoveredAddr
rcvd_near neigh [] = none
rcvd_near neigh (it ∷ rest) = if dist it.prim_addr neigh == 1 then some it else rcvd_near neigh rest

-- Its second loop, with `left` rounds left, over the addresses that the node could give: `aux1` has
-- one bit, which moves to the right.
unfoldable pub offer_own : Outside → Addr → ℕ → Addr → ℕ → Node → Node
unfolding offer_sec shift_unos zip_words
offer_own out neigh zero aux1 prim_mask_aux s = s
offer_own out neigh (suc left) aux1 prim_mask_aux s =
    let aux1' = shift_unos 0 1 aux1 in
    let aux2 = zip_words bit_or s.prim_addr aux1' in
    let mask = (prim_mask_aux + 1) % 256 in
    let s' = if dist aux2 neigh == 1 then offer_sec out neigh aux2 mask s else s in
    offer_own out neigh left aux1' mask s'

-- `chk_sec_addr1`, at `neigh->prim_addr`.
unfoldable pub chk_sec_addr1 : Outside → Addr → Node → Node
unfolding rcvd_near offer_sec offer_own
chk_sec_addr1 out neigh s =
    let start = shift_unos 0 (s.hc_dim + s.prim_mask - 1) first_bit in
    let own = offer_own out neigh (128 - (s.hc_dim + s.prim_mask)) start s.prim_mask s in
    let from_own = if leb s.hc_dim s.prim_mask then s else own in
    let offer : Node = elim (rcvd_near neigh s.rcvd_addr) [
      | some it ↦ offer_sec out neigh it.prim_addr it.prim_mask s
      | none ↦ from_own
    ] in
    if s.sec_addr_flag then s else offer

-- The first heart beat of `send_hb`.
unfoldable pub hb_pkt : Outside → Node → CtrlPkt
hb_pkt out s = record (out.fresh_pkt) {
  pkt_type_f = hb_type;
  prim_addr = s.prim_addr;
  src_addr = s.prim_addr;
  ad_addr = record (out.fresh_pkt.ad_addr) {
    t_lenght = s.prim_mask_inicial;
    mask = s.prim_mask;
    red_numero = s.red_numero;
    addr = s.sec_addr;
  };
}

-- The second one, for the secondary address.
unfoldable pub hb_sec_pkt : Outside → Node → CtrlPkt
unfolding hb_pkt
hb_sec_pkt out s =
    let hb = hb_pkt out s in
    record hb { prim_addr = s.sec_addr; ad_addr = record (hb.ad_addr) { mask = s.sec_mask } }

-- The process of fragmentation or of mixing is under way.
unfoldable pub changing : Node → Bool
changing s = s.flag_fragmentacion || s.flag_mezcla

-- The checks that `send_hb` starts with.
unfoldable pub self_check : Outside → Node → Node
unfolding check_if_i_am_only check_neigh_of_secondary_address check_n_s_l_table
self_check out s =
    check_n_s_l_table
      (check_neigh_of_secondary_address out.fresh_neighbor (check_if_i_am_only out s))

-- `send_hb`, with `par->timer`.
unfoldable pub send_hb : Outside → Bool → Node → Node
unfolding self_check hb_pkt hb_sec_pkt changing
send_hb out timer s =
    let s1 = if changing s then s else self_check out s in
    let s2 = if timer then emit (Effect.start_timer TimerName.hb_t t_hb) s1 else s1 in
    let s3 = emit (Effect.send (hb_pkt out s2) all_nodes 1) s2 in
    let s4 = emit (Effect.send (hb_sec_pkt out s2) all_nodes 1) s3 in
    if changing s2 then s2 else if s2.sec_addr_flag then s4 else s3

-- The offer of a secondary address to the sender, which is not near the node's address `own`, nor
-- is its primary address or its secondary one, if it has one.
unfoldable pub offer_to : Outside → Addr → CtrlPkt → Node → Node
unfolding chk_sec_addr1
offer_to out own hb s =
    let src_far = not (dist own hb.src_addr == 1) in
    let sec_far = not (dist own hb.ad_addr.addr == 1) || addr_eq hb.ad_addr.addr null_addr in
    if src_far && sec_far then chk_sec_addr1 out hb.prim_addr s else s

-- The sender is a neighbour.
unfoldable pub keep_neighbor : Outside → CtrlPkt → Bool → Node → Run Node
unfolding hear detector_de_fragmentacion
keep_neighbor out hb flag_aux s = do
  table ← hear out.fresh_neighbor out.fresh_neighbor hb flag_aux s.neigh_table
  ok (detector_de_fragmentacion out (record s { neigh_table = table }))

-- `process_hb` for a sender of the node's network.
unfoldable pub process_hb_same : Outside → CtrlPkt → Node → Run Node
unfolding offer_to keep_neighbor
process_hb_same out hb s =
    let own = addr_eq hb.prim_addr s.prim_addr || addr_eq hb.prim_addr s.sec_addr in
    let prim_far = not (dist s.prim_addr hb.prim_addr == 1) && s.prim_addr_flag in
    let sec_far = not (dist s.sec_addr hb.prim_addr == 1) in
    if own
    then ok s
    else if not prim_far
    then keep_neighbor out hb false s
    else if not s.sec_addr_flag
    then ok (offer_to out s.prim_addr hb s)
    else if sec_far
    then ok (offer_to out s.sec_addr hb s)
    else keep_neighbor out hb true s

-- `process_hb`.
unfoldable pub process_hb : Outside → CtrlPkt → Node → Run Node
unfolding changing detector_de_mezcla process_hb_same
process_hb out hb s =
    let r = detector_de_mezcla out hb s in
    let heard : Run Node = elim r.1 [
      | Detected.mixed ↦ ok r.0
      | Detected.lower_network ↦ ok r.0
      | Detected.same_network ↦ process_hb_same out hb r.0
      | Detected.not_returned ↦ if out.fell_off then ok r.0 else process_hb_same out hb r.0
    ] in
    if changing s then ok s else heard
