-- ===== src/Dispatch/Beats.antt =====
-- The heart beats, the exchange of addresses and the secondary links keep the invariant.
use antop.Base.{
  ℕ, zero, suc, ◌+◌, ◌-◌, ◌%◌, bit_or, ◌≡◌, refl, ◌∙◌, sym, subst, Bool, true, false, not, List, [],
  ◌∷◌, ◌++◌, ◌&&◌, ◌||◌, ◌==◌, if◌then◌else◌, arith, inl, inr, Option-cases, some, some_elem,
  remove_first,
}
use antop.Base.Run.{Run, ok}
use antop.Addr.{Addr, addr_eq, dist}
use antop.Node.{
  Node, Neighbor, Nsl, CtrlPkt, Outside, Effect, TimerName, emit, all_nodes, t_hb, t_lhb,
}
use antop.Alloc.Protocol.{send_pap, process_pan, offered}
use antop.Neighbors.{
  hear, add_neighbor, lose, next_count, check_from, check_neighbors, recover_addr_space,
}
use antop.Secondary.{
  process_sap1, process_san1, send_sap1, monitor, check_n_s_l_table, give_up,
  check_neigh_of_secondary_address, init_tables_secondary_link, add_n_s_l_table, send_san1,
}
use antop.Succesor.{check_succesor}
use antop.Shift.{shift_unos, zip_words}
use antop.Fragment.{check_if_i_am_only, detector_de_fragmentacion}
use antop.Mezcla.{Detected, detector_de_mezcla, first_bit}
use antop.HeartBeat.{
  offer_sec, offer_own, chk_sec_addr1, rcvd_near, self_check, send_hb, hb_pkt, hb_sec_pkt, changing,
  offer_to, keep_neighbor, process_hb_same, process_hb,
}
use antop.Dispatch.Invariant.{
  Core, core, Ends, Run-cases, if-holds, bind-Ends, Inv, same-Inv, delete_neighbor-Inv,
}
use antop.Dispatch.Fragments.{detector_de_fragmentacion-Inv, check_if_i_am_only-Inv}
use antop.Dispatch.Mixes.{detector_de_mezcla-Inv}

pub send_pap-core : (fresh : CtrlPkt) (dst : Addr) (s : Node) → core (send_pap fresh dst s) ≡ core s
unfolding send_pap core
send_pap-core fresh dst s = elim (Option-cases (offered s)) [
  | inl e ↦ rw (send_pap, e) refl
  | inr (r, e) ↦ rw (send_pap, e) refl
]

pub process_pan-core : (fresh msg : CtrlPkt) (s : Node) → core (process_pan fresh msg s) ≡ core s
unfolding process_pan core
process_pan-core fresh msg s = ground arith

send_sap1-core :
    (fresh : CtrlPkt) (dst sec : Addr) (mask : ℕ) (s : Node)
    → core (send_sap1 fresh dst sec mask s) ≡ core s
unfolding send_sap1 core
send_sap1-core fresh dst sec mask s = ground arith

offer_sec-core :
    (out : Outside) (dst addr : Addr) (mask : ℕ) (s : Node)
    → core (offer_sec out dst addr mask s) ≡ core s
unfolding offer_sec core
offer_sec-core out dst addr mask s = send_sap1-core out.fresh_pkt dst addr mask _

monitor-core : (flag : Bool) (es : List Nsl) (s : Node) → core (monitor flag es s) ≡ core s
unfolding monitor core
monitor-core flag [] s = refl
monitor-core flag (e ∷ rest) s = monitor-core false rest s

check_n_s_l_table-core : (s : Node) → core (check_n_s_l_table s) ≡ core s
unfolding check_n_s_l_table core
check_n_s_l_table-core s = ground (arith, monitor-core false s.n_s_l_table s)

check_neigh-core :
    (fresh : Neighbor) (s : Node) → core (check_neigh_of_secondary_address fresh s) ≡ core s
unfolding check_neigh_of_secondary_address give_up recover_addr_space core
check_neigh-core fresh s = ground arith

module _ (c : Core) (out : Outside) where
  offer_own-core :
      (neigh : Addr) (left : ℕ) (aux1 : Addr) (mask : ℕ) (s : Node)
      → core (offer_own out neigh left aux1 mask s) ≡ core s
  unfolding offer_own
  offer_own-core neigh zero aux1 mask s = refl
  offer_own-core neigh (suc left) aux1 mask s =
      let aux1' = shift_unos 0 1 aux1 in
      let aux2 = zip_words bit_or s.prim_addr aux1' in
      let longer = (mask + 1) % 256 in
      let s1 = offer_sec out neigh aux2 longer s in
      let near = dist aux2 neigh == 1 in
      offer_own-core neigh left aux1' longer (if near then s1 else s)
      ∙ if-holds (λ (n : Node). core n ≡ core s) near s1 s (offer_sec-core out neigh aux2 longer s)
          refl

  chk_sec_addr1-core : (neigh : Addr) (s : Node) → core (chk_sec_addr1 out neigh s) ≡ core s
  unfolding chk_sec_addr1
  chk_sec_addr1-core neigh s =
      let start = shift_unos 0 (s.hc_dim + s.prim_mask - 1) first_bit in
      let left = 128 - (s.hc_dim + s.prim_mask) in
      let own = offer_own-core neigh left start s.prim_mask s in
      elim (Option-cases (rcvd_near neigh s.rcvd_addr)) [
        | inl e ↦ rw (chk_sec_addr1, e) (ground (arith, own))
        | inr (it, e) ↦
            rw (chk_sec_addr1, e)
              (ground (arith, offer_sec-core out neigh it.prim_addr it.prim_mask s))
      ]

  offer_to-core : (own : Addr) (hb : CtrlPkt) (s : Node) → core (offer_to out own hb s) ≡ core s
  unfolding offer_to
  offer_to-core own hb s = ground (arith, chk_sec_addr1-core hb.prim_addr s)

  self_check-Inv : (s : Node) → Inv c s → Inv c (self_check out s)
  unfolding self_check
  self_check-Inv s v =
      let s1 = check_if_i_am_only out s in
      let s2 = check_neigh_of_secondary_address out.fresh_neighbor s1 in
      same-Inv c s2 (check_n_s_l_table s2) (check_n_s_l_table-core s2) (
        same-Inv c s1 s2 (check_neigh-core out.fresh_neighbor s1)
          (check_if_i_am_only-Inv c out s v))

  pub send_hb-Inv : (timer : Bool) (s : Node) → Inv c s → Inv c (send_hb out timer s)
  unfolding send_hb
  send_hb-Inv timer s v =
      let s1 = if changing s then s else self_check out s in
      let v1 = if-holds (Inv c) (changing s) s (self_check out s) v (self_check-Inv s v) in
      let timed = emit (Effect.start_timer TimerName.hb_t t_hb) s1 in
      let s2 = if timer then timed else s1 in
      let v2 = if-holds (Inv c) timer timed s1 (unfold core in v1) v1 in
      let s3 = emit (Effect.send (hb_pkt out s2) all_nodes 1) s2 in
      let s4 = emit (Effect.send (hb_sec_pkt out s2) all_nodes 1) s3 in
      if-holds (Inv c) (changing s2) s2 (if s2.sec_addr_flag then s4 else s3) v2
        (if-holds (Inv c) s2.sec_addr_flag s4 s3 (unfold core in v2) (unfold core in v2))

  keep_neighbor-Inv :
      (hb : CtrlPkt) (flag : Bool) (s : Node) → Inv c s → Ends (Inv c) (keep_neighbor out hb flag s)
  unfolding keep_neighbor
  keep_neighbor-Inv hb flag s v =
      let heard = hear out.fresh_neighbor out.fresh_neighbor hb flag s.neigh_table in
      let next = λ (table : List Neighbor).
        ok (detector_de_fragmentacion out (record s { neigh_table = table })) in
      bind-Ends (Inv c) heard next (λ (table : List Neighbor) e.
        detector_de_fragmentacion-Inv c out (record s { neigh_table = table }) (unfold core in v))

  process_hb_same-Inv :
      (hb : CtrlPkt) (s : Node) → Inv c s → Ends (Inv c) (process_hb_same out hb s)
  unfolding process_hb_same
  process_hb_same-Inv hb s v =
      let own = addr_eq hb.prim_addr s.prim_addr || addr_eq hb.prim_addr s.sec_addr in
      let prim_far = not (dist s.prim_addr hb.prim_addr == 1) && s.prim_addr_flag in
      let sec_far = not (dist s.sec_addr hb.prim_addr == 1) in
      let P = Ends (Inv c) in
      let offer = λ (a : Addr). ok (offer_to out a hb s) in
      let offered = λ (a : Addr). same-Inv c s (offer_to out a hb s) (offer_to-core a hb s) v in
      let near = keep_neighbor out hb false s in
      let linked = keep_neighbor out hb true s in
      let by_sec = if sec_far then offer s.sec_addr else linked in
      let by_prim = if not s.sec_addr_flag then offer s.prim_addr else by_sec in
      if-holds P own (ok s) (if not prim_far then near else by_prim) v (
        if-holds P (not prim_far) near by_prim (keep_neighbor-Inv hb false s v) (
          if-holds P (not s.sec_addr_flag) (offer s.prim_addr) by_sec (offered s.prim_addr) (
            if-holds P sec_far (offer s.sec_addr) linked (offered s.sec_addr)
              (keep_neighbor-Inv hb true s v))))

  pub process_hb-Inv : (hb : CtrlPkt) (s : Node) → Inv c s → Ends (Inv c) (process_hb out hb s)
  unfolding process_hb
  process_hb-Inv hb s v =
      let r = detector_de_mezcla out hb s in
      let w = detector_de_mezcla-Inv c out hb s v in
      let heard = process_hb_same out hb r.0 in
      let u = process_hb_same-Inv hb r.0 w in
      if-holds (Ends (Inv c)) (changing s) (ok s) _ v (by_result r.1 r.0 heard w u)
    where
      by_result :
          (d : Detected) (n : Node) (heard : Run Node)
          → Inv c n
          → Ends (Inv c) heard
          → Ends (Inv c) (elim d [
            | Detected.mixed ↦ ok n
            | Detected.lower_network ↦ ok n
            | Detected.same_network ↦ heard
            | Detected.not_returned ↦ if out.fell_off then ok n else heard
          ])
      by_result Detected.mixed n heard w u = w
      by_result Detected.lower_network n heard w u = w
      by_result Detected.same_network n heard w u = u
      by_result Detected.not_returned n heard w u =
          if-holds (Ends (Inv c)) out.fell_off (ok n) heard w u

  pub process_sap1-Inv : (msg : CtrlPkt) (s : Node) → Inv c s → Ends (Inv c) (process_sap1 msg s)
  unfolding process_sap1 core
  process_sap1-Inv msg s v =
      let ad = msg.ad_addr in
      bind-Ends {A = List Nsl} (Inv c)
        (add_n_s_l_table ad.addr ad.mask (init_tables_secondary_link s.n_s_l_table))
        (λ (table : List Nsl). ok (
          send_san1 msg.src_addr ad.addr ad.mask s.prim_mask
            (record s { n_s_l_table = table; flag_neigh_by_second = true })))
        (λ (table : List Nsl) e. unfold send_san1 in v)

  pub process_san1-Inv :
      (msg : CtrlPkt) (s : Node) → Inv c s → Ends (Inv c) (process_san1 out.fresh_neighbor msg s)
  unfolding process_san1 core
  process_san1-Inv msg s v =
      let ad = msg.ad_addr in
      let msg_aux = record msg { ad_addr = record ad { mask = ad.t_lenght } } in
      elim (Run-cases (add_neighbor out.fresh_neighbor msg_aux false s.neigh_table)) [
        | inl e ↦ rw (process_san1, e) tt
        | inr (table, e) ↦ rw (process_san1, e) v
      ]

module _ (c : Core) where
  lose-Inv : (succesor : Bool) (it : Neighbor) (s : Node) → Inv c s → Inv c (lose succesor it s)
  unfolding lose
  lose-Inv succesor it s v =
      let s' = if succesor then recover_addr_space it s else s in
      delete_neighbor-Inv c it s' (
        if-holds (Inv c) succesor (recover_addr_space it s) s (unfold recover_addr_space core in v)
          v)

  check_from-Inv :
      (fuel : ℕ) (seen ns : List Neighbor) (s s' : Node)
      → Inv c s
      → check_from fuel seen ns s ≡ some s'
      → Inv c s'
  unfolding check_from
  check_from-Inv fuel seen [] s s' v h = let e : s ≡ s' = ground arith in subst (Inv c) e v
  check_from-Inv fuel seen (it ∷ rest) s s' v h = elim (Option-cases (next_count it.count)) [
    | inr (count, e) ↦
        let it' = record it { count = count } in
        check_from-Inv fuel (seen ++ it' ∷ []) rest (record s { neigh_table = seen ++ it' ∷ rest })
          s' (unfold core in v) (sym (rw (check_from, e) refl) ∙ h)
    | inl e ↦ elim (Option-cases (check_succesor fuel s.prim_addr it.prim_addr)) [
      | inl d ↦ absurd (ground (arith, e, d))
      | inr (succesor, d) ↦
          let here = λ (n : Neighbor). addr_eq n.prim_addr it.prim_addr in
          let seen' = if some_elem here seen then remove_first here seen ++ it ∷ [] else seen in
          check_from-Inv fuel seen' rest (lose succesor it s) s' (lose-Inv succesor it s v)
            (sym (rw (check_from, e, d) refl) ∙ h)
    ]
  ]

  pub check_neighbors-Inv :
      (fuel : ℕ) (s s' : Node) → Inv c s → check_neighbors fuel s ≡ some s' → Inv c s'
  unfolding check_neighbors
  check_neighbors-Inv fuel s s' v h = elim (Option-cases (check_from fuel [] s.neigh_table s)) [
    | inl e ↦ absurd (ground (arith, e))
    | inr (t, e) ↦
        let w = check_from-Inv fuel [] s.neigh_table s t v e in
        let last : emit (Effect.start_timer TimerName.chk_neigh_t t_lhb) t ≡ s' =
          ground (arith, e) in
        subst (Inv c) last (unfold core in w)
  ]
