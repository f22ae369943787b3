-- ===== src/Alloc/Protocol.antt =====
-- PAR, PAP, PAN and PANC: how a node asks for an address and another one grants it
-- (hcb_address.c, and the PAN case of `antop_process_pkt` in antop_socket.c). Memory from `malloc`
-- is the argument `fresh`: a packet of unknown contents.
use antop.Base.{
  ℕ, ◌+◌, ◌%◌, false, List, [], ◌∷◌, Option, none, some, ◌==◌, leb, if◌then◌else◌, remove_first,
  some_elem,
}
use antop.Base.Int.{ℤ, pos, negsuc}
use antop.Addr.{Addr, addr_eq}
use antop.Node.{Node, CtrlPkt, RecoveredAddr, Effect, emit, pap, panc, pan}
use antop.Alloc.{next_addr}

-- The last entry of the recovered addresses, which the loop of `send_pap` stops at.
unfoldable pub last_rcvd : List RecoveredAddr → Option RecoveredAddr
last_rcvd [] = none
last_rcvd (r ∷ []) = some r
last_rcvd (r ∷ r' ∷ rs) = last_rcvd (r' ∷ rs)

-- The packet of `send_pap` when a recovered address is offered.
unfoldable pub pap_recovered : CtrlPkt → Node → RecoveredAddr → CtrlPkt
pap_recovered fresh s r = record fresh {
  pkt_type_f = pap;
  prim_addr = s.prim_addr;
  prim_addr_len = s.hc_dim % 256;
  ad_addr = record (fresh.ad_addr) {
    addr = r.prim_addr;
    red_numero = s.red_numero;
    mask = r.prim_mask;
  };
}

-- Its packet when the address comes from the node's own space, or there is none left.
unfoldable pub pap_own : CtrlPkt → Node → CtrlPkt
pap_own fresh s =
    if leb s.hc_dim s.prim_mask
    then record fresh {
      pkt_type_f = pap;
      prim_addr = s.prim_addr;
      ad_addr = record (fresh.ad_addr) { red_numero = s.red_numero; mask = 0 };
    }
    else record fresh {
      pkt_type_f = pap;
      prim_addr = s.prim_addr;
      prim_addr_len = s.hc_dim % 256;
      ad_addr = record (fresh.ad_addr) {
        addr = next_addr s.prim_addr s.prim_mask;
        red_numero = s.red_numero;
        mask = (s.prim_mask + 1) % 256;
      };
    }

-- The recovered address that `send_pap` offers: the last one, and only while none has been offered.
unfoldable pub offered : Node → Option RecoveredAddr
unfolding last_rcvd
offered s = elim s.rcvd_offered [ none ↦ last_rcvd s.rcvd_addr | some a ↦ none ]

unfoldable pub send_pap : CtrlPkt → Addr → Node → Node
unfolding offered pap_recovered pap_own
send_pap fresh dst s = elim (offered s) [
  | some r ↦
      emit (Effect.send (pap_recovered fresh s r) dst 1)
        (record s { rcvd_offered = some r.prim_addr })
  | none ↦ emit (Effect.send (pap_own fresh s) dst 1) s
]

-- `del_rcvd_addr_table`: 0 if the address was in the table, -1 if not.
unfoldable pub del_rcvd_addr_table : Addr → Node → Node × ℤ
del_rcvd_addr_table addr s =
    let here = λ (r : RecoveredAddr). addr_eq r.prim_addr addr in
    (
      record s { rcvd_addr = remove_first here s.rcvd_addr },
      if some_elem here s.rcvd_addr then pos 0 else negsuc 0,
    )

-- The mask grows unless the chosen address is the offered recovered one.
unfoldable pub confirm : Addr → Node → Node
unfolding del_rcvd_addr_table
confirm chosen s = elim s.rcvd_offered [
  | none ↦ record s { prim_mask = (s.prim_mask + 1) % 256 }
  | some r ↦
      if addr_eq chosen r
      then (del_rcvd_addr_table r s).0
      else record s { prim_mask = (s.prim_mask + 1) % 256 }
]

unfoldable pub send_panc : CtrlPkt → Addr → Addr → Addr → Node → Node
unfolding confirm
send_panc fresh dst primary chosen s =
    emit
      (Effect.send
        (record fresh {
          pkt_type_f = panc;
          ad_addr = record (fresh.ad_addr) { mask = 5; addr = primary };
        })
        dst 1)
      (confirm chosen s)

-- The PAN case of `antop_process_pkt`.
unfoldable pub process_pan : CtrlPkt → CtrlPkt → Node → Node
unfolding send_panc
process_pan fresh msg s =
    if msg.ad_addr.red_numero == s.red_numero
    then if addr_eq s.prim_addr msg.ad_addr.addr
      then send_panc fresh msg.src_addr msg.ad_addr.addr msg.prim_addr s
      else s
    else s

-- `send_pan(addr, sock, chosen_addr)`: the packet, at the interface's own address `if_addr`. It is
-- cleared by `memset` first.
unfoldable pub pan_pkt : Addr → Addr → Addr → ℕ → CtrlPkt
pan_pkt if_addr addr chosen_addr red_numero = record {
  pkt_type_f = pan;
  t_length = 0;
  src_addr = if_addr;
  prim_addr_len = 0;
  prim_addr = chosen_addr;
  ad_addr = record {
    t_lenght = 0;
    addr_bit_len = 0;
    addr = addr;
    mask = 0;
    conn_count = 0;
    red_numero = red_numero;
  };
}

-- `receive_pap` once the packet is read: 0 for a usable proposal, and 1 otherwise.
unfoldable pub receive_pap : CtrlPkt → Node → Node × ℕ
receive_pap msg s = (
  record s { red_numero = msg.ad_addr.red_numero },
  if msg.pkt_type_f == pap then (if msg.ad_addr.mask == 0 then 1 else 0) else 1,
)

-- The loop of `get_prim_addr` that picks the proposal of the lowest mask, the earliest of equals;
-- `best` is `v_pap[mask_index]` so far.
unfoldable pub best_pap : CtrlPkt → List CtrlPkt → CtrlPkt
best_pap best [] = best
best_pap best (p ∷ ps) = best_pap (if leb best.ad_addr.mask p.ad_addr.mask then best else p) ps

-- What a node takes over from the proposal that was confirmed to it.
unfoldable pub adopt : CtrlPkt → Node → Node
adopt p s = record s {
  prim_addr = p.ad_addr.addr;
  hc_dim = p.prim_addr_len;
  prim_mask = p.ad_addr.mask;
  prim_mask_inicial = p.ad_addr.mask;
  red_numero = p.ad_addr.red_numero;
  flag_conexion = false;
}
