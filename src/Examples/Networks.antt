-- ===== src/Examples/Networks.antt =====
-- Shifts, fragmentation, mixing, heart beats and the dispatch of packets.
use antop.Base.{
  ℕ, ◌≡◌, refl, true, false, ◌%◌, ◌^◌, ◌*◌, ◌/◌, ◌++◌, List, [], ◌∷◌, if◌then◌else◌, ◌==◌,
  some_elem, htons,
}
use antop.Base.Int.{pos}
use antop.Base.Run.{ok}
use antop.Addr.{Addr, null_addr, addr_eq, dist}
use antop.Node.{CtrlPkt, Node, Neighbor, RvCtrlPkt, Outside, rv_reg, new_red_numero}
use antop.Shift.{shift, shift_unos}
use antop.Shift.Value.{capacity}
use antop.Shift.Number
use antop.Shift.Number.{number}
use antop.Names.Registration
use antop.Fragment.{detector_de_fragmentacion, fragmentacion, new_network}
use antop.Fragment.Start
use antop.Fragment.Start.{fars}
use antop.Mezcla.{mezcla}
use antop.Mezcla.Answers.{process_man1}
use antop.Mezcla.Return
use antop.HeartBeat.{changing, process_hb}
use antop.HeartBeat.Heard
use antop.HeartBeat.Heard.{from_neighbor}
use antop.Neighbors.Hearing.{fresh_entry}
use antop.Neighbors.Supervision.{survivors, here}
use antop.HeartBeat.Reach
use antop.HeartBeat.Reach.{timer_effects, Returns}
use antop.Dispatch.{Message, antop_process_pkt}
use antop.Dispatch.Invariant.{core, Good}
use antop.Dispatch.Step
use antop.Dispatch.Step.{Reaches, stay, next, packet, san_timer}
use antop.Secondary.{san_t_handler}
use antop.Examples.{host, clear_pkt, root_node}

abbrev pub clear_neighbor : Neighbor
clear_neighbor = record {
  prim_addr = null_addr;
  sec_addr = null_addr;
  sec_addr_conn = 0;
  count = pos 0;
  prim_mask = 0;
  prim_mask_inicial = 0;
  available = 0;
}

abbrev pub clear_rv : RvCtrlPkt
clear_rv = record {
  type_field = 0;
  flags = 0;
  id = 0;
  n = 0;
  prim_addr = null_addr;
  univ_addr = [];
  src_addr = null_addr;
}

-- Clear memory, a fixed interface address, and no answer to a ping.
abbrev pub outside : Outside
outside = record {
  fresh_pkt = clear_pkt;
  fresh_neighbor = clear_neighbor;
  fresh_nsl = record { addr = null_addr; mask = 0 };
  fresh_rv = clear_rv;
  name_tail = [];
  mac4 = 9;
  ping6 = λ a. 0;
  fell_off = false;
}

-- A node below the root, with one neighbour, and with the name "ab".
abbrev pub below : Node
below = record (root_node) {
  root = host 0;
  prim_addr = host 0x0080;
  sec_addr = null_addr;
  prim_mask = 1;
  prim_mask_inicial = 1;
  univ_addr = 97 ∷ 98 ∷ [];
  neigh_table = record (clear_neighbor) { prim_addr = host 0x00c0 } ∷ [];
}

abbrev mixing : Node
mixing = record (below) { flag_mezcla = true }

abbrev msg_of : ℕ → Message
msg_of t = record {
  type_f = t;
  ctrl = record (clear_pkt) { pkt_type_f = t };
  rv = record (clear_rv) { type_field = t; univ_addr = 97 ∷ [] };
}

shift_unos_lem_example :
    (number (shift_unos 1 3 (host 0x0080)) ≡ number (host 0x0080) * 2 ^ 3 % capacity)
    × (number (shift_unos 0 3 (host 0x0080)) ≡ number (host 0x0080) / 2 ^ 3)
shift_unos_lem_example = Number.shift_unos_lem 3 (host 0x0080)

fragmentacion_lem_example :
    let addr = shift 64 1 1 (host 0) (host 0x0080) in
    ((fragmentacion outside below).neigh_table ≡ [])
    × ((fragmentacion outside below).prim_mask_inicial ≡ 0)
    × ((fragmentacion outside below).effects
        ≡ (new_network outside below).effects
          ++ fars outside addr
              (host 0x0080)
              false
              null_addr
              1
              (new_red_numero outside)
              below.neigh_table)
fragmentacion_lem_example = Start.fragmentacion_lem outside below

mezcla-process_man1_example :
    (u : Node) × (process_man1 outside clear_pkt (mezcla outside null_addr below) ≡ ok u)
    × (u.prim_addr ≡ host 0x0080)
    × (u.flag_mezcla ≡ false)
    × (u.prim_mask ≡ (if 0 == 1 then 2 % 256 else 1))
mezcla-process_man1_example = Return.mezcla-process_man1 outside null_addr clear_pkt below

process_hb-Returns_example : Returns (process_hb outside clear_pkt root_node)
process_hb-Returns_example = Reach.process_hb-Returns outside clear_pkt root_node

-- A name is registered, and the timer of the SAN expires.
abbrev registered : Node
registered = record (below) { rv_table = record { hc_addr = null_addr; univ_addr = 97 ∷ [] } ∷ [] }

one_name : antop_process_pkt outside (msg_of rv_reg) below ≡ ok registered
unfolding antop_process_pkt
one_name = refl

below-Good : Good (core below) (core below)
unfolding core
below-Good = record {
  same_root = refl;
  same_hc_dim = refl;
  same_dir_default = refl;
  same_univ_addr = refl;
  names = tt;
  of_first = λ e. e;
  of_second = λ e. e;
}

Reaches-Good_example : Good (core below) (core (san_t_handler registered))
Reaches-Good_example = Step.Reaches-Good below (san_t_handler registered) below-Good (
    next registered (san_t_handler registered)
      (next below registered stay (packet outside (msg_of rv_reg) registered one_name)) san_timer)

-- A heart beat of the node next to the root.
abbrev hb_of_child : CtrlPkt
hb_of_child = record (clear_pkt) {
  prim_addr = host 1;
  src_addr = host 1;
  ad_addr = record (clear_pkt.ad_addr) { red_numero = root_node.red_numero };
}

idle : changing root_node ≡ false
unfolding changing
idle = refl

child_near : from_neighbor hb_of_child root_node ≡ true
unfolding from_neighbor addr_eq dist htons
child_near = refl

process_hb-hears_example :
    (table : List Neighbor) × (process_hb outside hb_of_child root_node
      ≡ ok (detector_de_fragmentacion outside (record (root_node) { neigh_table = table })))
    × (fresh_entry (host 1) table ≡ true)
    × (some_elem (here (host 1)) (survivors table) ≡ true)
process_hb-hears_example = Heard.process_hb-hears outside hb_of_child root_node idle refl child_near
