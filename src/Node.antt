-- ===== src/Node.antt =====
-- The daemon's data: antop_packet.h, the structures of defs.h and rendezvous.c, and the global
-- variables that the handlers share.
use antop.Base.{ℕ, ◌+◌, ◌-◌, ◌%◌, Bool, List, [], ◌∷◌, ◌++◌, Option}
use antop.Base.Int.{ℤ}
use antop.Addr.{Addr}

-- `struct additional_addr`.
pub record AdditionalAddr : Type 0 where
  pub t_lenght : ℕ
  pub addr_bit_len : ℕ
  pub addr : Addr
  pub mask : ℕ
  pub conn_count : ℕ
  pub red_numero : ℕ

-- `struct ctrl_pkt`.
pub record CtrlPkt : Type 0 where
  pub pkt_type_f : ℕ
  pub t_length : ℕ
  pub src_addr : Addr
  pub prim_addr_len : ℕ
  pub prim_addr : Addr
  pub ad_addr : AdditionalAddr

-- `struct neighbor`, without its `next`: the table is a list.
pub record Neighbor : Type 0 where
  pub prim_addr : Addr
  pub sec_addr : Addr
  pub sec_addr_conn : ℕ
  pub count : ℤ
  pub prim_mask : ℕ
  pub prim_mask_inicial : ℕ
  pub available : ℕ

-- `struct recovered_addr`.
pub record RecoveredAddr : Type 0 where
  pub prim_mask : ℕ
  pub prim_addr : Addr

-- `struct n_s_l`: a neighbour with a secondary link.
pub record Nsl : Type 0 where
  pub addr : Addr
  pub mask : ℕ

-- `struct lookup_table`; the name is the bytes before the terminating 0.
pub record LookupTable : Type 0 where
  pub hc_addr : Addr
  pub univ_addr : List ℕ

-- `struct rv_ctrl_pkt`; a name is the bytes before its terminating 0.
pub record RvCtrlPkt : Type 0 where
  pub type_field : ℕ
  pub flags : ℕ
  pub id : ℕ
  pub n : ℕ
  pub prim_addr : Addr
  pub univ_addr : List ℕ
  pub src_addr : Addr

-- `struct neighbor_to_root`.
pub record NeighborToRoot : Type 0 where
  pub addr : Addr
  pub distance : ℕ

-- The message types of defs.h.
abbrev pub par : ℕ
par = 1

abbrev pub pap : ℕ
pap = 2

abbrev pub pan : ℕ
pan = 3

abbrev pub panc : ℕ
panc = 4

abbrev pub hb_type : ℕ
hb_type = 6

abbrev pub sap : ℕ
sap = 7

abbrev pub san : ℕ
san = 8

abbrev pub rv_reg : ℕ
rv_reg = 9

abbrev pub rv_addr_lookup : ℕ
rv_addr_lookup = 10

abbrev pub rv_addr_solve : ℕ
rv_addr_solve = 11

abbrev pub far : ℕ
far = 12

abbrev pub fan : ℕ
fan = 13

abbrev pub mar1 : ℕ
mar1 = 14

abbrev pub mar2 : ℕ
mar2 = 15

abbrev pub man1 : ℕ
man1 = 16

abbrev pub man2 : ℕ
man2 = 17

-- `N_INACT`, and the periods of the timers in milliseconds.
abbrev pub n_inact : ℕ
n_inact = 1

abbrev pub t_hb : ℕ
t_hb = 5000

abbrev pub t_lhb : ℕ
t_lhb = 8000

abbrev pub t_san : ℕ
t_san = 2

abbrev pub t_rv : ℕ
t_rv = 3000

pub data TimerName : Type 0 where
  hb_t chk_neigh_t san_t rv_t : TimerName

-- What the daemon asks of the kernel, in order.
pub data Effect : Type 0 where
  -- `antop_socket_send` of a control packet: the packet, its destination and the hop limit.
  send : CtrlPkt → Addr → ℕ → Effect
  -- `add` and `del` of funciones.c.
  add_if_addr : Addr → Effect
  del_if_addr : Addr → Effect
  sleep : ℕ → Effect
  -- `antop_socket_send` of a rendezvous packet, and the call of `register_rv` that leaves out the
  -- hop limit, the socket and the port.
  send_rv : RvCtrlPkt → Addr → ℕ → Effect
  send_rv_short : RvCtrlPkt → Addr → Effect
  -- The call of `answer_dns_query`, with the packet or NULL.
  answer_dns : Option RvCtrlPkt → Effect
  -- `system("sudo ndisc6 ...")` for a neighbour.
  ndisc : Addr → Effect
  -- `timer_add_msec`.
  start_timer : TimerName → ℕ → Effect

-- The global variables. An empty list is a null pointer.
pub record Node : Type 0 where
  pub prim_addr : Addr
  pub sec_addr : Addr
  pub root : Addr
  pub prim_mask : ℕ
  pub sec_mask : ℕ
  pub prim_mask_inicial : ℕ
  pub red_numero : ℕ
  pub hc_dim : ℕ
  pub prim_addr_flag : Bool
  pub sec_addr_flag : Bool
  pub flag_mezcla : Bool
  pub flag_mezcla_primaria : Bool
  pub flag_mezcla_secundaria : Bool
  pub flag_fragmentacion : Bool
  pub flag_fragmentacion_primaria : Bool
  pub flag_fragmentacion_secundaria : Bool
  pub flag_conexion : Bool
  pub flag_init : Bool
  pub flag_addr_avai : Bool
  pub flag_neigh_by_second : Bool
  pub neigh_table : List Neighbor
  pub rcvd_addr : List RecoveredAddr
  pub rcvd_offered : Option Addr
  pub n_s_l_table : List Nsl
  pub rv_table : List LookupTable
  pub addr_node_secondary_link : Addr
  pub neighbor_to_root : NeighborToRoot
  pub dir_default : Addr
  pub prim_addr_aux : Addr
  pub prim_mask_mezcla : ℕ
  pub univ_addr : List ℕ
  pub rv_servers : List Addr
  pub effects : List Effect

abbrev pub emit : Effect → Node → Node
emit e s = record s { effects = s.effects ++ e ∷ [] }

-- `ff02::1`.
abbrev pub all_nodes : Addr
all_nodes = record { w0 = 0x02ff; w1 = 0; w2 = 0; w3 = 0; w4 = 0; w5 = 0; w6 = 0; w7 = 0x0100 }

-- What a handler takes from outside: the contents of memory that `malloc` returns, the byte
-- `mac[4]` of the interface's address, and the result of `ping6`.
pub record Outside : Type 0 where
  pub fresh_pkt : CtrlPkt
  pub fresh_neighbor : Neighbor
  pub fresh_nsl : Nsl
  pub fresh_rv : RvCtrlPkt
  -- What follows a name that is copied over `fresh_rv` without its 0, up to the next 0.
  pub name_tail : List ℕ
  pub mac4 : ℕ
  pub ping6 : Addr → ℕ
  -- Whether the value of a function that ends without `return` is 1 or -1.
  pub fell_off : Bool

-- `mac_address`, as the `unsigned char` that `red_numero` keeps of it.
abbrev pub new_red_numero : Outside → ℕ
new_red_numero out = (out.mac4 + 50) % 256

-- The difference of two values of type `unsigned char`, kept in one.
abbrev pub sub8 : ℕ → ℕ → ℕ
sub8 a b = (a + 256 - b % 256) % 256
