-- ===== src/Examples.antt =====
-- Concrete runs: the data here, and one file for each part of the program.
mod Space
mod Names
mod Queue
mod Supervision
mod Sums
mod Networks
mod Routes
mod Tables
mod Questions
mod Arrivals
use antop.Base.{ℕ, zero, [], none, true, false, arith}
use antop.Addr.{Addr, IsAddr, null_addr}
use antop.Node.{AdditionalAddr, CtrlPkt, Node}

-- `2001::x:0:0:0`, with one word of the host part.
abbrev pub host : ℕ → Addr
host x = record (null_addr) { w0 = 0x0120; w4 = x }

pub null_addr-IsAddr : IsAddr null_addr
null_addr-IsAddr = record {
  b0 = omega arith;
  b1 = omega arith;
  b2 = omega arith;
  b3 = omega arith;
  b4 = omega arith;
  b5 = omega arith;
  b6 = omega arith;
  b7 = omega arith;
}

-- Memory that happens to be clear.
abbrev pub clear_ad_addr : AdditionalAddr
clear_ad_addr = record {
  t_lenght = 0;
  addr_bit_len = 0;
  addr = null_addr;
  mask = 0;
  conn_count = 0;
  red_numero = 0;
}

abbrev pub clear_pkt : CtrlPkt
clear_pkt = record {
  pkt_type_f = 0;
  t_length = 0;
  src_addr = null_addr;
  prim_addr_len = 0;
  prim_addr = null_addr;
  ad_addr = clear_ad_addr;
}

-- The first node of a network.
abbrev pub root_node : Node
root_node = record {
  prim_addr = null_addr;
  sec_addr = null_addr;
  root = null_addr;
  prim_mask = 0;
  sec_mask = 0;
  prim_mask_inicial = 0;
  red_numero = 7;
  hc_dim = 64;
  prim_addr_flag = true;
  sec_addr_flag = false;
  flag_mezcla = false;
  flag_mezcla_primaria = false;
  flag_mezcla_secundaria = false;
  flag_fragmentacion = false;
  flag_fragmentacion_primaria = false;
  flag_fragmentacion_secundaria = false;
  flag_conexion = false;
  flag_init = false;
  flag_addr_avai = false;
  flag_neigh_by_second = false;
  neigh_table = [];
  rcvd_addr = [];
  rcvd_offered = none;
  n_s_l_table = [];
  rv_table = [];
  addr_node_secondary_link = null_addr;
  neighbor_to_root = record { addr = null_addr; distance = 0 };
  dir_default = record (null_addr) { w0 = 0x0120; w1 = 0xb80d; w7 = 0x0a00 };
  prim_addr_aux = null_addr;
  prim_mask_mezcla = 0;
  univ_addr = [];
  rv_servers = [];
  effects = [];
}
