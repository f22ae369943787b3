-- ===== src/Routing/Outgoing.antt =====
-- `print_pkt` of pkt_handle.c for the packets of the node itself, up to the call of `route`: what is
-- written into the copy of the packet, and the query that `answer_dns_query` is called for. Reads and
-- writes past the end crash; of a string that does not end, all bytes are taken.
use antop.Base.{
  ℕ, ◌+◌, ◌-◌, ◌*◌, ◌/◌, ◌%◌, Bool, false, not, ◌&&◌, ◌||◌, ◌==◌, ltb, List, [], ◌∷◌, Option, none,
  some, if◌then◌else◌, length, drop, get_elem?, poke, bit_or,
}
use antop.Base.Run.{Run, ok, crash, ◌>>=◌}
use antop.Addr.{Addr, null_addr, addr_eq}
use antop.Checksum.{read16, icmpv6_cksum, udp_cksum}
use antop.Dns.{DnsQuery, addr_bytes, c_string, query_off}
use antop.Node.{rv_reg, rv_addr_lookup, rv_addr_solve}
use antop.Routing.Table.{SrcNat}
use antop.Routing.Packets.{ipproto_icmpv6}
use antop.Routing.Header.{insert_option}

unfoldable pub peek : ℕ → List ℕ → Run ℕ
peek i buf = elim (get_elem? buf i) [ none ↦ crash | some b ↦ ok b ]

-- A number of 16 bits in network order: `htons` of what is read.
unfoldable pub peek16 : ℕ → List ℕ → Run ℕ
peek16 i buf = do hi ← peek i buf; lo ← peek (i + 1) buf; ok (256 * hi + lo)

-- The address at an offset.
unfoldable pub addr_at : ℕ → List ℕ → Addr
addr_at i buf = record {
  w0 = read16 buf i;
  w1 = read16 buf (i + 2);
  w2 = read16 buf (i + 4);
  w3 = read16 buf (i + 6);
  w4 = read16 buf (i + 8);
  w5 = read16 buf (i + 10);
  w6 = read16 buf (i + 12);
  w7 = read16 buf (i + 14);
}

abbrev pub src_addr_offset : ℕ
src_addr_offset = 8

abbrev pub dst_addr_offset : ℕ
dst_addr_offset = 24

abbrev ipproto_tcp : ℕ
ipproto_tcp = 6

abbrev ipproto_udp : ℕ
ipproto_udp = 17

-- A SYN packet: its segment size.
unfoldable pub set_mss : List ℕ → Run (List ℕ)
set_mss data_aux = do
  marked ← poke 63 (0x80 ∷ []) data_aux
  size ← peek 59 marked
  poke 59 ((size + 32) % 256 ∷ []) marked

unfoldable pub tcp_case : List ℕ → Run (List ℕ)
tcp_case data_aux = do
  flags ← peek 53 data_aux
  if flags == 2 then set_mss data_aux else ok data_aux

-- The checksum of an ICMPv6 packet of `ret` bytes before the option. The header of ICMPv6 has 8.
unfoldable pub icmp_case : ℕ → List ℕ → Run (List ℕ)
icmp_case ret buf =
    let src = addr_at src_addr_offset buf in
    let dst = addr_at dst_addr_offset buf in
    let cksum_aux = icmpv6_cksum src dst buf (ret - 48) (ret - 40) in
    if ltb ret 48 then crash else poke 74 (cksum_aux / 256 ∷ cksum_aux % 256 ∷ []) buf

-- The ports of the daemon and of the two protocols for names.
abbrev antop_port : ℕ
antop_port = 4469

abbrev mdns_port : ℕ
mdns_port = 5353

abbrev mdns_port_aux : ℕ
mdns_port_aux = 4473

abbrev dns_port : ℕ
dns_port = 53

abbrev dns_port_aux : ℕ
dns_port_aux = 4477

-- The ports of a packet that may have a query for a name.
unfoldable pub may_query : ℕ → ℕ → Bool
may_query source dest =
    not (source == mdns_port || source == antop_port || source == mdns_port_aux)
    && (dest == mdns_port || dest == dns_port)

-- One question, recursion, and the type AAAA, tested in this order as long as they hold.
unfoldable pub has_type : List ℕ → Run Bool
has_type buf = do
  qtype ← peek (query_off + length (c_string (drop query_off buf)) + 2) buf
  ok (qtype == 28)

unfoldable pub asks_recursion : List ℕ → Run Bool
asks_recursion buf = do flags ← peek 82 buf; if flags == 1 then has_type buf else ok false

unfoldable pub is_query : List ℕ → Run Bool
is_query buf = do count ← peek 85 buf; if count == 1 then asks_recursion buf else ok false

-- The query gets the primary address as source. The ports are stored as they are read.
unfoldable pub as_query : Addr → List ℕ → Run (List ℕ × Option DnsQuery)
as_query prim_addr buf = do
  named ← poke src_addr_offset (addr_bytes prim_addr) buf
  ok (named, some (record { pkt = named; dst_port = read16 named 72; src_port = read16 named 74 }))

unfoldable pub query_or_not : Addr → List ℕ → Bool → Run (List ℕ × Option DnsQuery)
query_or_not prim_addr buf asked =
    let kept : List ℕ × Option DnsQuery = (buf, none) in
    if asked then as_query prim_addr buf else ok kept

unfoldable pub query_case : Addr → ℕ → ℕ → List ℕ → Run (List ℕ × Option DnsQuery)
query_case prim_addr source dest buf =
    let kept : List ℕ × Option DnsQuery = (buf, none) in
    if may_query source dest then is_query buf >>= query_or_not prim_addr buf else ok kept

-- The address of the server of names.
abbrev address_auxiliar : Addr
address_auxiliar = record (null_addr) { w0 = 0x0120; w1 = 0xb80d; w7 = 0x0c00 }

-- A reply of the daemon seems to come from that server, and from its port.
unfoldable pub translate_port : ℕ → List ℕ → Run (List ℕ)
translate_port ret buf = do
  ported ← poke 72 (0 ∷ dns_port ∷ []) buf
  named ← poke src_addr_offset (addr_bytes address_auxiliar) ported
  let cksum_aux =
      udp_cksum (addr_at src_addr_offset named) (addr_at dst_addr_offset named) named (ret - 48)
        (ret - 40)
  if ltb ret 48 then crash else poke 78 (cksum_aux / 256 ∷ cksum_aux % 256 ∷ []) named

-- A rendezvous packet of the daemon gets the flag `MASK_RV`.
unfoldable pub set_rv_flag : List ℕ → Run (List ℕ)
set_rv_flag buf = do
  t ← peek 80 buf
  flags ← peek 3 buf
  let is_rv = t == rv_reg || t == rv_addr_lookup || t == rv_addr_solve
  if is_rv then poke 3 (bit_or flags 2 ∷ []) buf else ok buf

unfoldable pub udp_case : Addr → ℕ → List ℕ → Run (List ℕ × Option DnsQuery)
udp_case prim_addr ret buf = do
  source ← peek16 72 buf
  dest ← peek16 74 buf
  (asked, query) ← query_case prim_addr source dest buf
  ported ←
      (if source == dns_port_aux && not (dest == dns_port_aux)
        then translate_port ret asked
        else ok asked)
  flagged ← (if dest == antop_port then set_rv_flag ported else ok ported)
  ok (flagged, query)

-- The translation of the source, by the first entry for the destination.
unfoldable pub nat_case : List SrcNat → List ℕ → Run (List ℕ)
nat_case [] buf = ok buf
nat_case (src_nat_aux ∷ rest) buf =
    if addr_eq (addr_at dst_addr_offset buf) src_nat_aux.dst
    then poke src_addr_offset (addr_bytes src_nat_aux.src) buf
    else nat_case rest buf

-- The two protocols that have a case after the option.
unfoldable pub protocol_case : Addr → ℕ → ℕ → List ℕ → Run (List ℕ × Option DnsQuery)
protocol_case prim_addr ip6_nxt ret buf =
    let kept : List ℕ × Option DnsQuery = (buf, none) in
    if ip6_nxt == ipproto_udp
    then udp_case prim_addr ret buf
    else if not (ip6_nxt == ipproto_icmpv6)
    then ok kept
    else do summed ← icmp_case ret buf; ok (summed, none)

-- A packet with the option, for the routing. The given one counts `length data_aux` bytes.
unfoldable pub rewrite_out : Addr → List SrcNat → ℕ → List ℕ → Run (List ℕ × Option DnsQuery)
rewrite_out prim_addr nat_table ip6_nxt data_aux = do
  buf ← insert_option data_aux prim_addr
  (finished, query) ← protocol_case prim_addr ip6_nxt (length data_aux) buf
  sent ← nat_case nat_table finished
  ok (sent, query)

-- Packets that look for neighbours are left as they are.
unfoldable pub is_discovery : ℕ → List ℕ → Run Bool
is_discovery ip6_nxt data_aux =
    if not (ip6_nxt == ipproto_icmpv6)
    then ok false
    else do icmp6_type ← peek 40 data_aux; ok (icmp6_type == 135 || icmp6_type == 136)

-- The hook of the packets of the node: `none` for a packet that is left as it is.
unfoldable pub local_out_case :
    Addr → List SrcNat → List ℕ → Run (Option (List ℕ × Option DnsQuery))
local_out_case prim_addr nat_table data_aux = do
  ip6_nxt ← peek 6 data_aux
  discovery ← is_discovery ip6_nxt data_aux
  if discovery then ok none else do
    given ← (if ip6_nxt == ipproto_tcp then tcp_case data_aux else ok data_aux)
    sent ← rewrite_out prim_addr nat_table ip6_nxt given
    ok (some sent)
