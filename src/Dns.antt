-- ===== src/Dns.antt =====
-- rendezvous.c, the side of a client: `solve_name`, and `answer_dns_query` with its queue of DNS
-- queries and the replies that it builds. Memory is a list of bytes; `memory i` is the byte `i` of
-- what `malloc` returns.
pub mod Layout
pub mod Queue
pub mod Answer
pub mod Ask
use antop.Base.{
  poke, ℕ, zero, suc, ◌+◌, ◌-◌, ◌/◌, ◌%◌, Bool, true, false, not, ◌&&◌, ◌||◌, ◌==◌, ltb, leb, List,
  [], ◌∷◌, ◌++◌, Option, none, some, if◌then◌else◌, length, take, drop, htons,
}
use antop.Base.Run.{Run, ok, crash, ◌>>=◌}
use antop.Addr.{Addr, null_addr, dist_w_mask}
use antop.Node.{Node, Neighbor, LookupTable, RvCtrlPkt, Outside, Effect, emit, rv_addr_lookup}
use antop.Names.{name_eq, has_prefix}
use antop.Names.Servers.{distribute_in_hc, nserver_rv}

-- `struct dns_q_queue`. The packet has `size` bytes.
pub record DnsQuery : Type 0 where
  pub pkt : List ℕ
  pub dst_port : ℕ
  pub src_port : ℕ

-- The globals of the client: the cache, the queue, and the server that was asked last.
pub record Client : Type 0 where
  pub cached_table : List LookupTable
  pub dns : List DnsQuery
  pub main_rv_server : Addr

-- The sockets for replies.
pub data DnsSocket : Type 0 where
  socket_mdns socket_dns : DnsSocket

-- `antop_socket_send` of a reply to the node itself: the socket, the bytes and the port.
pub data Reply : Type 0 where
  reply_to : DnsSocket → List ℕ → ℕ → Reply

-- The C string at the start of some bytes. All that is read has a 0 somewhere.
unfoldable pub c_string : List ℕ → List ℕ
c_string [] = []
c_string (c ∷ cs) = if c == 0 then [] else c ∷ c_string cs

-- The cache: an entry with a longer name is compared over the length of `uaddr`, any other one over
-- the value of a pointer, which reads on past the end of equal names.
unfoldable pub find_cached : List ℕ → List LookupTable → Run (Option Addr)
find_cached uaddr [] = ok none
find_cached uaddr (e ∷ es) =
    let later = find_cached uaddr es in
    let hit = some e.hc_addr in
    if ltb (length uaddr) (length e.univ_addr)
    then (if has_prefix e.univ_addr uaddr then ok hit else later)
    else (if name_eq uaddr e.univ_addr then crash else later)

-- The loop for the closest server, for the distance `d` to this node.
unfoldable pub closest_server : (Addr → ℕ) → List Addr → ℕ → Addr → Addr
closest_server d [] min_dist best = best
closest_server d (a ∷ rest) min_dist best =
    let nearer = ltb (d a) min_dist in
    closest_server d rest (if nearer then d a else min_dist) (if nearer then a else best)

-- The distance to a server. The mask of `neigh` is uninitialised.
unfoldable pub server_dist : Outside → Node → Addr → ℕ
server_dist out s a = dist_w_mask s.prim_addr a out.fresh_neighbor.prim_mask

-- The packet of `solve_name`. The name is copied without its 0.
unfoldable pub lookup_pkt : Outside → List ℕ → Node → RvCtrlPkt
lookup_pkt out uaddr s = record (out.fresh_rv) {
  type_field = rv_addr_lookup;
  prim_addr = s.prim_addr;
  univ_addr = uaddr ++ out.name_tail;
  src_addr = s.prim_addr;
}

-- `sizeof` of the name of a rendezvous packet.
abbrev pub univ_addr_size : ℕ
univ_addr_size = 50

-- `solve_name`, when the name is not in the cache: the lookup is sent to the closest server. A name
-- that does not fit the packet overruns it.
unfoldable pub ask : Outside → List ℕ → Node → Client → Run (Node × Client)
ask out uaddr s c = if ltb univ_addr_size (length uaddr) then crash else do
  servers ← distribute_in_hc s.hc_dim nserver_rv uaddr
  let server = closest_server (server_dist out s) servers 1000 c.main_rv_server
  ok (
    emit (Effect.send_rv (lookup_pkt out uaddr s) server 1) s,
    record c { main_rv_server = server },
  )

-- `IPV6_MDNS_QUERY_OFF`, `UDP_PKT_OFF` and the size of `aux_str`.
abbrev pub query_off : ℕ
query_off = 92

abbrev pub udp_pkt_off : ℕ
udp_pkt_off = 80

abbrev pub aux_str_size : ℕ
aux_str_size = 150

-- A query that is not in the cache is put at the end of the queue.
unfoldable pub enqueue : DnsQuery → Client → Client
enqueue q c = record c { dns = c.dns ++ q ∷ [] }

-- `answer_dns_query` for a query of this node, with the name in it. The first character of the name
-- is left out. An empty name makes the loop that moves the others run on, a long one overruns
-- `aux_str`, and a name in the cache makes it read through a pointer that was never set.
unfoldable pub answer_name : Outside → DnsQuery → Node → Client → List ℕ → Run (Node × Client)
answer_name out q s c [] = crash
answer_name out q s c (first ∷ uaddr) =
    if not (ltb (suc (length uaddr)) aux_str_size) then crash else do
      cached ← find_cached uaddr c.cached_table
      (s', c') ← (elim cached [ none ↦ ask out uaddr s c | some a ↦ crash ])
      ok (s', enqueue q c')

unfoldable pub answer_query : Outside → DnsQuery → Node → Client → Run (Node × Client)
answer_query out q s c = answer_name out q s c (c_string (drop query_off q.pkt))

-- `memcmp` over the length of the stored name less one: without a name that is a huge length.
unfoldable pub compare_names : List ℕ → Bool → Run Bool
compare_names [] same = crash
compare_names (first ∷ rest) same = ok same

-- The stored query is for this name: the lengths are compared first.
unfoldable pub is_for : List ℕ → DnsQuery → Run Bool
is_for univ_addr q =
    let uaddr = c_string (drop (query_off + 1) q.pkt) in
    let named = compare_names (c_string (drop query_off q.pkt)) (name_eq uaddr univ_addr) in
    if length uaddr == length univ_addr then named else ok false

-- The search in the queue: what is before the query that is found, the query, and what is after it.
-- When nothing is found the pointer is null, and is read through.
unfoldable pub find_query : List ℕ → List DnsQuery → Run (List DnsQuery × DnsQuery × List DnsQuery)
find_query univ_addr [] = crash
find_query univ_addr (q ∷ qs) =
    let later = find_query univ_addr qs >>= (λ r. ok (q ∷ r.0, r.1, r.2)) in
    let here : List DnsQuery × DnsQuery × List DnsQuery = ([], q, qs) in
    do found ← is_for univ_addr q; if found then ok here else later

-- The query is unlinked. The first one of the queue is freed before its `next` is read.
unfoldable pub delete_query : List DnsQuery → List DnsQuery → Run (List DnsQuery)
delete_query [] after = crash
delete_query (q ∷ before) after = ok ((q ∷ before) ++ after)

unfoldable pub malloc : (ℕ → ℕ) → ℕ → ℕ → List ℕ
malloc memory i zero = []
malloc memory i (suc n) = memory i ∷ malloc memory (i + 1) n

-- The bytes of an address. A word has its low byte first.
abbrev pub addr_bytes : Addr → List ℕ
addr_bytes a =
    a.w0 % 256
    ∷ a.w0 / 256
    ∷ a.w1 % 256
    ∷ a.w1 / 256
    ∷ a.w2 % 256
    ∷ a.w2 / 256
    ∷ a.w3 % 256
    ∷ a.w3 / 256
    ∷ a.w4 % 256
    ∷ a.w4 / 256
    ∷ a.w5 % 256
    ∷ a.w5 / 256
    ∷ a.w6 % 256
    ∷ a.w6 / 256
    ∷ a.w7 % 256
    ∷ a.w7 / 256
    ∷ []

-- The authority and the additional record, which are always the same.
abbrev pub authority : List ℕ
authority =
    0xc0 ∷ 0x15 ∷ 0 ∷ 2 ∷ 0 ∷ 1 ∷ 0 ∷ 0 ∷ 28 ∷ 32 ∷ 0 ∷ 2 ∷ 0xc0 ∷ 0x15 ∷ 192 ∷ 0x15 ∷ 0 ∷ 28 ∷ 0
    ∷ 1 ∷ 0 ∷ 0 ∷ 28 ∷ 32 ∷ 0 ∷ 16 ∷ 32 ∷ 1 ∷ 0 ∷ 0 ∷ 0 ∷ 0 ∷ 0 ∷ 0 ∷ 0 ∷ 0 ∷ 0 ∷ 0 ∷ 0 ∷ 0 ∷ 0 ∷ 10
    ∷ []

-- The rest of the reply, from the class of the question on: the answer starts with a copy of the
-- question, and has the time to live, the length and the address.
unfoldable pub answer_bytes : List ℕ → Addr → List ℕ
answer_bytes question addr =
    (0 ∷ 1 ∷ []) ++ (question ++ ((0 ∷ 0 ∷ 0 ∷ 10 ∷ 0 ∷ 16 ∷ []) ++ (addr_bytes addr ++ authority)))

-- `size_aux`, of a query with `n` bytes from its UDP payload on, and a name of `l` bytes.
abbrev pub size_aux : ℕ → ℕ → ℕ
size_aux n l = n + l + 27

-- The answer is written into the buffer behind the type of the question, and copied out of the query.
unfoldable pub write_answer : List ℕ → Addr → List ℕ → Run (List ℕ)
write_answer q addr buf =
    let l = length (c_string (drop 12 buf)) in
    let question = take (l + 5) (drop 12 q) in
    if ltb (length q) (12 + (l + 5)) then crash else poke (15 + l) (answer_bytes question addr) buf

-- The flags, and the counts of answers, authorities and additional records.
unfoldable pub write_header : List ℕ → Run (List ℕ)
write_header buf = do flags ← poke 2 (0x85 ∷ 0 ∷ []) buf; poke 6 (0 ∷ 1 ∷ 0 ∷ 1 ∷ 0 ∷ 1 ∷ []) flags

-- The reply to a query, from its UDP payload `q` on. Consecutive writes are one here.
unfoldable pub build_reply : (ℕ → ℕ) → List ℕ → Addr → Run (List ℕ)
build_reply memory q addr = do
  let l = length (c_string (drop 12 q))
  copied ← poke 0 q (malloc memory 0 (size_aux (length q) l + 42))
  buf ← write_header copied
  write_answer q addr buf

-- What is sent: to DNS the whole buffer, to MDNS less. Any other port gets nothing.
unfoldable pub send_reply : DnsQuery → ℕ → List ℕ → List Reply
send_reply q size bytes =
    if htons q.src_port == 5353
    then reply_to socket_mdns (take size bytes) (htons q.dst_port) ∷ []
    else if htons q.src_port == 53
    then reply_to socket_dns (take (size + 42) bytes) (htons q.dst_port) ∷ []
    else []

-- `answer_dns_query` for a solution.
unfoldable pub answer_solution : (ℕ → ℕ) → RvCtrlPkt → Client → Run (Client × List Reply)
answer_solution memory rv c = do
  (before, q, after) ← find_query rv.univ_addr c.dns
  let payload = drop udp_pkt_off q.pkt
  bytes ← build_reply memory payload rv.prim_addr
  let size = size_aux (length payload) (length (c_string (drop query_off q.pkt)))
  rest ← delete_query before after
  ok (record c { dns = rest }, send_reply q size bytes)

-- The call of `antop_process_pkt` with the solution, or with NULL, which does nothing.
unfoldable pub answer_dns_query : (ℕ → ℕ) → Option RvCtrlPkt → Client → Run (Client × List Reply)
answer_dns_query memory none c = ok (c, [])
answer_dns_query memory (some rv) c = answer_solution memory rv c
