-- ===== src/Examples/Arrivals.antt =====
-- An echo request, and the header of a packet of the node itself.
use antop.Base.{
  ℕ, ◌+◌, ◌/◌, ◌%◌, ◌^◌, ◌≡◌, refl, List, [], ◌∷◌, ◌++◌, length, bit_or, some, none, poke,
}
use antop.Base.Run.{ok}
use antop.Addr.{Addr, null_addr, dist}
use antop.Addr.Nearest.{Among, AllFrom}
use antop.Dns.{DnsQuery, addr_bytes, c_string}
use antop.Node.{Neighbor}
use antop.Routing.{Packet}
use antop.Routing.Table.{SrcNat, new_route, max_ttl}
use antop.Routing.Packets.{nf_accept, ipproto_icmpv6, icmp6_echo_request, local_in_case}
use antop.Routing.Arrival
use antop.Routing.Arrival.{addresses}
use antop.Routing.Header
use antop.Routing.Header.{fixed, option_bytes, insert_option}
use antop.Routing.Outgoing.{
  local_out_case, is_discovery, rewrite_out, protocol_case, udp_case, query_case, query_or_not,
  as_query, is_query, asks_recursion, has_type, may_query, peek16, peek, nat_case,
}
use antop.Routing.Segments
use antop.Routing.Segments.{translated}
use antop.Examples.{host}
use antop.Examples.Networks.{clear_neighbor}
use antop.Examples.Routes.{to_above}
use antop.Examples.Tables.{waiting}

abbrev first : Neighbor
first = record (clear_neighbor) { prim_addr = host 0x00c0; prim_mask = 2; available = 1 }

abbrev others : List Neighbor
others = record (clear_neighbor) { prim_addr = host 0; prim_mask = 1; available = 1 } ∷ []

abbrev echo : Packet
echo = record (to_above) { src = host 0x0041 }

local_in_case-nearest_example :
    (hop : Addr) × Among hop (addresses (first ∷ others))
    × AllFrom (dist echo.src) (dist echo.src hop) (addresses (first ∷ others))
    × ((local_in_case null_addr ipproto_icmpv6 icmp6_echo_request echo waiting).0 ≡ nf_accept echo)
    × ((local_in_case null_addr ipproto_icmpv6 icmp6_echo_request echo waiting).1.requests
        ≡ waiting.requests ++ new_route echo.src hop 128 max_ttl ∷ [])
local_in_case-nearest_example =
    Arrival.local_in_case-nearest null_addr echo waiting first others refl

-- The source and the destination of a packet, 16 bytes each.
abbrev ends : List ℕ
ends = addr_bytes (host 0x0080) ++ addr_bytes (host 1)

ends_fit : length ends ≡ 32
ends_fit = refl

-- An echo request of 12 bytes.
abbrev ping : List ℕ
ping = 128 ∷ 0 ∷ 7 ∷ 9 ∷ 1 ∷ 2 ∷ 0 ∷ 1 ∷ 5 ∷ 6 ∷ 7 ∷ 8 ∷ []

insert_option-behind_example :
    (size : ℕ) × (size ≡ (length ping + 32) % 2 ^ 16)
    × (insert_option (fixed 96 0 0 0 0 12 58 64 ++ (ends ++ ping)) (host 0x0080)
        ≡ ok (
            fixed 96 0 0 (bit_or 0 4) (size / 256) (size % 256) 60 10
            ++ (ends ++ (option_bytes 58 (host 0x0080) ++ ping))))
insert_option-behind_example =
    Header.insert_option-behind 96 0 0 0 0 12 58 64 ends ping (host 0x0080) ends_fit

-- A query for a name of one character, from port 12345 to port 53, is stored with the option.
abbrev udp_query : List ℕ
udp_query =
    48 ∷ 57 ∷ 0 ∷ 53 ∷ 0 ∷ 27 ∷ 0 ∷ 0 ∷ 1 ∷ 2 ∷ 1 ∷ 0 ∷ 0 ∷ 1 ∷ 0 ∷ 0 ∷ 0 ∷ 0 ∷ 0 ∷ 0 ∷ 1 ∷ 97 ∷ 0
    ∷ 0 ∷ 28 ∷ 0 ∷ 1 ∷ []

abbrev rewritten : List ℕ
rewritten = fixed 96 0 0 4 0 59 60 10 ++ (ends ++ (option_bytes 17 (host 0x0080) ++ udp_query))

abbrev stored : DnsQuery
stored = record { pkt = rewritten; dst_port = 14640; src_port = 13568 }

asks :
    local_out_case (host 0x0080) [] (fixed 96 0 0 0 0 27 17 64 ++ (ends ++ udp_query))
    ≡ ok (some (rewritten, some stored))
unfolding local_out_case is_discovery rewrite_out insert_option protocol_case udp_case query_case
    query_or_not as_query is_query asks_recursion has_type may_query peek16 peek nat_case poke
    c_string option_bytes
asks = refl

-- A TCP segment with the flag ACK.
abbrev segment : List ℕ
segment =
    48 ∷ 57 ∷ 0 ∷ 80 ∷ 0 ∷ 0 ∷ 0 ∷ 1 ∷ 0 ∷ 0 ∷ 0 ∷ 9 ∷ 80 ∷ 16 ∷ 1 ∷ 0 ∷ 7 ∷ 7 ∷ 0 ∷ 0 ∷ 65 ∷ []

-- The destination is known under another address of this node.
abbrev nat_table : List SrcNat
nat_table = record { dst = host 1; src = host 0x0041 } ∷ []

local_out_case-segment_example :
    (size : ℕ) × (size ≡ (length segment + 32) % 2 ^ 16)
    × (local_out_case (host 0x0080) nat_table (
          fixed 96 0 0 0 0 21 6 64
          ++ (addr_bytes (host 0x0080) ++ (addr_bytes (host 1) ++ segment)))
        ≡ ok (
            some (
              fixed 96 0 0 (bit_or 0 4) (size / 256) (size % 256) 60 10
                  ++ (addr_bytes (translated nat_table (host 0x0080) (host 1))
                      ++ (addr_bytes (host 1) ++ (option_bytes 6 (host 0x0080) ++ segment))),
              none,
            )))
local_out_case-segment_example =
    Segments.local_out_case-segment 96 0 0 0 0 21 64 16 (host 0x0080) (host 1) (host 0x0080) segment
      nat_table refl refl
