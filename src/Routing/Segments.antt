-- ===== src/Routing/Segments.antt =====
-- What the routing gets of a TCP segment of the node itself.
use antop.Base.{
  ℕ, ◌+◌, ◌*◌, ◌/◌, ◌%◌, ◌^◌, ◌≡◌, refl, inl, inr, false, ◌==◌, List, [], ◌∷◌, ◌++◌, none, some,
  if◌then◌else◌, length, get_elem?, bit_or, poke_at, Bool-cases, arith,
}
use antop.Base.Run.{ok}
use antop.Addr.{Addr, addr_eq}
use antop.Dns.{addr_bytes}
use antop.Routing.Table.{SrcNat}
use antop.Routing.Header.{fixed, option_bytes, insert_option-behind}
use antop.Routing.Outgoing.{
  addr_at, tcp_case, nat_case, protocol_case, rewrite_out, is_discovery, local_out_case, peek,
}

-- The source that the packet has after the translation.
unfoldable pub translated : List SrcNat → Addr → Addr → Addr
translated [] src dst = src
translated (e ∷ es) src dst = if addr_eq dst e.dst then e.src else translated es src dst

bytes_of_word : (w : ℕ) → w % 256 + 256 * (w / 256) ≡ w
bytes_of_word w = omega arith

-- The destination is read where it was written.
addr_at-dst :
    (v0 v1 v2 v3 v4 v5 v6 v7 : ℕ) (src dst : Addr) (rest : List ℕ)
    → addr_at 24 (fixed v0 v1 v2 v3 v4 v5 v6 v7 ++ (addr_bytes src ++ (addr_bytes dst ++ rest)))
      ≡ dst
unfolding addr_at
addr_at-dst v0 v1 v2 v3 v4 v5 v6 v7 src dst rest =
    rw
      (
        bytes_of_word dst.w0,
        bytes_of_word dst.w1,
        bytes_of_word dst.w2,
        bytes_of_word dst.w3,
        bytes_of_word dst.w4,
        bytes_of_word dst.w5,
        bytes_of_word dst.w6,
        bytes_of_word dst.w7,
      )
      refl

nat_case-translated :
    (nat_table : List SrcNat) (v0 v1 v2 v3 v4 v5 v6 v7 : ℕ) (src dst : Addr) (rest : List ℕ)
    → nat_case nat_table
        (fixed v0 v1 v2 v3 v4 v5 v6 v7 ++ (addr_bytes src ++ (addr_bytes dst ++ rest)))
      ≡ ok (
          fixed v0 v1 v2 v3 v4 v5 v6 v7
          ++ (addr_bytes (translated nat_table src dst) ++ (addr_bytes dst ++ rest)))
unfolding nat_case translated
nat_case-translated [] v0 v1 v2 v3 v4 v5 v6 v7 src dst rest = refl
nat_case-translated (e ∷ es) v0 v1 v2 v3 v4 v5 v6 v7 src dst rest =
    let at = addr_at-dst v0 v1 v2 v3 v4 v5 v6 v7 src dst rest in
    let later = nat_case-translated es v0 v1 v2 v3 v4 v5 v6 v7 src dst rest in
    let written =
      poke_at 8 (fixed v0 v1 v2 v3 v4 v5 v6 v7) (addr_bytes e.src) (addr_bytes src)
        (addr_bytes dst ++ rest) refl refl in
    elim (Bool-cases (addr_eq dst e.dst)) [
      | inl same ↦ rw (at, same) written
      | inr other ↦ rw (at, other) later
    ]

-- A TCP segment of the node that is no SYN gets the flag, the length, the hop limit, the option with
-- the primary address before the segment, and the source of the first entry of `nat_table` for its
-- destination, and is the same otherwise. No query is stored for it, and no write is past its end.
pub local_out_case-segment :
    (v0 v1 v2 flags l0 l1 hops tcp_flags : ℕ) (src dst prim_addr : Addr) (segment : List ℕ)
    (nat_table : List SrcNat)
    → get_elem? segment 13 ≡ some tcp_flags
    → (tcp_flags == 2) ≡ false
    → (size : ℕ) × (size ≡ (length segment + 32) % 2 ^ 16)
      × (local_out_case prim_addr nat_table
            (fixed v0 v1 v2 flags l0 l1 6 hops ++ (addr_bytes src ++ (addr_bytes dst ++ segment)))
          ≡ ok (
              some (
                fixed v0 v1 v2 (bit_or flags 4) (size / 256) (size % 256) 60 10
                    ++ (addr_bytes (translated nat_table src dst)
                        ++ (addr_bytes dst ++ (option_bytes 6 prim_addr ++ segment))),
                none,
              )))
unfolding local_out_case is_discovery rewrite_out protocol_case tcp_case peek
local_out_case-segment v0 v1 v2 flags l0 l1 hops tcp_flags src dst prim_addr segment nat_table at
      no_syn =
    let (size, e, inserted) =
      insert_option-behind v0 v1 v2 flags l0 l1 6 hops (addr_bytes src ++ addr_bytes dst) segment
        prim_addr refl in
    let moved =
      nat_case-translated nat_table v0 v1 v2 (bit_or flags 4) (size / 256) (size % 256) 60 10 src
        dst (option_bytes 6 prim_addr ++ segment) in
    (size, e, rw (at, no_syn, inserted, moved) refl)
