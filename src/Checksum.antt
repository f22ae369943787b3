-- ===== src/Checksum.antt =====
-- The checksums of utils.c, on the bytes of a packet, on a little-endian host.
pub mod Sum
use antop.Base.{
  ℕ, zero, suc, ◌+◌, ◌-◌, ◌*◌, ◌/◌, ◌%◌, Bool, true, false, List, [], ◌∷◌, htons, get_or,
  if◌then◌else◌,
}
use antop.Addr.{Addr}

-- The loop of `cksum_sum`, with `ret` and `sum`; the list's length is `len`. The last byte of an odd
-- number goes into the low byte of `ret`, over what the last word left in its high byte.
unfoldable pub cksum_loop : Bool → ℕ → ℕ → List ℕ → ℕ
cksum_loop ntoh ret sum [] = sum
cksum_loop ntoh ret sum (b ∷ []) = (sum + (ret / 256 * 256 + b)) % 4294967296
cksum_loop ntoh ret sum (b ∷ c ∷ bs) =
    let ret' = if ntoh then htons (b + 256 * c) else b + 256 * c in
    cksum_loop ntoh ret' ((sum + ret') % 4294967296) bs

unfoldable pub cksum_sum : Bool → List ℕ → ℕ
unfolding cksum_loop
cksum_sum ntoh bytes = cksum_loop ntoh 0 0 bytes

-- The bytes of a 16-bit value in memory, and the value at a place of a packet.
abbrev pub bytes_of : ℕ → List ℕ
bytes_of v = v % 256 ∷ v / 256 % 256 ∷ []

abbrev pub read16 : List ℕ → ℕ → ℕ
read16 pkt at = get_or pkt at 0 + 256 * get_or pkt (at + 1) 0

-- The bytes of a packet from a place on; a shorter packet is read as zeros.
unfoldable pub bytes_at : List ℕ → ℕ → ℕ → List ℕ
bytes_at pkt at zero = []
bytes_at pkt at (suc len) = get_or pkt at 0 ∷ bytes_at pkt (at + 1) len

unfoldable pub addr_sum : Addr → ℕ
addr_sum a =
    htons a.w0
    + htons a.w1
    + htons a.w2
    + htons a.w3
    + htons a.w4
    + htons a.w5
    + htons a.w6
    + htons a.w7

-- The 16-bit one's complement that ends both checksums.
unfoldable pub complement16 : ℕ → ℕ
complement16 sum =
    let sum1 = sum / 65536 + sum % 65536 in let sum2 = sum1 + sum1 / 65536 in 65535 - sum2 % 65536

-- `icmpv6_cksum(src_ip, dst_ip, ipv6_header, icmp_pay_l, ipv6_pay_l)`.
unfoldable pub icmpv6_cksum : Addr → Addr → List ℕ → ℕ → ℕ → ℕ
unfolding cksum_sum addr_sum bytes_at complement16
icmpv6_cksum src_ip dst_ip pkt icmp_pay_l ipv6_pay_l = complement16 (
    (addr_sum src_ip
      + addr_sum dst_ip
      + cksum_sum false (bytes_of ipv6_pay_l)
      + cksum_sum false (bytes_of 0x003a)
      + cksum_sum false (bytes_of (htons (read16 pkt 72)))
      + cksum_sum true (bytes_of (read16 pkt 76))
      + cksum_sum true (bytes_of (read16 pkt 78))
      + cksum_sum true (bytes_at pkt 80 icmp_pay_l))
    % 4294967296)

-- `udp_cksum(src_ip, dst_ip, ipv6_header, udp_pay_l, ipv6_pay_l)`.
unfoldable pub udp_cksum : Addr → Addr → List ℕ → ℕ → ℕ → ℕ
unfolding cksum_sum addr_sum bytes_at complement16
udp_cksum src_ip dst_ip pkt udp_pay_l ipv6_pay_l = complement16 (
    (addr_sum src_ip
      + addr_sum dst_ip
      + cksum_sum false (bytes_of ipv6_pay_l)
      + cksum_sum false (bytes_of 0x0011)
      + cksum_sum false (bytes_of (htons (read16 pkt 72)))
      + cksum_sum false (bytes_of (htons (read16 pkt 74)))
      + cksum_sum false (bytes_of (htons (read16 pkt 76)))
      + cksum_sum true (bytes_at pkt 80 udp_pay_l))
    % 4294967296)
