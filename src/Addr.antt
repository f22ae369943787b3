-- ===== src/Addr.antt =====
-- `struct in6_addr` and the functions that compare addresses bit by bit: `dist`, `dist_w_mask` and
-- `check_addr_space` of pkt_handle.c.
pub mod Hamming
pub mod Bits
pub mod Prefix
pub mod Space
pub mod Nearest
pub mod Metric
use antop.Base.{
  ℕ, zero, suc, ◌+◌, ◌-◌, ◌/◌, ◌%◌, ◌^◌, ◌<◌, bit_and, Bool, true, ◌&&◌, ltb, ◌==◌, if◌then◌else◌,
  u16, htons,
}

-- `s6_addr16`: eight words, each in network byte order, as a little-endian host loads them.
pub record Addr : Type 0 where
  pub w0 : ℕ
  pub w1 : ℕ
  pub w2 : ℕ
  pub w3 : ℕ
  pub w4 : ℕ
  pub w5 : ℕ
  pub w6 : ℕ
  pub w7 : ℕ

-- `addr.s6_addr16[i]`. An index past the array is undefined in C, and reads 0 here.
abbrev pub word : Addr → ℕ → ℕ
word a zero = a.w0
word a (suc zero) = a.w1
word a (suc (suc zero)) = a.w2
word a (suc (suc (suc zero))) = a.w3
word a (suc (suc (suc (suc zero)))) = a.w4
word a (suc (suc (suc (suc (suc zero))))) = a.w5
word a (suc (suc (suc (suc (suc (suc zero)))))) = a.w6
word a (suc (suc (suc (suc (suc (suc (suc zero))))))) = a.w7
word a _ = 0

-- `addr.s6_addr16[i] = v`. A write past the array is undefined in C, and changes nothing here.
abbrev pub set_word : Addr → ℕ → ℕ → Addr
set_word a zero v = record a { w0 = v }
set_word a (suc zero) v = record a { w1 = v }
set_word a (suc (suc zero)) v = record a { w2 = v }
set_word a (suc (suc (suc zero))) v = record a { w3 = v }
set_word a (suc (suc (suc (suc zero)))) v = record a { w4 = v }
set_word a (suc (suc (suc (suc (suc zero))))) v = record a { w5 = v }
set_word a (suc (suc (suc (suc (suc (suc zero)))))) v = record a { w6 = v }
set_word a (suc (suc (suc (suc (suc (suc (suc zero))))))) v = record a { w7 = v }
set_word a _ v = a

-- `!memcmp(&a, &b, sizeof(struct in6_addr))`.
unfoldable pub addr_eq : Addr → Addr → Bool
addr_eq a b =
    a.w0 == b.w0
    && a.w1 == b.w1
    && a.w2 == b.w2
    && a.w3 == b.w3
    && a.w4 == b.w4
    && a.w5 == b.w5
    && a.w6 == b.w6
    && a.w7 == b.w7

-- `memset(&a, 0, sizeof(struct in6_addr))`.
abbrev pub null_addr : Addr
null_addr = record { w0 = 0; w1 = 0; w2 = 0; w3 = 0; w4 = 0; w5 = 0; w6 = 0; w7 = 0 }

-- The inner loop `for(j=0; j<16; j++)`, with `left` rounds left.
unfoldable pub count_up : ℕ → ℕ → ℕ → ℕ → ℕ → ℕ
count_up zero j w v count = count
count_up (suc left) j w v count =
    let mask = htons (2 ^ j) in
    count_up left (j + 1) w v (if bit_and w mask == bit_and v mask then count else count + 1)

-- The loop `for(j=15; j>bits; j--)` of `dist_w_mask`.
unfoldable pub count_down : ℕ → ℕ → ℕ → ℕ → ℕ → ℕ
count_down zero j w v count = count
count_down (suc left) j w v count =
    let mask = htons (2 ^ j) in
    count_down left (j - 1) w v (if bit_and w mask == bit_and v mask then count else count + 1)

-- The outer loop over whole words from index `i`.
unfoldable pub count_words : ℕ → ℕ → Addr → Addr → ℕ → ℕ
count_words zero i dst neigh count = count
count_words (suc left) i dst neigh count =
    count_words left (i + 1) dst neigh (count_up 16 0 (word dst i) (word neigh i) count)

-- `dist(dst, neigh)`, at `neigh.prim_addr`.
unfoldable pub dist : Addr → Addr → ℕ
unfolding count_words count_up
dist dst neigh = count_words 4 4 dst neigh 0

-- `dist_w_mask(dst, neigh)`, at `neigh.prim_addr` and `neigh.prim_mask`.
unfoldable pub dist_w_mask : Addr → Addr → ℕ → ℕ
unfolding count_words count_up count_down
dist_w_mask dst neigh prim_mask =
    let words = 4 + prim_mask / 16 in
    let bits = 15 - prim_mask % 16 in
    let count = count_words (words - 4) 4 dst neigh 0 in
    count_down (15 - bits) 15 (word dst words) (word neigh words) count

-- The first loop of `check_addr_space`: some whole word differs.
unfoldable pub words_differ : ℕ → ℕ → Addr → Addr → Bool
words_differ zero i address1 address2 = Bool.false
words_differ (suc left) i address1 address2 =
    let rest = words_differ left (i + 1) address1 address2 in
    if word address2 (i + 4) == word address1 (i + 4) then rest else true

-- Its second loop, from `mask = 2^15` downwards: some bit differs.
unfoldable pub bits_differ : ℕ → ℕ → ℕ → ℕ → Bool
bits_differ zero mask w1 w2 = Bool.false
bits_differ (suc left) mask w1 w2 =
    let rest = bits_differ left (mask / 2) w1 w2 in
    if htons (bit_and (htons w2) mask) == htons (bit_and (htons w1) mask) then rest else true

-- `check_addr_space(addr, addr2, mask_addr)`, the allocations succeeding: 0 if `addr` lies in the
-- address space of `addr2`/`mask_addr`, and 1 if not.
unfoldable pub check_addr_space : Addr → Addr → ℕ → ℕ
unfolding words_differ bits_differ
check_addr_space addr addr2 mask_addr =
    let words = mask_addr / 16 in
    let bits = mask_addr % 16 in
    if words_differ words 0 addr addr2
    then 1
    else if bits_differ bits (2 ^ 15) (word addr (words + 4)) (word addr2 (words + 4))
    then 1
    else 0

-- Every word is a `uint16_t`.
pub record IsAddr (a : Addr) : Type 0 where
  pub b0 : a.w0 < 65536
  pub b1 : a.w1 < 65536
  pub b2 : a.w2 < 65536
  pub b3 : a.w3 < 65536
  pub b4 : a.w4 < 65536
  pub b5 : a.w5 < 65536
  pub b6 : a.w6 < 65536
  pub b7 : a.w7 < 65536
