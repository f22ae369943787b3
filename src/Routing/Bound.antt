-- ===== src/Routing/Bound.antt =====
-- The distances that `send_to_next_neighbor` compares are below the start value of `best_dist`.
use antop.Base.{
  ℕ, zero, suc, ◌+◌, ◌*◌, ◌/◌, ◌%◌, ◌-◌, ◌^◌, ◌≤◌, ◌<◌, ◌==◌, List, [], ◌∷◌, if◌then◌else◌, arith,
  bit_and, htons,
}
use antop.Addr.{Addr, dist, dist_w_mask, count_up, count_down, count_words, word}
use antop.Node.{Node, Neighbor}
use antop.Routing.{Packet, hop_dist}

-- All distances are below the start value of `best_dist`.
abbrev pub AllNear : (Neighbor → ℕ) → List Neighbor → Type 0
AllNear d [] = Unit {0}
AllNear d (n ∷ ns) = (d n < 10000) × AllNear d ns

-- The loops of `dist` and `dist_w_mask` add at most one for each round.
count_up-le : (left j w v count : ℕ) → count_up left j w v count ≤ count + left
unfolding count_up
count_up-le zero j w v count = omega arith
count_up-le (suc left) j w v count =
    let same = bit_and w (htons (2 ^ j)) == bit_and v (htons (2 ^ j)) in
    let rest = count_up-le left (j + 1) w v (if same then count else count + 1) in
    ground (arith, rest)

count_down-le : (left j w v count : ℕ) → count_down left j w v count ≤ count + left
unfolding count_down
count_down-le zero j w v count = omega arith
count_down-le (suc left) j w v count =
    let same = bit_and w (htons (2 ^ j)) == bit_and v (htons (2 ^ j)) in
    let rest = count_down-le left (j - 1) w v (if same then count else count + 1) in
    ground (arith, rest)

count_words-le :
    (left i : ℕ) (a b : Addr) (count : ℕ) → count_words left i a b count ≤ count + 16 * left
unfolding count_words
count_words-le zero i a b count = omega arith
count_words-le (suc left) i a b count =
    let one = count_up-le 16 0 (word a i) (word b i) count in
    let rest = count_words-le left (i + 1) a b (count_up 16 0 (word a i) (word b i) count) in
    omega (arith, one, rest)

hop_dist-le :
    (pkt : Packet) (s : Node) (n : Neighbor) → n.prim_mask < 256 → hop_dist pkt s n < 10000
unfolding hop_dist dist dist_w_mask
hop_dist-le pkt s n h =
    let words = 4 + n.prim_mask / 16 in
    let bits = 15 - n.prim_mask % 16 in
    let count = count_words (words - 4) 4 pkt.dst n.prim_addr 0 in
    let whole = count_words-le 4 4 pkt.dst n.prim_addr 0 in
    let some_words = count_words-le (words - 4) 4 pkt.dst n.prim_addr 0 in
    let rest = count_down-le (15 - bits) 15 (word pkt.dst words) (word n.prim_addr words) count in
    ground (arith, whole, some_words, rest)

-- Every mask is an `unsigned char`.
abbrev pub MasksFit : List Neighbor → Type 0
MasksFit [] = Unit {0}
MasksFit (n ∷ ns) = (n.prim_mask < 256) × MasksFit ns

pub MasksFit-AllNear :
    (pkt : Packet) (s : Node) (ns : List Neighbor) → MasksFit ns → AllNear (hop_dist pkt s) ns
MasksFit-AllNear pkt s [] v = tt
MasksFit-AllNear pkt s (n ∷ ns) v = (hop_dist-le pkt s n v.0, MasksFit-AllNear pkt s ns v.1)
