-- ===== src/Succesor.antt =====
-- `check_succesor` of heart_beat.c: whether a lost neighbour was a child of this node.
pub mod Words
pub mod Child
pub mod Endless
use antop.Base.{
  ℕ, zero, suc, ◌+◌, ◌/◌, ◌^◌, bit_and, htons, ltb, ◌==◌, ◌&&◌, Bool, true, false, Option, none,
  some, if◌then◌else◌,
}
use antop.Addr.{Addr, word}

-- The first inner loop, from `mask` downwards until the masked words differ. When the mask has
-- become 0 they never do: `none` says that the loop has not ended within the fuel.
unfoldable pub first_difference : ℕ → ℕ → ℕ → ℕ → ℕ → Option (ℕ × ℕ)
first_difference zero w v mask j = none
first_difference (suc fuel) w v mask j =
    let rest = first_difference fuel w v (mask / 2) (j + 1) in
    if bit_and (htons w) mask == bit_and (htons v) mask then rest else some (mask, j)

-- The second inner loop, over places where both words are zero. Its third test ends it after at
-- most 16 rounds.
unfoldable pub zero_places : ℕ → ℕ → ℕ → ℕ → ℕ → ℕ × ℕ
zero_places zero w v mask j = (mask, j)
zero_places (suc left) w v mask j =
    let rest = zero_places left w v (mask / 2) (j + 1) in
    if bit_and (htons w) mask == bit_and (htons v) mask && bit_and (htons w) mask == 0 && ltb j 16
    then rest
    else (mask, j)

-- The outer loop over the words, with `mask`, `different_words` and `succesor_flag`. The mask is
-- not reset from one word to the next.
unfoldable pub check_words : ℕ → ℕ → ℕ → ℕ → ℕ → Bool → Addr → Addr → Option Bool
unfolding first_difference zero_places
check_words fuel zero i mask different_words succesor_flag prim_addr neigh =
    some (different_words == 1 && succesor_flag)
check_words fuel (suc left) i mask different_words succesor_flag prim_addr neigh =
    let w = word prim_addr i in
    let v = word neigh i in
    if w == v
    then check_words fuel left (i + 1) mask different_words succesor_flag prim_addr neigh
    else elim (first_difference fuel w v mask 0) [
      | none ↦ none
      | some (at, j) ↦
          let (mask', j') = zero_places 17 w v (at / 2) j in
          let flag = if bit_and (htons w) at == 0 then true else succesor_flag in
          let rest =
            check_words fuel left (i + 1) mask' (different_words + 1) flag prim_addr neigh in
          if j' == 16 then rest else some false
    ]

-- `check_succesor`: whether it answers 1, or `none` if it has not ended within the fuel.
unfoldable pub check_succesor : ℕ → Addr → Addr → Option Bool
unfolding check_words
check_succesor fuel prim_addr neigh = check_words fuel 4 4 (2 ^ 15) 0 false prim_addr neigh
