-- ===== src/Succesor/Endless.antt =====
-- Where `check_succesor` does not end: its mask is 0 after a word that differs in one place.
use antop.Base.{
  ℕ, zero, suc, ◌+◌, ◌^◌, ◌≡◌, refl, bit_and, htons, ltb, ◌==◌, Bool, true, false, none,
  if◌then◌else◌, inl, inr, arith, bit_and-zero, Bool-cases, ◌⊎◌,
}
use antop.Addr.{Addr, word}
use antop.Succesor.Words.{
  OnePlace, OnePlace-differ, first_difference-OnePlace, zero_places-OnePlace,
  first_difference-OnePlace_short,
}
use antop.Succesor.{first_difference, check_words, check_succesor}

-- The loop never finds a difference under a mask of 0.
no_difference : (fuel w v j : ℕ) → first_difference fuel w v 0 j ≡ none
unfolding first_difference
no_difference zero w v j = refl
no_difference (suc fuel) w v j =
    ground (arith, bit_and-zero (htons w), bit_and-zero (htons v), no_difference fuel w v (j + 1))

-- One of the words from `i` on differs.
unfoldable pub differs : ℕ → ℕ → Addr → Addr → Bool
differs zero i prim_addr neigh = false
differs (suc left) i prim_addr neigh =
    if word prim_addr i == word neigh i then differs left (i + 1) prim_addr neigh else true

pub check_words-zero_mask :
    (fuel left i d : ℕ) (flag : Bool) (prim_addr neigh : Addr)
    → differs left i prim_addr neigh ≡ true
    → check_words fuel left i 0 d flag prim_addr neigh ≡ none
unfolding check_words differs
check_words-zero_mask fuel zero i d flag prim_addr neigh h = cc
check_words-zero_mask fuel (suc left) i d flag prim_addr neigh h = ground (
  arith,
  check_words-zero_mask fuel left (i + 1) d flag prim_addr neigh,
  no_difference fuel (word prim_addr i) (word neigh i) 0,
)

-- Of the words from `i` on, the first that differs does so in one place, and a later one differs
-- too.
abbrev pub TwoWords : ℕ → ℕ → ℕ → Addr → Addr → Type 0
TwoWords b zero i prim_addr neigh = ⊥
TwoWords b (suc left) i prim_addr neigh =
    ((word prim_addr i ≡ word neigh i) × TwoWords b left (i + 1) prim_addr neigh)
    ⊎ (OnePlace b (word prim_addr i) (word neigh i) × (differs left (i + 1) prim_addr neigh ≡ true))

first_word :
    (fuel left i b : ℕ) (prim_addr neigh : Addr)
    → OnePlace b (word prim_addr i) (word neigh i)
    → differs left (i + 1) prim_addr neigh ≡ true
    → check_words fuel (suc left) i (2 ^ 15) 0 false prim_addr neigh ≡ none
unfolding check_words
first_word fuel left i b prim_addr neigh one more = elim (Bool-cases (ltb 15 (fuel + b))) [
  | inl enough ↦ rw (
    OnePlace-differ b (word prim_addr i) (word neigh i) one,
    first_difference-OnePlace fuel b (word prim_addr i) (word neigh i) (ground arith) one,
    zero_places-OnePlace b (word prim_addr i) (word neigh i) one,
    check_words-zero_mask fuel left (i + 1) 1
        (if bit_and (htons (word prim_addr i)) (2 ^ b) == 0 then true else false) prim_addr neigh
        more,
  )
  | inr short ↦ rw (
    OnePlace-differ b (word prim_addr i) (word neigh i) one,
    first_difference-OnePlace_short fuel b (word prim_addr i) (word neigh i) (ground arith) one,
  )
]

check_words-TwoWords :
    (fuel left i b : ℕ) (prim_addr neigh : Addr)
    → TwoWords b left i prim_addr neigh
    → check_words fuel left i (2 ^ 15) 0 false prim_addr neigh ≡ none
unfolding check_words
check_words-TwoWords fuel zero i b prim_addr neigh two = absurd two
check_words-TwoWords fuel (suc left) i b prim_addr neigh (inl (same, two)) =
    ground (arith, same, check_words-TwoWords fuel left (i + 1) b prim_addr neigh two)
check_words-TwoWords fuel (suc left) i b prim_addr neigh (inr (one, more)) =
    first_word fuel left i b prim_addr neigh one more

-- When two words of a neighbour's address differ from this node's, the first of them in a single
-- place followed by zeros, `check_succesor` never returns: no fuel is enough.
pub check_succesor-TwoWords :
    (fuel b : ℕ) (prim_addr neigh : Addr)
    → TwoWords b 4 4 prim_addr neigh
    → check_succesor fuel prim_addr neigh ≡ none
unfolding check_succesor
check_succesor-TwoWords fuel b prim_addr neigh two =
    check_words-TwoWords fuel 4 4 b prim_addr neigh two
