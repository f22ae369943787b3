-- ===== src/Alloc/Partition.antt =====
-- A node that gives away an address splits its space in two halves.
use antop.Base.{
  ℕ, zero, suc, ◌+◌, ◌-◌, ◌/◌, ◌%◌, ◌<◌, ◌≡◌, refl, sym, ap₂, ◌∙◌, ◌↔◌, ◌⊎◌, inl, inr, Bool, true,
  false, not, List, [], ◌∷◌, arith, length, take,
}
use native.Mathlib.Numerals.{add-one}
use antop.Addr.{Addr, IsAddr, dist, check_addr_space, word}
use antop.Addr.Hamming.{flip, hamming-flip}
use antop.Addr.Bits.{host_bits}
use antop.Addr.Prefix.{length-host_bits}
use antop.Addr.Space.{word-lt, set_word-IsAddr}
use antop.Addr.Metric.{dist-hamming, InSpace_iff}
use antop.Alloc.{next_addr}
use antop.Alloc.Toggle.{next_addr-flip, toggle-lt}

-- The proposed address is again an address.
pub next_addr-IsAddr : (a : Addr) (m : ℕ) → IsAddr a → IsAddr (next_addr a m)
unfolding next_addr
next_addr-IsAddr a m v =
    set_word-IsAddr a (4 + m / 16) _ v
      (toggle-lt (word a (4 + m / 16)) (15 - m % 16) (word-lt a (4 + m / 16) v) (omega arith))

-- The address proposed to a child, by a parent of mask below 64, has distance 1 from the parent's.
pub dist-next_addr : (a : Addr) (m : ℕ) → IsAddr a → m < 64 → dist a (next_addr a m) ≡ 1
dist-next_addr a m v h =
    rw (dist-hamming a (next_addr a m), next_addr-flip a m v h)
      (hamming-flip m (host_bits a) (omega (arith, length-host_bits a)))

-- The same first bits, and one more.
split_bits :
    (m : ℕ) (xs ys : List Bool)
    → m < length xs
    → m < length ys
    → take m xs ≡ take m ys
    → (take (suc m) xs ≡ take (suc m) ys) ⊎ (take (suc m) xs ≡ take (suc m) (flip m ys))
unfolding flip
split_bits m [] ys p q e = absurd (omega arith)
split_bits m (x ∷ xs) [] p q e = absurd (omega arith)
split_bits zero (x ∷ xs) (y ∷ ys) p q e = ground arith
split_bits (suc m) (x ∷ xs) (y ∷ ys) p q e =
    elim (split_bits m xs ys (omega arith) (omega arith) (cc)) [
      | inl same ↦ inl (ap₂ ◌∷◌ (cc) same)
      | inr other ↦ inr (ap₂ ◌∷◌ (cc) other)
    ]

join_bits :
    (m : ℕ) (xs ys : List Bool) → take (suc m) xs ≡ take (suc m) (flip m ys) → take m xs ≡ take m ys
unfolding flip
join_bits zero xs ys e = refl
join_bits (suc m) [] [] e = refl
join_bits (suc m) [] (y ∷ ys) e = cc
join_bits (suc m) (x ∷ xs) [] e = cc
join_bits (suc m) (x ∷ xs) (y ∷ ys) e = ap₂ ◌∷◌ (cc) (join_bits m xs ys (cc))

shorter : (m : ℕ) (xs ys : List Bool) → take (suc m) xs ≡ take (suc m) ys → take m xs ≡ take m ys
shorter zero xs ys e = refl
shorter (suc m) [] [] e = refl
shorter (suc m) [] (y ∷ ys) e = cc
shorter (suc m) (x ∷ xs) [] e = cc
shorter (suc m) (x ∷ xs) (y ∷ ys) e = ap₂ ◌∷◌ (cc) (shorter m xs ys (cc))

not_self : (y : Bool) → y ≡ not y → ⊥
not_self true e = cc
not_self false e = cc

apart_bits :
    (m : ℕ) (ys : List Bool) → m < length ys → take (suc m) ys ≡ take (suc m) (flip m ys) → ⊥
unfolding flip
apart_bits m [] q e = omega arith
apart_bits zero (y ∷ ys) q e = not_self y (cc)
apart_bits (suc m) (y ∷ ys) q e = apart_bits m ys (omega arith) (cc)

-- For addresses and a mask below 64: giving the next address away, with the mask one longer on both sides, splits the space of
-- `a`/`m`: an address lies in it exactly when it lies in the part that the parent keeps or in the
-- child's, and never in both.
pub next_addr_partition :
    (a x : Addr) (m : ℕ)
    → IsAddr a
    → IsAddr x
    → m < 64
    → ((check_addr_space x a m ≡ 0)
        ↔ ((check_addr_space x a (m + 1) ≡ 0) ⊎ (check_addr_space x (next_addr a m) (m + 1) ≡ 0)))
      × ¬ ((check_addr_space x a (m + 1) ≡ 0) × (check_addr_space x (next_addr a m) (m + 1) ≡ 0))
next_addr_partition a x m va vx h = ((split, join), apart)
  where
    xs : List Bool
    xs = host_bits x

    ys : List Bool
    ys = host_bits a

    whole : (check_addr_space x a m ≡ 0) ↔ (take m xs ≡ take m ys)
    whole = InSpace_iff x a m vx va (omega arith)

    kept : (check_addr_space x a (m + 1) ≡ 0) ↔ (take (suc m) xs ≡ take (suc m) ys)
    kept = rw (← add-one m) (InSpace_iff x a (m + 1) vx va (omega arith))

    given :
        (check_addr_space x (next_addr a m) (m + 1) ≡ 0)
        ↔ (take (suc m) xs ≡ take (suc m) (flip m ys))
    given =
        rw (← add-one m, ← next_addr-flip a m va h)
          (InSpace_iff x (next_addr a m) (m + 1) vx (next_addr-IsAddr a m va) (omega arith))

    split :
        check_addr_space x a m ≡ 0
        → (check_addr_space x a (m + 1) ≡ 0) ⊎ (check_addr_space x (next_addr a m) (m + 1) ≡ 0)
    split e =
        elim (split_bits m xs ys (omega (arith, length-host_bits x))
          (omega (arith, length-host_bits a)) (whole.0 e)) [
            | inl same ↦ inl (kept.1 same)
            | inr other ↦ inr (given.1 other)
          ]

    join :
        (check_addr_space x a (m + 1) ≡ 0) ⊎ (check_addr_space x (next_addr a m) (m + 1) ≡ 0)
        → check_addr_space x a m ≡ 0
    join (inl e) = whole.1 (shorter m xs ys (kept.0 e))
    join (inr e) = whole.1 (join_bits m xs ys (given.0 e))

    apart :
        ¬ ((check_addr_space x a (m + 1) ≡ 0) × (check_addr_space x (next_addr a m) (m + 1) ≡ 0))
    apart both =
        apart_bits m ys (omega (arith, length-host_bits a)) (sym (kept.0 both.0) ∙ given.0 both.1)
