-- ===== src/Addr/Hamming.antt =====
-- Lists of bits, and the number of places where two of them differ: the independent description
-- of the distances that the daemon computes.
use antop.Base.{
  ℕ, zero, suc, ◌+◌, ◌≤◌, ◌<◌, ◌≡◌, refl, ap, ap₂, Bool, true, false, not, List, [], ◌∷◌, ◌++◌,
  arith, length, take,
}

unfoldable pub differ : Bool → Bool → ℕ
differ true true = 0
differ true false = 1
differ false true = 1
differ false false = 0

unfoldable pub hamming : List Bool → List Bool → ℕ
hamming [] ys = 0
hamming (x ∷ xs) [] = 0
hamming (x ∷ xs) (y ∷ ys) = differ x y + hamming xs ys

differ_refl : (x : Bool) → differ x x ≡ 0
unfolding differ
differ_refl x = ground arith

pub differ-eq_of_zero : (x y : Bool) → differ x y ≡ 0 → x ≡ y
unfolding differ
differ-eq_of_zero x y h = ground arith

differ_comm : (x y : Bool) → differ x y ≡ differ y x
unfolding differ
differ_comm x y = ground arith

differ_triangle : (x y z : Bool) → differ x z ≤ differ x y + differ y z
unfolding differ
differ_triangle x y z = ground arith

differ-le : (x y : Bool) → differ x y ≤ 1
unfolding differ
differ-le x y = ground arith

differ-not : (x : Bool) → differ x (not x) ≡ 1
unfolding differ
differ-not x = ground arith

pub hamming_refl : (xs : List Bool) → hamming xs xs ≡ 0
unfolding hamming
hamming_refl [] = refl
hamming_refl (x ∷ xs) = omega (arith, differ_refl x, hamming_refl xs)

pub hamming_comm : (xs ys : List Bool) → hamming xs ys ≡ hamming ys xs
unfolding hamming
hamming_comm [] [] = refl
hamming_comm [] (y ∷ ys) = refl
hamming_comm (x ∷ xs) [] = refl
hamming_comm (x ∷ xs) (y ∷ ys) = omega (arith, differ_comm x y, hamming_comm xs ys)

pub hamming_triangle :
    (xs ys zs : List Bool)
    → length xs ≡ length ys
    → length ys ≡ length zs
    → hamming xs zs ≤ hamming xs ys + hamming ys zs
unfolding hamming
hamming_triangle [] ys zs p q = omega arith
hamming_triangle (x ∷ xs) [] zs p q = absurd (omega arith)
hamming_triangle (x ∷ xs) (y ∷ ys) [] p q = absurd (omega arith)
hamming_triangle (x ∷ xs) (y ∷ ys) (z ∷ zs) p q =
    omega (arith, differ_triangle x y z, hamming_triangle xs ys zs (omega arith) (omega arith))

pub hamming-le-length : (xs ys : List Bool) → hamming xs ys ≤ length xs
unfolding hamming
hamming-le-length [] ys = omega arith
hamming-le-length (x ∷ xs) [] = omega arith
hamming-le-length (x ∷ xs) (y ∷ ys) = omega (arith, differ-le x y, hamming-le-length xs ys)

pub hamming-eq_of_zero : (xs ys : List Bool) → length xs ≡ length ys → hamming xs ys ≡ 0 → xs ≡ ys
unfolding hamming
hamming-eq_of_zero [] [] p h = refl
hamming-eq_of_zero [] (y ∷ ys) p h = absurd (omega arith)
hamming-eq_of_zero (x ∷ xs) [] p h = absurd (omega arith)
hamming-eq_of_zero (x ∷ xs) (y ∷ ys) p h =
    ap₂ ◌∷◌ (differ-eq_of_zero x y (omega arith))
      (hamming-eq_of_zero xs ys (omega arith) (omega arith))

pub hamming-append :
    (xs xs' ys ys' : List Bool)
    → length xs ≡ length xs'
    → hamming (xs ++ ys) (xs' ++ ys') ≡ hamming xs xs' + hamming ys ys'
unfolding hamming
hamming-append [] [] ys ys' p = omega arith
hamming-append [] (x' ∷ xs') ys ys' p = absurd (omega arith)
hamming-append (x ∷ xs) [] ys ys' p = absurd (omega arith)
hamming-append (x ∷ xs) (x' ∷ xs') ys ys' p =
    omega (arith, hamming-append xs xs' ys ys' (omega arith))

pub hamming-take-le : (n : ℕ) (xs ys : List Bool) → hamming (take n xs) (take n ys) ≤ hamming xs ys
unfolding hamming
hamming-take-le zero xs ys = omega arith
hamming-take-le (suc n) [] ys = omega arith
hamming-take-le (suc n) (x ∷ xs) [] = omega arith
hamming-take-le (suc n) (x ∷ xs) (y ∷ ys) = omega (arith, hamming-take-le n xs ys)

-- Inverting one bit of a list moves it to distance one.
unfoldable pub flip : ℕ → List Bool → List Bool
flip n [] = []
flip zero (x ∷ xs) = not x ∷ xs
flip (suc n) (x ∷ xs) = x ∷ flip n xs

pub hamming-flip : (n : ℕ) (xs : List Bool) → n < length xs → hamming xs (flip n xs) ≡ 1
unfolding hamming flip
hamming-flip n [] h = absurd (omega arith)
hamming-flip zero (x ∷ xs) h = omega (arith, differ-not x, hamming_refl xs)
hamming-flip (suc n) (x ∷ xs) h = omega (arith, differ_refl x, hamming-flip n xs (omega arith))

pub length-flip : (n : ℕ) (xs : List Bool) → length (flip n xs) ≡ length xs
unfolding flip
length-flip n [] = refl
length-flip zero (x ∷ xs) = refl
length-flip (suc n) (x ∷ xs) = ap suc (length-flip n xs)
