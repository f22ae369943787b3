-- ===== src/Base/Bytes.antt =====
-- Memory as a list of bytes, and writes to it.
use Prim.Native.Nat.{ℕ, zero, suc, ◌+◌, ◌≤◌}
use mathlib.Core.Path.{◌≡◌, refl, sym, ap}
use mathlib.Core.Bool.{true}
use mathlib.Core.List.{List, [], ◌∷◌, ◌++◌}
use native.Mathlib.Omega.{arith}
use antop.Base.Tests.{leb, if◌then◌else◌}
use antop.Base.Lists.{length, take, drop, length-append}
use antop.Base.Run.{Run, ok, crash}

-- Bytes written to memory. What is past the end crashes.
unfoldable pub poke : ℕ → List ℕ → List ℕ → Run (List ℕ)
poke off bytes buf =
    let end = off + length bytes in
    if leb end (length buf) then ok (take off buf ++ (bytes ++ drop end buf)) else crash

take_left : (ps bs : List ℕ) → take (length ps) (ps ++ bs) ≡ ps
take_left [] bs = refl
take_left (a ∷ ps) bs = ap (◌∷◌ a) (take_left ps bs)

pub drop_left : (ps bs : List ℕ) (n : ℕ) → drop (length ps + n) (ps ++ bs) ≡ drop n bs
drop_left [] bs n = let e : 0 + n ≡ n = omega arith in rw e refl
drop_left (a ∷ ps) bs n =
    let e : suc (length ps) + n ≡ suc (length ps + n) = omega arith in rw e (drop_left ps bs n)

pub length-drop : (n k : ℕ) (xs : List ℕ) → length xs ≡ n + k → length (drop n xs) ≡ k
length-drop zero k xs h = omega (arith, h)
length-drop (suc n) k [] h = absurd (omega (arith, h))
length-drop (suc n) k (x ∷ xs) h = length-drop n k xs (omega (arith, h))

-- A write that starts after `bs`.
pub poke_after :
    (bs bytes cs : List ℕ)
    → length bytes ≤ length cs
    → poke (length bs) bytes (bs ++ cs) ≡ ok (bs ++ (bytes ++ drop (length bytes) cs))
unfolding poke
poke_after bs bytes cs h =
    let inside : leb (length bs + length bytes) (length (bs ++ cs)) ≡ true =
      ground (arith, length-append bs cs) in
    rw (inside, take_left bs cs, drop_left bs cs (length bytes)) refl

-- A write over `cs`, at an offset of that many bytes.
pub poke_at :
    (n : ℕ) (bs bytes cs rest : List ℕ)
    → length bs ≡ n
    → length cs ≡ length bytes
    → poke n bytes (bs ++ (cs ++ rest)) ≡ ok (bs ++ (bytes ++ rest))
poke_at n bs bytes cs rest e same =
    let room : length bytes ≤ length (cs ++ rest) = omega (arith, same, length-append cs rest) in
    let all : length bytes ≡ length cs + 0 = omega (arith, same) in
    let beyond : drop (length bytes) (cs ++ rest) ≡ rest = rw all (drop_left cs rest 0) in
    rw (sym e, poke_after bs bytes (cs ++ rest) room, beyond) refl

-- Bytes in two parts, the first of `n` bytes.
pub split_at :
    (n k : ℕ) (xs : List ℕ)
    → length xs ≡ n + k
    → (front back : List ℕ) × (xs ≡ front ++ back) × (length front ≡ n) × (length back ≡ k)
split_at zero k xs h = ([], xs, refl, refl, omega (arith, h))
split_at (suc n) k [] h = absurd (omega (arith, h))
split_at (suc n) k (x ∷ xs) h =
    let (front, back, e, l, m) = split_at n k xs (omega (arith, h)) in
    (x ∷ front, back, ap (◌∷◌ x) e, omega (arith, l), m)
