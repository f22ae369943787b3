-- ===== src/Addr/Nearest.antt =====
-- The address that is nearest: what the loops over servers and neighbours look for.
use antop.Base.{ℕ, ◌≤◌, ◌<◌, ◌≡◌, ◌⊎◌, ap, inl, inr, List, [], ◌∷◌, arith}
use antop.Addr.{Addr}

-- One of the addresses.
abbrev pub Among : Addr → List Addr → Type 0
Among a [] = ⊥
Among a (x ∷ xs) = (a ≡ x) ⊎ Among a xs

-- All of them are at least so far.
abbrev pub AllFrom : (Addr → ℕ) → ℕ → List Addr → Type 0
AllFrom d m [] = Unit {0}
AllFrom d m (x ∷ xs) = (m ≤ d x) × AllFrom d m xs

AllFrom-le : (d : Addr → ℕ) (m k : ℕ) (xs : List Addr) → k ≤ m → AllFrom d m xs → AllFrom d k xs
AllFrom-le d m k [] h all = tt
AllFrom-le d m k (x ∷ xs) h (le, all) = (omega (arith, h, le), AllFrom-le d m k xs h all)

-- What was kept is at most so far as all of them, or one of them is nearer than that, and nearest.
abbrev pub Chosen : (Addr → ℕ) → List Addr → ℕ → Addr → Addr → Type 0
Chosen d xs m best r = ((r ≡ best) × AllFrom d m xs) ⊎ (Among r xs × (d r < m) × AllFrom d (d r) xs)

pub nearer-Chosen :
    (d : Addr → ℕ) (x r best : Addr) (xs : List Addr) (m : ℕ)
    → d x < m
    → Chosen d xs (d x) x r
    → Chosen d (x ∷ xs) m best r
nearer-Chosen d x r best xs m h (inl (e, all)) =
    let same : d r ≡ d x = ap d e in
    inr (
      inl e,
      omega (arith, h, same),
      (omega (arith, same), AllFrom-le d (d x) (d r) xs (omega (arith, same)) all),
    )
nearer-Chosen d x r best xs m h (inr (among, lt, all)) =
    inr (inr among, omega (arith, h, lt), (omega (arith, lt), all))

pub farther-Chosen :
    (d : Addr → ℕ) (x r best : Addr) (xs : List Addr) (m : ℕ)
    → m ≤ d x
    → Chosen d xs m best r
    → Chosen d (x ∷ xs) m best r
farther-Chosen d x r best xs m h (inl (e, all)) = inl (e, (h, all))
farther-Chosen d x r best xs m h (inr (among, lt, all)) =
    inr (inr among, lt, (omega (arith, h, lt), all))
