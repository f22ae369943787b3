-- ===== src/Timers/Insert.antt =====
-- The place where `timer_add` links a timer.
use antop.Base.{
  ℕ, ◌+◌, ◌≤◌, ◌≡◌, refl, ap, true, false, List, [], ◌∷◌, ◌++◌, arith, ◌==◌, if◌then◌else◌,
  remove_first, ltb, Bool-cases, inl, inr,
}
use antop.Timers.{Timeval, usecs, member, insert}

-- The timers of a list, all at or after a time.
abbrev pub AllFrom : (ℕ → Timeval) → ℕ → List ℕ → Type 0
AllFrom f m [] = Unit {0}
AllFrom f m (x ∷ xs) = (m ≤ usecs (f x)) × AllFrom f m xs

-- In the order of their timeouts.
abbrev pub Sorted : (ℕ → Timeval) → List ℕ → Type 0
Sorted f [] = Unit {0}
Sorted f (x ∷ xs) = AllFrom f (usecs (f x)) xs × Sorted f xs

-- No timer is there twice.
abbrev pub Once : List ℕ → Type 0
Once [] = Unit {0}
Once (x ∷ xs) = (member x xs ≡ false) × Once xs

pub AllFrom-mono :
    (f : ℕ → Timeval) (m n : ℕ) (xs : List ℕ) → m ≤ n → AllFrom f n xs → AllFrom f m xs
AllFrom-mono f m n [] h a = tt
AllFrom-mono f m n (x ∷ xs) h a = (omega arith, AllFrom-mono f m n xs h a.1)

pub AllFrom-insert :
    (f : ℕ → Timeval) (m t : ℕ) (xs : List ℕ)
    → m ≤ usecs (f t)
    → AllFrom f m xs
    → AllFrom f m (insert f t xs)
unfolding insert
AllFrom-insert f m t [] h a = (h, tt)
AllFrom-insert f m t (x ∷ xs) h a = ground (arith, AllFrom-insert f m t xs h a.1)

-- A sorted queue stays sorted.
pub insert-Sorted : (f : ℕ → Timeval) (t : ℕ) (xs : List ℕ) → Sorted f xs → Sorted f (insert f t xs)
unfolding insert
insert-Sorted f t [] s = (tt, tt)
insert-Sorted f t (x ∷ xs) s = ground (
  arith,
  insert-Sorted f t xs s.1,
  AllFrom-insert f (usecs (f x)) t xs,
  AllFrom-mono f (usecs (f t)) (usecs (f x)) xs,
)

pub member-insert :
    (f : ℕ → Timeval) (t y : ℕ) (xs : List ℕ)
    → member y (insert f t xs) ≡ (if y == t then true else member y xs)
unfolding insert member
member-insert f t y [] = ground arith
member-insert f t y (x ∷ xs) = ground (arith, member-insert f t y xs)

pub insert-Once :
    (f : ℕ → Timeval) (t : ℕ) (xs : List ℕ) → member t xs ≡ false → Once xs → Once (insert f t xs)
unfolding insert member
insert-Once f t [] h o = (refl, tt)
insert-Once f t (x ∷ xs) h o = ground (arith, insert-Once f t xs, member-insert f t x xs)

pub member-remove :
    (t y : ℕ) (xs : List ℕ)
    → Once xs
    → member y (remove_first (λ x. x == t) xs) ≡ (if y == t then false else member y xs)
unfolding remove_first member
member-remove t y [] o = ground arith
member-remove t y (x ∷ xs) o = ground (arith, member-remove t y xs o.1, ap (λ v. member v xs))

pub remove-Once : (t : ℕ) (xs : List ℕ) → Once xs → Once (remove_first (λ x. x == t) xs)
unfolding remove_first
remove-Once t [] o = tt
remove-Once t (x ∷ xs) o = ground (arith, remove-Once t xs o.1, member-remove t x xs o.1)

-- The timers of a list, all at or before a time.
abbrev pub AllTo : (ℕ → Timeval) → ℕ → List ℕ → Type 0
AllTo f m [] = Unit {0}
AllTo f m (x ∷ xs) = (usecs (f x) ≤ m) × AllTo f m xs

-- Where a timer goes in a sorted queue: after all those that expire no later than it, so after
-- those of the same time, and before all others.
pub insert_split :
    (f : ℕ → Timeval) (t : ℕ) (ts : List ℕ)
    → Sorted f ts
    → (xs : List ℕ) × (ys : List ℕ) × (ts ≡ xs ++ ys)
      × (insert f t ts ≡ xs ++ t ∷ ys)
      × AllTo f (usecs (f t)) xs
      × AllFrom f (usecs (f t) + 1) ys
unfolding insert
insert_split f t [] s = ([], [], refl, refl, tt, tt)
insert_split f t (x ∷ xs) s = elim (Bool-cases (ltb (usecs (f t)) (usecs (f x)))) [
  | inl first ↦ (
    [],
    x ∷ xs,
    refl,
    ground arith,
    tt,
    (ground arith, AllFrom-mono f (usecs (f t) + 1) (usecs (f x)) xs (ground arith) s.0),
  )
  | inr past ↦
      let (before, after, e, e', low, high) = insert_split f t xs s.1 in
      (x ∷ before, after, ap (◌∷◌ x) e, ground arith, (ground arith, low), high)
]
