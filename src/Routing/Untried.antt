-- ===== src/Routing/Untried.antt =====
-- Which neighbours may still be tried, and how marks change that.
use antop.Base.{
  ℕ, zero, suc, ◌+◌, ◌≤◌, ◌<◌, ◌≡◌, Bool, true, false, List, [], ◌∷◌, if◌then◌else◌, set, arith,
}
use antop.Addr.{Addr}
use antop.Node.{Neighbor}
use antop.Routing.{RtAuxInfo, mark_from, all_visited, free}

-- How many neighbours may still be tried.
unfoldable pub untried : List Neighbor → List Bool → ℕ
unfolding free
untried [] bs = 0
untried (n ∷ ns) [] = 0
untried (n ∷ ns) (b ∷ bs) = (if free n b then 1 else 0) + untried ns bs

-- The neighbour of index `k` may be tried.
unfoldable pub free_at : ℕ → List Neighbor → List Bool → Bool
unfolding free
free_at k [] bs = false
free_at k (n ∷ ns) [] = false
free_at zero (n ∷ ns) (b ∷ bs) = free n b
free_at (suc k) (n ∷ ns) (b ∷ bs) = free_at k ns bs

pub untried-set :
    (k : ℕ) (ns : List Neighbor) (bs : List Bool)
    → free_at k ns bs ≡ true
    → untried ns (set bs k true) + 1 ≡ untried ns bs
unfolding untried free_at free
untried-set k [] bs h = cc
untried-set k (n ∷ ns) [] h = cc
untried-set zero (n ∷ ns) (b ∷ bs) h = ground arith
untried-set (suc k) (n ∷ ns) (b ∷ bs) h = ground (arith, untried-set k ns bs h)

pub all_visited-untried :
    (ns : List Neighbor) (bs : List Bool) → all_visited ns bs ≡ false → 0 < untried ns bs
unfolding all_visited untried free
all_visited-untried [] bs h = cc
all_visited-untried (n ∷ ns) [] h = cc
all_visited-untried (n ∷ ns) (b ∷ bs) h = ground (arith, all_visited-untried ns bs)

mark-untried :
    (k : ℕ) (ns : List Neighbor) (bs : List Bool) → untried ns (set bs k true) ≤ untried ns bs
unfolding untried free
mark-untried k [] bs = omega arith
mark-untried k (n ∷ ns) [] = omega arith
mark-untried zero (n ∷ ns) (b ∷ bs) = ground arith
mark-untried (suc k) (n ∷ ns) (b ∷ bs) = omega (arith, mark-untried k ns bs)

pub mark_from-untried :
    (a : Addr) (i : ℕ) (ns ms : List Neighbor) (info : RtAuxInfo)
    → untried ms (mark_from a i ns info).visited_bitmap ≤ untried ms info.visited_bitmap
unfolding mark_from
mark_from-untried a i [] ms info = omega arith
mark_from-untried a i (n ∷ ns) ms info =
    ground (arith, mark_from-untried a (i + 1) ns ms info, mark-untried i ms info.visited_bitmap)

mark-free :
    (i k : ℕ) (ns : List Neighbor) (bs : List Bool)
    → free_at i ns (set bs k true) ≡ true
    → free_at i ns bs ≡ true
unfolding free_at free
mark-free i k [] bs h = cc
mark-free i k (n ∷ ns) [] h = h
mark-free zero zero (n ∷ ns) (b ∷ bs) h = ground arith
mark-free zero (suc k) (n ∷ ns) (b ∷ bs) h = h
mark-free (suc i) zero (n ∷ ns) (b ∷ bs) h = h
mark-free (suc i) (suc k) (n ∷ ns) (b ∷ bs) h = mark-free i k ns bs h

pub mark_from-free :
    (a : Addr) (i k : ℕ) (ns ms : List Neighbor) (info : RtAuxInfo)
    → free_at k ms (mark_from a i ns info).visited_bitmap ≡ true
    → free_at k ms info.visited_bitmap ≡ true
unfolding mark_from
mark_from-free a i k [] ms info h = h
mark_from-free a i k (n ∷ ns) ms info h =
    ground (arith, mark_from-free a (i + 1) k ns ms info, mark-free k i ms info.visited_bitmap)
