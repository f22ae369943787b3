-- ===== src/Dns/Queue.antt =====
-- Which solutions are answered.
use antop.Base.{
  ℕ, suc, ◌+◌, ◌≡◌, refl, ap, inl, inr, Bool, true, false, not, ◌&&◌, ◌||◌, ◌==◌, List, [], ◌∷◌,
  ◌++◌, length, drop, Bool-cases, ==_iff, arith,
}
use antop.Base.Run.{ok, crash}
use antop.Names.{name_eq}
use antop.Dns.{DnsQuery, c_string, query_off, compare_names, is_for, find_query}

-- The name that a stored query asks for, without its first character.
unfoldable pub asked : DnsQuery → List ℕ
asked q = c_string (drop (query_off + 1) q.pkt)

-- Some stored query asks for the name.
unfoldable pub awaits : List ℕ → List DnsQuery → Bool
awaits name [] = false
awaits name (q ∷ qs) = name_eq (asked q) name || awaits name qs

-- A stored query has a name.
unfoldable pub named : DnsQuery → Bool
named q = not (length (c_string (drop query_off q.pkt)) == 0)

unfoldable pub all_named : List DnsQuery → Bool
all_named [] = true
all_named (q ∷ qs) = named q && all_named qs

-- Equal names have equal lengths.
name_eq-length : (xs ys : List ℕ) → name_eq xs ys ≡ true → length xs ≡ length ys
unfolding name_eq
name_eq-length [] [] h = refl
name_eq-length [] (y ∷ ys) h = cc
name_eq-length (x ∷ xs) [] h = cc
name_eq-length (x ∷ xs) (y ∷ ys) h = ap suc (name_eq-length xs ys (ground arith))

compare_names-ok :
    (xs : List ℕ) (same : Bool) → (length xs == 0) ≡ false → compare_names xs same ≡ ok same
unfolding compare_names
compare_names-ok [] same h = absurd (ground arith)
compare_names-ok (x ∷ xs) same h = refl

is_for-asked :
    (name : List ℕ) (q : DnsQuery) → named q ≡ true → is_for name q ≡ ok (name_eq (asked q) name)
unfolding is_for asked named
is_for-asked name q h = elim (Bool-cases (length (asked q) == length name)) [
  | inl e ↦
      let named =
        compare_names-ok (c_string (drop query_off q.pkt)) (name_eq (asked q) name)
          (ground arith) in
      rw e named
  | inr e ↦
      let differ : name_eq (asked q) name ≡ false =
        ground
          (arith, name_eq-length (asked q) name, (==_iff (length (asked q)) (length name)).1) in
      rw (e, differ) refl
]

-- The first query that asks for the name is found.
pub find_query-here :
    (name : List ℕ) (before after : List DnsQuery) (q : DnsQuery)
    → all_named (before ++ q ∷ after) ≡ true
    → awaits name before ≡ false
    → name_eq (asked q) name ≡ true
    → find_query name (before ++ q ∷ after) ≡ ok (before, q, after)
unfolding find_query awaits all_named
find_query-here name [] after q whole other same =
    rw (is_for-asked name q (ground arith), same) refl
find_query-here name (p ∷ before) after q whole other same =
    let later = find_query-here name before after q (ground arith) (ground arith) same in
    let unlike : name_eq (asked p) name ≡ false = ground arith in
    rw (is_for-asked name p (ground arith), unlike, later) refl

pub find_query-crash :
    (name : List ℕ) (qs : List DnsQuery)
    → all_named qs ≡ true
    → awaits name qs ≡ false
    → find_query name qs ≡ crash
unfolding find_query awaits all_named
find_query-crash name [] whole other = refl
find_query-crash name (q ∷ qs) whole other =
    let later = find_query-crash name qs (ground arith) (ground arith) in
    let unlike : name_eq (asked q) name ≡ false = ground arith in
    rw (is_for-asked name q (ground arith), unlike, later) refl
