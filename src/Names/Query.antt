-- ===== src/Names/Query.antt =====
-- The search of `answer_rv_query`, against the exact lookup.
use antop.Base.{
  ◌∙◌, ℕ, ◌≡◌, refl, ap, Bool, true, false, List, [], ◌∷◌, ◌++◌, Option, none, some, arith, bit_or,
  if◌then◌else◌, Option-cases,
}
use antop.Base.Run.{ok}
use antop.Addr.{Addr, addr_eq}
use antop.Node.{RvCtrlPkt, LookupTable}
use antop.Names.{
  name_eq, has_prefix, rv_table_add, rv_table_delete, find_entry, answer_rv_query, set_solved,
}
use antop.Names.Table.{lookup, has_prefix-append, lookup-rv_table_add_own}

-- No name of the table is a proper prefix of the query.
abbrev pub NoProperPrefix : List ℕ → List LookupTable → Type 0
NoProperPrefix query [] = Unit {0}
NoProperPrefix query (e ∷ es) =
    (has_prefix query e.univ_addr ≡ true → name_eq e.univ_addr query ≡ true)
    × NoProperPrefix query es

address_of : Option LookupTable → Option Addr
address_of none = none
address_of (some e) = some e.hc_addr

has_prefix_refl : (xs : List ℕ) → has_prefix xs xs ≡ true
unfolding has_prefix
has_prefix_refl [] = refl
has_prefix_refl (x ∷ xs) = ground (arith, has_prefix_refl xs)

name_eq-has_prefix : (xs ys : List ℕ) → name_eq ys xs ≡ true → has_prefix xs ys ≡ true
unfolding name_eq has_prefix
name_eq-has_prefix [] [] h = refl
name_eq-has_prefix [] (y ∷ ys) h = cc
name_eq-has_prefix (x ∷ xs) [] h = refl
name_eq-has_prefix (x ∷ xs) (y ∷ ys) h = ground (arith, name_eq-has_prefix xs ys)

find_entry-lookup :
    (query : List ℕ) (table : List LookupTable)
    → NoProperPrefix query table
    → address_of (find_entry query table) ≡ lookup query table
unfolding find_entry lookup address_of
find_entry-lookup query [] p = refl
find_entry-lookup query (e ∷ es) p =
    ground (arith, find_entry-lookup query es p.1, name_eq-has_prefix query e.univ_addr, p.0)

-- A query for a registered name is answered, with the registered address and the solved flag,
-- provided that no other name of the table is a prefix of it.
pub answer_rv_query-lookup :
    (fresh query : RvCtrlPkt) (tail : List ℕ) (table : List LookupTable) (a : Addr)
    → NoProperPrefix query.univ_addr table
    → lookup query.univ_addr table ≡ some a
    → ((answer_rv_query fresh tail query table).prim_addr ≡ a)
      × ((answer_rv_query fresh tail query table).flags ≡ bit_or fresh.flags 1)
unfolding answer_rv_query set_solved address_of
answer_rv_query-lookup fresh query tail table a p h =
    ground (arith, find_entry-lookup query.univ_addr table p)

-- A query for a name that nobody registered is answered unsolved, under the same condition.
pub answer_rv_query-unknown :
    (fresh query : RvCtrlPkt) (tail : List ℕ) (table : List LookupTable)
    → NoProperPrefix query.univ_addr table
    → lookup query.univ_addr table ≡ none
    → (answer_rv_query fresh tail query table).flags ≡ 0
unfolding answer_rv_query address_of
answer_rv_query-unknown fresh query tail table p h =
    ground (arith, find_entry-lookup query.univ_addr table p)

-- Without that condition it goes wrong: when `e` is the first entry, every longer name that
-- starts with its name is answered with its address, also if the longer name is registered.
pub answer_rv_query-longer :
    (fresh query : RvCtrlPkt) (tail rest : List ℕ) (e : LookupTable) (table : List LookupTable)
    → query.univ_addr ≡ e.univ_addr ++ rest
    → (answer_rv_query fresh tail query (e ∷ table)).prim_addr ≡ e.hc_addr
unfolding answer_rv_query find_entry
answer_rv_query-longer fresh query tail rest e table h =
    ground (arith, ap (λ q. has_prefix q e.univ_addr) h, has_prefix-append e.univ_addr rest)

-- What a node registers with `rv_table_add`, when that returns, is what a query for that name is answered, while no
-- other name of the table is a prefix of it.
pub register_query :
    (pkt fresh query : RvCtrlPkt) (tail : List ℕ) (table table' : List LookupTable)
    → rv_table_add pkt table ≡ ok table'
    → query.univ_addr ≡ pkt.univ_addr
    → NoProperPrefix query.univ_addr table'
    → ((answer_rv_query fresh tail query table').prim_addr ≡ pkt.prim_addr)
      × ((answer_rv_query fresh tail query table').flags ≡ bit_or fresh.flags 1)
register_query pkt fresh query tail table table' added same p =
    let stored = lookup-rv_table_add_own pkt table table' added in
    answer_rv_query-lookup fresh query tail table' pkt.prim_addr p
      (ap (λ q. lookup q table') same ∙ stored)

-- `rv_table_delete` of one address keeps the look-up of every name that leads to another address.
pub lookup-rv_table_delete :
    (name : List ℕ) (addr a : Addr) (table : List LookupTable)
    → lookup name table ≡ some a
    → addr_eq a addr ≡ false
    → lookup name (rv_table_delete addr table) ≡ some a
unfolding rv_table_delete lookup antop.Base.remove_first
lookup-rv_table_delete name addr a [] h d = cc
lookup-rv_table_delete name addr a (e ∷ es) h d =
    ground (arith, lookup-rv_table_delete name addr a es)
