-- ===== src/Examples/Names.antt =====
-- The table of names.
use antop.Base.{
  ℕ, ◌≤◌, ◌≡◌, refl, ◌↔◌, Bool, true, false, List, [], ◌∷◌, none, some, length, bit_or,
}
use antop.Node.{RvCtrlPkt, LookupTable}
use antop.Names.{name_eq, has_prefix, has_name, rv_table_add, rv_table_delete, answer_rv_query}
use antop.Names.Query
use antop.Addr.{null_addr}
use antop.Examples.{host}

-- "n1" and "n10".
abbrev n1 : List ℕ
n1 = 110 ∷ 49 ∷ []

abbrev n10 : List ℕ
n10 = 110 ∷ 49 ∷ 48 ∷ []

abbrev pkt_of : List ℕ → ℕ → RvCtrlPkt
pkt_of name x = record {
  type_field = 0;
  flags = 0;
  id = 0;
  n = 0;
  prim_addr = host x;
  univ_addr = name;
  src_addr = null_addr;
}

abbrev entry : List ℕ → ℕ → LookupTable
entry name x = record { hc_addr = host x; univ_addr = name }

-- A table of "n10" alone, and a query for it.
register_query_example :
    ((answer_rv_query (pkt_of [] 0) [] (pkt_of n10 5) (entry n10 2 ∷ [])).prim_addr ≡ host 2)
    × ((answer_rv_query (pkt_of [] 0) [] (pkt_of n10 5) (entry n10 2 ∷ [])).flags ≡ bit_or 0 1)
unfolding rv_table_add antop.Names.has_name antop.Names.update_or_append antop.Names.name_eq
    antop.Base.some_elem
register_query_example =
    Query.register_query (pkt_of n10 2) (pkt_of [] 0) (pkt_of n10 5) [] [] (entry n10 2 ∷ []) refl
      refl ((λ h. refl), tt)

-- "n10" is registered at 2, and the query for it is answered with the address of "n1".
answer_rv_query-longer_example :
    (answer_rv_query (pkt_of [] 0) [] (pkt_of n10 5) (entry n1 1 ∷ entry n10 2 ∷ [])).prim_addr
    ≡ host 1
answer_rv_query-longer_example =
    Query.answer_rv_query-longer (pkt_of [] 0) (pkt_of n10 5) [] (48 ∷ []) (entry n1 1)
      (entry n10 2 ∷ []) refl
