-- ===== src/Names.antt =====
-- The rendezvous tables of rendezvous.c. A name is the bytes of a C string before its 0.
pub mod Table
pub mod Query
pub mod Servers
pub mod Registration
use antop.Base.{
  ℕ, Bool, true, false, List, [], ◌∷◌, ◌++◌, Option, none, some, ◌==◌, ltb, if◌then◌else◌,
  remove_first, some_elem, length, bit_or,
}
use antop.Base.Run.{Run, ok, crash}
use antop.Addr.{Addr, addr_eq}
use antop.Node.{Node, LookupTable, RvCtrlPkt, rv_addr_solve}

-- `!strcmp(a, b)`.
unfoldable pub name_eq : List ℕ → List ℕ → Bool
name_eq [] [] = true
name_eq [] (y ∷ ys) = false
name_eq (x ∷ xs) [] = false
name_eq (x ∷ xs) (y ∷ ys) = if x == y then name_eq xs ys else false

-- `!memcmp(query, entry, strlen(entry))`: a query that is shorter differs at its 0 byte.
unfoldable pub has_prefix : List ℕ → List ℕ → Bool
has_prefix query [] = true
has_prefix [] (y ∷ ys) = false
has_prefix (x ∷ xs) (y ∷ ys) = if x == y then has_prefix xs ys else false

-- `sizeof` of `str_aux` and of the name of a table entry.
abbrev pub name_size : ℕ
name_size = 20

-- The loop of `rv_table_add` over an existing table: the first entry of that name takes the new
-- address, or else an entry is added at the end.
unfoldable pub update_or_append : List ℕ → Addr → List LookupTable → List LookupTable
unfolding name_eq
update_or_append name addr [] = record { hc_addr = addr; univ_addr = name } ∷ []
update_or_append name addr (e ∷ es) =
    if name_eq e.univ_addr name
    then record e { hc_addr = addr } ∷ es
    else e ∷ update_or_append name addr es

unfoldable pub has_name : List ℕ → List LookupTable → Bool
unfolding some_elem name_eq
has_name name = some_elem (λ e. name_eq e.univ_addr name)

-- `rv_table_add`. A name that does not fit the 20 bytes of `str_aux` overruns it, when an entry is
-- added.
unfoldable pub rv_table_add : RvCtrlPkt → List LookupTable → Run (List LookupTable)
unfolding update_or_append has_name
rv_table_add pkt table =
    if has_name pkt.univ_addr table
    then ok (update_or_append pkt.univ_addr pkt.prim_addr table)
    else if ltb (length pkt.univ_addr) name_size
    then ok (update_or_append pkt.univ_addr pkt.prim_addr table)
    else crash

-- `rv_table_delete`: unlinks the first entry with that address.
unfoldable pub rv_table_delete : Addr → List LookupTable → List LookupTable
unfolding remove_first
rv_table_delete addr = remove_first (λ e. addr_eq e.hc_addr addr)

-- The search of `answer_rv_query`.
unfoldable pub find_entry : List ℕ → List LookupTable → Option LookupTable
unfolding has_prefix
find_entry query [] = none
find_entry query (e ∷ es) = if has_prefix query e.univ_addr then some e else find_entry query es

-- `flags | MASK_SOLVED`, on memory that `malloc` returned.
unfoldable pub set_solved : ℕ → ℕ
set_solved flags = bit_or flags 1

-- The packet that `answer_rv_query` sends to the packet's `src_addr`. The copy of the name writes
-- no terminating 0, so what follows it in `fresh` stays: `tail` is that rest up to its first 0.
unfoldable pub answer_rv_query : RvCtrlPkt → List ℕ → RvCtrlPkt → List LookupTable → RvCtrlPkt
unfolding find_entry set_solved
answer_rv_query fresh tail query table =
    let named = query.univ_addr ++ tail in
    elim (find_entry query.univ_addr table) [
      | some e ↦ record fresh {
        type_field = rv_addr_solve;
        flags = set_solved fresh.flags;
        prim_addr = e.hc_addr;
        univ_addr = named;
      }
      | none ↦ record fresh { type_field = rv_addr_solve; flags = 0; univ_addr = named }
    ]

-- `clear_rv_tables`, for the server table and the known servers.
unfoldable pub clear_rv_tables : Node → Node
clear_rv_tables s = record s { rv_table = []; rv_servers = [] }
