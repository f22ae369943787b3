-- ===== src/Dispatch/Invariant.antt =====
-- What no handler changes or breaks: the network's parameters, the uniqueness of the names in the
-- rendezvous table, and the flags of the process of fragmentation.
use antop.Base.{
  ◌∙◌, sym, subst, ℕ, ◌≡◌, refl, Bool, true, false, List, [], ◌∷◌, if◌then◌else◌, remove_first,
  some_elem, arith,
}
pub use antop.Base.Run.{Run-cases}
use antop.Base.Run.{Run, ok, crash, ◌>>=◌}
use antop.Base.Int.{ℤ, pos, negsuc}
use antop.Addr.{Addr, addr_eq}
use antop.Node.{Node, RvCtrlPkt, TimerName, t_rv, Neighbor, LookupTable, Effect, emit, Outside}
use antop.Names.{rv_table_delete, has_name, clear_rv_tables}
use antop.Names.Table.{NamesOnce}
use antop.Names.Servers.{
  reg_pkt, register_rv, register_with, find_servers, send_regs, send_regs_short,
}
use antop.Neighbors.{delete_neighbor}
use antop.Shift.{del_and_addnew}

-- The fields that the invariant is about.
pub record Core : Type 0 where
  pub root : Addr
  pub hc_dim : ℕ
  pub dir_default : Addr
  pub univ_addr : List ℕ
  pub rv_table : List LookupTable
  pub whole : Bool
  pub first : Bool
  pub second : Bool

unfoldable pub core : Node → Core
core s = record {
  root = s.root;
  hc_dim = s.hc_dim;
  dir_default = s.dir_default;
  univ_addr = s.univ_addr;
  rv_table = s.rv_table;
  whole = s.flag_fragmentacion;
  first = s.flag_fragmentacion_primaria;
  second = s.flag_fragmentacion_secundaria;
}

pub del_and_addnew-core :
    (a b : Addr) (flag : ℕ) (s : Node) → core (del_and_addnew a b flag s) ≡ core s
unfolding del_and_addnew core
del_and_addnew-core a b flag s = ground arith

-- The parameters are those of `c`, each name is in the table once, and the flag of a part of the
-- process implies that of the whole.
pub record Good (c k : Core) : Type 0 where
  pub same_root : k.root ≡ c.root
  pub same_hc_dim : k.hc_dim ≡ c.hc_dim
  pub same_dir_default : k.dir_default ≡ c.dir_default
  pub same_univ_addr : k.univ_addr ≡ c.univ_addr
  pub names : NamesOnce k.rv_table
  pub of_first : k.first ≡ true → k.whole ≡ true
  pub of_second : k.second ≡ true → k.whole ≡ true

-- A run that crashes, or ends in a node for which `P` holds.
abbrev pub Ends : (Node → Type 0) → Run Node → Type 0
Ends P crash = Unit {0}
Ends P (ok s) = P s

pub if-holds {ℓ} :
    {A : Type ℓ} (P : A → Type 0) (b : Bool) (x y : A) → P x → P y → P (if b then x else y)
if-holds P true x y p q = p
if-holds P false x y p q = q

pub bind-Ends :
    {A : Type 0} (P : Node → Type 0) (r : Run A) (next : A → Run Node)
    → ((a : A) → r ≡ ok a → Ends P (next a))
    → Ends P (r >>= next)
bind-Ends P crash next h = tt
bind-Ends P (ok a) next h = h a refl

pub then-Ends :
    (P Q : Node → Type 0) (r : Run Node) (next : Node → Run Node)
    → Ends P r
    → ((n : Node) → P n → Ends Q (next n))
    → Ends Q (r >>= next)
then-Ends P Q crash next h f = tt
then-Ends P Q (ok n) next h f = f n h

has_name-delete :
    (name : List ℕ) (a : Addr) (table : List LookupTable)
    → has_name name table ≡ false
    → has_name name (rv_table_delete a table) ≡ false
unfolding has_name rv_table_delete remove_first some_elem
has_name-delete name a [] h = h
has_name-delete name a (e ∷ es) h = ground (arith, has_name-delete name a es)

rv_table_delete-NamesOnce :
    (a : Addr) (table : List LookupTable) → NamesOnce table → NamesOnce (rv_table_delete a table)
unfolding rv_table_delete remove_first
rv_table_delete-NamesOnce a [] once = once
rv_table_delete-NamesOnce a (e ∷ es) once =
    if-holds NamesOnce (addr_eq e.hc_addr a) es (e ∷ rv_table_delete a es) once.1
      (has_name-delete e.univ_addr a es once.0, rv_table_delete-NamesOnce a es once.1)

send_regs-core : (m : RvCtrlPkt) (rest : List Addr) (s : Node) → core (send_regs m rest s) ≡ core s
unfolding send_regs core
send_regs-core m [] s = refl
send_regs-core m (a ∷ rest) s = send_regs-core m rest (emit (Effect.send_rv m a 1) s)

send_regs_short-core :
    (m : RvCtrlPkt) (rest : List Addr) (s : Node) → core (send_regs_short m rest s) ≡ core s
unfolding send_regs_short core
send_regs_short-core m [] s = refl
send_regs_short-core m (a ∷ rest) s =
    send_regs_short-core m rest (emit (Effect.send_rv_short m a) s)

register_with-core :
    (out : Outside) (servers : List Addr) (s : Node) → core (register_with out servers s) ≡ core s
unfolding register_with core
register_with-core out servers s =
    let s1 = emit (Effect.start_timer TimerName.rv_t t_rv) (record s { rv_servers = servers }) in
    let first = send_regs-core (reg_pkt out s.prim_addr s) servers s1 in
    let s2 = send_regs (reg_pkt out s.prim_addr s) servers s1 in
    if-holds (λ (n : Node). core n ≡ core s) s.sec_addr_flag
      (send_regs_short (reg_pkt out s.sec_addr s) servers s2) s2
      (send_regs_short-core (reg_pkt out s.sec_addr s) servers s2 ∙ first) first

module _ (c : Core) where
  -- The invariant of a node.
  abbrev pub Inv : Node → Type 0
  Inv s = Good c (core s)

  pub same-Inv : (s s' : Node) → core s' ≡ core s → Inv s → Inv s'
  same-Inv s s' e v = subst (Good c) (sym e) v

  with_names :
      (k : Core) (table : List LookupTable)
      → NamesOnce table
      → Good c k
      → Good c (record k { rv_table = table })
  with_names k table once v = record {
    same_root = v.same_root;
    same_hc_dim = v.same_hc_dim;
    same_dir_default = v.same_dir_default;
    same_univ_addr = v.same_univ_addr;
    names = once;
    of_first = v.of_first;
    of_second = v.of_second;
  }

  pub with_table :
      (s : Node) (table : List LookupTable)
      → NamesOnce table
      → Inv s
      → Inv (record s { rv_table = table })
  unfolding core
  with_table s table once v = with_names (core s) table once v

  -- The flags of the parts may be as they like once that of the whole is set.
  pub with_flags :
      (s : Node) (w first second : Bool)
      → (first ≡ true → w ≡ true)
      → (second ≡ true → w ≡ true)
      → Inv s
      → Inv (record s {
        flag_fragmentacion = w;
        flag_fragmentacion_primaria = first;
        flag_fragmentacion_secundaria = second;
      })
  unfolding core
  with_flags s w first second f g v = record {
    same_root = v.same_root;
    same_hc_dim = v.same_hc_dim;
    same_dir_default = v.same_dir_default;
    same_univ_addr = v.same_univ_addr;
    names = v.names;
    of_first = f;
    of_second = g;
  }

  pub delete_neighbor-Inv : (it : Neighbor) (s : Node) → Inv s → Inv (delete_neighbor it s).0
  unfolding delete_neighbor core
  delete_neighbor-Inv it s v =
      let here = λ (n : Neighbor). addr_eq n.prim_addr it.prim_addr in
      let table = rv_table_delete it.prim_addr s.rv_table in
      if-holds (λ (r : Node × ℤ). Inv r.0) (some_elem here s.neigh_table)
        (record s { neigh_table = remove_first here s.neigh_table; rv_table = table }, pos 0)
        (s, negsuc 0)
        (with_names (core s) table (rv_table_delete-NamesOnce it.prim_addr s.rv_table v.names) v) v

  pub clear_rv_tables-Inv : (s : Node) → Inv s → Inv (clear_rv_tables s)
  unfolding clear_rv_tables core
  clear_rv_tables-Inv s v = with_names (core s) [] tt v

  pub register_rv-Inv : (out : Outside) (s : Node) → Inv s → Ends Inv (register_rv out s)
  unfolding register_rv
  register_rv-Inv out s v =
      let go = λ (servers : List Addr). ok (register_with out servers s) in
      if-holds (Ends Inv) s.flag_mezcla (ok s)
        (if s.flag_fragmentacion then ok s else find_servers s >>= go) v
        (if-holds (Ends Inv) s.flag_fragmentacion (ok s) (find_servers s >>= go) v (
          bind-Ends Inv (find_servers s) go (λ (servers : List Addr) e.
            same-Inv s (register_with out servers s) (register_with-core out servers s) v)))

  -- The interface takes the new address.
  pub swap-Inv :
      (a b : Addr) (flag : ℕ) (s : Node)
      → Inv s
      → Inv (emit (Effect.sleep 2) (del_and_addnew a b flag s))
  unfolding core
  swap-Inv a b flag s v = same-Inv s (del_and_addnew a b flag s) (del_and_addnew-core a b flag s) v
