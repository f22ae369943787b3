-- ===== src/Names/Table.antt =====
-- The table of registered names as a finite map from names to addresses.
use antop.Base.{
  ℕ, ◌≡◌, refl, ap, subst, ◌∙◌, inl, inr, true, false, List, [], ◌∷◌, ◌++◌, Option, none, some,
  arith, if◌then◌else◌, Bool-cases,
}
use antop.Base.Run.{ok}
use antop.Addr.{Addr}
use antop.Node.{RvCtrlPkt, LookupTable}
use antop.Names.{name_eq, has_prefix, update_or_append, has_name, rv_table_add}

pub name_eq_refl : (xs : List ℕ) → name_eq xs xs ≡ true
unfolding name_eq
name_eq_refl [] = refl
name_eq_refl (x ∷ xs) = ground (arith, name_eq_refl xs)

pub name_eq_sound : (xs ys : List ℕ) → name_eq xs ys ≡ true → xs ≡ ys
unfolding name_eq
name_eq_sound [] [] h = refl
name_eq_sound [] (y ∷ ys) h = cc
name_eq_sound (x ∷ xs) [] h = cc
name_eq_sound (x ∷ xs) (y ∷ ys) h = ground (arith, name_eq_sound xs ys)

pub has_prefix-append : (xs ys : List ℕ) → has_prefix (xs ++ ys) xs ≡ true
unfolding has_prefix
has_prefix-append [] ys = refl
has_prefix-append (x ∷ xs) ys = ground (arith, has_prefix-append xs ys)

-- What a table says of a name: the address of the first entry of exactly that name.
unfoldable pub lookup : List ℕ → List LookupTable → Option Addr
unfolding name_eq
lookup name [] = none
lookup name (e ∷ es) = if name_eq e.univ_addr name then some e.hc_addr else lookup name es

lookup-update :
    (name : List ℕ) (addr : Addr) (table : List LookupTable)
    → lookup name (update_or_append name addr table) ≡ some addr
unfolding lookup update_or_append
lookup-update name addr [] = ground (arith, name_eq_refl name)
lookup-update name addr (e ∷ es) = ground (arith, lookup-update name addr es, name_eq_refl name)

name_eq-cong : (xs ys zs : List ℕ) → name_eq xs ys ≡ true → name_eq xs zs ≡ name_eq ys zs
name_eq-cong xs ys zs h = ap (λ v. name_eq v zs) (name_eq_sound xs ys h)

lookup-update_other :
    (name other : List ℕ) (addr : Addr) (table : List LookupTable)
    → name_eq name other ≡ false
    → lookup other (update_or_append name addr table) ≡ lookup other table
unfolding lookup update_or_append
lookup-update_other name other addr [] h = ground arith
lookup-update_other name other addr (e ∷ es) h =
    ground (arith, lookup-update_other name other addr es h, name_eq-cong e.univ_addr name other)

-- `rv_table_add` of a packet, if it returns, gives its name the packet's address, and another name
-- keeps its look-up.
pub lookup-rv_table_add :
    (pkt : RvCtrlPkt) (table table' : List LookupTable) (other : List ℕ)
    → rv_table_add pkt table ≡ ok table'
    → name_eq pkt.univ_addr other ≡ false
    → (lookup pkt.univ_addr table' ≡ some pkt.prim_addr)
      × (lookup other table' ≡ lookup other table)
unfolding rv_table_add
lookup-rv_table_add pkt table table' other h different =
    let added = lookup-update pkt.univ_addr pkt.prim_addr table in
    let others = lookup-update_other pkt.univ_addr other pkt.prim_addr table different in
    ground (arith, added, others)

-- The name itself.
pub lookup-rv_table_add_own :
    (pkt : RvCtrlPkt) (table table' : List LookupTable)
    → rv_table_add pkt table ≡ ok table'
    → lookup pkt.univ_addr table' ≡ some pkt.prim_addr
unfolding rv_table_add
lookup-rv_table_add_own pkt table table' h =
    ground (arith, lookup-update pkt.univ_addr pkt.prim_addr table)

-- No name is there twice.
abbrev pub NamesOnce : List LookupTable → Type 0
NamesOnce [] = Unit {0}
NamesOnce (e ∷ es) = (has_name e.univ_addr es ≡ false) × NamesOnce es

has_name-update :
    (name other : List ℕ) (addr : Addr) (table : List LookupTable)
    → name_eq name other ≡ false
    → has_name other (update_or_append name addr table) ≡ has_name other table
unfolding has_name update_or_append
has_name-update name other addr [] h = ground arith
has_name-update name other addr (e ∷ es) h = ground (arith, has_name-update name other addr es h)

name_eq_comm : (xs ys : List ℕ) → name_eq xs ys ≡ name_eq ys xs
unfolding name_eq
name_eq_comm [] [] = refl
name_eq_comm [] (y ∷ ys) = refl
name_eq_comm (x ∷ xs) [] = refl
name_eq_comm (x ∷ xs) (y ∷ ys) = ground (arith, name_eq_comm xs ys)

NamesOnce-update :
    (name : List ℕ) (addr : Addr) (table : List LookupTable)
    → NamesOnce table
    → NamesOnce (update_or_append name addr table)
unfolding update_or_append has_name
NamesOnce-update name addr [] once = (refl, tt)
NamesOnce-update name addr (e ∷ es) once = elim (Bool-cases (name_eq e.univ_addr name)) [
  | inl same ↦ rw same once
  | inr other ↦ rw other (
    has_name-update name e.univ_addr addr es (name_eq_comm name e.univ_addr ∙ other) ∙ once.0,
    NamesOnce-update name addr es once.1,
  )
]

-- Adding keeps names unique.
pub rv_table_add-NamesOnce :
    (pkt : RvCtrlPkt) (table table' : List LookupTable)
    → NamesOnce table
    → rv_table_add pkt table ≡ ok table'
    → NamesOnce table'
unfolding rv_table_add
rv_table_add-NamesOnce pkt table table' once h =
    let e : update_or_append pkt.univ_addr pkt.prim_addr table ≡ table' = ground arith in
    subst NamesOnce e (NamesOnce-update pkt.univ_addr pkt.prim_addr table once)
