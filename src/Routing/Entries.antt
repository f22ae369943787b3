-- ===== src/Routing/Entries.antt =====
-- The list `rt_info` of pkt_handle.c, with an entry for each route: `add_rt_info`, `del_rt_info` and
-- the handler `clear_vb` of the timers for the bitmaps.
use antop.Base.{
  ℕ, ◌%◌, ◌≡◌, refl, ap, inl, inr, Bool, true, false, ◌&&◌, ◌||◌, List, [], ◌∷◌, ◌++◌, Option, none,
  some, if◌then◌else◌, arith, Bool-cases,
}
use antop.Base.Run.{Run, ok, crash}
use antop.Addr.{Addr, addr_eq, null_addr}
use antop.Alloc.Network.{addr_eq_refl, addr_eq-other}
use antop.Routing.{RtAuxInfo}

-- All entries of the bitmap are cleared.
unfoldable pub clear_bitmap : List Bool → List Bool
clear_bitmap [] = []
clear_bitmap (b ∷ bs) = false ∷ clear_bitmap bs

-- The count of visited neighbours stays.
unfoldable pub clear_vb : Addr → List RtAuxInfo → List RtAuxInfo
unfolding clear_bitmap
clear_vb dst [] = []
clear_vb dst (e ∷ es) =
    if addr_eq e.dst dst
    then record e { visited_bitmap = clear_bitmap e.visited_bitmap } ∷ es
    else e ∷ clear_vb dst es

unfoldable pub del_rt_info : Addr → Addr → List RtAuxInfo → List RtAuxInfo
del_rt_info dst gtw [] = []
del_rt_info dst gtw (e ∷ es) =
    if addr_eq dst e.dst && addr_eq gtw e.gtw then es else e ∷ del_rt_info dst gtw es

unfoldable pub update_src : Option Addr → Addr → Addr
update_src none old = old
update_src (some src) old = src

-- The loop of `add_rt_info`, which leaves out the last entry. It compares the destination of an entry
-- with the bytes where the pointer `dst` itself lies, and not with those that it points to: these
-- are `stack`.
unfoldable pub update_rt : Addr → Addr → Option Addr → List RtAuxInfo → Option (List RtAuxInfo)
unfolding update_src
update_rt stack dst src [] = none
update_rt stack dst src (e ∷ []) = none
update_rt stack dst src (e ∷ f ∷ es) =
    let later = update_rt stack dst src (f ∷ es) in
    if addr_eq e.dst stack
    then some (record e { dst = dst; src = update_src src e.src } ∷ f ∷ es)
    else elim later [ none ↦ none | some rest ↦ some (e ∷ rest) ]

-- The timers that `add_rt_info` and `add_rt_route` add, with what their handlers take.
pub data RtTimer : Type 0 where
  vb_t route_t : Addr → ℕ → RtTimer
  -- The timer of a route in the kernel's table, with the route: destination, gateway, mask, distance.
  rt_route_t : Addr → Addr → ℕ → ℕ → ℕ → RtTimer

abbrev pub t_vb : ℕ
t_vb = 1400

abbrev pub t_route : ℕ
t_route = 3000

-- The new entry, in memory from `malloc`: its gateway is what is there.
unfoldable pub new_rt_info : RtAuxInfo → Addr → Option Addr → ℕ → RtAuxInfo
unfolding clear_bitmap update_src
new_rt_info fresh dst src id = record fresh {
  dst = dst;
  src = update_src src null_addr;
  visited_bitmap = clear_bitmap fresh.visited_bitmap;
  count = 0;
  route_id = id % 256;
}

-- The table and the timers. Without a first entry the loop reads through a null pointer.
unfoldable pub add_rt_info :
    RtAuxInfo → Addr → Addr → Option Addr → ℕ → List RtAuxInfo → Run (List RtAuxInfo × List RtTimer)
unfolding update_rt clear_vb new_rt_info
add_rt_info fresh stack dst src id [] = crash
add_rt_info fresh stack dst src id (e ∷ es) =
    let updated = update_rt stack dst src (e ∷ es) in
    let added : List RtAuxInfo × List RtTimer =
      ((e ∷ es) ++ new_rt_info fresh dst src id ∷ [], vb_t dst t_vb ∷ route_t dst t_route ∷ []) in
    elim updated [ none ↦ ok added | some table ↦ ok (clear_vb dst table, []) ]

-- Some entry has this destination.
unfoldable pub has_dst : Addr → List RtAuxInfo → Bool
has_dst a [] = false
has_dst a (e ∷ es) = addr_eq e.dst a || has_dst a es

-- Some entry has this destination and this gateway.
unfoldable pub has_route : Addr → Addr → List RtAuxInfo → Bool
has_route dst gtw [] = false
has_route dst gtw (e ∷ es) = (addr_eq dst e.dst && addr_eq gtw e.gtw) || has_route dst gtw es

update_rt-none :
    (stack dst : Addr) (src : Option Addr) (es : List RtAuxInfo)
    → has_dst stack es ≡ false
    → update_rt stack dst src es ≡ none
unfolding update_rt has_dst
update_rt-none stack dst src [] h = refl
update_rt-none stack dst src (e ∷ []) h = refl
update_rt-none stack dst src (e ∷ f ∷ es) h =
    let this : addr_eq e.dst stack ≡ false = ground arith in
    let later : has_dst stack (f ∷ es) ≡ false = ground arith in
    let rest = update_rt-none stack dst src (f ∷ es) later in rw (this, rest) refl

del_rt_info-appended :
    (dst : Addr) (new : RtAuxInfo) (es : List RtAuxInfo)
    → has_route dst new.gtw es ≡ false
    → addr_eq dst new.dst ≡ true
    → del_rt_info dst new.gtw (es ++ new ∷ []) ≡ es
unfolding del_rt_info has_route
del_rt_info-appended dst new [] h same = rw (same, addr_eq_refl new.gtw) refl
del_rt_info-appended dst new (e ∷ es) h same =
    let this : (addr_eq dst e.dst && addr_eq new.gtw e.gtw) ≡ false = ground arith in
    let later : has_route dst new.gtw es ≡ false = ground arith in
    let rest = del_rt_info-appended dst new es later same in
    rw this (ap (λ (kept : List RtAuxInfo). e ∷ kept) rest)

add_rt_info-new :
    (fresh : RtAuxInfo) (stack dst : Addr) (src : Option Addr) (id : ℕ) (e : RtAuxInfo)
    (es : List RtAuxInfo)
    → has_dst stack (e ∷ es) ≡ false
    → add_rt_info fresh stack dst src id (e ∷ es)
      ≡ ok ((e ∷ es) ++ new_rt_info fresh dst src id ∷ [], vb_t dst t_vb ∷ route_t dst t_route ∷ [])
unfolding add_rt_info
add_rt_info-new fresh stack dst src id e es unlike =
    let added : List RtAuxInfo × List RtTimer =
      ((e ∷ es) ++ new_rt_info fresh dst src id ∷ [], vb_t dst t_vb ∷ route_t dst t_route ∷ []) in
    ap
      (λ (u : Option (List RtAuxInfo)). elim u [
        | none ↦ ok added
        | some table ↦ ok (clear_vb dst table, [])
      ])
      (update_rt-none stack dst src (e ∷ es) unlike)

del_rt_info-kept :
    (dst gtw : Addr) (es : List RtAuxInfo)
    → has_route dst gtw es ≡ false
    → del_rt_info dst gtw es ≡ es
unfolding del_rt_info has_route
del_rt_info-kept dst gtw [] h = refl
del_rt_info-kept dst gtw (e ∷ es) h =
    let this : (addr_eq dst e.dst && addr_eq gtw e.gtw) ≡ false = ground arith in
    let later : has_route dst gtw es ≡ false = ground arith in
    rw this (ap (λ (kept : List RtAuxInfo). e ∷ kept) (del_rt_info-kept dst gtw es later))

has_route-append :
    (dst gtw : Addr) (es : List RtAuxInfo) (new : RtAuxInfo)
    → has_route dst gtw es ≡ false
    → addr_eq gtw new.gtw ≡ false
    → has_route dst gtw (es ++ new ∷ []) ≡ false
unfolding has_route
has_route-append dst gtw [] new h other = ground arith
has_route-append dst gtw (e ∷ es) new h other =
    let later = has_route-append dst gtw es new (ground arith) other in ground (arith, later)

-- When the table has an entry, and none of its destinations is by chance what lies on the stack,
-- `add_rt_info` always adds an entry, also where one with the destination is there, and starts its
-- two timers. It sets no gateway: `del_rt_info` deletes the new entry for the gateway that lay in its
-- memory, and for any other gateway, the one of the route included, it leaves the table as it is, if
-- no entry for these was there before.
pub del_rt_info-add_rt_info :
    (fresh : RtAuxInfo) (stack dst gtw : Addr) (src : Option Addr) (id : ℕ) (e : RtAuxInfo)
    (es : List RtAuxInfo)
    → has_dst stack (e ∷ es) ≡ false
    → has_route dst fresh.gtw (e ∷ es) ≡ false
    → has_route dst gtw (e ∷ es) ≡ false
    → addr_eq gtw fresh.gtw ≡ false
    → (table : List RtAuxInfo) × (add_rt_info fresh stack dst src id (e ∷ es)
        ≡ ok (table, vb_t dst t_vb ∷ route_t dst t_route ∷ []))
      × (table ≡ (e ∷ es) ++ new_rt_info fresh dst src id ∷ [])
      × (del_rt_info dst fresh.gtw table ≡ e ∷ es)
      × (del_rt_info dst gtw table ≡ table)
unfolding add_rt_info new_rt_info
del_rt_info-add_rt_info fresh stack dst gtw src id e es unlike unknown unused other =
    let new = new_rt_info fresh dst src id in
    (
      (e ∷ es) ++ new ∷ [],
      add_rt_info-new fresh stack dst src id e es unlike,
      refl,
      del_rt_info-appended dst new (e ∷ es) unknown (addr_eq_refl dst),
      del_rt_info-kept dst gtw ((e ∷ es) ++ new ∷ [])
          (has_route-append dst gtw (e ∷ es) new unused other),
    )

-- The entry that a look-up by destination finds.
unfoldable pub entry_of : Addr → List RtAuxInfo → Option RtAuxInfo
entry_of a [] = none
entry_of a (e ∷ es) = if addr_eq e.dst a then some e else entry_of a es

unfoldable pub cleared : Option RtAuxInfo → Option RtAuxInfo
cleared none = none
cleared (some e) = some (record e { visited_bitmap = clear_bitmap e.visited_bitmap })

-- `clear_vb` clears the bitmap of the entry that is found for the destination and changes nothing
-- else of it, not the count of visited neighbours either, and what is found for any other
-- destination stays.
pub clear_vb-entry_of :
    (dst other : Addr) (es : List RtAuxInfo)
    → addr_eq dst other ≡ false
    → (entry_of dst (clear_vb dst es) ≡ cleared (entry_of dst es))
      × (entry_of other (clear_vb dst es) ≡ entry_of other es)
unfolding clear_vb entry_of cleared
clear_vb-entry_of dst other [] h = (refl, refl)
clear_vb-entry_of dst other (e ∷ es) h = elim (Bool-cases (addr_eq e.dst dst)) [
  | inl same ↦
      let differs = addr_eq-other e.dst dst other same h in
      (rw (same, same) refl, rw (same, differs) refl)
  | inr unlike ↦
      let (found, kept) = clear_vb-entry_of dst other es h in
      (
        rw (unlike, unlike) found,
        rw unlike (ap (λ (r : Option RtAuxInfo). if addr_eq e.dst other then some e else r) kept),
      )
]
