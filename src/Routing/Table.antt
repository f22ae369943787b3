-- ===== src/Routing/Table.antt =====
-- rt_table.c: the requests that change the kernel's table of routes, and the list that
-- `rt_table_dump` fills with the kernel's answer. The kernel is a function from the requests that
-- it got to its answer to a dump. Sockets can be opened, and the answer is complete.
use antop.Base.{
  ℕ, ◌%◌, Bool, false, not, ◌||◌, ◌==◌, List, [], ◌∷◌, ◌++◌, Option, none, some, if◌then◌else◌,
}
use antop.Base.Run.{Run, ok, crash}
use antop.Addr.{Addr, addr_eq}
use antop.Node.{Node, Outside}
use antop.Routing.{Packet, RtAuxInfo}
use antop.Routing.Entries.{RtTimer, rt_route_t, t_route, del_rt_info}

-- `struct route`. `int` is kept as 32 bits.
pub record Route : Type 0 where
  pub dst : Addr
  pub gtw : Addr
  pub metric : ℕ
  pub dst_mask : ℕ
  pub distance : ℕ
  pub table : ℕ

-- `struct src_nat`.
pub record SrcNat : Type 0 where
  pub dst : Addr
  pub src : Addr

-- RTM_NEWROUTE and RTM_DELROUTE, with what `add_rt_route` and `del_rt_route` write into them.
pub data Request : Type 0 where
  new_route del_route : Addr → Addr → ℕ → ℕ → Request

-- A message of the kernel's answer: its family, and the attributes that are read, where present.
pub record RtMessage : Type 0 where
  pub inet6 : Bool
  pub dst_len : ℕ
  pub table : Option ℕ
  pub dst : Option Addr
  pub priority : Option ℕ
  pub gateway : Option Addr

-- What the routing takes from outside: the kernel, memory from `malloc`, the bytes where the pointer
-- `dst` of `add_rt_info` lies, and whether the `next` of a fresh `struct src_nat` is NULL.
pub record RtOutside : Type 0 where
  pub node : Outside
  pub answer : List Request → List RtMessage
  pub fresh_route : Route
  pub fresh_info : RtAuxInfo
  pub fresh_nat : SrcNat
  pub nat_next_null : Bool
  pub stack : Addr

-- The state of the routing. The list of `rt_table_dump` starts at `route_t`, which `rt_info_init`
-- allocates, and its nodes are never freed: `route_rest` are the nodes after the first one.
pub record Router : Type 0 where
  pub node : Node
  pub route_t : Route
  pub route_rest : List Route
  pub rt_info : List RtAuxInfo
  pub nat_table : List SrcNat
  pub requests : List Request
  pub timers : List RtTimer

abbrev pub main_table : ℕ
main_table = 254

abbrev pub or_else {ℓ} : {A : Type ℓ} → Option A → A → A
or_else none d = d
or_else (some a) d = a

-- `data_cb` and `attributes_show_ipv6`: a message of another table is written over by the next one.
unfoldable pub skips : RtMessage → Bool
skips m = not m.inet6 || (elim m.table [ none ↦ false | some t ↦ not (t % 256 == main_table) ])

-- What a message leaves in the node that `rt_ptr` points to.
unfoldable pub data_cb : RtMessage → Route → Route
data_cb m r =
    let masked = record r { dst_mask = m.dst_len } in
    let tabled =
      if m.inet6 then record masked { table = or_else m.table r.table % 256 } else masked in
    if skips m then tabled else record tabled {
      dst = or_else m.dst r.dst;
      distance = or_else m.priority r.distance;
      gtw = or_else m.gateway r.gtw;
    }

unfoldable pub next_node : Route → List Route → Route
next_node fresh [] = fresh
next_node fresh (r ∷ rest) = r

unfoldable pub after_next : List Route → List Route
after_next [] = []
after_next (r ∷ rest) = rest

-- The nodes from `rt_ptr` on, after all messages. There is always one node more than routes.
unfoldable pub fill : Route → List RtMessage → Route → List Route → List Route
fill fresh [] rt_ptr rest = rt_ptr ∷ rest
fill fresh (m ∷ ms) rt_ptr rest =
    let skip = skips m in
    let r = data_cb m rt_ptr in
    let later =
      fill fresh ms (if skip then r else next_node fresh rest)
        (if skip then rest else after_next rest) in
    if skip then later else r ∷ later

-- The list from `route_t` on.
abbrev pub routes : Router → List Route
routes st = st.route_t ∷ st.route_rest

unfoldable pub rt_table_dump : RtOutside → Router → Router
rt_table_dump out st =
    let filled = fill out.fresh_route (out.answer st.requests) st.route_t st.route_rest in
    record st { route_t = next_node out.fresh_route filled; route_rest = after_next filled }

-- `add_rt_route(dst, gw, mask, distance)`. The mask is an `unsigned char`.
unfoldable pub add_rt_route : Addr → Addr → ℕ → ℕ → Router → Router
add_rt_route dst gw mask distance st = record st {
  requests = st.requests ++ new_route dst gw (mask % 256) distance ∷ [];
  timers = st.timers ++ rt_route_t dst gw (mask % 256) distance t_route ∷ [];
}

unfoldable pub del_rt_route : Addr → Addr → ℕ → ℕ → Router → Router
del_rt_route dst gw mask distance st = record st {
  requests = st.requests ++ del_route dst gw (mask % 256) distance ∷ [];
}

-- The handler of the timer of a route, which deletes the entry of the auxiliary list as well.
unfoldable pub del_rt_route2 : Addr → Addr → ℕ → ℕ → Router → Router
del_rt_route2 dst gtw mask distance st = record st {
  requests = st.requests ++ del_route dst gtw (mask % 256) distance ∷ [];
  rt_info = del_rt_info dst gtw st.rt_info;
}

-- `return_from`: its loop over the list.
unfoldable pub delete_routes : Addr → List Route → Router → Router
delete_routes dst [] st = st
delete_routes dst (rt ∷ rest) st =
    delete_routes dst rest (if addr_eq rt.dst dst then del_rt_route rt.dst rt.gtw 128 10 st else st)

-- `MAX_TTL`.
abbrev pub max_ttl : ℕ
max_ttl = 10

unfoldable pub return_from : RtOutside → Packet → Router → Router
return_from out pkt st =
    let st1 = rt_table_dump out st in
    add_rt_route pkt.dst pkt.from 128 max_ttl (delete_routes pkt.dst (routes st1) st1)

-- The loop of `add_src_nat`, which leaves out the last entry.
unfoldable pub has_nat : Addr → List SrcNat → Bool
has_nat dst [] = false
has_nat dst (e ∷ []) = false
has_nat dst (e ∷ f ∷ es) = addr_eq e.dst dst || has_nat dst (f ∷ es)

-- `add_src_nat`. The first node of the table gets no address, and an uninitialised `next`.
unfoldable pub add_src_nat : RtOutside → Addr → Addr → List SrcNat → Run (List SrcNat)
add_src_nat out dst src [] =
    if out.nat_next_null then ok (out.fresh_nat ∷ record { dst = dst; src = src } ∷ []) else crash
add_src_nat out dst src (e ∷ es) =
    if has_nat dst (e ∷ es)
    then ok (e ∷ es)
    else ok ((e ∷ es) ++ record { dst = dst; src = src } ∷ [])
