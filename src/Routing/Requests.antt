-- ===== src/Routing/Requests.antt =====
-- The requests that the routing makes when it sends a packet back where it came from.
use antop.Base.{◌%◌, ◌≡◌, sym, ap, ◌∙◌, inl, inr, List, [], ◌∷◌, ◌++◌, if◌then◌else◌, Bool-cases}
use mathlib.Core.List.{append-nil, append_assoc}
use antop.Addr.{Addr, addr_eq}
use antop.Routing.{Packet}
use antop.Routing.Table.{
  Route, Request, new_route, del_route, RtOutside, Router, routes, rt_table_dump, add_rt_route,
  del_rt_route, delete_routes, return_from, max_ttl,
}
use antop.Routing.Forward.{replace_routes, send_back}

-- One request to delete for each route to the destination.
unfoldable pub deletions : Addr → List Route → List Request
deletions dst [] = []
deletions dst (rt ∷ rest) =
    let later = deletions dst rest in
    if addr_eq rt.dst dst then del_route rt.dst rt.gtw 128 max_ttl ∷ later else later

-- Two for each: the new one is added, and the old one deleted.
unfoldable pub replacements : Addr → Addr → List Route → List Request
replacements dst nh [] = []
replacements dst nh (rt ∷ rest) =
    let later = replacements dst nh rest in
    if addr_eq rt.dst dst
    then new_route rt.dst nh 128 rt.distance
      ∷ del_route rt.dst rt.gtw (rt.dst_mask % 256) rt.distance
      ∷ later
    else later

-- A request at the end of the log, or at the start of what follows.
snoc : (rs ls : List Request) (r : Request) → rs ++ r ∷ [] ++ ls ≡ rs ++ (r ∷ ls)
snoc rs ls r = append_assoc rs (r ∷ []) ls

delete_routes-requests :
    (dst : Addr) (rs : List Route) (st : Router)
    → (delete_routes dst rs st).requests ≡ st.requests ++ deletions dst rs
unfolding delete_routes deletions del_rt_route
delete_routes-requests dst [] st = sym (append-nil st.requests)
delete_routes-requests dst (rt ∷ rest) st = elim (Bool-cases (addr_eq rt.dst dst)) [
  | inl e ↦
      let last = del_route rt.dst rt.gtw 128 max_ttl in
      let later = delete_routes-requests dst rest (del_rt_route rt.dst rt.gtw 128 max_ttl st) in
      rw (delete_routes, deletions, e) (later ∙ snoc st.requests (deletions dst rest) last)
  | inr e ↦ rw (delete_routes, deletions, e) (delete_routes-requests dst rest st)
]

replace_routes-requests :
    (dst nh : Addr) (rs : List Route) (st : Router)
    → (replace_routes dst nh rs st).requests ≡ st.requests ++ replacements dst nh rs
unfolding replace_routes replacements del_rt_route add_rt_route
replace_routes-requests dst nh [] st = sym (append-nil st.requests)
replace_routes-requests dst nh (rt ∷ rest) st = elim (Bool-cases (addr_eq rt.dst dst)) [
  | inl e ↦
      let new = new_route rt.dst nh 128 rt.distance in
      let old = del_route rt.dst rt.gtw (rt.dst_mask % 256) rt.distance in
      let st1 = add_rt_route rt.dst nh 128 rt.distance st in
      let st2 = del_rt_route rt.dst rt.gtw rt.dst_mask rt.distance st1 in
      let later = replace_routes-requests dst nh rest st2 in
      let ls = replacements dst nh rest in
      rw (replace_routes, replacements, e)
        (later ∙ snoc (st.requests ++ new ∷ []) ls old ∙ snoc st.requests (old ∷ ls) new)
  | inr e ↦ rw (replace_routes, replacements, e) (replace_routes-requests dst nh rest st)
]

-- When all neighbours were visited the packet goes back to the address that it came from, whatever
-- the reverse routes are: each route to its destination is replaced by one over that address.
pub send_back-requests :
    (out : RtOutside) (pkt : Packet) (st : Router)
    → ((send_back out pkt st).1).requests
      ≡ st.requests
        ++ replacements pkt.dst pkt.from (routes (rt_table_dump out (rt_table_dump out st)))
unfolding send_back rt_table_dump
send_back-requests out pkt st =
    let st2 = rt_table_dump out (rt_table_dump out st) in
    replace_routes-requests pkt.dst pkt.from (routes st2) st2

-- `return_from` deletes each route to the destination of the packet, with the distance 10 whatever the
-- route's is, and adds one over the address that the packet came from.
pub return_from-requests :
    (out : RtOutside) (pkt : Packet) (st : Router)
    → (return_from out pkt st).requests
      ≡ st.requests
        ++ deletions pkt.dst (routes (rt_table_dump out st))
        ++ new_route pkt.dst pkt.from 128 max_ttl ∷ []
unfolding return_from add_rt_route rt_table_dump
return_from-requests out pkt st =
    let st1 = rt_table_dump out st in
    let last = new_route pkt.dst pkt.from 128 max_ttl ∷ [] in
    let deleted = delete_routes-requests pkt.dst (routes st1) st1 in
    ap (λ (rs : List Request). rs ++ last) deleted
