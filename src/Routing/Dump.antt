-- ===== src/Routing/Dump.antt =====
-- What the list of `rt_table_dump` holds after a dump.
use antop.Base.{
  ℕ, zero, suc, ◌+◌, ◌≡◌, refl, ap, ap₂, ◌∙◌, inl, inr, true, false, List, [], ◌∷◌, ◌++◌, map,
  if◌then◌else◌, length, drop, Bool-cases, arith,
}
use antop.Addr.{Addr}
use antop.Routing.Table.{
  Route, RtMessage, RtOutside, Router, skips, data_cb, next_node, after_next, fill, routes,
  rt_table_dump, or_else,
}

-- A route as the kernel has it: destination, gateway, mask and distance.
abbrev pub View : Type 0
View = Addr × Addr × ℕ × ℕ

abbrev pub view : Route → View
view r = (r.dst, r.gtw, r.dst_mask, r.distance)

-- What a message of the main table makes of a node: an attribute that it lacks stays as it was.
unfoldable pub laid : RtMessage → Route → View
laid m r = (or_else m.dst r.dst, or_else m.gateway r.gtw, m.dst_len, or_else m.priority r.distance)

-- The messages of the main table, in order.
unfoldable pub main_messages : List RtMessage → List RtMessage
main_messages [] = []
main_messages (m ∷ ms) = if skips m then main_messages ms else m ∷ main_messages ms

-- One message is laid over each node, and over fresh ones behind the last.
unfoldable pub overlay : Route → List RtMessage → List Route → List View
overlay fresh [] nodes = []
overlay fresh (m ∷ ms) [] = laid m fresh ∷ overlay fresh ms []
overlay fresh (m ∷ ms) (r ∷ rest) = laid m r ∷ overlay fresh ms rest

skips-inet6 : (m : RtMessage) → skips m ≡ false → m.inet6 ≡ true
unfolding skips
skips-inet6 m h = ground arith

data_cb-view : (m : RtMessage) (r : Route) → skips m ≡ false → view (data_cb m r) ≡ laid m r
unfolding data_cb laid
data_cb-view m r h = rw (h, skips-inet6 m h) refl

-- A message of another table changes nothing that is looked at.
data_cb-laid :
    (m next : RtMessage) (r : Route) → skips m ≡ true → laid next (data_cb m r) ≡ laid next r
unfolding data_cb laid
data_cb-laid m next r h = elim (Bool-cases m.inet6) [
  | inl e ↦ rw (h, e) refl
  | inr e ↦ rw (h, e) refl
]

overlay-skipped :
    (fresh : Route) (m : RtMessage) (ms : List RtMessage) (r : Route) (rest : List Route)
    → skips m ≡ true
    → overlay fresh ms (data_cb m r ∷ rest) ≡ overlay fresh ms (r ∷ rest)
unfolding overlay
overlay-skipped fresh m [] r rest h = refl
overlay-skipped fresh m (next ∷ ms) r rest h =
    ap (λ (v : View). v ∷ overlay fresh ms rest) (data_cb-laid m next r h)

overlay-next_node :
    (fresh : Route) (ms : List RtMessage) (rest : List Route)
    → overlay fresh ms (next_node fresh rest ∷ after_next rest) ≡ overlay fresh ms rest
unfolding overlay next_node after_next
overlay-next_node fresh [] [] = refl
overlay-next_node fresh (m ∷ ms) [] = refl
overlay-next_node fresh [] (r ∷ rest) = refl
overlay-next_node fresh (m ∷ ms) (r ∷ rest) = refl

drop-after_next : (n : ℕ) (rest : List Route) → drop n (after_next rest) ≡ drop (suc n) rest
unfolding after_next
drop-after_next zero [] = refl
drop-after_next (suc n) [] = refl
drop-after_next zero (r ∷ rest) = refl
drop-after_next (suc n) (r ∷ rest) = refl

overlay_cons :
    (fresh : Route) (m : RtMessage) (ms : List RtMessage) (r : Route) (rest : List Route)
    → laid m r ∷ overlay fresh ms rest ≡ overlay fresh (m ∷ ms) (r ∷ rest)
unfolding overlay
overlay_cons fresh m ms r rest = refl

-- The routes, the node that `rt_ptr` points to at the end, and the nodes after it.
abbrev Filled : Route → List RtMessage → Route → List Route → List Route → Type 0
Filled fresh ms rt_ptr rest filled =
    (current : List Route) × (last : Route) × (filled
      ≡ current ++ last ∷ drop (length (main_messages ms)) rest)
    × (map view current ≡ overlay fresh (main_messages ms) (rt_ptr ∷ rest))

fill-Filled :
    (fresh rt_ptr : Route) (ms : List RtMessage) (rest : List Route)
    → Filled fresh ms rt_ptr rest (fill fresh ms rt_ptr rest)
unfolding fill main_messages
fill-Filled fresh rt_ptr [] rest = ([], rt_ptr, refl, unfold overlay in refl)
fill-Filled fresh rt_ptr (m ∷ ms) rest = elim (Bool-cases (skips m)) [
  | inl skip ↦
      let (current, last, parts, views) = fill-Filled fresh (data_cb m rt_ptr) ms rest in
      let same = overlay-skipped fresh m (main_messages ms) rt_ptr rest skip in
      rw skip (current, last, parts, views ∙ same)
  | inr main ↦
      let head = data_cb m rt_ptr in
      let (current, last, parts, views) =
        fill-Filled fresh (next_node fresh rest) ms (after_next rest) in
      let stale = drop-after_next (length (main_messages ms)) rest in
      let next = overlay-next_node fresh (main_messages ms) rest in
      rw main (
        head ∷ current,
        last,
        ap (◌∷◌ head) (parts ∙ ap (λ (old : List Route). current ++ last ∷ old) stale),
        ap₂ ◌∷◌ (data_cb-view m rt_ptr main) (views ∙ next)
            ∙ overlay_cons fresh m (main_messages ms) rt_ptr rest,
      )
]

fill-nonempty :
    (fresh rt_ptr : Route) (ms : List RtMessage) (rest : List Route)
    → next_node fresh (fill fresh ms rt_ptr rest) ∷ after_next (fill fresh ms rt_ptr rest)
      ≡ fill fresh ms rt_ptr rest
unfolding fill next_node after_next
fill-nonempty fresh rt_ptr [] rest = refl
fill-nonempty fresh rt_ptr (m ∷ ms) rest = elim (Bool-cases (skips m)) [
  | inl skip ↦ rw skip (fill-nonempty fresh (data_cb m rt_ptr) ms rest)
  | inr main ↦ rw main refl
]

routes-dump :
    (out : RtOutside) (st : Router)
    → routes (rt_table_dump out st)
      ≡ fill out.fresh_route (out.answer st.requests) st.route_t st.route_rest
unfolding rt_table_dump
routes-dump out st = fill-nonempty out.fresh_route st.route_t (out.answer st.requests) st.route_rest

-- After a dump the list has one node for each route of the main table first, in the kernel's order,
-- where an attribute that the kernel leaves out is what the node had before, then one node that is no
-- route, and then the routes that earlier dumps left in the nodes after it: when there are less
-- routes than there were, old ones are still in the list.
pub rt_table_dump-stale :
    (out : RtOutside) (st : Router)
    → (current : List Route) × (last : Route) × (routes (rt_table_dump out st)
        ≡ current ++ last ∷ drop (length (main_messages (out.answer st.requests)) + 1) (routes st))
      × (map view current
          ≡ overlay out.fresh_route (main_messages (out.answer st.requests)) (routes st))
rt_table_dump-stale out st =
    let ms = out.answer st.requests in
    let (current, last, parts, views) = fill-Filled out.fresh_route st.route_t ms st.route_rest in
    let count : length (main_messages ms) + 1 ≡ suc (length (main_messages ms)) = omega arith in
    (current, last, rw count (routes-dump out st ∙ parts), views)
