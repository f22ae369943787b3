-- ===== src/Routing/Verdict.antt =====
-- Which packets `route` drops.
use antop.Base.{
  ℕ, ◌≡◌, ◌↔◌, ◌≢◌, refl, sym, ◌∙◌, inl, inr, Bool, true, false, not, ◌&&◌, ◌==◌, ==_iff, Option,
  none, some, Bool-cases, Option-cases, arith, subst,
}
use antop.Base.Run.{Run, ok, crash, ◌>>=◌, Run-cases}
use antop.Addr.{addr_eq}
use antop.Node.{Node}
use antop.Routing.{Packet, rv_accept, rv_drop, rv_route}
use antop.Routing.Local.{serves, rv_route-drop_iff}
use antop.Routing.Entries.{add_rt_info}
use antop.Routing.Table.{Route, RtOutside, Router, routes, rt_table_dump, add_rt_route}
use antop.Routing.Forward.{send_to_next_neighbor}
use antop.Routing.Hooks.{
  Hook, is_pre_routing, Verdict, leaves_alone, is_rv, bounce, route, route_rv, route_packet,
  route_reverse, after_scan, route_on, join, join_or_end, accept_sent, first_leading, find_route,
  scan_reverse, Scan, looping, scanned, new_reverse, hops_done, wants_reverse,
}

-- It does not return `RV_DROP`.
abbrev Keeps : Run Verdict → Type 0
Keeps crash = Unit {0}
Keeps (ok (pkt, st, v)) = v ≢ some rv_drop

Keeps-bind :
    {A : Type 0} (r : Run A) (next : A → Run Verdict)
    → ((a : A) → Keeps (next a))
    → Keeps (r >>= next)
Keeps-bind crash next h = tt
Keeps-bind (ok a) next h = h a

Keeps-accept : (pkt : Packet) (st : Router) → Keeps (ok (pkt, st, some rv_accept))
Keeps-accept pkt st e = cc

Keeps-end : (pkt : Packet) (st : Router) → Keeps (ok (pkt, st, none))
Keeps-end pkt st e = cc

join-Keeps :
    (out : RtOutside) (pkt : Packet) (reverse : Route) (st : Router)
    → Keeps (join out pkt reverse st)
unfolding join
join-Keeps out pkt reverse st =
    let st1 = rt_table_dump out st in
    elim (Option-cases (find_route reverse.dst reverse.gtw 0 (routes st1))) [
      | inl e ↦ rw (Keeps, e) (Keeps-accept pkt st1)
      | inr ((i, rt), e) ↦
          rw (Keeps, e)
            (Keeps-bind (add_rt_info out.fresh_info out.stack rt.dst (some pkt.src) i st1.rt_info) _
              (λ r. λ h. cc))
    ]

join_or_end-Keeps :
    (out : RtOutside) (reverse : Option Route) (r : Packet × Router)
    → Keeps (join_or_end out reverse r)
unfolding join_or_end
join_or_end-Keeps out none (pkt, st) = Keeps-end pkt st
join_or_end-Keeps out (some reverse) (pkt, st) = join-Keeps out pkt reverse st

route_on-Keeps :
    (out : RtOutside) (hook : Hook) (pkt : Packet) (reverse : Option Route) (st : Router)
    → Keeps (route_on out hook pkt reverse st)
unfolding route_on
route_on-Keeps out hook pkt reverse st =
    let st1 = rt_table_dump out st in
    elim (Bool-cases (addr_eq pkt.dst st.node.prim_addr)) [
      | inl here ↦ rw here (Keeps-accept pkt st)
      | inr away ↦ elim (Option-cases (first_leading pkt.dst 0 (routes st1))) [
        | inl e ↦
            rw (away, e)
              (Keeps-bind (send_to_next_neighbor out pkt st1) accept_sent
                (λ r. Keeps-accept r.0 r.1))
        | inr ((k, rt), e) ↦
            rw (away, e) (Keeps-bind _ (join_or_end out reverse) (join_or_end-Keeps out reverse))
      ]
    ]

after_scan-Keeps :
    (out : RtOutside) (hook : Hook) (pkt : Packet) (scan : Scan)
    → Keeps (after_scan out hook pkt scan)
unfolding after_scan
after_scan-Keeps out hook pkt (looping st) =
    Keeps-accept (bounce out pkt st).0 (bounce out pkt st).1
after_scan-Keeps out hook pkt (scanned (some rt) st) = route_on-Keeps out hook pkt (some rt) st
after_scan-Keeps out hook pkt (scanned none st) =
    route_on-Keeps out hook pkt (some (new_reverse out pkt))
      (add_rt_route pkt.src pkt.from 128 (hops_done pkt) st)

route_reverse-Keeps :
    (out : RtOutside) (hook : Hook) (pkt : Packet) (st : Router)
    → Keeps (route_reverse out hook pkt st)
unfolding route_reverse
route_reverse-Keeps out hook pkt st =
    let st1 = rt_table_dump out st in
    after_scan-Keeps out hook pkt (scan_reverse pkt (hops_done pkt) 0 (routes st1) none st1)

route_packet-Keeps :
    (out : RtOutside) (hook : Hook) (pkt : Packet) (st : Router)
    → Keeps (route_packet out hook pkt st)
unfolding route_packet
route_packet-Keeps out hook pkt st = elim (Bool-cases (wants_reverse hook pkt st.node)) [
  | inl e ↦ rw e (route_reverse-Keeps out hook pkt st)
  | inr e ↦ rw e (route_on-Keeps out hook pkt none st)
]

-- The packets that `route` takes from the routing.
unfoldable pub taken : Hook → Packet → Node → Bool
taken hook pkt s =
    not (leaves_alone pkt s)
    && not (is_pre_routing hook && addr_eq pkt.src s.prim_addr)
    && is_rv pkt s
    && not (addr_eq pkt.dst s.prim_addr)
    && serves pkt.dst s

-- What was taken is dropped, and what was not is not.
Keeps-value :
    (r : Run Verdict) (pkt : Packet) (st : Router) (v : Option ℕ)
    → Keeps r
    → r ≡ ok (pkt, st, v)
    → v ≢ some rv_drop
Keeps-value r pkt st v k e = subst Keeps e k

-- Neither side holds, or both do.
neither : (b : Bool) (v : Option ℕ) → b ≡ false → v ≢ some rv_drop → (v ≡ some rv_drop) ↔ (b ≡ true)
neither b v e n = (λ d. absurd (n d), λ t. absurd (ground arith))

both : (b : Bool) (v : Option ℕ) → b ≡ true → v ≡ some rv_drop → (v ≡ some rv_drop) ↔ (b ≡ true)
both b v e d = (λ h. e, λ h. d)

verdict_of :
    (r : Verdict) (pkt : Packet) (st : Router) (v : Option ℕ) → ok r ≡ ok (pkt, st, v) → r.2 ≡ v
verdict_of r pkt st v h = cc

crash_ok : (r : Verdict) → crash ≡ ok r → ⊥
crash_ok r h = cc

route_rv-drop_iff :
    (out : RtOutside) (hook : Hook) (pkt pkt' : Packet) (st st' : Router) (v : Option ℕ)
    → route_rv out hook pkt st ≡ ok (pkt', st', v)
    → (v ≡ some rv_drop) ↔ (
        (is_rv pkt st.node && not (addr_eq pkt.dst st.node.prim_addr) && serves pkt.dst st.node)
        ≡ true)
unfolding route_rv
route_rv-drop_iff out hook pkt pkt' st st' v h =
    let asked = is_rv pkt st.node && not (addr_eq pkt.dst st.node.prim_addr) in
    let served = asked && serves pkt.dst st.node in
    elim (Bool-cases asked) [
      | inr e ↦
          let plain = route_packet-Keeps out hook pkt st in
          neither served v (ground arith)
            (Keeps-value (route_packet out hook pkt st) pkt' st' v plain (sym (rw e refl) ∙ h))
      | inl e ↦ elim (Run-cases (rv_route out.node pkt st.node)) [
        | inl c ↦ absurd (crash_ok (pkt', st', v) (sym (rw (e, c) refl) ∙ h))
        | inr ((s, n), r) ↦
            let st1 : Router = record st { node = s } in
            let iff = rv_route-drop_iff out.node pkt st.node s n r in
            let dropped : Verdict = (pkt, st1, some rv_drop) in
            elim (Bool-cases (n == rv_drop)) [
              | inl d ↦
                  both served v (ground (arith, e, iff.0 ((==_iff n rv_drop).0 d)))
                    (sym (verdict_of dropped pkt' st' v (sym (rw (e, r, d) refl) ∙ h)))
              | inr d ↦ neither served v (ground (arith, e, d, iff.1)) (
                  Keeps-value (route_packet out hook pkt st1) pkt' st' v
                    (route_packet-Keeps out hook pkt st1) (sym (rw (e, r, d) refl) ∙ h))
            ]
      ]
    ]

taken-rv :
    (hook : Hook) (pkt : Packet) (s : Node)
    → leaves_alone pkt s ≡ false
    → (is_pre_routing hook && addr_eq pkt.src s.prim_addr) ≡ false
    → taken hook pkt s ≡ (is_rv pkt s && not (addr_eq pkt.dst s.prim_addr) && serves pkt.dst s)
unfolding taken
taken-rv hook pkt s a b = ground arith

-- When `route` returns, it returns `RV_DROP` exactly for a rendezvous packet that is not for the node
-- itself, is in a space that the node serves, and is not left alone by the first tests, nor a packet
-- of the node that came back.
pub route-drop_iff :
    (out : RtOutside) (hook : Hook) (pkt pkt' : Packet) (st st' : Router) (v : Option ℕ)
    → route out hook pkt st ≡ ok (pkt', st', v)
    → (v ≡ some rv_drop) ↔ (taken hook pkt st.node ≡ true)
unfolding route
route-drop_iff out hook pkt pkt' st st' v h = elim (Bool-cases (leaves_alone pkt st.node)) [
  | inl alone ↦
      let kept : Verdict = (pkt, st, some rv_accept) in
      neither (taken hook pkt st.node) v (unfold taken in ground arith)
        (Keeps-value (ok kept) pkt' st' v (Keeps-accept pkt st) (sym (rw alone refl) ∙ h))
  | inr not_alone ↦ elim (Bool-cases (is_pre_routing hook && addr_eq pkt.src st.node.prim_addr)) [
    | inl own ↦
        let (pkt1, st1) = bounce out pkt st in
        let kept : Verdict = (pkt1, st1, some rv_accept) in
        neither (taken hook pkt st.node) v (unfold taken in ground arith) (
          Keeps-value (ok kept) pkt' st' v (Keeps-accept pkt1 st1)
            (sym (rw (not_alone, own) refl) ∙ h))
    | inr foreign ↦
        let iff =
          route_rv-drop_iff out hook pkt pkt' st st' v (sym (rw (not_alone, foreign) refl) ∙ h) in
        let same = taken-rv hook pkt st.node not_alone foreign in
        (λ d. same ∙ iff.0 d, λ t. iff.1 (sym same ∙ t))
  ]
]
