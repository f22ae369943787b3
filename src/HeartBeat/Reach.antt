-- ===== src/HeartBeat/Reach.antt =====
-- What a heart beat comes to: no run of `process_hb` crashes, and `send_hb` is silent while the
-- node's fragmentation or mixing is under way.
use antop.Base.{
  ◌≡◌, refl, Bool, true, false, not, ◌&&◌, ◌||◌, ◌==◌, ◌++◌, ◌∷◌, [], List, if◌then◌else◌, arith,
}
use mathlib.Core.List.{append-nil}
use antop.Base.Run.{Run, ok}
use antop.Addr.{addr_eq, dist}
use antop.Node.{Node, CtrlPkt, Outside, Effect, TimerName, t_hb}
use antop.Neighbors.Hearing.{hear-survivors}
use antop.Fragment.{detector_de_fragmentacion}
use antop.Mezcla.{Detected, detector_de_mezcla}
use antop.HeartBeat.{send_hb, changing, keep_neighbor, process_hb_same, process_hb, offer_to}

-- The run returns.
abbrev pub Returns : Run Node → Type 0
Returns r = (t : Node) × (r ≡ ok t)

module _ (out : Outside) (hb : CtrlPkt) where
  if-Returns : (b : Bool) (x y : Run Node) → Returns x → Returns y → Returns (if b then x else y)
  if-Returns true x y p q = p
  if-Returns false x y p q = q

  keep_neighbor-Returns : (flag : Bool) (s : Node) → Returns (keep_neighbor out hb flag s)
  unfolding keep_neighbor
  keep_neighbor-Returns flag s =
      let (table, heard, fresh, kept) =
        hear-survivors out.fresh_neighbor out.fresh_neighbor hb flag s.neigh_table in
      (detector_de_fragmentacion out (record s { neigh_table = table }), rw heard refl)

  process_hb_same-Returns : (s : Node) → Returns (process_hb_same out hb s)
  unfolding process_hb_same
  process_hb_same-Returns s =
      let own = addr_eq hb.prim_addr s.prim_addr || addr_eq hb.prim_addr s.sec_addr in
      let prim_far = not (dist s.prim_addr hb.prim_addr == 1) && s.prim_addr_flag in
      let sec_far = not (dist s.sec_addr hb.prim_addr == 1) in
      let near = keep_neighbor out hb false s in
      let linked = keep_neighbor out hb true s in
      let by_prim = ok (offer_to out s.prim_addr hb s) in
      let by_sec = ok (offer_to out s.sec_addr hb s) in
      let r2 = if sec_far then by_sec else linked in
      let r1 = if not s.sec_addr_flag then by_prim else r2 in
      if-Returns own (ok s) (if not prim_far then near else r1) (s, refl)
        (if-Returns (not prim_far) near r1 (keep_neighbor-Returns false s) (
          if-Returns (not s.sec_addr_flag) by_prim r2 (offer_to out s.prim_addr hb s, refl)
            (if-Returns sec_far by_sec linked (offer_to out s.sec_addr hb s, refl)
              (keep_neighbor-Returns true s))))

  by_result :
      (d : Detected) (n : Node) (heard : Run Node)
      → Returns heard
      → Returns (elim d [
        | Detected.mixed ↦ ok n
        | Detected.lower_network ↦ ok n
        | Detected.same_network ↦ heard
        | Detected.not_returned ↦ if out.fell_off then ok n else heard
      ])
  by_result Detected.mixed n heard u = (n, refl)
  by_result Detected.lower_network n heard u = (n, refl)
  by_result Detected.same_network n heard u = u
  by_result Detected.not_returned n heard u = if-Returns out.fell_off (ok n) heard (n, refl) u

  -- `process_hb` reads through no null pointer: every heart beat is taken in, whatever the node's
  -- state, its table of neighbours null or not, and whatever value is left by a function that ends
  -- without `return`.
  pub process_hb-Returns : (s : Node) → Returns (process_hb out hb s)
  unfolding process_hb
  process_hb-Returns s =
      let r = detector_de_mezcla out hb s in
      if-Returns (changing s) (ok s) _ (s, refl)
        (by_result r.1 r.0 (process_hb_same out hb r.0) (process_hb_same-Returns r.0))

-- The timer's effect, if the timer is to be started.
abbrev pub timer_effects : Bool → List Effect
timer_effects timer = if timer then Effect.start_timer TimerName.hb_t t_hb ∷ [] else []

-- While the fragmentation or the mixing is under way `send_hb` changes nothing and sends nothing: its
-- one effect is to start the timer, if it is asked to.
pub send_hb-changing :
    (out : Outside) (timer : Bool) (s : Node)
    → changing s ≡ true
    → send_hb out timer s ≡ record s { effects = s.effects ++ timer_effects timer }
unfolding send_hb changing
send_hb-changing out true s h = rw h (rw h refl)
send_hb-changing out false s h = rw h (rw h (ground (arith, append-nil s.effects)))
