-- ===== src/Routing/Local.antt =====
-- Which rendezvous packets a node answers itself.
use antop.Base.{
  ℕ, ◌≡◌, ◌↔◌, refl, sym, ◌∙◌, ap, inl, inr, Bool, true, not, ◌||◌, some_elem, if◌then◌else◌, arith,
  Bool-cases,
}
use antop.Base.Run.{Run, ok, crash, ◌>>=◌}
use antop.Addr.{Addr}
use antop.Node.{Node, RecoveredAddr, Outside}
use antop.Routing.{Packet, in_space, rv_accepts, rv_accept, rv_drop, rv_route, process_rv, payload}

-- The destination is in the node's own space or, with a secondary address, in that one's space or,
-- without one, in a recovered space.
unfoldable pub serves : Addr → Node → Bool
unfolding in_space
serves addr s =
    let recovered =
      some_elem (λ (r : RecoveredAddr). in_space addr r.prim_addr r.prim_mask) s.rcvd_addr in
    in_space addr s.prim_addr s.prim_mask
    || (if s.sec_addr_flag then in_space addr s.sec_addr s.sec_mask else recovered)

serves-accepts : (addr : Addr) (s : Node) → serves addr s ≡ not (rv_accepts addr s)
unfolding serves rv_accepts
serves-accepts addr s = ground arith

-- What is processed is dropped, and what is not processed is accepted.
abbrev dropped : Node → Run (Node × ℕ)
dropped u = ok (u, rv_drop)

dropped-rv_drop : (r : Run Node) (t : Node) (n : ℕ) → (r >>= dropped) ≡ ok (t, n) → n ≡ rv_drop
dropped-rv_drop crash t n h = cc
dropped-rv_drop (ok u) t n h = cc

passed-rv_accept :
    (s t : Node) (n : ℕ) (r : Node × ℕ) → r ≡ (s, rv_accept) → ok r ≡ ok (t, n) → n ≡ rv_accept
passed-rv_accept s t n r e h = cc

-- A rendezvous packet is kept from the routing exactly when its destination is in the node's own
-- space or, with a secondary address, in that one's space or, without one, in a recovered space: a
-- node with a secondary address passes on what is for a recovered space of its own.
pub rv_route-drop_iff :
    (out : Outside) (pkt : Packet) (s t : Node) (n : ℕ)
    → rv_route out pkt s ≡ ok (t, n)
    → (n ≡ rv_drop) ↔ (serves pkt.dst s ≡ true)
unfolding rv_route
rv_route-drop_iff out pkt s t n h = elim (Bool-cases (rv_accepts pkt.dst s)) [
  | inl e ↦
      let passed : Node × ℕ = (s, rv_accept) in
      let accepted = passed-rv_accept s t n passed refl (sym (rw e refl) ∙ h) in
      let refused = serves-accepts pkt.dst s ∙ ap not e in
      (λ d. absurd (omega (arith, accepted, d)), λ d. absurd (ground (arith, refused, d)))
  | inr e ↦ (
    λ d. serves-accepts pkt.dst s ∙ ap not e,
    λ d. dropped-rv_drop (process_rv out (payload pkt s) s) t n (sym (rw e refl) ∙ h),
  )
]
