-- ===== src/Mezcla/Return.antt =====
-- The node that asked to enter another network, and the MAN1 that answers it.
use antop.Base.{
  ℕ, ◌+◌, ◌-◌, ◌%◌, ◌≡◌, refl, inl, inr, true, false, ◌==◌, if◌then◌else◌, arith, Option-cases, ap,
  ◌∙◌,
}
use antop.Base.Run.{ok}
use antop.Addr.{Addr, addr_eq}
use antop.Alloc.Network.{addr_eq_refl}
use antop.Alloc.Protocol.{del_rcvd_addr_table}
use antop.Node.{Node, CtrlPkt, Outside}
use antop.Shift.{del_and_addnew}
use antop.Mezcla.{mezcla, ask_to_enter, returned_space, delay, send_mar1}
use antop.Mezcla.Answers.{process_man1, enter, leave_default}

-- The node waits under the default address, with its own one kept aside.
pub record Waits (s t : Node) : Type 0 where
  pub on : t.flag_mezcla ≡ true
  pub default : t.prim_addr ≡ s.dir_default
  pub aux : t.prim_addr_aux ≡ s.prim_addr
  pub same_default : t.dir_default ≡ s.dir_default
  pub same_mask : t.prim_mask ≡ s.prim_mask

ask_to_enter-Waits :
    (out : Outside) (dst : Addr) (mask : ℕ) (s : Node) → Waits s (ask_to_enter out dst mask s)
unfolding ask_to_enter delay send_mar1 del_and_addnew
ask_to_enter-Waits out dst mask s = record {
  on = refl;
  default = refl;
  aux = refl;
  same_default = refl;
  same_mask = refl;
}

mezcla-Waits : (out : Outside) (dst : Addr) (s : Node) → Waits s (mezcla out dst s)
unfolding mezcla
mezcla-Waits out dst s = elim (Option-cases (returned_space s.rcvd_addr)) [
  | inl e ↦ rw (mezcla, e) (ask_to_enter-Waits out dst s.prim_mask s)
  | inr (it, e) ↦
      rw (mezcla, e)
        (let w =
            ask_to_enter-Waits out dst (it.prim_mask - 1) (del_rcvd_addr_table it.prim_addr s).0 in
          record {
            on = w.on;
            default = w.default;
            aux = w.aux;
            same_default = w.same_default;
            same_mask = w.same_mask;
          })
]

enter-fields :
    (msg : CtrlPkt) (t : Node)
    → t.flag_mezcla ≡ true
    → addr_eq t.prim_addr t.dir_default ≡ true
    → ((enter msg t).prim_addr ≡ t.prim_addr_aux)
      × ((enter msg t).flag_mezcla ≡ false)
      × ((enter msg t).prim_mask
          ≡ (if msg.ad_addr.mask == t.prim_mask then (t.prim_mask + 1) % 256 else t.prim_mask))
unfolding enter leave_default del_and_addnew
enter-fields msg t on default = ground arith

process_man1-done :
    (out : Outside) (msg : CtrlPkt) (t : Node)
    → (enter msg t).flag_mezcla ≡ false
    → process_man1 out msg t ≡ ok (enter msg t)
unfolding process_man1
process_man1-done out msg t off = rw off refl

-- The node that asks to enter another network, and is answered by a MAN1, has its own address again
-- and is no longer mixing, and its mask is one longer if the answer carries that mask.
pub mezcla-process_man1 :
    (out : Outside) (dst : Addr) (msg : CtrlPkt) (s : Node)
    → (u : Node) × (process_man1 out msg (mezcla out dst s) ≡ ok u)
      × (u.prim_addr ≡ s.prim_addr)
      × (u.flag_mezcla ≡ false)
      × (u.prim_mask
          ≡ (if msg.ad_addr.mask == s.prim_mask then (s.prim_mask + 1) % 256 else s.prim_mask))
mezcla-process_man1 out dst msg s =
    let t = mezcla out dst s in
    let w = mezcla-Waits out dst s in
    let at_default : addr_eq t.prim_addr t.dir_default ≡ true =
      rw (w.default, w.same_default) (addr_eq_refl s.dir_default) in
    let (back, off, mask) = enter-fields msg t w.on at_default in
    (
      enter msg t,
      process_man1-done out msg t off,
      back ∙ w.aux,
      off,
      mask ∙ ap (λ (m : ℕ). if msg.ad_addr.mask == m then (m + 1) % 256 else m) w.same_mask,
    )
