-- ===== src/Mezcla.antt =====
-- mezcla.c: two networks that meet become one. The node that hears a network of a higher number
-- takes the default address and asks that network for space (MAR1), and the addresses of the
-- network that is entered are moved below it (MAR1, MAR2, answered by MAN1, MAN2).
pub mod Requests
pub mod Grants
pub mod Answers
pub mod Return
use antop.Base.{
  ℕ, zero, suc, ◌+◌, ◌-◌, ◌%◌, bit_or, List, [], ◌∷◌, Bool, true, false, not, ◌&&◌, ◌==◌, ltb,
  Option, none, some, if◌then◌else◌, map,
}
use antop.Base.Run.{Run}
use antop.Addr.{Addr, addr_eq, null_addr}
use antop.Node.{
  Node, CtrlPkt, RecoveredAddr, Outside, Effect, emit, all_nodes, mar1, mar2, man1, man2, sub8,
}
use antop.Alloc.Protocol.{del_rcvd_addr_table}
use antop.Names.Servers.{register_rv}
use antop.Shift.{shift, shift_unos, zip_words, del_and_addnew}

-- The packet that the four `send_` functions fill.
unfoldable pub mezcla_pkt : Outside → ℕ → Addr → Addr → Addr → ℕ → ℕ → CtrlPkt
mezcla_pkt out type_f src prim_addr dst mask red_numero = record (out.fresh_pkt) {
  pkt_type_f = type_f;
  src_addr = src;
  prim_addr = prim_addr;
  ad_addr = record (out.fresh_pkt.ad_addr) { addr = dst; mask = mask; red_numero = red_numero };
}

-- `send_mar1(sock, prim_addr, dst, src, mask, t_lenght)`: to all nodes from the default address.
unfoldable pub send_mar1 : Outside → Addr → Addr → Addr → ℕ → ℕ → Node → Node
unfolding mezcla_pkt
send_mar1 out prim_addr dst src mask t_lenght s =
    let pkt = mezcla_pkt out mar1 src prim_addr dst mask s.red_numero in
    let pkt' = record pkt { ad_addr = record (pkt.ad_addr) { t_lenght = t_lenght } } in
    let to = if addr_eq prim_addr s.dir_default then all_nodes else dst in
    emit (Effect.send pkt' to 20) s

-- `send_mar2(sock, prim_addr, dst, src, mask)`.
unfoldable pub send_mar2 : Outside → Addr → Addr → Addr → ℕ → Node → Node
unfolding mezcla_pkt
send_mar2 out prim_addr dst src mask s =
    emit (Effect.send (mezcla_pkt out mar2 src prim_addr dst mask s.red_numero) dst 20) s

-- `send_man1(sock, src, dst, src_orig, mask_orig, red_num)`.
unfoldable pub send_man1 : Outside → Addr → Addr → Addr → ℕ → ℕ → Node → Node
unfolding mezcla_pkt
send_man1 out src dst src_orig mask_orig red_num =
    emit (Effect.send (mezcla_pkt out man1 src_orig src dst mask_orig red_num) dst 20)

-- `send_man2(sock, src, dst, src_orig, mask_orig, red_num)`.
unfoldable pub send_man2 : Outside → Addr → Addr → Addr → ℕ → ℕ → Node → Node
unfolding mezcla_pkt
send_man2 out src dst src_orig mask_orig red_num =
    emit (Effect.send (mezcla_pkt out man2 src_orig src dst mask_orig red_num) dst 20)

-- The loop of `mezcla` over the recovered spaces: the first one of a mask that is not 0.
unfoldable pub returned_space : List RecoveredAddr → Option RecoveredAddr
returned_space [] = none
returned_space (it ∷ rest) = if it.prim_mask == 0 then returned_space rest else some it

-- `delay`.
unfoldable pub delay : Node → Node
delay = emit (Effect.sleep 2)

-- `mezcla` once the mask to propose is known. `del_and_addnew` is called when `prim_addr` is the
-- default address already.
unfoldable pub ask_to_enter : Outside → Addr → ℕ → Node → Node
unfolding delay del_and_addnew send_mar1
ask_to_enter out dst mask_a_proponer s =
    let s1 = delay (record s { flag_mezcla = true }) in
    let s2 = record s1 { prim_addr_aux = s.prim_addr; prim_addr = s.dir_default } in
    let s3 = emit (Effect.sleep 2) (del_and_addnew s2.prim_addr s2.dir_default 2 s2) in
    send_mar1 out s3.prim_addr dst s3.prim_addr_aux mask_a_proponer 0 s3

-- `mezcla(dst)`.
unfoldable pub mezcla : Outside → Addr → Node → Node
unfolding returned_space del_rcvd_addr_table ask_to_enter
mezcla out dst s = elim (returned_space s.rcvd_addr) [
  | none ↦ ask_to_enter out dst s.prim_mask s
  | some it ↦ ask_to_enter out dst (it.prim_mask - 1) (del_rcvd_addr_table it.prim_addr s).0
]

-- What `detector_de_mezcla` returns. When the other network's number is higher and the node is not
-- ready, the function ends without a `return`: its value is unknown.
pub data Detected : Type 0 where
  mixed same_network lower_network not_returned : Detected

-- `detector_de_mezcla`.
unfoldable pub detector_de_mezcla : Outside → CtrlPkt → Node → Node × Detected
unfolding mezcla
detector_de_mezcla out hb s =
    let unknown : Node × Detected = (s, Detected.not_returned) in
    let same : Node × Detected = (s, Detected.same_network) in
    let lower : Node × Detected = (s, Detected.lower_network) in
    let entered : Node × Detected = (mezcla out hb.prim_addr s, Detected.mixed) in
    if ltb s.red_numero hb.ad_addr.red_numero && not s.flag_conexion && s.flag_init
    then entered
    else if s.red_numero == hb.ad_addr.red_numero
    then same
    else if ltb hb.ad_addr.red_numero s.red_numero
    then lower
    else unknown

-- The address whose first bit alone is 1.
abbrev pub first_bit : Addr
first_bit = record (null_addr) { w0 = 0x0080 }

-- `shift_mezcla(src, addr, src_mask, mf)`: the address that a node of the entering network gets.
unfoldable pub shift_mezcla : ℕ → Addr → Addr → Addr → ℕ → ℕ → Addr
unfolding shift shift_unos zip_words
shift_mezcla hc_dim root src addr src_mask zero =
    let uno = shift_unos 0 (128 + src_mask - hc_dim) first_bit in
    let aux = shift hc_dim 0 (src_mask + 1) root addr in
    zip_words bit_or (zip_words bit_or aux uno) src
shift_mezcla hc_dim root src addr src_mask (suc mf) =
    let aux = shift hc_dim 1 mf root addr in zip_words bit_or (shift hc_dim 0 src_mask root aux) src

-- The recovered spaces move with the node.
unfoldable pub mix_rcvd : ℕ → Addr → Addr → ℕ → ℕ → List RecoveredAddr → List RecoveredAddr
unfolding shift_mezcla
mix_rcvd hc_dim root src mask mf = map (λ (it : RecoveredAddr). record {
  prim_mask = sub8 (it.prim_mask + mask + 1) mf;
  prim_addr = shift_mezcla hc_dim root src it.prim_addr mask mf;
})

-- The end of the process, and the registration of the names.
unfoldable pub end_mezcla : Outside → Node → Run Node
unfolding register_rv
end_mezcla out s =
    register_rv out (record s {
      flag_mezcla = false;
      flag_mezcla_primaria = false;
      flag_mezcla_secundaria = false;
    })
