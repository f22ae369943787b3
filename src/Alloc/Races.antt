-- ===== src/Alloc/Races.antt =====
-- Where the exchange goes wrong: two requests at once, and recovered addresses.
use antop.Base.{◌+◌, ◌≡◌, ◌<◌, List, [], ◌∷◌, none, some, arith}
use antop.Addr.{Addr}
use antop.Node.{Node, CtrlPkt}
use antop.Alloc.Protocol.{
  send_pap, pap_own, process_pan, pan_pkt, send_panc, confirm, offered, last_rcvd, adopt,
}
use antop.Alloc.Network.{IsFresh, addr_eq_refl}

-- The proposal to the second of two nodes that both ask before either accepts.
abbrev pub second_pap : CtrlPkt → CtrlPkt → Addr → Node → CtrlPkt
second_pap fresh fresh' d s = pap_own fresh' (send_pap fresh d s)

-- The PAN of the node at `d` for a proposal.
abbrev pub accepted : Addr → CtrlPkt → CtrlPkt
accepted d p = pan_pkt d p.prim_addr p.ad_addr.addr p.ad_addr.red_numero

-- The parent after PAR, PAR, PAN, PAN.
abbrev pub raced : CtrlPkt → CtrlPkt → Addr → Addr → Node → Node
raced fresh fresh' d d' s =
    process_pan fresh' (accepted d' (second_pap fresh fresh' d s))
      (process_pan fresh (accepted d (pap_own fresh s)) (send_pap fresh' d' (send_pap fresh d s)))

-- A parent that answers a second PAR before the PAN of the first proposes the same address and
-- mask again, and confirms both PANs: two children join with one address, and the parent's mask
-- grows by two. The parent has never recovered an address, and has two dimensions left.
pub two_children_same_addr :
    (fresh fresh' : CtrlPkt) (d d' : Addr) (s blank blank' : Node)
    → IsFresh s
    → s.prim_mask + 1 < s.hc_dim
    → ((adopt (pap_own fresh s) blank).prim_addr
        ≡ (adopt (second_pap fresh fresh' d s) blank').prim_addr)
      × ((adopt (pap_own fresh s) blank).prim_mask
          ≡ (adopt (second_pap fresh fresh' d s) blank').prim_mask)
      × ((raced fresh fresh' d d' s).prim_mask ≡ s.prim_mask + 2)
unfolding send_pap pap_own process_pan pan_pkt send_panc confirm offered last_rcvd adopt
two_children_same_addr fresh fresh' d d' s blank blank' v h =
    ground (arith, addr_eq_refl s.prim_addr)

-- What a node receives from those that ask it for an address.
pub data Request : Type 0 where
  asks : CtrlPkt → Addr → Request
  accepts : CtrlPkt → CtrlPkt → Request

unfoldable pub handle : Request → Node → Node
unfolding send_pap process_pan
handle (asks fresh dst) s = send_pap fresh dst s
handle (accepts fresh msg) s = process_pan fresh msg s

unfoldable pub handle_all : List Request → Node → Node
unfolding handle
handle_all [] s = s
handle_all (r ∷ rs) s = handle_all rs (handle r s)

handle-offered :
    (r : Request) (s : Node) (a : Addr)
    → s.rcvd_offered ≡ some a
    → (handle r s).rcvd_offered ≡ some a
unfolding handle
handle-offered (asks fresh dst) s a h = ground arith
handle-offered (accepts fresh msg) s a h = ground arith

-- `rcvd_offered` is never reset: once a recovered address has been offered, no later PAP offers
-- one, whatever is asked and accepted in between.
pub handle_all-offered :
    (rs : List Request) (s : Node) (a : Addr)
    → s.rcvd_offered ≡ some a
    → offered (handle_all rs s) ≡ none
unfolding handle_all offered
handle_all-offered [] s a h = ground arith
handle_all-offered (r ∷ rs) s a h = handle_all-offered rs (handle r s) a (handle-offered r s a h)
