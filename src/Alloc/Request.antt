-- ===== src/Alloc/Request.antt =====
-- The asking side, `get_prim_addr`: gathering proposals, and what it does with them. The packets
-- that `receive_pap` reads before the timer expires are a list.
use antop.Base.{
  ℕ, zero, suc, ◌≤◌, ◌≡◌, refl, Bool, true, false, ◌⊎◌, inl, List, [], ◌∷◌, ◌++◌, arith, leb, ◌==◌,
  if◌then◌else◌, length,
}
use antop.Base.Int.{ℤ, pos, negsuc}
use antop.Node.{Node, CtrlPkt}
use antop.Alloc.Protocol.{receive_pap, best_pap}

-- A packet that was read, or `antop_socket_read` failing.
pub data Read : Type 0 where
  got : CtrlPkt → Read
  failed : Read

abbrev pub max_rcvd_pap : ℕ
max_rcvd_pap = 10

-- The loop's variables: `v_pap[0..j)` and `recvd_paps`.
pub record Gather : Type 0 where
  pub node : Node
  pub v_pap : List CtrlPkt
  pub recvd_paps : ℤ

-- `recvd_paps++`.
unfoldable pub increment : ℤ → ℤ
increment (pos n) = pos (suc n)
increment (negsuc zero) = pos 0
increment (negsuc (suc n)) = negsuc n

-- One read. `recvd_paps == NO_ADDR_AVLB;` is a comparison in the source, and does nothing.
unfoldable pub gather_one : Read → Gather → Gather
unfolding receive_pap increment
gather_one (got msg) g =
    let (node, rec_pap) = receive_pap msg g.node in
    if rec_pap == 0
    then record {
      node = record node { flag_conexion = true };
      v_pap = g.v_pap ++ msg ∷ [];
      recvd_paps = increment g.recvd_paps;
    }
    else record g { node = node }
gather_one failed g = record g { recvd_paps = negsuc 1 }

unfoldable pub is_zero : ℤ → Bool
is_zero (pos zero) = true
is_zero (pos (suc n)) = false
is_zero (negsuc n) = false

-- The loop until the timer expires, or until the vector is full.
unfoldable pub gather : ℕ → List Read → Gather → Gather
unfolding gather_one is_zero
gather mac_address [] g =
    if is_zero g.recvd_paps
    then record g { node = record (g.node) { red_numero = mac_address } }
    else g
gather mac_address (r ∷ rs) g =
    let g' = gather_one r g in
    let rest = gather mac_address rs g' in if leb max_rcvd_pap (length g'.v_pap) then g' else rest

unfoldable pub start : Node → Gather
start s = record { node = s; v_pap = []; recvd_paps = pos 0 }

-- What `get_prim_addr` goes on with: the chosen proposal, `NO_ADDR_AVLB`, or `NULL_ADDR_SET`
-- with the default address.
pub data Outcome : Type 0 where
  chosen : CtrlPkt → Outcome
  no_addr_avlb : Outcome
  null_addr_set : Outcome

unfoldable pub outcome_of : List CtrlPkt → ℤ → Outcome
unfolding best_pap
outcome_of [] (pos n) = Outcome.null_addr_set
outcome_of (p ∷ ps) (pos zero) = Outcome.null_addr_set
outcome_of (p ∷ ps) (pos (suc n)) = Outcome.chosen (best_pap p ps)
outcome_of ps (negsuc zero) = Outcome.no_addr_avlb
outcome_of ps (negsuc (suc n)) = Outcome.null_addr_set

unfoldable pub outcome : ℕ → List Read → Node → Outcome
unfolding gather start outcome_of
outcome mac_address reads s =
    let g = gather mac_address reads (start s) in outcome_of g.v_pap g.recvd_paps

abbrev pub AllLe : ℕ → List CtrlPkt → Type 0
AllLe m [] = Unit {0}
AllLe m (p ∷ ps) = (m ≤ p.ad_addr.mask) × AllLe m ps

AllLe-mono : {m n : ℕ} (ps : List CtrlPkt) → m ≤ n → AllLe n ps → AllLe m ps
AllLe-mono [] h a = tt
AllLe-mono (p ∷ ps) h a = (omega arith, AllLe-mono ps h a.1)

abbrev pub IsIn : CtrlPkt → List CtrlPkt → Type 0
IsIn x [] = ⊥
IsIn x (p ∷ ps) = (x ≡ p) ⊎ IsIn x ps

best_pap-IsIn : (p : CtrlPkt) (ps : List CtrlPkt) → IsIn (best_pap p ps) (p ∷ ps)
unfolding best_pap
best_pap-IsIn p [] = inl refl
best_pap-IsIn p (q ∷ qs) = ground (arith, best_pap-IsIn p qs, best_pap-IsIn q qs)

best_pap-lowest : (p : CtrlPkt) (ps : List CtrlPkt) → AllLe (best_pap p ps).ad_addr.mask (p ∷ ps)
unfolding best_pap
best_pap-lowest p [] = (omega arith, tt)
best_pap-lowest p (q ∷ qs) = ground (arith, best_pap-lowest p qs, best_pap-lowest q qs)

-- The chosen proposal is one of those that were read, and its mask is the lowest of all.
pub best_pap-AllLe :
    (p : CtrlPkt) (ps : List CtrlPkt)
    → IsIn (best_pap p ps) (p ∷ ps) × AllLe (best_pap p ps).ad_addr.mask (p ∷ ps)
best_pap-AllLe p ps = (best_pap-IsIn p ps, best_pap-lowest p ps)

-- Every packet is read, and none is a usable proposal.
abbrev pub NoneUsable : List Read → Type 0
NoneUsable [] = Unit {0}
NoneUsable (got msg ∷ rs) = (msg.ad_addr.mask ≡ 0) × NoneUsable rs
NoneUsable (failed ∷ rs) = ⊥

gather_none :
    (mac_address : ℕ) (rs : List Read) (g : Gather)
    → NoneUsable rs
    → g.v_pap ≡ []
    → g.recvd_paps ≡ pos 0
    → ((gather mac_address rs g).v_pap ≡ []) × ((gather mac_address rs g).recvd_paps ≡ pos 0)
unfolding gather
gather_none mac_address [] g none v r = ground arith
gather_none mac_address (got msg ∷ rs) g none v r =
    ground (arith, gather_none mac_address rs (gather_one (got msg) g) none.1)
gather_none mac_address (failed ∷ rs) g none v r = absurd none

-- Neighbours that have no address left answer with mask 0. However many such answers come,
-- `NO_ADDR_AVLB` is never the outcome: the node goes on with the default address.
pub outcome-NoneUsable :
    (mac_address : ℕ) (rs : List Read) (s : Node)
    → NoneUsable rs
    → outcome mac_address rs s ≡ Outcome.null_addr_set
unfolding outcome
outcome-NoneUsable mac_address rs s none =
    ground (arith, gather_none mac_address rs (start s) none refl refl)
