-- ===== src/Examples/Supervision.antt =====
-- Neighbours, and the test for children.
use antop.Base.{
  ℕ, zero, suc, ◌+◌, ◌-◌, ◌/◌, ◌%◌, ◌≤◌, ◌<◌, ◌≡◌, refl, true, false, Bool, Option, [], ◌∷◌, ◌++◌,
  none, some, arith, some_elem, bit, htons, inr, all_below, all_below_sound, if◌then◌else◌,
}
use antop.Base.Int.{pos}
use antop.Addr.{Addr, null_addr, word}
use antop.Node.{Node, Neighbor, Effect, TimerName, emit, t_lhb}
use antop.Alloc.{next_addr}
use antop.Succesor.{check_succesor}
use antop.Succesor.Child
use antop.Succesor.Endless
use antop.Succesor.Endless.{differs}
use antop.Succesor.Words.{OnePlace}
use antop.Neighbors.{check_neighbors}
use antop.Neighbors.Supervision
use antop.Neighbors.Supervision.{survivors, recovered, Distinct, AllEnd, here}
use antop.Neighbors.Silence
use antop.Neighbors.Silence.{rounds, counted}
use antop.Examples.{null_addr-IsAddr, root_node}

zero_bits : (i : ℕ) → i ≤ 15 → bit i 0 ≡ false
unfolding bit
zero_bits zero h = refl
zero_bits (suc i) h = zero_bits i (omega arith)

null_words : (i : ℕ) → i ≤ 15 - 0 % 16 → bit i (htons (word null_addr (4 + 0 / 16))) ≡ false
unfolding htons
null_words i h = zero_bits i (omega arith)

check_succesor-next_addr_example : check_succesor 16 null_addr (next_addr null_addr 0) ≡ some true
check_succesor-next_addr_example =
    Child.check_succesor-next_addr 16 0 null_addr (omega arith) (omega arith) null_addr-IsAddr
      null_words

top_bit : all_below 15 (λ i. if bit i 32768 then false else true) ≡ true
unfolding all_below bit
top_bit = refl

top_bit-clear : (i : ℕ) → i < 15 → bit i 32768 ≡ false
top_bit-clear i h =
    ground (arith, all_below_sound (λ i. if bit i 32768 then false else true) i 15 h top_bit)

-- Two words differ.
abbrev far_addr : Addr
far_addr = record (null_addr) { w4 = 0x0080; w5 = 0x0080 }

far-OnePlace : OnePlace 15 0 0x0080
unfolding htons bit
far-OnePlace = record {
  place_lt = omega arith;
  above = λ i h k. absurd (omega arith);
  other = λ e. cc;
  below = λ i h. (zero_bits i (omega arith), top_bit-clear i h);
}

check_succesor-TwoWords_example : check_succesor 100 null_addr far_addr ≡ none
unfolding differs
check_succesor-TwoWords_example =
    Endless.check_succesor-TwoWords 100 15 null_addr far_addr (inr (far-OnePlace, refl))

-- A child of the root, and its table entry.
abbrev pub child_entry : Neighbor
child_entry = record {
  prim_addr = next_addr null_addr 0;
  sec_addr = null_addr;
  sec_addr_conn = 0;
  count = pos 0;
  prim_mask = 1;
  prim_mask_inicial = 1;
  available = 1;
}

abbrev with_child : Node
with_child = record (root_node) { neigh_table = child_entry ∷ [] }

child-Distinct : Distinct (child_entry ∷ [])
unfolding some_elem
child-Distinct = (refl, tt)

some_apart : (o : Option Bool) (b : Bool) → o ≡ some b → o ≡ none → ⊥
some_apart none b h e = cc
some_apart (some c) b h e = cc

child-AllEnd : AllEnd 16 null_addr (child_entry ∷ [])
child-AllEnd =
    let known =
      Child.check_succesor-next_addr 16 0 null_addr (omega arith) (omega arith) null_addr-IsAddr
        null_words in
    (some_apart (check_succesor 16 null_addr (next_addr null_addr 0)) true known, tt)

check_neighbors-survivors_example :
    (s' : Node) × (check_neighbors 16 with_child
      ≡ some (emit (Effect.start_timer TimerName.chk_neigh_t t_lhb) s'))
    × (s'.neigh_table ≡ survivors (child_entry ∷ []))
    × (s'.rcvd_addr ≡ [] ++ recovered 16 null_addr (child_entry ∷ []))
    × (s'.prim_addr ≡ null_addr)
check_neighbors-survivors_example =
    Supervision.check_neighbors-survivors 16 with_child child-Distinct child-AllEnd

rounds-silent_example : (s' : Node) × (rounds 3 16 with_child ≡ some s') × (s'.neigh_table ≡ [])
unfolding counted
rounds-silent_example = Silence.rounds-silent 16 with_child child-Distinct child-AllEnd refl
