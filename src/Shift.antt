-- ===== src/Shift.antt =====
-- funciones.c: `shift_unos` and `shift`, which move the bits of an address, and the exchange of an
-- interface address by `del_and_addnew`. The 128 bits are shifted one place at a time, word by
-- word, with a carry.
pub mod Value
pub mod Number
pub mod Root
use antop.Base.{
  ℕ, zero, suc, ◌+◌, ◌-◌, ◌*◌, ◌/◌, List, [], ◌∷◌, bit_and, bit_or, ◌==◌, if◌then◌else◌, u16, htons,
}
use antop.Addr.{Addr, set_word, addr_eq}
use antop.Node.{Node, Effect, emit}

-- A loop over the eight words of an address.
unfoldable pub map_words : (ℕ → ℕ) → Addr → Addr
map_words f a = record {
  w0 = f a.w0;
  w1 = f a.w1;
  w2 = f a.w2;
  w3 = f a.w3;
  w4 = f a.w4;
  w5 = f a.w5;
  w6 = f a.w6;
  w7 = f a.w7;
}

-- A loop over the words of two addresses.
unfoldable pub zip_words : (ℕ → ℕ → ℕ) → Addr → Addr → Addr
zip_words f a b = record {
  w0 = f a.w0 b.w0;
  w1 = f a.w1 b.w1;
  w2 = f a.w2 b.w2;
  w3 = f a.w3 b.w3;
  w4 = f a.w4 b.w4;
  w5 = f a.w5 b.w5;
  w6 = f a.w6 b.w6;
  w7 = f a.w7 b.w7;
}

-- The loop `for(i=7; i>=0; i--)` of a shift to the left, over the words from the last to the first.
unfoldable pub left_words : ℕ → List ℕ → List ℕ
left_words carry1 [] = []
left_words carry1 (w ∷ ws) =
    let carry2 = if bit_and w 32768 == 0 then 0 else 1 in
    let shifted = u16 (w * 2) in
    (if carry1 == 1 then bit_or shifted 1 else shifted) ∷ left_words carry2 ws

-- The loop `for(i=0; i<=7; i++)` of a shift to the right, over the words from the first to the last.
unfoldable pub right_words : ℕ → List ℕ → List ℕ
right_words carry1 [] = []
right_words carry1 (w ∷ ws) =
    let carry2 = if bit_and w 1 == 0 then 0 else 1 in
    let shifted = w / 2 in
    (if carry1 == 1 then bit_or shifted 32768 else shifted) ∷ right_words carry2 ws

-- The loops over `j`.
unfoldable pub left_times : ℕ → List ℕ → List ℕ
unfolding left_words
left_times zero ws = ws
left_times (suc cantidad) ws = left_times cantidad (left_words 0 ws)

unfoldable pub right_times : ℕ → List ℕ → List ℕ
unfolding right_words
right_times zero ws = ws
right_times (suc cantidad) ws = right_times cantidad (right_words 0 ws)

-- The words in the order of the loops, and back.
unfoldable pub words_up : Addr → List ℕ
words_up a = a.w0 ∷ a.w1 ∷ a.w2 ∷ a.w3 ∷ a.w4 ∷ a.w5 ∷ a.w6 ∷ a.w7 ∷ []

unfoldable pub words_down : Addr → List ℕ
words_down a = a.w7 ∷ a.w6 ∷ a.w5 ∷ a.w4 ∷ a.w3 ∷ a.w2 ∷ a.w1 ∷ a.w0 ∷ []

unfoldable pub of_words_up : Addr → List ℕ → Addr
of_words_up a (x0 ∷ x1 ∷ x2 ∷ x3 ∷ x4 ∷ x5 ∷ x6 ∷ x7 ∷ []) = record {
  w0 = x0;
  w1 = x1;
  w2 = x2;
  w3 = x3;
  w4 = x4;
  w5 = x5;
  w6 = x6;
  w7 = x7;
}
of_words_up a _ = a

unfoldable pub of_words_down : Addr → List ℕ → Addr
of_words_down a (x7 ∷ x6 ∷ x5 ∷ x4 ∷ x3 ∷ x2 ∷ x1 ∷ x0 ∷ []) = record {
  w0 = x0;
  w1 = x1;
  w2 = x2;
  w3 = x3;
  w4 = x4;
  w5 = x5;
  w6 = x6;
  w7 = x7;
}
of_words_down a _ = a

-- The shift of the words as host numbers: to the left for 1, to the right for 0.
unfoldable pub shift_host : ℕ → ℕ → Addr → Addr
unfolding left_times right_times words_up words_down of_words_up of_words_down
shift_host izq_der cantidad a =
    let left = of_words_down a (left_times cantidad (words_down a)) in
    let a' = if izq_der == 1 then left else a in
    let right = of_words_up a' (right_times cantidad (words_up a')) in
    if izq_der == 0 then right else a'

-- `shift_unos(izq_der, cantidad, addr)`: the bytes of each word are exchanged before and after.
unfoldable pub shift_unos : ℕ → ℕ → Addr → Addr
unfolding map_words shift_host
shift_unos izq_der cantidad addr =
    map_words htons (shift_host izq_der cantidad (map_words htons addr))

-- `~w` on a `uint16_t`.
unfoldable pub complement : ℕ → ℕ
complement w = 65535 - u16 w

-- `for(i=0; i<n; i++) result->s6_addr16[i] = 0x0000`.
unfoldable pub clear_words : ℕ → Addr → Addr
clear_words zero a = a
clear_words (suc n) a = set_word (clear_words n a) n 0

-- The bits of `addr` that `root` has not, in the hypercube's part of the address.
unfoldable pub free_bits : ℕ → Addr → Addr → Addr
unfolding map_words zip_words complement clear_words
free_bits hc_dim root addr =
    zip_words bit_and (clear_words ((128 - hc_dim) / 16) (map_words complement root)) addr

-- `shift(izq_der, cantidad, root_addr, addr)`.
unfoldable pub shift : ℕ → ℕ → ℕ → Addr → Addr → Addr
unfolding zip_words clear_words free_bits shift_unos
shift hc_dim izq_der cantidad root_addr addr =
    let moved = shift_unos izq_der cantidad (free_bits hc_dim root_addr addr) in
    zip_words bit_or (clear_words ((128 - hc_dim) / 16) moved) root_addr

-- `del_and_addnew(delold, addnew, flag)`: a flag of 0 spares the primary address, and 1 the
-- secondary one.
unfoldable pub del_and_addnew : Addr → Addr → ℕ → Node → Node
del_and_addnew delold addnew flag s =
    let deleted = emit (Effect.del_if_addr delold) s in
    let added = emit (Effect.add_if_addr addnew) s in
    let both = emit (Effect.add_if_addr addnew) deleted in
    let spare = λ (kept : Addr).
      if addr_eq addnew kept then deleted else if addr_eq delold kept then added else both in
    if flag == 0
    then spare s.prim_addr
    else if flag == 1
    then spare s.sec_addr
    else if flag == 2
    then both
    else s
