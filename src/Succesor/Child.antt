-- ===== src/Succesor/Child.antt =====
-- `check_succesor` recognises the children of a node.
use antop.Base.{
  ℕ, zero, suc, ◌+◌, ◌-◌, ◌/◌, ◌%◌, ◌^◌, ◌≤◌, ◌<◌, ◌≡◌, refl, ap, ◌∙◌, ◌⊎◌, inl, inr, bit_and,
  htons, bit, ◌==◌, Bool, true, false, not, some, if◌then◌else◌, arith, ◌&&◌, bit_and-pow,
}
use antop.Addr.{Addr, IsAddr, word, set_word}
use antop.Addr.Space.{word-lt}
use antop.Alloc.{next_addr, toggle}
use antop.Alloc.Toggle.{bit-toggle}
use antop.Succesor.{check_words, check_succesor}
use antop.Succesor.Words.{
  OnePlace, OnePlace-differ, first_difference-OnePlace, zero_places-OnePlace,
}
use antop.Succesor.Endless.{differs}

rest_same :
    (fuel left i mask d : ℕ) (flag : Bool) (prim_addr neigh : Addr)
    → differs left i prim_addr neigh ≡ false
    → check_words fuel left i mask d flag prim_addr neigh ≡ some (d == 1 && flag)
unfolding check_words differs
rest_same fuel zero i mask d flag prim_addr neigh h = refl
rest_same fuel (suc left) i mask d flag prim_addr neigh h =
    ground (arith, rest_same fuel left (i + 1) mask d flag prim_addr neigh)

-- Of the words from `i` on exactly one differs, and does so in one place, `b`.
abbrev pub OneWord : ℕ → ℕ → ℕ → Addr → Addr → Type 0
OneWord b zero i prim_addr neigh = ⊥
OneWord b (suc left) i prim_addr neigh =
    ((word prim_addr i ≡ word neigh i) × OneWord b left (i + 1) prim_addr neigh)
    ⊎ (OnePlace b (word prim_addr i) (word neigh i)
        × (bit b (htons (word prim_addr i)) ≡ false)
        × (differs left (i + 1) prim_addr neigh ≡ false))

check_words-OneWord :
    (fuel left i b : ℕ) (prim_addr neigh : Addr)
    → 16 ≤ fuel
    → OneWord b left i prim_addr neigh
    → check_words fuel left i (2 ^ 15) 0 false prim_addr neigh ≡ some true
unfolding check_words
check_words-OneWord fuel zero i b prim_addr neigh h one = absurd one
check_words-OneWord fuel (suc left) i b prim_addr neigh h (inl (same, one)) =
    ground (arith, same, check_words-OneWord fuel left (i + 1) b prim_addr neigh h one)
check_words-OneWord fuel (suc left) i b prim_addr neigh h (inr (one, low, same)) =
    let flag = if bit_and (htons (word prim_addr i)) (2 ^ b) == 0 then true else false in
    let set : flag ≡ true = rw (bit_and-pow b (htons (word prim_addr i)), low) (ground arith) in
    rw
      (
        OnePlace-differ b (word prim_addr i) (word neigh i) one,
        first_difference-OnePlace fuel b (word prim_addr i) (word neigh i) (omega arith) one,
        zero_places-OnePlace b (word prim_addr i) (word neigh i) one,
      )
      (rest_same fuel left (i + 1) 0 (0 + 1) flag prim_addr neigh same ∙ ap some set)

not_same : (c : Bool) → c ≡ false → c ≡ not c → ⊥
not_same true e h = cc
not_same false e h = cc

toggled :
    (w b : ℕ)
    → w < 65536
    → b < 16
    → ((i : ℕ) → i ≤ b → bit i (htons w) ≡ false)
    → OnePlace b w (toggle w b)
toggled w b p q clear = record {
  place_lt = q;
  above = λ i h k. rw (bit-toggle i b w k q p) (ground arith);
  other = λ e. not_same _ (clear b (omega arith)) (e ∙ bit-toggle b b w q q p ∙ ground arith);
  below = λ i h. (
    clear i (omega arith),
    rw (bit-toggle i b w (omega arith) q p) (ground (arith, clear i (omega arith))),
  );
}

in_word :
    (q b v : ℕ) (a : Addr)
    → q < 4
    → OnePlace b (word a (4 + q)) v
    → bit b (htons (word a (4 + q))) ≡ false
    → OneWord b 4 4 a (set_word a (4 + q) v)
unfolding differs
in_word zero b v a h one low = inr (one, low, ground arith)
in_word (suc zero) b v a h one low = inl (refl, inr (one, low, ground arith))
in_word (suc (suc zero)) b v a h one low = inl (refl, inl (refl, inr (one, low, ground arith)))
in_word (suc (suc (suc zero))) b v a h one low =
    inl (refl, inl (refl, inl (refl, inr (one, low, ground arith))))
in_word (suc (suc (suc (suc q)))) b v a h one low = absurd (omega arith)

-- With fuel 16 or more, a child that took its address from `a`/`m`, for m below 64, is recognised as
-- one, if the bits of `a` from `m` on to the end of their word are 0.
pub check_succesor-next_addr :
    (fuel m : ℕ) (a : Addr)
    → 16 ≤ fuel
    → m < 64
    → IsAddr a
    → ((i : ℕ) → i ≤ 15 - m % 16 → bit i (htons (word a (4 + m / 16))) ≡ false)
    → check_succesor fuel a (next_addr a m) ≡ some true
unfolding check_succesor next_addr
check_succesor-next_addr fuel m a h lt v clear =
    let b = 15 - m % 16 in
    let w = word a (4 + m / 16) in
    let one = toggled w b (word-lt a (4 + m / 16) v) (omega arith) clear in
    check_words-OneWord fuel 4 4 b a (set_word a (4 + m / 16) (toggle w b)) h
      (in_word (m / 16) b (toggle w b) a (omega arith) one (clear b (omega arith)))
