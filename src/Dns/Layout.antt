-- ===== src/Dns/Layout.antt =====
-- The bytes of the reply to a DNS query.
use antop.Base.{
  length-drop, poke_after, ℕ, zero, suc, ◌+◌, ◌≡◌, refl, sym, ap, Bool, true, false, not, ◌&&◌,
  ◌==◌, ltb, List, [], ◌∷◌, ◌++◌, length, drop, length-append, take-append, arith,
}
use mathlib.Core.List.{append_assoc}
use antop.Base.Run.{ok}
use antop.Addr.{Addr}
use antop.Dns.{
  c_string, malloc, addr_bytes, authority, answer_bytes, size_aux, build_reply, write_header,
  write_answer,
}

-- No byte of it ends a string.
unfoldable pub nonzero : List ℕ → Bool
nonzero [] = true
nonzero (c ∷ cs) = not (c == 0) && nonzero cs

pub c_string-append :
    (name rest : List ℕ) → nonzero name ≡ true → c_string (name ++ 0 ∷ rest) ≡ name
unfolding c_string nonzero
c_string-append [] rest h = refl
c_string-append (c ∷ cs) rest h =
    let this : (c == 0) ≡ false = ground arith in
    rw this (ap (◌∷◌ c) (c_string-append cs rest (ground arith)))

length-malloc : (memory : ℕ → ℕ) (i n : ℕ) → length (malloc memory i n) ≡ n
unfolding malloc
length-malloc memory i zero = refl
length-malloc memory i (suc n) = ap suc (length-malloc memory (i + 1) n)

pub length-answer_bytes :
    (name five : List ℕ) (addr : Addr)
    → length (answer_bytes (name ++ five) addr) ≡ length name + (length five + 66)
unfolding answer_bytes
length-answer_bytes name five addr =
    let rest : List ℕ = (0 ∷ 0 ∷ 0 ∷ 10 ∷ 0 ∷ 16 ∷ []) ++ (addr_bytes addr ++ authority) in
    omega (arith, length-append (name ++ five) rest, length-append name five)

-- A question, from the UDP payload of its packet on, has the identifier, the flags, four counts, the
-- name with its 0, the type, the class, and more records.
module _ (t0 t1 f0 f1 q0 q1 a0 a1 n0 n1 r0 r1 y0 y1 c0 c1 : ℕ) where
  abbrev pub question : List ℕ → List ℕ → List ℕ
  question name rest =
      t0
      ∷ t1
      ∷ f0
      ∷ f1
      ∷ q0
      ∷ q1
      ∷ a0
      ∷ a1
      ∷ n0
      ∷ n1
      ∷ r0
      ∷ r1
      ∷ (name ++ 0 ∷ y0 ∷ y1 ∷ c0 ∷ c1 ∷ rest)

  -- The copy with its new header.
  abbrev pub headed : List ℕ → List ℕ
  headed rest = t0 ∷ t1 ∷ 0x85 ∷ 0 ∷ q0 ∷ q1 ∷ 0 ∷ 1 ∷ 0 ∷ 1 ∷ 0 ∷ 1 ∷ rest

  write_header-headed :
      (rest : List ℕ)
      → write_header (t0 ∷ t1 ∷ f0 ∷ f1 ∷ q0 ∷ q1 ∷ a0 ∷ a1 ∷ n0 ∷ n1 ∷ r0 ∷ r1 ∷ rest)
        ≡ ok (headed rest)
  unfolding write_header
  write_header-headed rest =
      let ten = f0 ∷ f1 ∷ q0 ∷ q1 ∷ a0 ∷ a1 ∷ n0 ∷ n1 ∷ r0 ∷ r1 ∷ rest in
      let six = a0 ∷ a1 ∷ n0 ∷ n1 ∷ r0 ∷ r1 ∷ rest in
      let flags = poke_after (t0 ∷ t1 ∷ []) (0x85 ∷ 0 ∷ []) ten (omega arith) in
      let counts =
        poke_after (t0 ∷ t1 ∷ 0x85 ∷ 0 ∷ q0 ∷ q1 ∷ []) (0 ∷ 1 ∷ 0 ∷ 1 ∷ 0 ∷ 1 ∷ []) six
          (omega arith) in
      rw (flags, counts) refl

  write_answer-question :
      (name extra tail : List ℕ) (addr : Addr)
      → nonzero name ≡ true
      → length name + (length extra + 69) ≡ length tail
      → (spare : List ℕ) × (length spare ≡ length extra)
        × (write_answer (question name extra) addr (headed (name ++ 0 ∷ y0 ∷ y1 ∷ c0 ∷ c1 ∷ tail))
            ≡ ok (
                headed (name ++ 0 ∷ y0 ∷ y1 ∷ [])
                ++ (answer_bytes (name ++ 0 ∷ y0 ∷ y1 ∷ c0 ∷ c1 ∷ []) addr ++ spare)))
  unfolding write_answer
  write_answer-question name extra tail addr h long =
      let l = length name in
      let five = 0 ∷ y0 ∷ y1 ∷ c0 ∷ c1 ∷ [] in
      let start = headed (name ++ 0 ∷ y0 ∷ y1 ∷ []) in
      let bytes = answer_bytes (name ++ five) addr in
      let room = c0 ∷ c1 ∷ tail in
      let size = length-answer_bytes name five addr in
      let found = c_string-append name (y0 ∷ y1 ∷ c0 ∷ c1 ∷ tail) h in
      let copy = take-append name (five ++ extra) (l + 5) 5 refl in
      let whole : ltb (length (question name extra)) (12 + (l + 5)) ≡ false =
        ground (arith, length-append name (five ++ extra)) in
      let at : 15 + l ≡ length start = omega (arith, length-append name (0 ∷ y0 ∷ y1 ∷ [])) in
      let parts = append_assoc name (0 ∷ y0 ∷ y1 ∷ []) room in
      let written = poke_after start bytes room (omega (arith, size, long)) in
      (
        drop (length bytes) room,
        length-drop (length bytes) (length extra) room (omega (arith, size, long)),
        rw (found, copy, whole, at, sym parts) written,
      )

  -- The reply to a question of one name, which may have more records after it: the identifier and
  -- the number of questions stay, the flags say that it is a reply with one answer, one authority and
  -- one additional record, and the answer has the name, the type and class of the question and the
  -- address. All writes are inside the buffer, which is as long as the reply and, at its end, as
  -- many bytes longer as there are bytes of more records.
  pub build_reply-question :
      (memory : ℕ → ℕ) (name extra : List ℕ) (addr : Addr)
      → nonzero name ≡ true
      → (spare : List ℕ) × (length spare ≡ length extra)
        × (build_reply memory (question name extra) addr
            ≡ ok (
                headed (name ++ 0 ∷ y0 ∷ y1 ∷ [])
                ++ (answer_bytes (name ++ 0 ∷ y0 ∷ y1 ∷ c0 ∷ c1 ∷ []) addr ++ spare)))
  unfolding build_reply
  build_reply-question memory name extra addr h =
      let q = question name extra in
      let l = length name in
      let buf = malloc memory 0 (size_aux (length q) l + 42) in
      let all = length-malloc memory 0 (size_aux (length q) l + 42) in
      let rest = drop (length q) buf in
      let left = length-drop (length q) (l + 69) buf (omega (arith, all)) in
      let tail = extra ++ rest in
      let five = 0 ∷ y0 ∷ y1 ∷ c0 ∷ c1 ∷ extra in
      let found = c_string-append name (y0 ∷ y1 ∷ c0 ∷ c1 ∷ extra) h in
      let copied = poke_after [] q buf (omega (arith, all)) in
      let header = write_header-headed (name ++ (five ++ rest)) in
      let (spare, same, written) =
        write_answer-question name extra tail addr h
          (omega (arith, left, length-append extra rest)) in
      (spare, same, rw (found, copied, append_assoc name five rest, header) written)
