-- ===== src/Routing/Header.antt =====
-- The destination options header that `print_pkt` puts into the packets of this node: the bytes.
use antop.Base.{
  ℕ, ◌+◌, ◌-◌, ◌^◌, ◌/◌, ◌%◌, ◌≡◌, refl, sym, ap, ◌∙◌, List, [], ◌∷◌, ◌++◌, length, drop, poke,
  poke_at, split_at, drop_left, length-append, bit_or, arith,
}
use mathlib.Core.List.{append-nil, append_assoc}
use antop.Base.Run.{Run, ok, crash, ◌>>=◌}
use antop.Addr.{Addr}
use antop.Dns.{addr_bytes}

-- 32 bytes: the next header, the length, padding, and the option with the address.
unfoldable pub option_bytes : ℕ → Addr → List ℕ
option_bytes next_header prim_addr =
    (next_header ∷ 3 ∷ 1 ∷ 10 ∷ 0 ∷ 0 ∷ 0 ∷ 0 ∷ 0 ∷ 0 ∷ 0 ∷ 0 ∷ 0 ∷ 0 ∷ 16 ∷ 16 ∷ [])
    ++ addr_bytes prim_addr

-- The bytes that `memset` clears behind the copy of the packet.
abbrev pub thirty_two : List ℕ
thirty_two =
    0 ∷ 0 ∷ 0 ∷ 0 ∷ 0 ∷ 0 ∷ 0 ∷ 0 ∷ 0 ∷ 0 ∷ 0 ∷ 0 ∷ 0 ∷ 0 ∷ 0 ∷ 0 ∷ 0 ∷ 0 ∷ 0 ∷ 0 ∷ 0 ∷ 0 ∷ 0 ∷ 0
    ∷ 0 ∷ 0 ∷ 0 ∷ 0 ∷ 0 ∷ 0 ∷ 0 ∷ 0 ∷ []

-- From the first write of the local-out case to the copy of the primary address, for the packet
-- `data_aux`: the flags, the payload behind the option, the length of 16 bits, the hop limit, the
-- option with the old next header, and the new next header.
unfoldable pub insert_option : List ℕ → Addr → Run (List ℕ)
insert_option [] prim_addr = crash
insert_option (v0 ∷ []) prim_addr = crash
insert_option (v0 ∷ v1 ∷ []) prim_addr = crash
insert_option (v0 ∷ v1 ∷ v2 ∷ []) prim_addr = crash
insert_option (v0 ∷ v1 ∷ v2 ∷ flags ∷ []) prim_addr = crash
insert_option (v0 ∷ v1 ∷ v2 ∷ flags ∷ l0 ∷ []) prim_addr = crash
insert_option (v0 ∷ v1 ∷ v2 ∷ flags ∷ l0 ∷ l1 ∷ []) prim_addr = crash
insert_option (v0 ∷ v1 ∷ v2 ∷ flags ∷ l0 ∷ l1 ∷ next_header ∷ rest) prim_addr = do
  let data_aux = v0 ∷ v1 ∷ v2 ∷ flags ∷ l0 ∷ l1 ∷ next_header ∷ rest
  let size = (length data_aux + 32 - 40) % 2 ^ 16
  marked ← poke 3 (bit_or flags 4 ∷ []) (data_aux ++ thirty_two)
  moved ← poke 72 (drop 40 data_aux) marked
  sized ← poke 4 (size / 256 ∷ size % 256 ∷ []) moved
  limited ← poke 7 (10 ∷ []) sized
  opened ← poke 40 (option_bytes next_header prim_addr) limited
  poke 6 (60 ∷ []) opened

-- The fixed header of IPv6 before the addresses.
abbrev pub fixed : ℕ → ℕ → ℕ → ℕ → ℕ → ℕ → ℕ → ℕ → List ℕ
fixed v0 v1 v2 flags l0 l1 next_header hops =
    v0 ∷ v1 ∷ v2 ∷ flags ∷ l0 ∷ l1 ∷ next_header ∷ hops ∷ []

-- The payload is moved behind the place of the option.
move_payload :
    (head addrs payload spare : List ℕ)
    → length head ≡ 8
    → length addrs ≡ 32
    → length spare ≡ 32
    → (front : List ℕ) × (length front ≡ 32)
      × (poke 72 payload (head ++ (addrs ++ payload ++ spare))
          ≡ ok (head ++ (addrs ++ (front ++ payload))))
move_payload head addrs payload spare e8 e32 es =
    let (front, back, split, lf, lb) =
      split_at 32 (length payload) (payload ++ spare)
        (omega (arith, length-append payload spare, es)) in
    let bs = head ++ (addrs ++ front) in
    let l72 : length bs ≡ 72 =
      omega (arith, length-append head (addrs ++ front), length-append addrs front, e8, e32, lf) in
    let apart : (rest : List ℕ) → bs ++ rest ≡ head ++ (addrs ++ (front ++ rest)) = λ rest.
      append_assoc head (addrs ++ front) rest ∙ ap (◌++◌ head) (append_assoc addrs front rest) in
    let laid : head ++ (addrs ++ payload ++ spare) ≡ bs ++ (back ++ []) =
      ap (◌++◌ head) (append_assoc addrs payload spare ∙ ap (◌++◌ addrs) split)
      ∙ rw (apart (back ++ []), append-nil back) refl in
    let done : bs ++ (payload ++ []) ≡ head ++ (addrs ++ (front ++ payload)) =
      rw (apart (payload ++ []), append-nil payload) refl in
    (front, lf, ap (poke 72 payload) laid ∙ poke_at 72 bs payload back [] l72 lb ∙ ap ok done)

-- The option takes the place that was left for it.
place_option :
    (head addrs option front payload : List ℕ)
    → length head ≡ 8
    → length addrs ≡ 32
    → length front ≡ length option
    → poke 40 option (head ++ (addrs ++ (front ++ payload)))
      ≡ ok (head ++ (addrs ++ (option ++ payload)))
place_option head addrs option front payload e8 e32 same =
    let l40 : length (head ++ addrs) ≡ 40 = omega (arith, length-append head addrs, e8, e32) in
    let apart : (rest : List ℕ) → head ++ (addrs ++ rest) ≡ head ++ addrs ++ rest =
      λ rest. sym (append_assoc head addrs rest) in
    rw (apart (front ++ payload), apart (option ++ payload))
      (poke_at 40 (head ++ addrs) option front payload l40 same)

drop_front : (addrs payload : List ℕ) → length addrs ≡ 32 → drop 32 (addrs ++ payload) ≡ payload
drop_front addrs payload e32 =
    let all : 32 ≡ length addrs + 0 = omega (arith, e32) in rw all (drop_left addrs payload 0)

pub length-option_bytes : (n : ℕ) (a : Addr) → length (option_bytes n a) ≡ 32
unfolding option_bytes
length-option_bytes n a = refl

-- The option is inserted into a packet whose addresses have 32 bytes, with no write past the buffer:
-- the packet is then the same but for the flag, the length, the hop limit and the next header, and
-- for the option with the address before the payload.
pub insert_option-behind :
    (v0 v1 v2 flags l0 l1 next_header hops : ℕ) (addrs payload : List ℕ) (prim_addr : Addr)
    → length addrs ≡ 32
    → (size : ℕ) × (size ≡ (length payload + 32) % 2 ^ 16)
      × (insert_option (fixed v0 v1 v2 flags l0 l1 next_header hops ++ (addrs ++ payload)) prim_addr
          ≡ ok (
              fixed v0 v1 v2 (bit_or flags 4) (size / 256) (size % 256) 60 10
              ++ (addrs ++ (option_bytes next_header prim_addr ++ payload))))
unfolding insert_option
insert_option-behind v0 v1 v2 flags l0 l1 next_header hops addrs payload prim_addr e32 =
    let head = fixed v0 v1 v2 flags l0 l1 next_header hops in
    let size = (length payload + 32) % 2 ^ 16 in
    let spare : length thirty_two ≡ 32 = refl in
    let marked =
      poke_at 3 (v0 ∷ v1 ∷ v2 ∷ []) (bit_or flags 4 ∷ []) (flags ∷ [])
        (l0 ∷ l1 ∷ next_header ∷ hops ∷ (addrs ++ payload ++ thirty_two)) refl refl in
    let head = fixed v0 v1 v2 (bit_or flags 4) l0 l1 next_header hops in
    let (front, lf, moved) = move_payload head addrs payload thirty_two refl e32 refl in
    let rest = addrs ++ (front ++ payload) in
    let behind : drop 32 (addrs ++ payload) ≡ payload = drop_front addrs payload e32 in
    let whole : length (head ++ (addrs ++ payload)) + 32 - 40 ≡ length payload + 32 =
      omega (arith, length-append addrs payload, e32) in
    let hi = size / 256 in
    let lo = size % 256 in
    let option = option_bytes next_header prim_addr in
    let sized =
      poke_at 4 (v0 ∷ v1 ∷ v2 ∷ bit_or flags 4 ∷ []) (hi ∷ lo ∷ []) (l0 ∷ l1 ∷ [])
        (next_header ∷ hops ∷ rest) refl refl in
    let limited =
      poke_at 7 (v0 ∷ v1 ∷ v2 ∷ bit_or flags 4 ∷ hi ∷ lo ∷ next_header ∷ []) (10 ∷ []) (hops ∷ [])
        rest refl refl in
    let opened =
      place_option (fixed v0 v1 v2 (bit_or flags 4) hi lo next_header 10) addrs option front payload
        refl e32 (lf ∙ sym (length-option_bytes next_header prim_addr)) in
    let closed =
      poke_at 6 (v0 ∷ v1 ∷ v2 ∷ bit_or flags 4 ∷ hi ∷ lo ∷ []) (60 ∷ []) (next_header ∷ [])
        (10 ∷ (addrs ++ (option ++ payload))) refl refl in
    (size, refl, rw (marked, behind, moved, whole, sized, limited, opened, closed) refl)
