-- ===== src/Alloc.antt =====
-- Handing out the address space: hcb_address.c.
pub mod Toggle
pub mod Partition
pub mod Protocol
pub mod Network
pub mod Unique
pub mod Request
pub mod Races
use antop.Base.{ℕ, ◌+◌, ◌-◌, ◌/◌, ◌%◌, ◌^◌, bit_and, Bool, ◌==◌, if◌then◌else◌, u16, htons}
use antop.Addr.{Addr, word, set_word}

-- The bit of one word that `send_pap` inverts: `mask` and `htons(power)` are the same word.
unfoldable pub toggle : ℕ → ℕ → ℕ
toggle w bit_index =
    let mask = htons (2 ^ bit_index) in
    let aux = bit_and w mask in
    let power = u16 (2 ^ bit_index) in
    if aux == 0 then u16 (w + htons power) else u16 (w + 65536 - htons power)

-- The address that a node of mask `prim_mask` proposes to a new child.
unfoldable pub next_addr : Addr → ℕ → Addr
next_addr prim_addr prim_mask =
    let bit_index = 15 - prim_mask % 16 in
    let word_index = 4 + prim_mask / 16 in
    set_word prim_addr word_index (toggle (word prim_addr word_index) bit_index)
