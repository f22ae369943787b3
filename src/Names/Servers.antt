-- ===== src/Names/Servers.antt =====
-- The rendezvous servers of a name, `hash_2_hc` and `distribute_in_hc`, and the registration with
-- them, `register_rv`. A name is of ASCII characters, for which `char` is never negative, and the
-- hypercube has 64 dimensions at most, the host part of an address.
use antop.Base.{
  ℕ, zero, suc, ◌+◌, ◌-◌, ◌*◌, ◌/◌, ◌%◌, ◌^◌, bit_and, bit_or, List, [], ◌∷◌, ◌++◌, ltb,
  if◌then◌else◌, u16, htons,
}
use antop.Base.Run.{Run, ok, crash, ◌>>=◌}
use antop.Addr.{Addr, null_addr, word, set_word}
use antop.Node.{Node, RvCtrlPkt, Outside, Effect, TimerName, emit, rv_reg, t_rv}

-- The loop that computes `hc[0]`, in 64 bits.
unfoldable pub hash_name : ℕ → List ℕ → ℕ
hash_name hc0 [] = hc0
hash_name hc0 (c ∷ cs) = hash_name ((hc0 * 31 + c) % 2 ^ 64) cs

-- `hc[i]`.
unfoldable pub hash_entry : List ℕ → ℕ → ℕ
unfolding hash_name
hash_entry u_addr zero = hash_name 0 u_addr
hash_entry u_addr (suc i) = (hash_entry u_addr i + 17) * 31 % 2 ^ 64

-- The loop over the words that `hc_dim` fills, the first `n` of them.
unfoldable pub hash_words : List ℕ → ℕ → Addr → Addr
unfolding hash_entry
hash_words u_addr zero addr = addr
hash_words u_addr (suc n) addr =
    set_word (hash_words u_addr n addr) (4 + n) (u16 (hash_entry u_addr (2 * n)))

-- The loop over the digits `j` of the word after them, the first `n` of them.
unfoldable pub hash_digits : ℕ → ℕ → ℕ → ℕ
hash_digits entry zero w = w
hash_digits entry (suc j) w = u16 (hash_digits entry j w + bit_and (htons (2 ^ j)) (u16 entry))

-- `hash_2_hc(u_addr, NULL, rel_addr)`.
unfoldable pub hash_2_hc : ℕ → List ℕ → Addr
unfolding hash_words hash_digits hash_entry
hash_2_hc hc_dim u_addr =
    let i = hc_dim / 16 in
    let start = record (null_addr) { w0 = 0x0120; w1 = 0xb80d } in
    let addr = hash_words u_addr i start in
    set_word addr (4 + i)
      (hash_digits (hash_entry u_addr (2 * i)) (hc_dim % 16) (word addr (4 + i)))

-- `u_addr[strlen(u_addr) - 1]`, of a name that starts with `c`.
unfoldable pub last_char : ℕ → List ℕ → ℕ
last_char c [] = c
last_char c (d ∷ ds) = last_char d ds

-- The branch of server `i`, before it is shifted to its place.
unfoldable pub branch : ℕ → ℕ → ℕ → ℕ
branch zero first last =
    let mask = u16 (5 * first % last) in
    if ltb 64 mask then mask / 4 else if ltb mask 1 then mask * 7 else mask
branch (suc i) first last =
    let mask = u16 (7 * last % first) in
    if ltb 64 mask then mask / 4 else if ltb mask 1 then mask * 9 else mask

-- `branch_bits`, which is log2(64) however many servers there are.
abbrev pub branch_bits : ℕ
branch_bits = 6

-- The address of server `i`: the highest `branch_bits` of word 4 are cleared, and the branch is put
-- there.
unfoldable pub server_addr : Addr → ℕ → ℕ → ℕ → Addr
unfolding branch
server_addr hashed i first last =
    let mask = 65535 - u16 ((2 ^ branch_bits - 1) * 2 ^ (16 - branch_bits)) in
    let cleared = htons (bit_and hashed.w4 (htons mask)) in
    let branch_mask = u16 (branch i first last * 2 ^ (16 - branch_bits)) in
    record hashed { w4 = bit_or (htons cleared) (htons branch_mask) }

-- The loop of `distribute_in_hc`, from server `i` on.
unfoldable pub server_list : Addr → ℕ → ℕ → ℕ → ℕ → List Addr
unfolding server_addr
server_list hashed zero i first last = []
server_list hashed (suc left) i first last =
    server_addr hashed i first last ∷ server_list hashed left (i + 1) first last

-- `distribute_in_hc(server_count, u_addr, dst)`: the list that it builds. The characters before
-- and after an empty name are read, and divided by.
unfoldable pub distribute_in_hc : ℕ → ℕ → List ℕ → Run (List Addr)
unfolding server_list hash_2_hc last_char
distribute_in_hc hc_dim server_count [] = crash
distribute_in_hc hc_dim server_count (c ∷ cs) =
    ok (server_list (hash_2_hc hc_dim (c ∷ cs)) server_count 0 c (last_char c cs))

-- `NSERVER_RV`.
abbrev pub nserver_rv : ℕ
nserver_rv = 2

-- The packet of `register_rv`. The name is copied without its 0.
unfoldable pub reg_pkt : Outside → Addr → Node → RvCtrlPkt
reg_pkt out addr s = record (out.fresh_rv) {
  type_field = rv_reg;
  prim_addr = addr;
  univ_addr = s.univ_addr ++ out.name_tail;
}

-- Its loops over the servers, for the primary and for the secondary address.
unfoldable pub send_regs : RvCtrlPkt → List Addr → Node → Node
send_regs rv_msg [] s = s
send_regs rv_msg (a ∷ rest) s = send_regs rv_msg rest (emit (Effect.send_rv rv_msg a 1) s)

unfoldable pub send_regs_short : RvCtrlPkt → List Addr → Node → Node
send_regs_short rv_msg [] s = s
send_regs_short rv_msg (a ∷ rest) s =
    send_regs_short rv_msg rest (emit (Effect.send_rv_short rv_msg a) s)

-- The servers, which are computed when none are known.
unfoldable pub find_servers : Node → Run (List Addr)
unfolding distribute_in_hc
find_servers s = elim s.rv_servers [
  | [] ↦ distribute_in_hc s.hc_dim nserver_rv s.univ_addr
  | a ∷ rest ↦ ok (a ∷ rest)
]

-- `register_rv` once the servers are known.
unfoldable pub register_with : Outside → List Addr → Node → Node
unfolding reg_pkt send_regs send_regs_short
register_with out servers s =
    let s1 = emit (Effect.start_timer TimerName.rv_t t_rv) (record s { rv_servers = servers }) in
    let s2 = send_regs (reg_pkt out s.prim_addr s) servers s1 in
    if s.sec_addr_flag then send_regs_short (reg_pkt out s.sec_addr s) servers s2 else s2

-- `register_rv`.
unfoldable pub register_rv : Outside → Node → Run Node
unfolding find_servers register_with
register_rv out s =
    if s.flag_mezcla
    then ok s
    else if s.flag_fragmentacion
    then ok s
    else do servers ← find_servers s; ok (register_with out servers s)
