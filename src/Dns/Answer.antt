-- ===== src/Dns/Answer.antt =====
-- What becomes of a solution.
use antop.Base.{
  drop_left, take, htons, ap, length-append, ℕ, zero, suc, ◌+◌, ◌≡◌, refl, sym, true, false, not,
  ◌==◌, List, [], ◌∷◌, ◌++◌, some, length, drop, arith,
}
use mathlib.Core.List.{append-nil}
use antop.Base.Run.{ok, crash}
use antop.Node.{RvCtrlPkt}
use antop.Addr.{Addr}
use antop.Names.{name_eq}
use antop.Dns.{
  DnsQuery, Client, reply_to, socket_dns, delete_query, udp_pkt_off, answer_solution,
  answer_dns_query, send_reply, size_aux, enqueue, answer_bytes,
}
use antop.Dns.Queue.{asked, awaits, named, all_named, find_query-here, find_query-crash}
use antop.Dns.Layout.{
  nonzero, question, headed, c_string-append, length-answer_bytes, build_reply-question,
}

-- A solution for a name that no stored query asks for makes the daemon read through a null pointer,
-- when all stored queries have a name.
pub answer_dns_query-unasked :
    (memory : ℕ → ℕ) (rv : RvCtrlPkt) (c : Client)
    → all_named c.dns ≡ true
    → awaits rv.univ_addr c.dns ≡ false
    → answer_dns_query memory (some rv) c ≡ crash
unfolding answer_dns_query answer_solution
answer_dns_query-unasked memory rv c whole other =
    rw (find_query-crash rv.univ_addr c.dns whole other) refl

name_eq_refl : (xs : List ℕ) → name_eq xs xs ≡ true
unfolding name_eq
name_eq_refl [] = refl
name_eq_refl (x ∷ xs) = ground (arith, name_eq_refl xs)

all_named-snoc :
    (qs : List DnsQuery) (q : DnsQuery)
    → all_named qs ≡ true
    → named q ≡ true
    → all_named (qs ++ q ∷ []) ≡ true
unfolding all_named
all_named-snoc [] q h e = ground arith
all_named-snoc (p ∷ qs) q h e =
    let later : all_named (qs ++ q ∷ []) ≡ true = all_named-snoc qs q (ground arith) e in
    ground (arith, later)

suc_nonzero : (n : ℕ) → not (suc n == 0) ≡ true
suc_nonzero n = ground arith

-- Behind the headers of the packet.
after_ip :
    (ip bytes : List ℕ) (k : ℕ)
    → length ip ≡ udp_pkt_off
    → drop (udp_pkt_off + k) (ip ++ bytes) ≡ drop k bytes
after_ip ip bytes k e = rw (sym e) (drop_left ip bytes k)

take_all : (n : ℕ) (xs : List ℕ) → length xs ≡ n → take n xs ≡ xs
take_all zero [] h = refl
take_all (suc n) [] h = refl
take_all zero (x ∷ xs) h = absurd (omega (arith, h))
take_all (suc n) (x ∷ xs) h = ap (◌∷◌ x) (take_all n xs (omega (arith, h)))

module _ (t0 t1 f0 f1 q0 q1 a0 a1 n0 n1 r0 r1 y0 y1 c0 c1 : ℕ) where
  abbrev payload : List ℕ → List ℕ → List ℕ
  payload = question t0 t1 f0 f1 q0 q1 a0 a1 n0 n1 r0 r1 y0 y1 c0 c1

  -- What the queue sees of a question that was stored.
  stored :
      (ip uaddr extra : List ℕ) (first dst_port src_port : ℕ)
      → length ip ≡ udp_pkt_off
      → nonzero (first ∷ uaddr) ≡ true
      → (named (record {
        pkt = ip ++ payload (first ∷ uaddr) extra;
        dst_port = dst_port;
        src_port = src_port;
      })
          ≡ true)
        × (name_eq
              (asked (record {
                pkt = ip ++ payload (first ∷ uaddr) extra;
                dst_port = dst_port;
                src_port = src_port;
              }))
              uaddr
            ≡ true)
  unfolding named asked nonzero
  stored ip uaddr extra first dst_port src_port e80 nz =
      let rest = y0 ∷ y1 ∷ c0 ∷ c1 ∷ extra in
      let whole = after_ip ip (payload (first ∷ uaddr) extra) 12 e80 in
      let short = after_ip ip (payload (first ∷ uaddr) extra) 13 e80 in
      let name = c_string-append (first ∷ uaddr) rest nz in
      let inner = c_string-append uaddr rest (ground arith) in
      (rw (whole, name) (suc_nonzero (length uaddr)), rw (short, inner) (name_eq_refl uaddr))

  -- The reply to DNS is the whole buffer.
  sent_whole :
      (uaddr extra spare : List ℕ) (first : ℕ) (addr : Addr)
      → length spare ≡ length extra
      → take (size_aux (length (payload (first ∷ uaddr) extra)) (suc (length uaddr)) + 42) (
          headed t0 t1 f0 f1 q0 q1 a0 a1 n0 n1 r0 r1 y0 y1 c0 c1
            ((first ∷ uaddr) ++ 0 ∷ y0 ∷ y1 ∷ [])
          ++ (answer_bytes ((first ∷ uaddr) ++ 0 ∷ y0 ∷ y1 ∷ c0 ∷ c1 ∷ []) addr ++ spare))
        ≡ headed t0 t1 f0 f1 q0 q1 a0 a1 n0 n1 r0 r1 y0 y1 c0 c1
            ((first ∷ uaddr) ++ 0 ∷ y0 ∷ y1 ∷ [])
          ++ (answer_bytes ((first ∷ uaddr) ++ 0 ∷ y0 ∷ y1 ∷ c0 ∷ c1 ∷ []) addr ++ spare)
  sent_whole uaddr extra spare first addr e =
      let answer = answer_bytes ((first ∷ uaddr) ++ 0 ∷ y0 ∷ y1 ∷ c0 ∷ c1 ∷ []) addr in
      let la = length-answer_bytes (first ∷ uaddr) (0 ∷ y0 ∷ y1 ∷ c0 ∷ c1 ∷ []) addr in
      let l3 = length-append uaddr (0 ∷ y0 ∷ y1 ∷ []) in
      let lq = length-append uaddr (0 ∷ y0 ∷ y1 ∷ c0 ∷ c1 ∷ extra) in
      take_all _ _ (
        omega (
          arith,
          e,
          la,
          l3,
          lq,
          length-append answer spare,
          length-append (uaddr ++ 0 ∷ y0 ∷ y1 ∷ []) (answer ++ spare),
        ))

  -- A question from a DNS port that is stored behind others, and that none of them asked before, is
  -- answered when its name is solved: the reply has the address, and goes to the port that the
  -- question came from, and the queue is again as it was. The headers before it have 80 bytes.
  pub answer_dns_query-enqueue :
      (memory : ℕ → ℕ) (ip uaddr extra : List ℕ) (first dst_port src_port : ℕ) (rv : RvCtrlPkt)
      (c : Client) (p : DnsQuery) (ps : List DnsQuery)
      → length ip ≡ udp_pkt_off
      → nonzero (first ∷ uaddr) ≡ true
      → rv.univ_addr ≡ uaddr
      → c.dns ≡ p ∷ ps
      → all_named c.dns ≡ true
      → awaits uaddr c.dns ≡ false
      → htons src_port ≡ 53
      → (spare : List ℕ) × (length spare ≡ length extra)
        × (answer_dns_query memory (some rv) (
              enqueue
                (record {
                  pkt = ip ++ payload (first ∷ uaddr) extra;
                  dst_port = dst_port;
                  src_port = src_port;
                })
                c)
            ≡ ok (
              c,
              reply_to socket_dns
                    (headed t0 t1 f0 f1 q0 q1 a0 a1 n0 n1 r0 r1 y0 y1 c0 c1
                        ((first ∷ uaddr) ++ 0 ∷ y0 ∷ y1 ∷ [])
                      ++ (answer_bytes ((first ∷ uaddr) ++ 0 ∷ y0 ∷ y1 ∷ c0 ∷ c1 ∷ []) rv.prim_addr
                          ++ spare))
                    (htons dst_port)
                  ∷ [],
            ))
  unfolding answer_dns_query answer_solution enqueue
  answer_dns_query-enqueue memory ip uaddr extra first dst_port src_port rv c p ps e80 nz same queue
        whole other dns =
      let q : DnsQuery = record {
        pkt = ip ++ payload (first ∷ uaddr) extra;
        dst_port = dst_port;
        src_port = src_port;
      } in
      let (is_named, asks) = stored ip uaddr extra first dst_port src_port e80 nz in
      let found =
        find_query-here uaddr c.dns [] q (all_named-snoc c.dns q whole is_named) other asks in
      let deleted : delete_query c.dns [] ≡ ok c.dns =
        unfold delete_query in rw (queue, append-nil ps) refl in
      let at = after_ip ip (payload (first ∷ uaddr) extra) 0 e80 in
      let name = after_ip ip (payload (first ∷ uaddr) extra) 12 e80 in
      let size = c_string-append (first ∷ uaddr) (y0 ∷ y1 ∷ c0 ∷ c1 ∷ extra) nz in
      let (spare, e, built) =
        build_reply-question t0 t1 f0 f1 q0 q1 a0 a1 n0 n1 r0 r1 y0 y1 c0 c1 memory (first ∷ uaddr)
          extra rv.prim_addr nz in
      (
        spare,
        e,
        rw (answer_solution, same, found, deleted, at, built, name, size)
            (unfold send_reply in rw (dns, sent_whole uaddr extra spare first rv.prim_addr e) refl),
      )
