-- ===== src/Examples/Questions.antt =====
-- Questions for names and their answers.
use antop.Base.{ℕ, ◌≡◌, refl, true, false, List, [], ◌∷◌, ◌++◌, length, some, htons}
use antop.Base.Run.{ok, crash}
use antop.Addr.{Addr, null_addr}
use antop.Node.{RvCtrlPkt}
use antop.Dns.{
  DnsQuery, Client, reply_to, socket_dns, c_string, answer_dns_query, build_reply, enqueue,
  answer_bytes,
}
use antop.Dns.Layout
use antop.Dns.Layout.{nonzero, question, headed}
use antop.Dns.Queue.{awaits, asked, named, all_named}
use antop.Names.{name_eq}
use antop.Dns.Answer
use antop.Dns.Ask
use antop.Examples.{host}
use antop.Examples.Networks.{clear_rv}

-- 80 bytes of headers.
abbrev headers : List ℕ
headers =
    0 ∷ 0 ∷ 0 ∷ 0 ∷ 0 ∷ 0 ∷ 0 ∷ 0 ∷ 0 ∷ 0 ∷ 0 ∷ 0 ∷ 0 ∷ 0 ∷ 0 ∷ 0 ∷ 0 ∷ 0 ∷ 0 ∷ 0 ∷ 0 ∷ 0 ∷ 0 ∷ 0
    ∷ 0 ∷ 0 ∷ 0 ∷ 0 ∷ 0 ∷ 0 ∷ 0 ∷ 0 ∷ 0 ∷ 0 ∷ 0 ∷ 0 ∷ 0 ∷ 0 ∷ 0 ∷ 0 ∷ 0 ∷ 0 ∷ 0 ∷ 0 ∷ 0 ∷ 0 ∷ 0 ∷ 0
    ∷ 0 ∷ 0 ∷ 0 ∷ 0 ∷ 0 ∷ 0 ∷ 0 ∷ 0 ∷ 0 ∷ 0 ∷ 0 ∷ 0 ∷ 0 ∷ 0 ∷ 0 ∷ 0 ∷ 0 ∷ 0 ∷ 0 ∷ 0 ∷ 0 ∷ 0 ∷ 0 ∷ 0
    ∷ 0 ∷ 0 ∷ 0 ∷ 0 ∷ 0 ∷ 0 ∷ 0 ∷ 0 ∷ []

-- The name "ab" as a label, of type AAAA and class IN.
abbrev ab : List ℕ
ab = 2 ∷ 97 ∷ 98 ∷ []

abbrev ab_question : List ℕ
ab_question = question 18 52 1 0 0 1 0 0 0 0 0 0 0 28 0 1 ab []

abbrev from_dns : DnsQuery
from_dns = record { pkt = headers ++ ab_question; dst_port = 0xd204; src_port = 0x3500 }

abbrev client : Client
client = record {
  cached_table = record { hc_addr = null_addr; univ_addr = [] } ∷ [];
  dns = [];
  main_rv_server = null_addr;
}

abbrev solved : RvCtrlPkt
solved = record (clear_rv) { flags = 1; prim_addr = host 0x00c0; univ_addr = 97 ∷ 98 ∷ [] }

name_is_nonzero : nonzero ab ≡ true
unfolding nonzero
name_is_nonzero = refl

build_reply-question_example :
    (spare : List ℕ) × (length spare ≡ 0)
    × (build_reply (λ i. 7) ab_question (host 1)
        ≡ ok (
            headed 18 52 1 0 0 1 0 0 0 0 0 0 0 28 0 1 (ab ++ 0 ∷ 0 ∷ 28 ∷ [])
            ++ (answer_bytes (ab ++ 0 ∷ 0 ∷ 28 ∷ 0 ∷ 1 ∷ []) (host 1) ++ spare)))
build_reply-question_example =
    Layout.build_reply-question 18 52 1 0 0 1 0 0 0 0 0 0 0 28 0 1 (λ i. 7) ab [] (host 1)
      name_is_nonzero

nothing_named : all_named [] ≡ true
unfolding all_named
nothing_named = refl

nothing_awaited : awaits (97 ∷ 98 ∷ []) [] ≡ false
unfolding awaits
nothing_awaited = refl

answer_dns_query-unasked_example : answer_dns_query (λ i. 7) (some solved) client ≡ crash
answer_dns_query-unasked_example =
    Answer.answer_dns_query-unasked (λ i. 7) solved client nothing_named nothing_awaited

-- A question for "cd", which waits before.
abbrev cd_question : DnsQuery
cd_question = record {
  pkt = headers ++ question 18 53 1 0 0 1 0 0 0 0 0 0 0 28 0 1 (2 ∷ 99 ∷ 100 ∷ []) [];
  dst_port = 0xd205;
  src_port = 0x3500;
}

abbrev busy : Client
busy = record (client) { dns = cd_question ∷ [] }

busy_named : all_named busy.dns ≡ true
unfolding all_named named c_string
busy_named = refl

not_awaited : awaits (97 ∷ 98 ∷ []) busy.dns ≡ false
unfolding awaits asked c_string name_eq
not_awaited = refl

to_dns : htons from_dns.src_port ≡ 53
unfolding htons
to_dns = refl

answer_dns_query-enqueue_example :
    (spare : List ℕ) × (length spare ≡ 0)
    × (answer_dns_query (λ i. 7) (some solved) (enqueue from_dns busy)
        ≡ ok (
          busy,
          reply_to socket_dns
                (headed 18 52 1 0 0 1 0 0 0 0 0 0 0 28 0 1 (ab ++ 0 ∷ 0 ∷ 28 ∷ [])
                  ++ (answer_bytes (ab ++ 0 ∷ 0 ∷ 28 ∷ 0 ∷ 1 ∷ []) (host 0x00c0) ++ spare))
                (htons 0xd204)
              ∷ [],
        ))
answer_dns_query-enqueue_example =
    Answer.answer_dns_query-enqueue 18 52 1 0 0 1 0 0 0 0 0 0 0 28 0 1 (λ i. 7) headers
      (97 ∷ 98 ∷ []) [] 2 0xd204 0x3500 solved busy cd_question [] refl name_is_nonzero refl refl
      busy_named not_awaited to_dns

abbrev alone : Client
alone = record (client) { dns = from_dns ∷ [] }
