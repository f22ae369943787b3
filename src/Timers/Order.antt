-- ===== src/Timers/Order.antt =====
-- `timer_add_msec` keeps the queue in order.
use antop.Base.{
  ℕ, ◌+◌, ◌*◌, ◌≡◌, ap, ◌∙◌, true, false, List, [], ◌∷◌, arith, ◌==◌, if◌then◌else◌, remove_first,
}
use antop.Timers.{
  Timeval, Timers, usecs, put, member, insert, timeval_add_msec, timer_add_msec, timer_add,
  timer_remove,
}
use antop.Timers.Insert.{
  AllFrom, Sorted, Once, insert-Sorted, insert-Once, member-insert, member-remove, remove-Once,
}

-- The queue is in order, no timer is in it twice, and `used` marks the timers that are in it.
pub record IsWf (q : Timers) : Type 0 where
  pub sorted : Sorted q.timeout q.tq
  pub once : Once q.tq
  pub used_member : (t : ℕ) → q.used t ≡ member t q.tq

pub AllFrom-put :
    (f : ℕ → Timeval) (t : ℕ) (v : Timeval) (m : ℕ) (xs : List ℕ)
    → member t xs ≡ false
    → AllFrom f m xs
    → AllFrom (put f t v) m xs
unfolding member
AllFrom-put f t v m [] h a = tt
AllFrom-put f t v m (x ∷ xs) h a = ground (arith, AllFrom-put f t v m xs)

pub Sorted-put :
    (f : ℕ → Timeval) (t : ℕ) (v : Timeval) (xs : List ℕ)
    → member t xs ≡ false
    → Sorted f xs
    → Sorted (put f t v) xs
unfolding member
Sorted-put f t v [] h s = tt
Sorted-put f t v (x ∷ xs) h s =
    ground (arith, Sorted-put f t v xs, AllFrom-put f t v (usecs (f x)) xs)

AllFrom-remove :
    (f : ℕ → Timeval) (t m : ℕ) (xs : List ℕ)
    → AllFrom f m xs
    → AllFrom f m (remove_first (λ x. x == t) xs)
unfolding remove_first
AllFrom-remove f t m [] a = tt
AllFrom-remove f t m (x ∷ xs) a = ground (arith, AllFrom-remove f t m xs)

Sorted-remove :
    (f : ℕ → Timeval) (t : ℕ) (xs : List ℕ) → Sorted f xs → Sorted f (remove_first (λ x. x == t) xs)
unfolding remove_first
Sorted-remove f t [] s = tt
Sorted-remove f t (x ∷ xs) s =
    ground (arith, Sorted-remove f t xs, AllFrom-remove f t (usecs (f x)) xs)

-- The queue without `t`, whether or not it was there.
unfoldable pub without : ℕ → Timers → List ℕ
without t q = if q.used t then remove_first (λ x. x == t) q.tq else q.tq

pub timer_add_msec-tq :
    (now : Timeval) (t msec : ℕ) (q : Timers)
    → (timer_add_msec now t msec q).tq
      ≡ insert (put q.timeout t (timeval_add_msec now msec)) t (without t q)
unfolding timer_add_msec timer_add timer_remove without
timer_add_msec-tq now t msec q = ground arith

member-without :
    (t y : ℕ) (q : Timers)
    → IsWf q
    → member y (without t q) ≡ (if y == t then false else member y q.tq)
unfolding without
member-without t y q wf =
    ground (arith, member-remove t y q.tq wf.once, wf.used_member t, ap (λ z. member z q.tq))

without-Once : (t : ℕ) (q : Timers) → IsWf q → Once (without t q)
unfolding without
without-Once t q wf = ground (arith, remove-Once t q.tq wf.once, wf.once)

without-Sorted : (t : ℕ) (q : Timers) → IsWf q → Sorted q.timeout (without t q)
unfolding without
without-Sorted t q wf = ground (arith, Sorted-remove q.timeout t q.tq wf.sorted, wf.sorted)

pub timer_add_msec-used :
    (now : Timeval) (t msec y : ℕ) (q : Timers)
    → (timer_add_msec now t msec q).used y ≡ (if y == t then true else q.used y)
unfolding timer_add_msec timer_add timer_remove
timer_add_msec-used now t msec y q = ground arith

pub timer_add_msec-timeout :
    (now : Timeval) (t msec : ℕ) (q : Timers)
    → (timer_add_msec now t msec q).timeout ≡ put q.timeout t (timeval_add_msec now msec)
unfolding timer_add_msec timer_add timer_remove
timer_add_msec-timeout now t msec q = ground arith

timer_add_msec-member :
    (now : Timeval) (t msec y : ℕ) (q : Timers)
    → IsWf q
    → member y (timer_add_msec now t msec q).tq ≡ (if y == t then true else member y q.tq)
timer_add_msec-member now t msec y q wf =
    let f = put q.timeout t (timeval_add_msec now msec) in
    rw (timer_add_msec-tq now t msec q, member-insert f t y (without t q), member-without t y q wf)
      (ground arith)

-- Starting a timer keeps the queue well formed, also when the timer is in it already.
pub timer_add_msec-IsWf :
    (now : Timeval) (t msec : ℕ) (q : Timers) → IsWf q → IsWf (timer_add_msec now t msec q)
timer_add_msec-IsWf now t msec q wf =
    let f = put q.timeout t (timeval_add_msec now msec) in
    let out : member t (without t q) ≡ false = member-without t t q wf ∙ ground arith in
    record {
      sorted =
          rw (timer_add_msec-timeout now t msec q, timer_add_msec-tq now t msec q)
            (insert-Sorted f t (without t q) (
              Sorted-put q.timeout t (timeval_add_msec now msec) (without t q) out
                (without-Sorted t q wf)));
      once =
          rw (timer_add_msec-tq now t msec q)
            (insert-Once f t (without t q) out (without-Once t q wf));
      used_member = λ y. rw (
        timer_add_msec-used now t msec y q,
        timer_add_msec-member now t msec y q wf,
        wf.used_member y,
      );
    }

-- After it the timer is in the queue, once, to expire `msec` milliseconds after `now`; every other
-- timer keeps its timeout and stays in the queue or out of it.
pub timer_add_msec_lem :
    (now : Timeval) (t msec y : ℕ) (q : Timers)
    → IsWf q
    → (y == t) ≡ false
    → let q' = timer_add_msec now t msec q in
      (member t q'.tq ≡ true)
      × (usecs (q'.timeout t) ≡ usecs now + 1000 * msec)
      × (q'.timeout y ≡ q.timeout y)
      × (member y q'.tq ≡ member y q.tq)
timer_add_msec_lem now t msec y q wf other = (
  timer_add_msec-member now t msec t q wf ∙ ground arith,
  rw (timer_add_msec-timeout now t msec q) (ground arith),
  rw (timer_add_msec-timeout now t msec q) (ground arith),
  timer_add_msec-member now t msec y q wf ∙ ground arith,
)
