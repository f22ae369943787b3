-- ===== src/Timers/Periodic.antt =====
-- Timers whose handlers start them again: `send_hb`, `check_neighbors` and the like.
use antop.Base.{
  ℕ, ◌+◌, ◌*◌, ◌≤◌, ◌<◌, ◌≡◌, refl, sym, ap, ◌∙◌, true, false, List, [], ◌∷◌, arith, if◌then◌else◌,
}
use antop.Timers.{
  Timeval, Timers, usecs, put, member, insert, timer_timeout, run_handlers, timer_add_msec,
  timeval_add_msec,
}
use antop.Timers.Insert.{
  AllFrom, Sorted, Once, insert-Sorted, AllFrom-insert, insert-Once, member-insert,
}
use antop.Timers.Order.{
  IsWf, Sorted-put, AllFrom-put, without, timer_add_msec-tq, timer_add_msec-used,
  timer_add_msec-timeout,
}
use antop.Timers.Expiry.{due, later, timer_timeout-due}

module _ (clock : ℕ → Timeval) (period : ℕ → ℕ) where
  -- The handler of timer `t` runs at `clock t` and ends with `timer_add_msec(t, period)`.
  abbrev pub restart : ℕ → Timers → Timers
  restart t q = timer_add_msec (clock t) t (period t) q

  -- While the expired timers `ts` still wait for their handlers: none of them is in the queue, and
  -- `used` marks both.
  record IsRunning (ts : List ℕ) (m : ℕ) (q : Timers) : Type 0 where
    sorted : Sorted q.timeout q.tq
    once : Once q.tq
    from : AllFrom q.timeout m q.tq
    waiting_once : Once ts
    used_member : (x : ℕ) → q.used x ≡ (if member x ts then true else member x q.tq)
    apart : (x : ℕ) → member x ts ≡ true → member x q.tq ≡ false

  -- The queue without a timer whose handler runs.
  abbrev unused : ℕ → Timers → Timers
  unused t q = record q { used = put q.used t false }

  abbrev restarted : ℕ → Timers → ℕ → Timeval
  restarted t q = put q.timeout t (timeval_add_msec (clock t) (period t))

  restart-tq : (t : ℕ) (q : Timers) → (restart t (unused t q)).tq ≡ insert (restarted t q) t q.tq
  unfolding without
  restart-tq t q = timer_add_msec-tq (clock t) t (period t) (unused t q) ∙ ground arith

  restart-IsRunning :
      (t : ℕ) (ts : List ℕ) (m : ℕ) (q : Timers)
      → m ≤ usecs (clock t) + 1000 * period t
      → IsRunning (t ∷ ts) m q
      → IsRunning ts m (restart t (unused t q))
  unfolding member
  restart-IsRunning t ts m q h r =
      let f = restarted t q in
      let out : member t q.tq ≡ false = r.apart t (ground arith) in
      let times = timer_add_msec-timeout (clock t) t (period t) (unused t q) in
      let links = restart-tq t q in
      let known = member-insert f t in
      record {
        sorted =
            rw (times, links)
              (insert-Sorted f t q.tq
                (Sorted-put q.timeout t (timeval_add_msec (clock t) (period t)) q.tq out r.sorted));
        once = rw links (insert-Once f t q.tq out r.once);
        from =
            rw (times, links)
              (AllFrom-insert f m t q.tq (ground (arith, h)) (
                AllFrom-put q.timeout t (timeval_add_msec (clock t) (period t)) m q.tq out r.from));
        waiting_once = r.waiting_once.1;
        used_member = λ x.
            rw (timer_add_msec-used (clock t) t (period t) x (unused t q), links, known x q.tq)
              (ground (arith, r.used_member x, r.waiting_once.0));
        apart = λ x e.
            rw (links, known x q.tq)
              (ground (arith, r.apart x, r.waiting_once.0, ap (λ v. member v ts)));
      }

  restart-used :
      (t : ℕ) (ts : List ℕ) (m x : ℕ) (q : Timers)
      → IsRunning (t ∷ ts) m q
      → (restart t (unused t q)).used x ≡ q.used x
  unfolding member
  restart-used t ts m x q r =
      rw (timer_add_msec-used (clock t) t (period t) x (unused t q))
        (ground (arith, r.used_member x))

  run-IsRunning :
      (ts : List ℕ) (m : ℕ) (q : Timers)
      → ((t : ℕ) → m ≤ usecs (clock t) + 1000 * period t)
      → IsRunning ts m q
      → IsRunning [] m (run_handlers restart ts q)
  unfolding run_handlers
  run-IsRunning [] m q h r = r
  run-IsRunning (t ∷ ts) m q h r =
      run-IsRunning ts m (restart t (unused t q)) h (restart-IsRunning t ts m q (h t) r)

  run-used :
      (ts : List ℕ) (m x : ℕ) (q : Timers)
      → ((t : ℕ) → m ≤ usecs (clock t) + 1000 * period t)
      → IsRunning ts m q
      → (run_handlers restart ts q).used x ≡ q.used x
  unfolding run_handlers
  run-used [] m x q h r = refl
  run-used (t ∷ ts) m x q h r =
      run-used ts m x (restart t (unused t q)) h (restart-IsRunning t ts m q (h t) r)
      ∙ restart-used t ts m x q r

  due-member :
      (f : ℕ → Timeval) (now : Timeval) (x : ℕ) (ts : List ℕ)
      → Once ts
      → (member x ts ≡ (if member x (due f now ts) then true else member x (later f now ts)))
        × (member x (due f now ts) ≡ true → member x (later f now ts) ≡ false)
  unfolding due later member
  due-member f now x [] o = ground arith
  due-member f now x (t ∷ ts) o =
      ground (arith, due-member f now x ts o.1, ap (λ v. member v ts), o.0)

  due-Once :
      (f : ℕ → Timeval) (now : Timeval) (ts : List ℕ)
      → Once ts
      → Once (due f now ts) × Once (later f now ts)
  unfolding due later
  due-Once f now [] o = (tt, tt)
  due-Once f now (t ∷ ts) o = ground (arith, due-Once f now ts o.1, due-member f now t ts o.1, o.0)

  later-AllFrom :
      (f : ℕ → Timeval) (now : Timeval) (m : ℕ) (ts : List ℕ)
      → AllFrom f m ts
      → AllFrom f m (later f now ts) × AllFrom f (usecs now + 1) (later f now ts)
  unfolding later
  later-AllFrom f now m [] a = (tt, tt)
  later-AllFrom f now m (t ∷ ts) a = ground (arith, later-AllFrom f now m ts a.1, a.0)

  later-Sorted :
      (f : ℕ → Timeval) (now : Timeval) (ts : List ℕ) → Sorted f ts → Sorted f (later f now ts)
  unfolding later
  later-Sorted f now [] s = tt
  later-Sorted f now (t ∷ ts) s =
      ground (arith, later-Sorted f now ts s.1, later-AllFrom f now (usecs (f t)) ts s.0)

  later_from :
      (f : ℕ → Timeval) (now : Timeval) (ts : List ℕ) → AllFrom f (usecs now + 1) (later f now ts)
  unfolding later
  later_from f now [] = tt
  later_from f now (t ∷ ts) = ground (arith, later_from f now ts)

  split-IsRunning :
      (now : Timeval) (q : Timers)
      → IsWf q
      → IsRunning
          (due q.timeout now q.tq)
          (usecs now + 1)
          (record q { tq = later q.timeout now q.tq })
  split-IsRunning now q wf = record {
    sorted = later-Sorted q.timeout now q.tq wf.sorted;
    once = (due-Once q.timeout now q.tq wf.once).1;
    from = later_from q.timeout now q.tq;
    waiting_once = (due-Once q.timeout now q.tq wf.once).0;
    used_member = λ x. wf.used_member x ∙ (due-member q.timeout now x q.tq wf.once).0;
    apart = λ x. (due-member q.timeout now x q.tq wf.once).1;
  }

  -- When every handler starts its timer again, for a time after `now`, then `timer_timeout` keeps
  -- the queue well formed, loses no timer and adds none, and leaves only timers after `now`.
  pub timer_timeout-restart :
      (now : Timeval) (q : Timers)
      → ((t : ℕ) → usecs now < usecs (clock t) + 1000 * period t)
      → IsWf q
      → IsWf (timer_timeout restart now q)
        × AllFrom
            (timer_timeout restart now q).timeout
            (usecs now + 1)
            (timer_timeout restart now q).tq
        × ((x : ℕ) → member x (timer_timeout restart now q).tq ≡ member x q.tq)
  unfolding member
  timer_timeout-restart now q h wf =
      let ts = due q.timeout now q.tq in
      let m = usecs now + 1 in
      let q0 = record q { tq = later q.timeout now q.tq } in
      let start = split-IsRunning now q wf in
      let bound : (t : ℕ) → m ≤ usecs (clock t) + 1000 * period t = λ t. omega (arith, h t) in
      let last = run-IsRunning ts m q0 bound start in
      rw (timer_timeout-due restart now q wf.sorted) (
        record { sorted = last.sorted; once = last.once; used_member = last.used_member },
        last.from,
        λ x. sym (last.used_member x) ∙ run-used ts m x q0 bound start ∙ wf.used_member x,
      )
