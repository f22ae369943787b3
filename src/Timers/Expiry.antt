-- ===== src/Timers/Expiry.antt =====
-- `timer_timeout` and `timer_age_queue`.
use antop.Base.{ℕ, ◌-◌, ◌/◌, ◌%◌, ◌≤◌, ◌<◌, ◌≡◌, refl, List, [], ◌∷◌, arith, leb, if◌then◌else◌}
use antop.Base.Int.{pos}
use antop.Timers.{Timeval, Timers, usecs, split_due, timer_timeout, remaining_of, run_handlers}
use antop.Timers.Insert.{AllFrom, Sorted}

-- The timers of a list that are due at a time, and those that are not.
unfoldable pub due : (ℕ → Timeval) → Timeval → List ℕ → List ℕ
due f now [] = []
due f now (t ∷ ts) = if leb (usecs (f t)) (usecs now) then t ∷ due f now ts else due f now ts

unfoldable pub later : (ℕ → Timeval) → Timeval → List ℕ → List ℕ
later f now [] = []
later f now (t ∷ ts) = if leb (usecs (f t)) (usecs now) then later f now ts else t ∷ later f now ts

none_due :
    (f : ℕ → Timeval) (now : Timeval) (m : ℕ) (ts : List ℕ)
    → usecs now < m
    → AllFrom f m ts
    → (due f now ts ≡ []) × (later f now ts ≡ ts)
unfolding due later
none_due f now m [] h a = (refl, refl)
none_due f now m (t ∷ ts) h a = ground (arith, none_due f now m ts h a.1)

split_due-Sorted :
    (f : ℕ → Timeval) (now : Timeval) (ts : List ℕ)
    → Sorted f ts
    → split_due f now ts ≡ (due f now ts, later f now ts)
unfolding split_due due later
split_due-Sorted f now [] s = refl
split_due-Sorted f now (t ∷ ts) s =
    ground (arith, split_due-Sorted f now ts s.1, none_due f now (usecs (f t)) ts)

-- In a sorted queue, `timer_timeout` runs the handlers of exactly the timers that are due, in the
-- order of the queue, and leaves exactly the others in the queue for them.
pub timer_timeout-due :
    (handler : ℕ → Timers → Timers) (now : Timeval) (q : Timers)
    → Sorted q.timeout q.tq
    → timer_timeout handler now q
      ≡ run_handlers handler (due q.timeout now q.tq) (record q { tq = later q.timeout now q.tq })
unfolding timer_timeout
timer_timeout-due handler now q s = rw (split_due-Sorted q.timeout now q.tq s)

-- The time to sleep is the time from `now` to the head of the queue, as whole seconds and
-- microseconds, if the head is not past and both times have less than a million microseconds.
pub remaining_of_lem :
    (head now : Timeval)
    → head.tv_usec < 1000000
    → now.tv_usec < 1000000
    → usecs now ≤ usecs head
    → remaining_of head now
      ≡ (pos ((usecs head - usecs now) / 1000000), (usecs head - usecs now) % 1000000)
unfolding remaining_of
remaining_of_lem head now h h' le = ground arith
