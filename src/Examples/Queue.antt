-- ===== src/Examples/Queue.antt =====
-- The timers.
use antop.Base.{ℕ, ◌+◌, ◌*◌, ◌≡◌, ◌<◌, refl, true, [], ◌∷◌, arith, ◌==◌, if◌then◌else◌}
use antop.Timers.{Timeval, Timers, usecs, member, timer_add_msec, timer_timeout, run_handlers}
use antop.Timers.Insert.{Sorted, AllFrom}
use antop.Timers.Order
use antop.Timers.Order.{IsWf}
use antop.Timers.Expiry
use antop.Timers.Expiry.{due, later}
use antop.Timers.Periodic
use antop.Timers.Periodic.{restart}

abbrev at : ℕ → Timeval
at s = record { tv_sec = s; tv_usec = 0 }

-- Timers 1 and 2 run, for the seconds 1 and 2.
abbrev two_timers : Timers
two_timers = record { timeout = at; used = λ t. if t == 1 then true else t == 2; tq = 1 ∷ 2 ∷ [] }

two_timers-Sorted : Sorted at (1 ∷ 2 ∷ [])
two_timers-Sorted = ((omega arith, tt), (tt, tt))

two_timers-IsWf : IsWf two_timers
unfolding member
two_timers-IsWf = record {
  sorted = two_timers-Sorted;
  once = (refl, (refl, tt));
  used_member = λ t. ground arith;
}

timer_add_msec-IsWf_example : IsWf (timer_add_msec (at 1) 1 5000 two_timers)
timer_add_msec-IsWf_example = Order.timer_add_msec-IsWf (at 1) 1 5000 two_timers two_timers-IsWf

timer_timeout-due_example :
    timer_timeout (λ t q. q) (at 1) two_timers
    ≡ run_handlers
        (λ t q. q)
        (due at (at 1) (1 ∷ 2 ∷ []))
        (record (two_timers) { tq = later at (at 1) (1 ∷ 2 ∷ []) })
timer_timeout-due_example = Expiry.timer_timeout-due (λ t q. q) (at 1) two_timers two_timers-Sorted

always_later : (t : ℕ) → usecs (at 1) < usecs (at 1) + 1000 * 5000
always_later t = omega arith

timer_timeout-restart_example :
    IsWf (timer_timeout (restart (λ t. at 1) (λ t. 5000)) (at 1) two_timers)
    × AllFrom
        (timer_timeout (restart (λ t. at 1) (λ t. 5000)) (at 1) two_timers).timeout
        (usecs (at 1) + 1)
        (timer_timeout (restart (λ t. at 1) (λ t. 5000)) (at 1) two_timers).tq
    × ((x : ℕ)
        → member x (timer_timeout (restart (λ t. at 1) (λ t. 5000)) (at 1) two_timers).tq
          ≡ member x two_timers.tq)
timer_timeout-restart_example =
    Periodic.timer_timeout-restart (λ t. at 1) (λ t. 5000) (at 1) two_timers always_later
      two_timers-IsWf
