-- ===== src/Timers.antt =====
-- timer_queue.c and timer_queue.h: the queue of timers. A timer is a number that stands for its
-- `struct timer`, whose fields `timeout` and `used` are kept per number; the queue `TQ`, with the
-- links `next`, is a list of such numbers.
pub mod Insert
pub mod Order
pub mod Expiry
pub mod Periodic
use antop.Base.{
  ℕ, ◌+◌, ◌-◌, ◌*◌, ◌/◌, ◌%◌, Bool, true, false, List, [], ◌∷◌, Option, none, some, ◌==◌, ltb,
  if◌then◌else◌, remove_first,
}
use antop.Base.Int.{ℤ, pos, negsuc, minus, is_negative, is_positive}

-- `struct timeval`.
pub record Timeval : Type 0 where
  pub tv_sec : ℕ
  pub tv_usec : ℕ

-- A time in microseconds.
abbrev pub usecs : Timeval → ℕ
usecs t = 1000000 * t.tv_sec + t.tv_usec

-- `timeval_diff`.
abbrev pub timeval_diff : Timeval → Timeval → ℤ
timeval_diff t1 t2 = minus (usecs t1) (usecs t2)

-- `timeval_add_msec`, for a delay that is not negative; `timer_add_msec` has the same lines.
abbrev pub timeval_add_msec : Timeval → ℕ → Timeval
timeval_add_msec t msec =
    let usec = t.tv_usec + msec * 1000 in
    record { tv_sec = t.tv_sec + usec / 1000000; tv_usec = usec % 1000000 }

pub record Timers : Type 0 where
  pub timeout : ℕ → Timeval
  pub used : ℕ → Bool
  pub tq : List ℕ

-- A store with one cell changed.
abbrev pub put {ℓ} : {A : Type ℓ} → (ℕ → A) → ℕ → A → ℕ → A
put f t v x = if x == t then v else f x

unfoldable pub member : ℕ → List ℕ → Bool
member t [] = false
member t (x ∷ xs) = if x == t then true else member t xs

-- `timer_queue_init`.
abbrev pub timer_queue_init : Timers → Timers
timer_queue_init q = record q { tq = [] }

-- `timer_remove`: 0, or -1 if the timer is not in the queue.
unfoldable pub timer_remove : ℕ → Timers → Timers × ℤ
unfolding member remove_first
timer_remove t q = (
  record q { used = put q.used t false; tq = remove_first (λ x. x == t) q.tq },
  if member t q.tq then pos 0 else negsuc 0,
)

-- The loop of `timer_add`: before the first timer that expires later.
unfoldable pub insert : (ℕ → Timeval) → ℕ → List ℕ → List ℕ
insert timeout t [] = t ∷ []
insert timeout t (curr ∷ rest) =
    if is_negative (timeval_diff (timeout t) (timeout curr))
    then t ∷ curr ∷ rest
    else curr ∷ insert timeout t rest

-- `timer_add`, of a timer that has a handler.
unfoldable pub timer_add : ℕ → Timers → Timers
unfolding timer_remove insert
timer_add t q =
    let q' = if q.used t then (timer_remove t q).0 else q in
    record q' { used = put q'.used t true; tq = insert q'.timeout t q'.tq }

-- `timer_add_msec`, at the time `now`.
unfoldable pub timer_add_msec : Timeval → ℕ → ℕ → Timers → Timers
unfolding timer_add
timer_add_msec now t msec q =
    timer_add t (record q { timeout = put q.timeout t (timeval_add_msec now msec) })

-- The loop of `timer_timeout`: the timers before the first that is not due, and the rest.
unfoldable pub split_due : (ℕ → Timeval) → Timeval → List ℕ → List ℕ × List ℕ
split_due timeout now [] = ([], [])
split_due timeout now (t ∷ rest) =
    let (due, later) = split_due timeout now rest in
    if is_positive (timeval_diff (timeout t) now) then ([], t ∷ rest) else (t ∷ due, later)

-- `timer_left`.
abbrev pub timer_left : Timeval → ℕ → Timers → ℤ
timer_left now t q = timeval_diff now (q.timeout t)

-- What `timer_age_queue` writes into `remaining`, for the head of the queue.
unfoldable pub remaining_of : Timeval → Timeval → ℤ × ℕ
remaining_of head now =
    if ltb head.tv_usec now.tv_usec
    then (minus head.tv_sec (now.tv_sec + 1), head.tv_usec + 1000000 - now.tv_usec)
    else (minus head.tv_sec now.tv_sec, head.tv_usec - now.tv_usec)

-- What a handler does to the queue. The loop over the expired timers follows their links, so no
-- handler may add a timer that has expired and is still to be run: each of the program's handlers
-- starts its own timer again, or one that is not running.
module _ (handler : ℕ → Timers → Timers) where
  -- The second loop of `timer_timeout`.
  unfoldable pub run_handlers : List ℕ → Timers → Timers
  run_handlers [] q = q
  run_handlers (t ∷ ts) q = run_handlers ts (handler t (record q { used = put q.used t false }))

  unfoldable pub timer_timeout : Timeval → Timers → Timers
  unfolding run_handlers split_due
  timer_timeout now q =
      let (due, later) = split_due q.timeout now q.tq in run_handlers due (record q { tq = later })

  -- `timer_timeout_now`: removes the timer and runs its handler, or answers -1.
  unfoldable pub timer_timeout_now : ℕ → Timers → Timers × ℤ
  unfolding member remove_first
  timer_timeout_now t q =
      let unused = record q { used = put q.used t false } in
      if member t q.tq
      then (handler t (record unused { tq = remove_first (λ x. x == t) q.tq }), pos 0)
      else (unused, negsuc 0)

  -- `timer_age_queue`: the time to sleep, if a timer is left.
  unfoldable pub timer_age_queue : Timeval → Timers → Timers × Option (ℤ × ℕ)
  unfolding timer_timeout remaining_of
  timer_age_queue now q =
      let q' = timer_timeout now q in
      elim q'.tq [ [] ↦ (q', none) | t ∷ ts ↦ (q', some (remaining_of (q'.timeout t) now)) ]
