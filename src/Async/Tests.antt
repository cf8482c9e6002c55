-- ===== src/Async/Tests.antt =====
-- Tests of async/async.go, and its theorem at a concrete input.
use service_runtime.Base.{
  ℕ, ◌≤◌, ◌<◌, true, some, [], ◌∷◌, pos, negsuc, Text, codes, length, ◌≡◌, ◌↔◌, refl,
}
use service_runtime.Async.{
  failed, panicked, task_failed, new_runner, try_go, send_or_reject, finish, fire_and_forget,
  ending_log,
}
use service_runtime.Async.Bounds.{System, start, Reach, here, next, calls, ends, tasks_are_bounded}

-- A runner for no tasks runs one.
at_least_one : new_runner (negsuc 3) ≡ record { capacity = 1; in_flight = 0 }
unfolding new_runner
at_least_one = refl

logs_failure :
    fire_and_forget {E = ℕ} (codes "audit") (failed 7) ≡ task_failed (codes "audit") 7 ∷ []
unfolding fire_and_forget ending_log
logs_failure = refl

-- Two calls on a runner for one task, the first of which then panics.
abbrev after_panic : System
after_panic = record { runner = record { capacity = 1; in_flight = 0 }; tasks = []; rejections = 1 }

two_calls : Reach ℕ (start (pos 1)) after_panic
unfolding new_runner send_or_reject finish
two_calls =
    next (next (next here (calls (codes "audit") refl)) (calls (codes "meter") refl))
      (ends panicked (codes "audit") [] [] refl refl)

tasks_are_bounded_example :
    (length after_panic.tasks ≤ (new_runner (pos 1)).capacity)
    × ((op : Text)
        → ((try_go {E = ℕ} op (some op) (some after_panic.runner)).1 ≡ true)
          ↔ (length after_panic.tasks < (new_runner (pos 1)).capacity))
tasks_are_bounded_example = tasks_are_bounded (pos 1) two_calls
