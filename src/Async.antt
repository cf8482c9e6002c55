-- ===== src/Async.antt =====
-- async/async.go: the bounded runner of background tasks, as the steps of the goroutines that use it.
-- A task is anything; its end is an argument. Logs are values.
pub mod Bounds
mod Tests
use service_runtime.Base.{
  ℕ, suc, ◌+◌, ◌-◌, Bool, true, false, Option, none, some, List, [], ◌∷◌, ◌++◌, leb, if◌then◌else◌,
  ℤ, pos, negsuc, is_nonpositive, to_ℕ, Text,
}

-- How a task ends
pub data Ending (E : Type 0) : Type 0 where
  returned : Ending E
  failed : E → Ending E
  panicked : Ending E

-- What is logged
pub data Log (E : Type 0) : Type 0 where
  rejected : Text → Log E
  task_failed : Text → E → Log E
  task_panicked : Text → Log E

-- `capacity` and `in_flight` are those of the channel `sem`.
pub record Runner : Type 0 where
  pub capacity : ℕ
  pub in_flight : ℕ

unfoldable pub new_runner : ℤ → Runner
new_runner max_in_flight = record {
  capacity = if is_nonpositive max_in_flight then 1 else to_ℕ max_in_flight;
  in_flight = 0;
}

-- The `select`: a send that does not block
unfoldable pub send_or_reject : {E : Type 0} → Text → Runner → Runner × Bool × List (Log E)
send_or_reject op r =
    if leb r.capacity r.in_flight
    then (r, false, rejected op ∷ [])
    else (record r { in_flight = r.in_flight + 1 }, true, [])

-- `TryGo` up to the start of the goroutine: whether a task is launched, and what is logged; a runner
-- or a task may be missing.
unfoldable pub try_go :
    {E K : Type 0} → Text → Option K → Option Runner → Option Runner × Bool × List (Log E)
unfolding send_or_reject
try_go op task none = (none, false, [])
try_go op none (some r) = (some r, false, [])
try_go op (some k) (some r) =
    let (r', launched, logs) = send_or_reject op r in (some r', launched, logs)

unfoldable pub ending_log : {E : Type 0} → Text → Ending E → List (Log E)
ending_log op returned = []
ending_log op (failed e) = task_failed op e ∷ []
ending_log op panicked = task_panicked op ∷ []

-- The end of a task's goroutine, however the task ends: its place in the channel is free again.
unfoldable pub finish : {E : Type 0} → Text → Ending E → Runner → Runner × List (Log E)
unfolding ending_log
finish op end r = (record r { in_flight = r.in_flight - 1 }, ending_log op end)

-- `FireAndForget`: what its goroutine logs
unfoldable pub fire_and_forget : {E : Type 0} → Text → Ending E → List (Log E)
unfolding ending_log
fire_and_forget op end = ending_log op end
