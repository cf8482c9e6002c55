-- ===== src/Startup/Tests.antt =====
-- Tests of startup/, and its theorems at concrete inputs: an operation that succeeds when the count
-- of calls has reached two, and hooks that log themselves.
use service_runtime.Base.{
  trim_space, ℕ, ◌+◌, ◌≡◌, refl, Option, none, some, pos, negsuc, ◌==◌, if◌then◌else◌, List, [],
  ◌∷◌, ◌++◌, codes, map, reverse,
}
use service_runtime.Startup.Retry.{Config, with_defaults}
use service_runtime.Startup.Lifecycle.{Hook, State, on_shutdown, shutdown, join}
use service_runtime.Startup.Lifecycle.Laws.{failures, shutdown_runs_all}

abbrev three_tries : Config
three_tries = record { max_attempts = pos 3; delay = negsuc 4 }

abbrev operation : ℕ → ℕ × Option ℕ
operation n = (n + 1, if n == 2 then none else some n)

abbrev no_luck : ℕ → ℕ × Option ℕ
no_luck n = (n + 1, some n)

abbrev wait : ℕ → ℕ → ℕ × Option ℕ
wait d n = (n, none)

abbrev wait_is_cut : ℕ → ℕ → ℕ × Option ℕ
wait_is_cut d n = (n, some 77)

defaults :
    with_defaults (record { max_attempts = pos 0; delay = negsuc 0 })
    ≡ record { max_attempts = pos 30; delay = pos 0 }
unfolding with_defaults
defaults = refl

-- Hook 2 fails.
abbrev invoke : ℕ → State ℕ (List ℕ) → State ℕ (List ℕ) × Option ℕ
invoke f s = (record s { world = s.world ++ f ∷ [] }, if f == 2 then some 99 else none)

abbrev hooks : List (Hook ℕ)
hooks =
    record { name = codes "db"; fn = 1 }
    ∷ record { name = codes "bus"; fn = 2 }
    ∷ record { name = codes "shutdown hook"; fn = 3 }
    ∷ []

registers :
    on_shutdown
      (codes " ")
      (some 3)
      (on_shutdown (codes "bus") (some 2) (on_shutdown (codes " db ") (some 1) (some [])))
    ≡ some hooks
unfolding on_shutdown trim_space
registers = refl

runs_in_reverse :
    shutdown invoke (record { lifecycle = some hooks; world = [] })
    ≡ (record { lifecycle = some []; world = 3 ∷ 2 ∷ 1 ∷ [] }, some ((codes "bus", 99) ∷ []))
unfolding shutdown
runs_in_reverse = refl

shutdown_runs_all_example :
    ((shutdown invoke (record { lifecycle = some hooks; world = [] })).0.world
      ≡ [] ++ map (λ h. h.fn) (reverse hooks))
    × ((shutdown invoke (record { lifecycle = some hooks; world = [] })).1
        ≡ join (failures (λ f. if f == 2 then some 99 else none) (reverse hooks)))
shutdown_runs_all_example =
    shutdown_runs_all invoke (λ w. w) (λ f. if f == 2 then some 99 else none) (λ f s. refl)
      (λ f s. refl) hooks []
