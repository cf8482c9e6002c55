-- ===== src/Health/Tests.antt =====
-- Tests of health/health.go, and its theorems at concrete inputs. A check function is a Boolean:
-- whether it passes.
use service_runtime.Base.{
  ◌+◌, ◌≤◌, Bool, true, false, none, some, [], ◌∷◌, ◌++◌, map, Text, All, codes, pos, ◌≡◌, ◌↔◌,
  refl,
}
use service_runtime.Health.{
  Status, Report, Outcome, Checker, new, add, check, check_all, cached, store, cached_check,
  readyz_handler, check_locked, all_healthy, status_of, respond, cached_handler,
}
use service_runtime.Health.Shared.{
  System, Run, start, Reach, here, next, adds, takes, stores, cached_is_current,
}

abbrev probe : Bool → Outcome
probe true = record { error = none; latency = 1 }
probe false = record { error = some (codes "down"); latency = 2 }

abbrev two_checks : Checker Bool
two_checks = record {
  checks = (codes "db", true) ∷ (codes "nats", false) ∷ [];
  cached_report = record { healthy = false; checks = []; duration = 0 };
  cache_until = 0;
}

builds_checks : add (codes "nats") false (add (codes "db") true new) ≡ two_checks
unfolding add new
builds_checks = refl

-- Within the time to live the kept report is given again.
keeps_report :
    let (c, r) = cached_check 10 11 12 (pos 5) probe 3 two_checks in
    cached_check 17 18 19 (pos 5) (λ f. probe true) 4 c ≡ (c, r)
unfolding cached_check check_locked check check_all cached store all_healthy status_of
keeps_report = refl

answers_unready : (readyz_handler 10 11 12 probe 3 two_checks).1.status ≡ 503
unfolding readyz_handler cached_handler cached_check check_locked check check_all cached store
    respond all_healthy status_of
answers_unready = refl

abbrev one_check : Checker Bool
one_check = record {
  checks = (codes "db", true) ∷ [];
  cached_report = record { healthy = false; checks = []; duration = 0 };
  cache_until = 0;
}

abbrev kept : Report
kept = record {
  healthy = true;
  checks = record { name = codes "db"; healthy = true; latency = 1; error = [] } ∷ [];
  duration = 3;
}

abbrev first_run : Run Bool
first_run = record { taken = []; probe = probe; stored_at = 0; ttl = 0; missed = [] }

-- A check is registered while a cached check runs: the report that is stored then is given out
-- although the new check fails.
abbrev after_store : System Bool
after_store = record {
  checker = record two_checks { cached_report = kept; cache_until = 17 };
  running = none;
  late = (codes "nats", false) ∷ [];
  last = record {
    taken = (codes "db", true) ∷ [];
    probe = probe;
    stored_at = 12;
    ttl = 5;
    missed = (codes "nats", false) ∷ [];
  };
}

one_run : Reach (start first_run) after_store
unfolding add new store cached check_all status_of all_healthy
one_run =
    next
      (next (next (next here (adds (codes "db") true refl)) (takes 10 refl refl refl))
        (adds (codes "nats") false refl))
      (stores 12 5 3 probe ((codes "db", true) ∷ []) refl refl)

kept_at_fifteen : cached 15 after_store.checker ≡ some kept
unfolding cached
kept_at_fifteen = refl

cached_is_current_example :
    (map (λ (s : Status). s.name) kept.checks
      ≡ map (λ (c : Text × Bool). c.0) after_store.last.taken)
    × ((kept.healthy ≡ true)
        ↔ All
            (λ (k : Text × Bool). (after_store.last.probe k.1).error ≡ none)
            after_store.last.taken)
    × (after_store.checker.checks ≡ after_store.last.taken ++ after_store.last.missed)
    × (15 ≤ after_store.last.stored_at + after_store.last.ttl)
cached_is_current_example = cached_is_current first_run 15 kept one_run kept_at_fifteen
