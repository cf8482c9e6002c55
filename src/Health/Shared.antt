-- ===== src/Health/Shared.antt =====
-- Requests and registrations that share one checker (health/health.go): `cacheMu` lets one cached
-- check run at a time, and while it runs the others read the cache and register checks.
use mathlib.Core.List.{append_assoc, append-nil}
use service_runtime.Base.{
  ℕ, ◌+◌, ◌≤◌, true, Option, none, some, List, [], ◌∷◌, ◌++◌, map, Text, All, ◌≡◌, ◌≢◌, refl, sym,
  ap, ◌∙◌, ◌↔◌, arith,
}
use service_runtime.Health.{Status, Report, Outcome, Checker, new, add, check_all, cached, store}
use service_runtime.Health.Laws.{check_all-Covers}

-- A run of the checks: which it took, what they did, and when its report was stored, for how long.
pub record Run (F : Type 0) : Type 0 where
  pub taken : List (Text × F)
  pub probe : F → Outcome
  pub stored_at : ℕ
  pub ttl : ℕ
  -- The checks that were registered while it ran
  pub missed : List (Text × F)

-- `running` has the checks that the cached check in progress took, `late` those that were registered
-- since, and `last` is the last run that is over.
pub record System (F : Type 0) : Type 0 where
  pub checker : Checker F
  pub running : Option (List (Text × F))
  pub late : List (Text × F)
  pub last : Run F

abbrev pub start : {F : Type 0} → Run F → System F
start r = record { checker = new; running = none; late = []; last = r }

-- One step of any goroutine
pub data Step {F : Type 0} (s : System F) : System F → Type 0 where
  adds :
      (name : Text) (fn : F) {u : System F}
      → u ≡ record s { checker = add name fn s.checker; late = s.late ++ ((name, fn) ∷ []) }
      → Step s u
  -- With `cacheMu` held, the cache has no report that is still good.
  takes :
      (now : ℕ) {u : System F}
      → s.running ≡ none
      → cached now s.checker ≡ none
      → u ≡ record s { running = some s.checker.checks; late = [] }
      → Step s u
  stores :
      (later ttl duration : ℕ) (probe : F → Outcome) (taken : List (Text × F)) {u : System F}
      → s.running ≡ some taken
      → u ≡ record s {
        checker = store later ttl (check_all probe duration taken) s.checker;
        running = none;
        last = record {
          taken = taken;
          probe = probe;
          stored_at = later;
          ttl = ttl;
          missed = s.late;
        };
      }
      → Step s u

pub data Reach {F : Type 0} (s : System F) : System F → Type 0 where
  here : Reach s s
  next : {t u : System F} → Reach s t → Step t u → Reach s u

-- What is cached is the report of the last run, and a run takes all checks that are registered.
record IsCurrent {F : Type 0} (s : System F) : Type 0 where
  taken : (cs : List (Text × F)) → s.running ≡ some cs → s.checker.checks ≡ cs ++ s.late
  covers :
      s.checker.cache_until ≢ 0
      → (map (λ (s : Status). s.name) s.checker.cached_report.checks
          ≡ map (λ (c : Text × F). c.0) s.last.taken)
        × ((s.checker.cached_report.healthy ≡ true)
            ↔ All (λ (k : Text × F). (s.last.probe k.1).error ≡ none) s.last.taken)
        × (s.checker.checks ≡ s.last.taken ++ s.last.missed)
        × (s.checker.cache_until ≡ s.last.stored_at + s.last.ttl)

Step-IsCurrent : {F : Type 0} {s u : System F} → IsCurrent s → Step s u → IsCurrent u
unfolding add store
Step-IsCurrent {F} {s} v (adds name fn e) = rw e (record {
  taken = λ cs r.
      ap (λ l. l ++ ((name, fn) ∷ [])) (v.taken cs r) ∙ append_assoc cs s.late ((name, fn) ∷ []);
  covers = λ n. absurd (n refl);
})
Step-IsCurrent {F} {s} v (takes now idle miss e) = rw e (record {
  taken = λ cs r. sym (append-nil s.checker.checks) ∙ ap (λ l. l ++ []) (ground (arith, r));
  covers = v.covers;
})
Step-IsCurrent {F} {s} v (stores later ttl duration probe cs busy e) =
    let (names, healthy) = check_all-Covers probe duration cs in
    rw e (record {
      taken = λ ds r. absurd (ground (arith, r));
      covers = λ n. (names, healthy, v.taken cs busy, refl);
    })

Reach-IsCurrent : {F : Type 0} (p : Run F) {u : System F} → Reach (start p) u → IsCurrent u
unfolding new
Reach-IsCurrent p here = record {
  taken = λ cs r. absurd (ground (arith, r));
  covers = λ n. absurd (n refl);
}
Reach-IsCurrent p (next r s) = Step-IsCurrent (Reach-IsCurrent p r) s

cached-Kept :
    {F : Type 0} (now : ℕ) (c : Checker F) (r : Report)
    → cached now c ≡ some r
    → (c.cache_until ≢ 0) × (now ≤ c.cache_until) × (r ≡ c.cached_report)
unfolding cached
cached-Kept now c r h = (λ z. ground (arith, z, h), ground (arith, h), ground (arith, h))

-- Whatever the order of registrations and cached checks, a report from the cache is that of the last
-- run: it lists the checks which that run took, is healthy exactly if none of them failed in it, and
-- is not older than its time to live. The checks that are registered are those, and after them the
-- ones that were registered while the run was going on, which the report does not list.
pub cached_is_current :
    {F : Type 0} (p : Run F) {u : System F} (now : ℕ) (r : Report)
    → Reach (start p) u
    → cached now u.checker ≡ some r
    → (map (λ (s : Status). s.name) r.checks ≡ map (λ (c : Text × F). c.0) u.last.taken)
      × ((r.healthy ≡ true) ↔ All (λ (k : Text × F). (u.last.probe k.1).error ≡ none) u.last.taken)
      × (u.checker.checks ≡ u.last.taken ++ u.last.missed)
      × (now ≤ u.last.stored_at + u.last.ttl)
cached_is_current p {u} now r reach hit =
    let (set, fresh, same) = cached-Kept now u.checker r hit in
    let v = Reach-IsCurrent p reach in
    let (names, healthy, whole, until) = v.covers set in
    (rw same names, rw same healthy, whole, omega (arith, fresh, until))
