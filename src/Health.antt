-- ===== src/Health.antt =====
-- health/health.go: named checks, their report, and the report that is kept for a while. `F` stands
-- for the check functions; what each does in a run is an argument. Times are nanoseconds after Go's
-- zero time; the latencies and durations of a report, in milliseconds, are arguments.
pub mod Laws
pub mod Shared
mod Tests
use service_runtime.Base.{
  ℕ, ◌+◌, Bool, true, false, ◌||◌, Option, none, some, is_none, List, [], ◌∷◌, ◌++◌, map, ltb, ◌==◌,
  if◌then◌else◌, ℤ, pos, is_nonpositive, to_ℕ, Text, codes, is_empty,
}

pub record Status : Type 0 where
  pub name : Text
  pub healthy : Bool
  pub latency : ℕ
  pub error : Text

pub record Report : Type 0 where
  pub healthy : Bool
  pub checks : List Status
  pub duration : ℕ

-- How a check function ends: the text of its error, if any, and how long it took.
pub record Outcome : Type 0 where
  pub error : Option Text
  pub latency : ℕ

pub record Checker (F : Type 0) : Type 0 where
  pub checks : List (Text × F)
  pub cached_report : Report
  pub cache_until : ℕ

abbrev pub empty_report : Report
empty_report = record { healthy = false; checks = []; duration = 0 }

unfoldable pub new : {F : Type 0} → Checker F
new = record { checks = []; cached_report = empty_report; cache_until = 0 }

unfoldable pub add : {F : Type 0} → Text → F → Checker F → Checker F
add name fn c = record {
  checks = c.checks ++ ((name, fn) ∷ []);
  cached_report = empty_report;
  cache_until = 0;
}

text_or_empty : Option Text → Text
text_or_empty none = []
text_or_empty (some e) = e

unfoldable pub status_of : {F : Type 0} → (F → Outcome) → Text × F → Status
unfolding text_or_empty
status_of probe (name, fn) =
    let o = probe fn in
    record {
      name = name;
      healthy = is_none o.error;
      latency = o.latency;
      error = text_or_empty o.error;
    }

unfoldable pub all_healthy : List Status → Bool
all_healthy [] = true
all_healthy (s ∷ ss) = elim s.healthy [ true ↦ all_healthy ss | false ↦ false ]

-- The checks run at once, each into its own place of the results.
unfoldable pub check_all : {F : Type 0} → (F → Outcome) → ℕ → List (Text × F) → Report
unfolding status_of all_healthy
check_all probe duration [] = record { healthy = true; checks = []; duration = duration }
check_all probe duration (c ∷ cs) =
    let results = map (status_of probe) (c ∷ cs) in
    record { healthy = all_healthy results; checks = results; duration = duration }

unfoldable pub check : {F : Type 0} → (F → Outcome) → ℕ → Checker F → Report
unfolding check_all
check probe duration c = check_all probe duration c.checks

unfoldable pub cached : {F : Type 0} → ℕ → Checker F → Option Report
cached now c = if c.cache_until == 0 || ltb c.cache_until now then none else some c.cached_report

unfoldable pub store : {F : Type 0} → ℕ → ℕ → Report → Checker F → Checker F
store later ttl r c = record c { cached_report = r; cache_until = later + ttl }

-- The section that holds `cacheMu`
unfoldable pub check_locked :
    {F : Type 0} → ℕ → ℕ → ℕ → (F → Outcome) → ℕ → Checker F → Checker F × Report
unfolding check cached store
check_locked now later ttl probe duration c = elim (cached now c) [
  | some r ↦ (c, r)
  | none ↦ let r = check probe duration c in (store later ttl r c, r)
]

-- `CachedCheck` when nothing else runs; the clock is read up to three times.
unfoldable pub cached_check :
    {F : Type 0} → ℕ → ℕ → ℕ → ℤ → (F → Outcome) → ℕ → Checker F → Checker F × Report
unfolding check_locked
cached_check now locked later ttl probe duration c =
    if is_nonpositive ttl then (c, check probe duration c) else elim (cached now c) [
      | some r ↦ (c, r)
      | none ↦ check_locked locked later (to_ℕ ttl) probe duration c
    ]

-- What is written to a client
pub record Response : Type 0 where
  pub status : ℕ
  pub content_type : Text
  pub body : Report

unfoldable pub respond : Report → Response
respond r = record {
  status = if r.healthy then 200 else 503;
  content_type = codes "application/json";
  body = r;
}

unfoldable pub handler : {F : Type 0} → (F → Outcome) → ℕ → Checker F → Response
unfolding check respond
handler probe duration c = respond (check probe duration c)

unfoldable pub cached_handler :
    {F : Type 0} → ℕ → ℕ → ℕ → ℤ → (F → Outcome) → ℕ → Checker F → Checker F × Response
unfolding cached_check respond
cached_handler now locked later ttl probe duration c =
    let (c', r) = cached_check now locked later ttl probe duration c in (c', respond r)

-- 5 seconds
abbrev pub default_cache_ttl : ℤ
default_cache_ttl = pos 5000000000

unfoldable pub readyz_handler :
    {F : Type 0} → ℕ → ℕ → ℕ → (F → Outcome) → ℕ → Checker F → Checker F × Response
unfolding cached_handler
readyz_handler now locked later probe duration c =
    cached_handler now locked later default_cache_ttl probe duration c
