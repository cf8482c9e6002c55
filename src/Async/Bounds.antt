-- ===== src/Async/Bounds.antt =====
-- How many tasks run at once on a runner of async/async.go, whatever the order of its users' steps.
use service_runtime.Base.{
  ℕ, ◌+◌, ◌≤◌, ◌<◌, Bool, true, false, some, List, [], ◌∷◌, ◌++◌, leb, ℤ, Text, length,
  length-append, ◌≡◌, refl, ap, ◌∙◌, ◌↔◌, inl, inr, arith, Bool-cases,
}
use service_runtime.Async.{Runner, Ending, Log, new_runner, try_go, send_or_reject, finish}

-- A runner, the operations whose goroutines have not ended, and how many calls were turned down.
pub record System : Type 0 where
  pub runner : Runner
  pub tasks : List Text
  pub rejections : ℕ

abbrev pub start : ℤ → System
start n = record { runner = new_runner n; tasks = []; rejections = 0 }

-- What a call of `TryGo` with a task does
abbrev pub launch : {E : Type 0} → Text → System → Runner × Bool × List (Log E) → System
launch op s (r, true, logs) = record s { runner = r; tasks = op ∷ s.tasks }
launch op s (r, false, logs) = record s { runner = r; rejections = s.rejections + 1 }

pub data Step (E : Type 0) (s : System) : System → Type 0 where
  calls :
      (op : Text) {u : System} → u ≡ launch op s (send_or_reject {E = E} op s.runner) → Step E s u
  ends :
      (end : Ending E) (op : Text) (xs ys : List Text) {u : System}
      → s.tasks ≡ xs ++ op ∷ ys
      → u ≡ record s { runner = (finish op end s.runner).0; tasks = xs ++ ys }
      → Step E s u

pub data Reach (E : Type 0) (s : System) : System → Type 0 where
  here : Reach E s s
  next : {t u : System} → Reach E s t → Step E t u → Reach E s u

-- The channel holds one entry for each task that runs, and there is room for all of them.
record IsBounded (capacity : ℕ) (s : System) : Type 0 where
  kept : s.runner.capacity ≡ capacity
  counted : s.runner.in_flight ≡ length s.tasks
  bounded : length s.tasks ≤ capacity

launch-IsBounded :
    (E : Type 0) (n : ℕ) (op : Text) (s : System)
    → IsBounded n s
    → IsBounded n (launch op s (send_or_reject {E = E} op s.runner))
unfolding send_or_reject
launch-IsBounded E n op s v = elim (Bool-cases (leb s.runner.capacity s.runner.in_flight)) [
  | inl full ↦ rw full (record { kept = v.kept; counted = v.counted; bounded = v.bounded })
  | inr room ↦ rw room (record {
    kept = v.kept;
    counted = omega (arith, v.counted);
    bounded = ground (arith, room, v.kept, v.counted);
  })
]

Step-IsBounded : {E : Type 0} (n : ℕ) {s u : System} → IsBounded n s → Step E s u → IsBounded n u
unfolding finish
Step-IsBounded {E} n {s} v (calls op e) = rw e (launch-IsBounded E n op s v)
Step-IsBounded n {s} v (ends end op xs ys h e) =
    let size = ap length h ∙ length-append xs (op ∷ ys) in
    let left = length-append xs ys in
    rw e (record {
      kept = v.kept;
      counted = omega (arith, v.counted, size, left);
      bounded = omega (arith, v.bounded, size, left);
    })

Reach-IsBounded :
    {E : Type 0} (m : ℤ) {u : System} → Reach E (start m) u → IsBounded (new_runner m).capacity u
unfolding new_runner
Reach-IsBounded m here = record { kept = refl; counted = refl; bounded = omega arith }
Reach-IsBounded m (next r s) = Step-IsBounded _ (Reach-IsBounded m r) s

launched_iff :
    (E : Type 0) (op : Text) (r : Runner)
    → ((send_or_reject {E = E} op r).1 ≡ true) ↔ (r.in_flight < r.capacity)
unfolding send_or_reject
launched_iff E op r = ground arith

-- However calls and ends of tasks interleave, and however the tasks end, not more tasks run at once
-- than the runner was made for; and a call with a task launches it exactly if fewer run then.
pub tasks_are_bounded :
    {E : Type 0} (m : ℤ) {u : System}
    → Reach E (start m) u
    → (length u.tasks ≤ (new_runner m).capacity)
      × ((op : Text)
          → ((try_go {E = E} op (some op) (some u.runner)).1 ≡ true)
            ↔ (length u.tasks < (new_runner m).capacity))
unfolding try_go
tasks_are_bounded {E} m {u} r =
    let v = Reach-IsBounded m r in
    (
      v.bounded,
      λ op.
          let (to, from) = launched_iff E op u.runner in
          (
            λ h. omega (arith, to h, v.kept, v.counted),
            λ h. from (omega (arith, h, v.kept, v.counted)),
          ),
    )
