-- ===== src/Startup/Lifecycle/Laws.antt =====
-- The order in which shutdown hooks run, and the errors that are joined (startup/lifecycle.go).
use mathlib.Core.List.{append_assoc, append-nil}
use service_runtime.Base.{
  Option, none, some, List, [], ◌∷◌, ◌++◌, Text, reverse, map, ◌≡◌, refl, sym, ap, ◌∙◌, arith,
}
use service_runtime.Startup.Lifecycle.{Hook, State, run_hooks, join, shutdown_hooks, shutdown}

-- The errors of those hooks that fail, in the order of the list.
abbrev pub failures : {Fn E : Type 0} → (Fn → Option E) → List (Hook Fn) → List (Text × E)
failures fails [] = []
failures fails (h ∷ hs) = elim (fails h.fn) [
  | none ↦ failures fails hs
  | some e ↦ (h.name, e) ∷ failures fails hs
]

add_failure :
    {Fn E : Type 0} (fails : Fn → Option E) (h : Hook Fn) (hs : List (Hook Fn))
    (es : List (Text × E))
    → elim (fails h.fn) [ none ↦ es | some e ↦ es ++ (h.name, e) ∷ [] ] ++ failures fails hs
      ≡ es ++ failures fails (h ∷ hs)
add_failure fails h hs es =
    elim (fails h.fn)
      as (λ r.
        elim r [ none ↦ es | some e ↦ es ++ (h.name, e) ∷ [] ] ++ failures fails hs
        ≡ es ++ elim r [ none ↦ failures fails hs | some e ↦ (h.name, e) ∷ failures fails hs ]) [
          | none ↦ refl
          | some e ↦ append_assoc es ((h.name, e) ∷ []) (failures fails hs)
        ]

module _ {Fn W E : Type 0} (invoke : Fn → State Fn W → State Fn W × Option E) (log : W → List Fn)
    (fails : Fn → Option E)
    (logs : (f : Fn) (s : State Fn W) → log (invoke f s).0.world ≡ log s.world ++ f ∷ [])
    (errs : (f : Fn) (s : State Fn W) → (invoke f s).1 ≡ fails f) where
  run_hooks-order :
      (hs : List (Hook Fn)) (s : State Fn W) (es : List (Text × E))
      → log (run_hooks invoke hs s es).0.world ≡ log s.world ++ map (λ h. h.fn) hs
  unfolding run_hooks
  run_hooks-order [] s es = sym (append-nil (log s.world))
  run_hooks-order (h ∷ hs) s es =
      run_hooks-order hs (invoke h.fn s).0 _
      ∙ rw (logs h.fn s) (append_assoc (log s.world) (h.fn ∷ []) (map (λ h. h.fn) hs))

  run_hooks-failures :
      (hs : List (Hook Fn)) (s : State Fn W) (es : List (Text × E))
      → (run_hooks invoke hs s es).1 ≡ es ++ failures fails hs
  unfolding run_hooks
  run_hooks-failures [] s es = sym (append-nil es)
  run_hooks-failures (h ∷ hs) s es =
      run_hooks-failures hs (invoke h.fn s).0 _ ∙ rw (errs h.fn s) (add_failure fails h hs es)

  -- Given hooks that log their run and whose errors depend on the hook alone: `Shutdown` runs every
  -- registered hook once, the last registered first, also those after a hook that failed, and
  -- returns the errors of all that failed, in that order, or nil if none did.
  pub shutdown_runs_all :
      (hooks : List (Hook Fn)) (w : W)
      → let r = shutdown invoke (record { lifecycle = some hooks; world = w }) in
        (log r.0.world ≡ log w ++ map (λ h. h.fn) (reverse hooks))
        × (r.1 ≡ join (failures fails (reverse hooks)))
  unfolding shutdown
  shutdown_runs_all hooks w =
      (run_hooks-order (reverse hooks) _ [], ap join (run_hooks-failures (reverse hooks) _ []))

module _ {Fn W E : Type 0} (invoke : Fn → State Fn W → State Fn W × Option E)
    (keeps : (f : Fn) (s : State Fn W) → (invoke f s).0.lifecycle ≡ s.lifecycle) where
  run_hooks-lifecycle :
      (hs : List (Hook Fn)) (s : State Fn W) (es : List (Text × E))
      → (run_hooks invoke hs s es).0.lifecycle ≡ s.lifecycle
  unfolding run_hooks
  run_hooks-lifecycle [] s es = refl
  run_hooks-lifecycle (h ∷ hs) s es = run_hooks-lifecycle hs (invoke h.fn s).0 _ ∙ keeps h.fn s

  no_hooks_at :
      (l : Option (List (Hook Fn))) (s : State Fn W)
      → l ≡ some []
      → s.lifecycle ≡ l
      → shutdown_hooks invoke l s ≡ (s, none)
  unfolding shutdown_hooks
  no_hooks_at none s e f = cc
  no_hooks_at (some []) s e f = ground arith
  no_hooks_at (some (h ∷ hs)) s e f = cc

  no_hooks : (s : State Fn W) → s.lifecycle ≡ some [] → shutdown invoke s ≡ (s, none)
  unfolding shutdown
  no_hooks s e = no_hooks_at s.lifecycle s e refl

  -- Given hooks that register no further hooks: a second `Shutdown` runs nothing and returns nil.
  pub shutdown_once :
      (hooks : List (Hook Fn)) (w : W)
      → let s = (shutdown invoke (record { lifecycle = some hooks; world = w })).0 in
        shutdown invoke s ≡ (s, none)
  unfolding shutdown
  shutdown_once hooks w = no_hooks _ (run_hooks-lifecycle (reverse hooks) _ [])
