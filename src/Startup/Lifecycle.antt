-- ===== src/Startup/Lifecycle.antt =====
-- startup/lifecycle.go. A nil lifecycle is `none`. A hook's function is named by a value of `Fn` and
-- runs by `invoke`, on a world and on the lifecycle itself, as a hook may register further hooks.
pub mod Laws
use service_runtime.Base.{
  Option, none, some, List, [], ◌∷◌, ◌++◌, Text, codes, is_empty, trim_space, reverse,
  if◌then◌else◌,
}

pub record Hook (Fn : Type 0) : Type 0 where
  pub name : Text
  pub fn : Fn

pub record State (Fn W : Type 0) : Type 0 where
  pub lifecycle : Option (List (Hook Fn))
  pub world : W

hook_name : Text → Text
hook_name raw = let name = trim_space raw in if is_empty name then codes "shutdown hook" else name

-- A nil function is `none`.
unfoldable pub on_shutdown :
    {Fn : Type 0} → Text → Option Fn → Option (List (Hook Fn)) → Option (List (Hook Fn))
unfolding hook_name
on_shutdown raw none l = l
on_shutdown raw (some fn) none = none
on_shutdown raw (some fn) (some hooks) =
    some (hooks ++ record { name = hook_name raw; fn = fn } ∷ [])

-- `errors.Join`; no error at all is nil.
unfoldable pub join : {E : Type 0} → List (Text × E) → Option (List (Text × E))
join [] = none
join (e ∷ es) = some (e ∷ es)

module _ {Fn W E : Type 0} (invoke : Fn → State Fn W → State Fn W × Option E) where
  -- The loop over the hooks that were taken, in the order given; an error keeps its hook's name.
  run_hooks : List (Hook Fn) → State Fn W → List (Text × E) → State Fn W × List (Text × E)
  run_hooks [] s errs = (s, errs)
  run_hooks (h ∷ hs) s errs =
      let (s', err) = invoke h.fn s in
      run_hooks hs s' (elim err [ none ↦ errs | some e ↦ errs ++ (h.name, e) ∷ [] ])

  shutdown_hooks : Option (List (Hook Fn)) → State Fn W → State Fn W × Option (List (Text × E))
  unfolding run_hooks join
  shutdown_hooks none s = (s, none)
  shutdown_hooks (some hooks) s =
      let (s', errs) = run_hooks (reverse hooks) (record s { lifecycle = some [] }) [] in
      (s', join errs)

  unfoldable pub shutdown : State Fn W → State Fn W × Option (List (Text × E))
  unfolding shutdown_hooks
  shutdown s = shutdown_hooks s.lifecycle s
