-- ===== src/Downstream.antt =====
-- downstream/downstream.go: a client whose calls run through a breaker and whose failures are told to
-- the caller or not. A call changes a world, which has the clock. Logging is left out.
pub mod Laws
mod Tests
use service_runtime.Base.{
  ℕ, ◌+◌, ◌-◌, Bool, true, false, Option, none, some, List, [], ◌∷◌, ◌++◌, if◌then◌else◌, Text,
  codes, is_empty,
}
use service_runtime.Resilience.Breaker.{Breaker, CallError, call_failed, do_value}

-- `FailureMode`, an int: the two modes, and any other number.
pub data FailureMode : Type 0 where
  fail_closed fail_open other_mode : FailureMode

unfoldable pub mode_text : FailureMode → Text
mode_text fail_closed = codes "fail-closed"
mode_text fail_open = codes "fail-open"
mode_text other_mode = codes "unknown"

-- The two vectors of Prometheus, each missing or with what was recorded, oldest first: the
-- downstream, the operation, and the latency.
pub record Metrics : Type 0 where
  pub errors : Option (List (Text × Text))
  pub latency : Option (List (Text × Text × ℕ))

pub record Config : Type 0 where
  pub failure_mode : FailureMode
  pub breaker : Option Breaker
  pub metrics : Option Metrics

pub record Client : Type 0 where
  pub name : Text
  pub mode : FailureMode
  pub breaker : Option Breaker
  pub metrics : Option Metrics

-- The second argument of `New`, of type any
pub data ConfigOrPolicy : Type 0 where
  config_value : Config → ConfigOrPolicy
  config_pointer : Option Config → ConfigOrPolicy
  failure_mode : FailureMode → ConfigOrPolicy
  unsupported : ConfigOrPolicy

abbrev pub zero_config : Config
zero_config = record { failure_mode = fail_closed; breaker = none; metrics = none }

-- A panic is `none`.
unfoldable pub normalize_config : ConfigOrPolicy → List Config → Option Config
normalize_config (config_value c) [] = some c
normalize_config (config_value c) (d ∷ ds) = none
normalize_config (config_pointer none) [] = some zero_config
normalize_config (config_pointer (some c)) [] = some c
normalize_config (config_pointer c) (d ∷ ds) = none
normalize_config (failure_mode m) [] = some (record zero_config { failure_mode = m })
normalize_config (failure_mode m) (c ∷ []) = some (record c { failure_mode = m })
normalize_config (failure_mode m) (c ∷ d ∷ ds) = none
normalize_config unsupported ds = none

client_of : Text → Option Config → Option Client
client_of name none = none
client_of name (some c) =
    some (record { name = name; mode = c.failure_mode; breaker = c.breaker; metrics = c.metrics })

unfoldable pub new : Text → ConfigOrPolicy → List Config → Option Client
unfolding client_of normalize_config
new name arg configs = client_of name (normalize_config arg configs)

unfoldable pub op_label : Text → Text
op_label op = if is_empty op then codes "call" else op

append_some : {A : Type 0} → A → Option (List A) → Option (List A)
append_some a none = none
append_some a (some xs) = some (xs ++ (a ∷ []))

error_recorded : Text → Text → Option Metrics → Option Metrics
unfolding append_some op_label
error_recorded name op none = none
error_recorded name op (some m) =
    some (record m { errors = append_some (name, op_label op) m.errors })

latency_recorded : Text → Text → ℕ → Option Metrics → Option Metrics
unfolding append_some op_label
latency_recorded name op d none = none
latency_recorded name op d (some m) =
    some (record m { latency = append_some (name, op_label op, d) m.latency })

unfoldable pub record_error : Text → Client → Client
unfolding error_recorded
record_error op c = record c { metrics = error_recorded c.name op c.metrics }

unfoldable pub record_latency : Text → ℕ → Client → Client
unfolding latency_recorded
record_latency op d c = record c { metrics = latency_recorded c.name op d c.metrics }

unfoldable pub failure_result : {E : Type 0} → FailureMode → E → Option E
failure_result fail_open e = none
failure_result fail_closed e = some e
failure_result other_mode e = some e

module _ {W T E : Type 0} (clock : W → ℕ) (fn : W → W × T × Option E) (zero_value : T) where
  of_function : T × Option E → T × Option (CallError E)
  of_function (v, none) = (v, none)
  of_function (v, some e) = (v, some (call_failed e))

  -- The call itself, through the breaker if there is one
  call_through : Option Breaker → W → Option Breaker × W × T × Option (CallError E)
  unfolding of_function
  call_through none w =
      let (w', v, e) = fn w in let (v', e') = of_function (v, e) in (none, w', v', e')
  call_through (some b) w =
      let (b', w', v, e) = do_value clock fn zero_value b w in (some b', w', v, e)

  settle : Text → Client → W → T × Option (CallError E) → Client × W × T × Option (CallError E)
  settle op c w (v, none) = (c, w, v, none)
  settle op c w (v, some e) = (record_error op c, w, zero_value, failure_result c.mode e)

  unfoldable pub call_op : Text → Client → W → Client × W × T × Option (CallError E)
  unfolding call_through settle
  call_op op c w =
      let (b', w', v, e) = call_through c.breaker w in
      settle op (record_latency op (clock w' - clock w) (record c { breaker = b' })) w' (v, e)

  -- `Call`
  unfoldable pub call : Client → W → Client × W × T × Option (CallError E)
  unfolding call_op
  call c w = call_op [] c w
