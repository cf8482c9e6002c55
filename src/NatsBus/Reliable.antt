-- ===== src/NatsBus/Reliable.antt =====
-- `ReliablePublisher` of natsbus/reliable.go. The broker's `PublishMsg` is a function of the message
-- that changes a world, and the encoding of a change is its message or an error.
use service_runtime.Base.{
  ℕ, Bool, true, false, Option, none, some, List, [], ◌∷◌, if◌then◌else◌, ℤ, pos, is_nonpositive,
  Text,
}
use service_runtime.Floats.{Float64}
use service_runtime.Resilience.Breaker.{Breaker, CallError, do_call}
use service_runtime.Resilience.Retry.{
  RetryConfig, Outcome, succeeded, permanent_after, non_retryable_after, interrupted, failed_after,
  retry,
}
use service_runtime.NatsBus.DeadLetters.{Message, DeadLetter, message, Store, save, list, delete}

pub record ReliableOptions : Type 0 where
  pub replay_interval : ℤ
  pub replay_batch_size : ℤ

-- `withDefaults`, for the fields that are no functions
unfoldable pub with_defaults : ReliableOptions → ReliableOptions
with_defaults o = record {
  replay_interval = if is_nonpositive o.replay_interval then pos 30000000000 else o.replay_interval;
  replay_batch_size = if is_nonpositive o.replay_batch_size then pos 10 else o.replay_batch_size;
}

pub record State (W : Type 0) : Type 0 where
  pub breaker : Breaker
  pub store : Store
  pub world : W

-- Which calls of the file system fail.
pub record Faults : Type 0 where
  pub save_fails : Bool
  pub dir_fails : Bool
  pub read_fails : Text → Bool
  pub delete_fails : Text → Bool

pub data PublishResult (E : Type 0) : Type 0 where
  published : PublishResult E
  build_failed : E → PublishResult E
  dead_lettered not_kept : CallError (Outcome E) → PublishResult E

pub data ReplayError (E : Type 0) : Type 0 where
  list_failed : ReplayError E
  replay_failed : Text → CallError (Outcome E) → ReplayError E
  delete_failed : Text → ReplayError E

unfoldable pub error_of : {E : Type 0} → Outcome E → Option (Outcome E)
error_of succeeded = none
error_of (permanent_after n e) = some (permanent_after n e)
error_of (non_retryable_after n e) = some (non_retryable_after n e)
error_of (interrupted e) = some (interrupted e)
error_of (failed_after n e) = some (failed_after n e)

module _ (fl : Float64) {E W : Type 0} (permanent : E → Option E) (wait : ℕ → W → W × Option E)
    (draw : W → W × ℕ) (clock : W → ℕ) (broker : Message → W → W × Option E)
    (error_text : CallError (Outcome E) → Text) (cfg : RetryConfig fl E) where
  unfoldable pub publish_message :
      Message → Breaker → W → Breaker × W × Option (CallError (Outcome E))
  unfolding error_of
  publish_message m b w =
      do_call clock
        (λ u. let (u', o) = retry fl permanent (broker m) wait draw cfg u in (u', error_of o)) b w

  unfoldable pub letter_of : Text → ℕ → Message → CallError (Outcome E) → DeadLetter
  letter_of id now m e = record {
    id = id;
    created_at = now;
    subject = m.subject;
    header = m.header;
    data_bytes = m.data_bytes;
    last_error = error_text e;
  }

  -- `uuid` is the new identifier and `uuid'` the one that `Save` makes if that is blank.
  unfoldable pub handle_dead_letter :
      Faults → Text → Text → Message → CallError (Outcome E) → State W → State W × PublishResult E
  unfolding letter_of
  handle_dead_letter f uuid uuid' m e s =
      let now = clock s.world in
      let (store, ok) = save f.save_fails uuid' now (letter_of uuid now m e) s.store in
      (record s { store = store }, if ok then dead_lettered e else not_kept e)

  -- `Publish` of a change that is encoded as a message, or not.
  unfoldable pub publish_built :
      Faults → Text → Text → Message → State W → State W × PublishResult E
  unfolding publish_message handle_dead_letter
  publish_built f uuid uuid' m s =
      let (b, w, err) = publish_message m s.breaker s.world in
      let s' = record s { breaker = b; world = w } in
      elim err [ none ↦ (s', published) | some e ↦ handle_dead_letter f uuid uuid' m e s' ]

  -- The loop of `replayOnce`.
  unfoldable pub replay_records :
      Faults → List (Text × DeadLetter) → State W → State W × Option (ReplayError E)
  unfolding publish_message
  replay_records f [] s = (s, none)
  replay_records f ((name, r) ∷ rs) s =
      let (b, w, err) = publish_message (message r) s.breaker s.world in
      elim err [
        | some e ↦ (record s { breaker = b; world = w }, some (replay_failed name e))
        | none ↦
            let (store, ok) = delete (f.delete_fails name) name s.store in
            elim ok [
              | false ↦
                  (record { breaker = b; store = store; world = w }, some (delete_failed name))
              | true ↦ replay_records f rs (record { breaker = b; store = store; world = w })
            ]
      ]

  -- `replayOnce`, for one batch
  unfoldable pub replay_once : Faults → ℕ → State W → State W × Option (ReplayError E)
  unfolding replay_records list
  replay_once f batch s = elim (list f.dir_fails f.read_fails batch s.store) [
    | none ↦ (s, some list_failed)
    | some rs ↦ replay_records f rs s
  ]
