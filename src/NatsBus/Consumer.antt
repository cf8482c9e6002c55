-- ===== src/NatsBus/Consumer.antt =====
-- The queue consumer of natsbus/consumer.go, over the NATS client of NatsBus/Client. A handler is a
-- function of the message. Spans and logging are left out.
use service_runtime.Base.{
  ℕ, not, Bool, true, false, Option, none, some, List, [], ◌∷◌, ◌++◌, if◌then◌else◌, ℤ,
  is_nonpositive, Text, is_empty, trim_space,
}
use service_runtime.NatsBus.DeadLetters.{Message}
use service_runtime.NatsBus.Client.{
  NatsClient, SubscribeOption, bind_stream, durable_name, manual_ack, from_new, from_all, from_last,
  ack_wait_for, Settled, acked, ack_failed, naked, nak_failed,
}
use service_runtime.NatsBus.Envelope.{
  nats_url_required, consumer_stream_required, consumer_subject_required, consumer_durable_required,
  consumer_handler_nil, connect_failed, jetstream_failed, queue_subscribe_failed, message_nil,
  handler_failed, Result, ok, err,
}

-- `DeliveryPolicy`: the empty string, the three policies, and any other string.
pub data DeliveryPolicy : Type 0 where
  unset_policy deliver_new deliver_all deliver_last other_policy : DeliveryPolicy

pub record ConsumerOptions : Type 0 where
  pub stream : Text
  pub subject : Text
  pub durable : Text
  pub queue : Text
  pub ack_wait : ℤ
  pub deliver_policy : DeliveryPolicy

default_policy : DeliveryPolicy → DeliveryPolicy
default_policy unset_policy = deliver_new
default_policy deliver_new = deliver_new
default_policy deliver_all = deliver_all
default_policy deliver_last = deliver_last
default_policy other_policy = other_policy

unfoldable pub with_defaults : ConsumerOptions → ConsumerOptions
unfolding default_policy
with_defaults o = record {
  stream = trim_space o.stream;
  subject = trim_space o.subject;
  durable = trim_space o.durable;
  queue = trim_space o.queue;
  ack_wait = o.ack_wait;
  deliver_policy = default_policy o.deliver_policy;
}

unfoldable pub queue_name : ConsumerOptions → Text
queue_name o = if is_empty o.queue then o.durable else o.queue

policy_option : DeliveryPolicy → SubscribeOption
policy_option deliver_new = from_new
policy_option deliver_all = from_all
policy_option deliver_last = from_last
policy_option unset_policy = from_new
policy_option other_policy = from_new

unfoldable pub subscribe_options : ConsumerOptions → List SubscribeOption
unfolding policy_option
subscribe_options o =
    bind_stream o.stream
    ∷ durable_name o.durable
    ∷ manual_ack
    ∷ ((if is_nonpositive o.ack_wait then [] else ack_wait_for o.ack_wait ∷ [])
        ++ (policy_option o.deliver_policy ∷ []))

-- The callback of the subscription; `settles` tells whether `Ack` or `Nak` works.
unfoldable pub on_message : (Message → Bool) → Bool → Message → Settled
on_message handler settles m =
    if handler m
    then if settles then acked else ack_failed
    else if settles
    then naked
    else nak_failed

-- `Consume` of the consumer in natsbus/propagation.go
unfoldable pub consume : Option (Message → Bool) → Option Message → Result Message
consume none m = err consumer_handler_nil
consume (some h) none = err message_nil
consume (some h) (some m) = if h m then ok m else err handler_failed

-- What `Subscribe` keeps: its connection, whether `cleanFn` ran, and whether it worked.
pub record Subscription : Type 0 where
  pub connection : ℕ
  pub cleaned : Bool
  pub cleanup : Bool

-- The ways a subscription ends: the goroutine that waits for the context, and the function that
-- `Subscribe` returned. Either may come at any time, and the function more than once.
pub data Ending : Type 0 where
  ctx_done shutdown_called : Ending

module _ {W : Type 0} (nats : NatsClient W) where
  open nats use {connect, new_jetstream, queue_subscribe, drain, close}

  -- The calls of the NATS client, once the arguments are checked.
  unfoldable pub subscribe_queue :
      ConsumerOptions → Text → (Message → Bool) → W → W × Result Subscription
  unfolding on_message subscribe_options queue_name
  subscribe_queue o nats_url handler w =
      let (w1, connection) = connect nats_url w in
      elim connection [
        | none ↦ (w1, err connect_failed)
        | some c ↦
            let (w2, has_jetstream) = new_jetstream c w1 in
            let (w3, subscribed) =
              queue_subscribe c o.subject (queue_name o) (on_message handler) (subscribe_options o)
                w2 in
            if not has_jetstream
            then (close c w2, err jetstream_failed)
            else if not subscribed
            then (close c w3, err queue_subscribe_failed)
            else (w3, ok (record { connection = c; cleaned = false; cleanup = true }))
      ]

  unfoldable pub subscribe_handled :
      ConsumerOptions → Text → Option (Message → Bool) → W → W × Result Subscription
  subscribe_handled o nats_url none w = (w, err consumer_handler_nil)
  subscribe_handled o nats_url (some h) w = subscribe_queue o nats_url h w

  unfoldable pub subscribe :
      Text → ConsumerOptions → Option (Message → Bool) → W → W × Result Subscription
  subscribe nats_url opts handler w =
      let url = trim_space nats_url in
      let o = with_defaults opts in
      if is_empty url
      then (w, err nats_url_required)
      else if is_empty o.stream
      then (w, err consumer_stream_required)
      else if is_empty o.subject
      then (w, err consumer_subject_required)
      else if is_empty o.durable
      then (w, err consumer_durable_required)
      else subscribe_handled o url handler w

  -- `once.Do(cleanFn)`
  unfoldable pub clean_up : Subscription → W → W × Subscription
  clean_up s w =
      let (w1, drained) = drain s.connection w in
      if s.cleaned
      then (w, s)
      else (close s.connection w1, record s { cleaned = true; cleanup = drained })

  -- The goroutine, and the returned function, whose result tells whether the cleanup worked
  unfoldable pub end_subscription : Ending → Subscription → W → W × Subscription × Option Bool
  unfolding clean_up
  end_subscription ctx_done s w = let (w', s') = clean_up s w in (w', s', none)
  end_subscription shutdown_called s w = let (w', s') = clean_up s w in (w', s', some s'.cleanup)
