-- ===== src/NatsBus/Client.antt =====
-- The NATS client that natsbus/natsbus.go and natsbus/consumer.go call, which is another project's:
-- the calls that they make of it, over a state of its own, and what they rely on.
use service_runtime.Base.{ℕ, ◌≡◌, Bool, Option, none, some, List, ◌∷◌, ℤ, Text}
use service_runtime.NatsBus.DeadLetters.{Message}

pub record StreamConfig : Type 0 where
  pub name : Text
  pub subjects : List Text
  pub retention : ℕ
  pub max_age : ℤ
  pub storage : ℕ

-- `nats.SubOpt`
pub data SubscribeOption : Type 0 where
  bind_stream durable_name : Text → SubscribeOption
  manual_ack from_new from_all from_last : SubscribeOption
  ack_wait_for : ℤ → SubscribeOption

-- What is done with a message: it is acknowledged or handed back, and that may fail.
pub data Settled : Type 0 where
  acked ack_failed naked nak_failed : Settled

-- A connection is a number that `connect` gives out, or none if it fails; the other calls tell
-- whether they worked. The callback of a subscription is told whether its `Ack` or `Nak` works.
pub record NatsClient (W : Type 0) : Type 0 where
  pub connect : Text → W → W × Option ℕ
  pub new_jetstream : ℕ → W → W × Bool
  pub create_stream : StreamConfig → W → W × Bool
  pub queue_subscribe :
      ℕ → Text → Text → (Bool → Message → Settled) → List SubscribeOption → W → W × Bool
  pub drain : ℕ → W → W × Bool
  pub close : ℕ → W → W
  pub connections : W → List ℕ

-- The open connections, the newest first: only `connect` opens one and only `close` closes one.
pub record Lawful {W : Type 0} (nats : NatsClient W) : Type 0 where
  pub connect_opens :
      (url : Text) (w : W) (c : ℕ)
      → (nats.connect url w).1 ≡ some c
      → nats.connections (nats.connect url w).0 ≡ c ∷ nats.connections w
  pub connect_fails :
      (url : Text) (w : W)
      → (nats.connect url w).1 ≡ none
      → nats.connections (nats.connect url w).0 ≡ nats.connections w
  pub jetstream_keeps :
      (c : ℕ) (w : W) → nats.connections (nats.new_jetstream c w).0 ≡ nats.connections w
  pub create_keeps :
      (k : StreamConfig) (w : W) → nats.connections (nats.create_stream k w).0 ≡ nats.connections w
  pub subscribe_keeps :
      (c : ℕ) (subject queue : Text) (f : Bool → Message → Settled) (os : List SubscribeOption)
      (w : W)
      → nats.connections (nats.queue_subscribe c subject queue f os w).0 ≡ nats.connections w
  pub drain_keeps : (c : ℕ) (w : W) → nats.connections (nats.drain c w).0 ≡ nats.connections w
  pub close_closes :
      (c : ℕ) (cs : List ℕ) (w : W)
      → nats.connections w ≡ c ∷ cs
      → nats.connections (nats.close c w) ≡ cs
