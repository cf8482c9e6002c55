-- ===== src/NatsBus/Connections.antt =====
-- The connections of natsbus/natsbus.go and natsbus/consumer.go: when they are opened and closed.
use service_runtime.Base.{
  ℕ, Bool, true, false, Option, none, some, List, [], ◌∷◌, Text, trim_space, ◌≡◌, refl, ap, ◌∙◌,
  inl, inr, arith, Option-cases, All,
}
use service_runtime.NatsBus.DeadLetters.{Message}
use service_runtime.NatsBus.Client.{NatsClient, Lawful}
use service_runtime.NatsBus.Envelope.{Result, ok, err}
use service_runtime.NatsBus.Publisher.{trim_suffix, dot}
use service_runtime.NatsBus.Connect
use service_runtime.NatsBus.Connect.{
  Options, Connected, connect_with_options, connect_stream, close_publisher, stream_config,
}
use service_runtime.NatsBus.Consumer.{
  ConsumerOptions, Subscription, Ending, ctx_done, shutdown_called, subscribe, subscribe_queue,
  subscribe_handled, clean_up, end_subscription, queue_name, on_message, subscribe_options,
  with_defaults,
}

module _ {W : Type 0} (nats : NatsClient W) where
  -- A setup that worked holds the one connection that it opened, and one that did not holds none.
  abbrev pub Held : {A : Type 0} → (A → ℕ) → W → W × Result A → Type 0
  Held connection w (w', ok a) = nats.connections w' ≡ connection a ∷ nats.connections w
  Held connection w (w', err e) = nats.connections w' ≡ nats.connections w

  abbrev pub of_publisher : Connected → ℕ
  of_publisher p = p.connection

  abbrev pub of_subscription : Subscription → ℕ
  of_subscription s = s.connection

  connect_stream-Held :
      (o : Options) (url name prefix : Text) (w : W)
      → Lawful nats
      → Held of_publisher w (connect_stream nats o url name prefix w)
  unfolding connect_stream
  connect_stream-Held o url name prefix w law =
      let (w1, connection) = nats.connect url w in
      elim (Option-cases connection) [
        | inl a ↦ ground (arith, a, law.connect_fails url w a)
        | inr (c, a) ↦
            let w2 = (nats.new_jetstream c w1).0 in
            let opened : nats.connections w2 ≡ c ∷ nats.connections w =
              law.jetstream_keeps c w1 ∙ law.connect_opens url w c a in
            let closed = law.close_closes c (nats.connections w) w2 opened in
            let kept = law.create_keeps (stream_config o name prefix) w2 ∙ opened in
            ground (arith, a, closed, kept, law.close_closes c (nats.connections w) _ kept)
      ]

  subscribe_queue-Held :
      (o : ConsumerOptions) (url : Text) (f : Message → Bool) (w : W)
      → Lawful nats
      → Held of_subscription w (subscribe_queue nats o url f w)
  unfolding subscribe_queue
  subscribe_queue-Held o url f w law =
      let (w1, connection) = nats.connect url w in
      elim (Option-cases connection) [
        | inl a ↦ ground (arith, a, law.connect_fails url w a)
        | inr (c, a) ↦
            let w2 = (nats.new_jetstream c w1).0 in
            let opened : nats.connections w2 ≡ c ∷ nats.connections w =
              law.jetstream_keeps c w1 ∙ law.connect_opens url w c a in
            let closed = law.close_closes c (nats.connections w) w2 opened in
            let kept =
              law.subscribe_keeps c o.subject (queue_name o) (on_message f) (subscribe_options o) w2
              ∙ opened in
            ground (arith, a, closed, kept, law.close_closes c (nats.connections w) _ kept)
      ]

  connect-Held :
      (url stream prefix : Text) (o : Options) (w : W)
      → Lawful nats
      → Held of_publisher w (connect_with_options nats url stream prefix o w)
  unfolding connect_with_options
  connect-Held url stream prefix o w law = ground (
    arith,
    connect_stream-Held (Connect.with_defaults o) (trim_space url) (trim_space stream)
        (trim_suffix (trim_space prefix) dot) w law,
  )

  handled-Held :
      (o : ConsumerOptions) (url : Text) (h : Option (Message → Bool)) (w : W)
      → Lawful nats
      → Held of_subscription w (subscribe_handled nats o url h w)
  unfolding subscribe_handled
  handled-Held o url none w law = refl
  handled-Held o url (some f) w law = subscribe_queue-Held o url f w law

  subscribe-Held :
      (url : Text) (o : ConsumerOptions) (handler : Option (Message → Bool)) (w : W)
      → Lawful nats
      → Held of_subscription w (subscribe nats url o handler w)
  unfolding subscribe
  subscribe-Held url o handler w law =
      ground (arith, handled-Held (with_defaults o) (trim_space url) handler w law)

  -- A subscription through all that ends it, with what each shutdown returned.
  unfoldable pub end_all : List Ending → Subscription → W → W × Subscription × List (Option Bool)
  end_all [] s w = (w, s, [])
  end_all (e ∷ es) s w =
      let (w1, s1, r) = end_subscription nats e s w in
      let (w2, s2, rs) = end_all es s1 w1 in (w2, s2, r ∷ rs)

  -- What a shutdown returned, if it was one, is whether the cleanup worked.
  abbrev pub Answers : Bool → Option Bool → Type 0
  Answers worked none = Unit
  Answers worked (some b) = b ≡ worked

  clean_up-cleaned : (s : Subscription) (w : W) → s.cleaned ≡ true → clean_up nats s w ≡ (w, s)
  unfolding clean_up
  clean_up-cleaned s w c = ground (arith, c)

  end_all-cleaned :
      (es : List Ending) (s : Subscription) (w : W)
      → s.cleaned ≡ true
      → ((end_all es s w).0 ≡ w) × All (Answers s.cleanup) (end_all es s w).2
  unfolding end_all end_subscription
  end_all-cleaned [] s w c = (refl, tt)
  end_all-cleaned (ctx_done ∷ es) s w c =
      let (same, answers) = end_all-cleaned es s w c in
      rw (clean_up-cleaned s w c) (same, (tt, answers))
  end_all-cleaned (shutdown_called ∷ es) s w c =
      let (same, answers) = end_all-cleaned es s w c in
      rw (clean_up-cleaned s w c) (same, (refl, answers))

  -- A subscription that is set up ends once: it is drained and its connection closed, which leaves
  -- the connections as they were before, and every shutdown returns whether that drain worked.
  abbrev pub EndsOnce : Ending → List Ending → W → W × Result Subscription → Type 0
  EndsOnce e es w (w', ok s) =
      let (drained, worked) = nats.drain s.connection w' in
      let (ended, _, answers) = end_all (e ∷ es) s w' in
      (ended ≡ nats.close s.connection drained)
      × (nats.connections ended ≡ nats.connections w)
      × All (Answers worked) answers
  EndsOnce e es w (w', err _) = Unit

  end_all-EndsOnce :
      (e : Ending) (es : List Ending) (w w' : W) (s : Subscription)
      → Lawful nats
      → s.cleaned ≡ false
      → nats.connections w' ≡ s.connection ∷ nats.connections w
      → EndsOnce e es w (w', ok s)
  unfolding end_all end_subscription clean_up
  end_all-EndsOnce ctx_done es w w' s law fresh held =
      let (drained, worked) = nats.drain s.connection w' in
      let closed =
        law.close_closes s.connection (nats.connections w) drained
          (law.drain_keeps s.connection w' ∙ held) in
      let (same, answers) =
        end_all-cleaned es (record s { cleaned = true; cleanup = worked })
          (nats.close s.connection drained) refl in
      rw fresh (same, ap nats.connections same ∙ closed, (tt, answers))
  end_all-EndsOnce shutdown_called es w w' s law fresh held =
      let (drained, worked) = nats.drain s.connection w' in
      let closed =
        law.close_closes s.connection (nats.connections w) drained
          (law.drain_keeps s.connection w' ∙ held) in
      let (same, answers) =
        end_all-cleaned es (record s { cleaned = true; cleanup = worked })
          (nats.close s.connection drained) refl in
      rw fresh (same, ap nats.connections same ∙ closed, (refl, answers))

  -- A subscription that was returned is not cleaned up yet.
  IsFresh : W × Result Subscription → Type 0
  IsFresh (w', ok s) = s.cleaned ≡ false
  IsFresh (w', err e) = Unit

  subscribe_queue-IsFresh :
      (o : ConsumerOptions) (url : Text) (f : Message → Bool) (w : W)
      → IsFresh (subscribe_queue nats o url f w)
  unfolding IsFresh subscribe_queue
  subscribe_queue-IsFresh o url f w = ground arith

  handled-IsFresh :
      (o : ConsumerOptions) (url : Text) (h : Option (Message → Bool)) (w : W)
      → IsFresh (subscribe_handled nats o url h w)
  unfolding IsFresh subscribe_handled
  handled-IsFresh o url none w = tt
  handled-IsFresh o url (some f) w = subscribe_queue-IsFresh o url f w

  subscribe-IsFresh :
      (url : Text) (o : ConsumerOptions) (handler : Option (Message → Bool)) (w : W)
      → IsFresh (subscribe nats url o handler w)
  unfolding IsFresh subscribe
  subscribe-IsFresh url o handler w =
      ground (arith, handled-IsFresh (with_defaults o) (trim_space url) handler w)

  Held-EndsOnce :
      (e : Ending) (es : List Ending) (w : W) (p : W × Result Subscription)
      → Lawful nats
      → Held of_subscription w p
      → IsFresh p
      → EndsOnce e es w p
  unfolding IsFresh
  Held-EndsOnce e es w (w', ok s) law held fresh = end_all-EndsOnce e es w w' s law fresh held
  Held-EndsOnce e es w (w', err x) law held fresh = tt

  Held-closed :
      (w : W) (p : W × Result Connected)
      → Lawful nats
      → Held of_publisher w p
      → nats.connections (close_publisher nats p.1 p.0) ≡ nats.connections w
  unfolding close_publisher
  Held-closed w (w', ok c) law held = law.close_closes c.connection (nats.connections w) w' held
  Held-closed w (w', err e) law held = held

  -- Given a NATS client whose connections are opened by `connect` and closed by `close` only: when
  -- the setup of a publisher or a consumer returns, whichever call fails and whatever the options
  -- are, its connection is open if the setup worked, and no connection is left open if not. Closing
  -- the publisher restores the connections there were, and so does the first end of the
  -- subscription, by its context or by a shutdown: it is drained and closed in that end only, however
  -- many follow, and every shutdown returns whether that drain worked.
  pub setup-Settles :
      (url stream prefix : Text) (o : Options) (co : ConsumerOptions)
      (handler : Option (Message → Bool)) (w : W) (e : Ending) (es : List Ending)
      → Lawful nats
      → let p = connect_with_options nats url stream prefix o w in
        let s = subscribe nats url co handler w in
        Held of_publisher w p
        × (nats.connections (close_publisher nats p.1 p.0) ≡ nats.connections w)
        × Held of_subscription w s
        × EndsOnce e es w s
  setup-Settles url stream prefix o co handler w e es law =
      let publisher = connect-Held url stream prefix o w law in
      let subscription = subscribe-Held url co handler w law in
      (
        publisher,
        Held-closed w (connect_with_options nats url stream prefix o w) law publisher,
        subscription,
        Held-EndsOnce e es w (subscribe nats url co handler w) law subscription
            (subscribe-IsFresh url co handler w),
      )
