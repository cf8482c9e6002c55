-- ===== src/NatsBus/WireTests.antt =====
-- Tests of natsbus/natsbus.go, consumer.go and propagation.go, and their theorems at concrete inputs.
use service_runtime.Base.{
  ℕ, ◌+◌, ◌==◌, if◌then◌else◌, Option, List, Text, lookup_key, true, inl, inr, arith, text_eq, ◌≡◌,
  refl, false, none, some, [], ◌∷◌, codes, pos, has_prefix, trim_space,
}
use service_runtime.NatsBus.DeadLetters.{Message}
use service_runtime.NatsBus.Envelope.{
  Envelope, unset, json, proto_headers, ok, normalized_wire_format, trim_bytes,
}
use service_runtime.NatsBus.Codec.{
  protobuf_type, envelope_header, payload_bytes, marshal_payload_json, marshal_envelope_json,
  marshal_envelope, marshal_envelope_message, marshal_envelope_proto_headers, body_message,
}
use service_runtime.NatsBus.Decode.{unmarshal_message}
use service_runtime.NatsBus.RoundTrip.{as_decoded}
use service_runtime.NatsBus.Decoding.{IsClean, decode_encode}
use service_runtime.NatsBus.Publisher.{
  Change, TraceScope, Publisher, change_subject, to_cloud_event, inject_trace_context, with_span,
  carrier_get, trim_suffix, drop_prefix, inject_message_trace_context, build_message,
  format_or_invalid,
}
use service_runtime.NatsBus.Client.{NatsClient, Lawful}
use service_runtime.NatsBus.Connect.{Options, connect_with_options, close_publisher}
use service_runtime.NatsBus.Published.{publish-decode}
use service_runtime.NatsBus.Consumer
use service_runtime.NatsBus.Consumer.{
  ConsumerOptions, unset_policy, ctx_done, shutdown_called, subscribe, subscribe_handled,
  subscribe_queue,
}
use service_runtime.NatsBus.Connections.{
  Held, of_publisher, of_subscription, EndsOnce, setup-Settles,
}
use service_runtime.NatsBus.Sample.{
  EmptyMessage, empty_message, sample, sample-Lawful, marshal_event, write_time,
}
use service_runtime.NatsBus.Publisher.{
  SpanContext, publish, sent as sent_by, trace_parent_of, flags_text, hex_digit,
}
use service_runtime.NatsBus.Propagation.{extract_message_context}
use service_runtime.NatsBus.Spans.{span_reaches_consumer}
use service_runtime.NatsBus.W3c.{w3c_only, w3c_only-ReadsW3c}

-- The wire: an event with a payload, in headers.
abbrev event : Envelope EmptyMessage
event = record {
  spec_version = codes "1.0";
  id = codes "e1";
  type_name = codes "acme.doc.create";
  source = codes "acme";
  time = 5000000007;
  data_content_type = protobuf_type;
  tenant_id = codes "o1";
  trace_parent = [];
  trace_state = [];
  baggage = [];
  payload = some empty_message;
  wire_format = unset;
}

event-IsClean : IsClean sample event
unfolding trim_space trim_bytes
event-IsClean = record {
  version = refl;
  content_type = refl;
  time = ground arith;
  id = (refl, refl);
  type_name = (refl, refl);
  source = (refl, refl);
  tenant_id = refl;
  trace_parent = refl;
  trace_state = refl;
  baggage = refl;
  payload = λ p b h e. let same : b ≡ codes "{}" = ground (arith, e) in rw same refl;
}

abbrev in_headers : Message
in_headers = record {
  subject = codes "acme.doc.create";
  header = envelope_header sample event;
  data_bytes = codes "{}";
}

marshals_event :
    marshal_envelope_message sample (codes "acme.doc.create") event proto_headers ≡ ok in_headers
unfolding marshal_envelope_message marshal_envelope_proto_headers payload_bytes
marshals_event = refl

decode_encode_example :
    (unmarshal_message sample (some in_headers) ≡ ok (as_decoded proto_headers event))
    × (in_headers.subject ≡ codes "acme.doc.create")
decode_encode_example =
    decode_encode sample sample-Lawful (codes "acme.doc.create") event proto_headers in_headers
      event-IsClean marshals_event

abbrev scope : TraceScope
scope = record { injected = (codes "baggage", codes "k=v") ∷ []; span = none }

abbrev bus : Publisher
bus = record { subject_prefix = codes "acme."; source = codes "acme"; wire_format = unset }

abbrev change : Change EmptyMessage
change = record {
  sequence = pos 1;
  tenant_id = codes "o1";
  aggregate_type = codes "doc";
  aggregate_id = codes "d1";
  operation = codes "create";
  aggregate_version = pos 1;
  recorded_at = 0;
  payload = some empty_message;
}

abbrev sent : Message
sent = inject_message_trace_context scope (record {
  subject = codes "acme.doc.create";
  header = [];
  data_bytes = marshal_event (record {
    spec_version = codes "1.0";
    id = codes "e1";
    type_name = codes "acme.doc.create";
    source = codes "acme";
    time = write_time 7;
    data_content_type = codes "application/json";
    tenant_id = codes "o1";
    trace_parent = [];
    trace_state = [];
    baggage = codes "k=v";
    data_bytes = codes "{}";
  });
})

builds : build_message sample scope (codes "e1") 7 bus change ≡ ok sent
unfolding build_message marshal_envelope_message marshal_envelope marshal_envelope_json
    marshal_payload_json body_message change_subject to_cloud_event inject_trace_context with_span
    carrier_get lookup_key trim_suffix drop_prefix has_prefix trim_space text_eq
    normalized_wire_format format_or_invalid
builds = refl

publish-decode_example :
    (d : Envelope EmptyMessage) × (unmarshal_message sample (some sent) ≡ ok d)
    × (d.payload ≡ some empty_message)
    × (d.tenant_id ≡ codes "o1")
    × (d.id ≡ codes "e1")
    × (d.source ≡ codes "acme")
    × (d.type_name ≡ sent.subject)
    × (sent.subject ≡ change_subject (codes "acme.") change)
publish-decode_example =
    publish-decode sample sample-Lawful scope (codes "e1") 7 bus change json sent refl
      (inr (inr refl), tt) (ground arith) (ground arith) builds

abbrev queue_options : ConsumerOptions
queue_options = record {
  stream = codes "s";
  subject = codes "s.>";
  durable = codes "d";
  queue = [];
  ack_wait = pos 0;
  deliver_policy = unset_policy;
}

-- A client that connects unless the URL is "down", and whose streams cannot be created; its state is
-- the connections that are open, and the number of the next one.
abbrev dial : Text → List ℕ × ℕ → (List ℕ × ℕ) × Option ℕ
dial url (cs, n) = if text_eq url (codes "down") then ((cs, n), none) else ((n ∷ cs, n + 1), some n)

abbrev remove : ℕ → List ℕ → List ℕ
remove c [] = []
remove c (d ∷ ds) = if c == d then ds else d ∷ remove c ds

abbrev stub : NatsClient (List ℕ × ℕ)
stub = record {
  connect = dial;
  new_jetstream = λ c w. (w, true);
  create_stream = λ k w. (w, false);
  queue_subscribe = λ c subject queue f os w. (w, true);
  drain = λ c w. (w, true);
  close = λ c (cs, n). (remove c cs, n);
  connections = λ (cs, n). cs;
}

remove_newest : (c : ℕ) (cs ds : List ℕ) → ds ≡ c ∷ cs → remove c ds ≡ cs
remove_newest c cs ds h = rw h (ground arith)

stub-Lawful : Lawful stub
stub-Lawful = record {
  connect_opens = λ url w c h. ground (arith, h);
  connect_fails = λ url w h. ground (arith, h);
  jetstream_keeps = λ c w. refl;
  create_keeps = λ k w. refl;
  subscribe_keeps = λ c subject queue f os w. refl;
  drain_keeps = λ c w. refl;
  close_closes = λ c cs w h. remove_newest c cs w.0 h;
}

abbrev stream_options : Options
stream_options = record { retention = 0; max_age = pos 0; storage = 0; wire_format = unset }

subscription_opens :
    (subscribe stub (codes "nats://x") queue_options (some (λ m. true)) ([], 4)).0 ≡ (4 ∷ [], 5)
unfolding subscribe subscribe_handled subscribe_queue trim_space text_eq Consumer.with_defaults
subscription_opens = refl

setup-Settles_example :
    let p =
      connect_with_options stub (codes "nats://x") (codes "s") (codes "p") stream_options ([], 4) in
    let s = subscribe stub (codes "nats://x") queue_options (some (λ m. true)) ([], 4) in
    Held stub (of_publisher stub) ([], 4) p
    × (stub.connections (close_publisher stub p.1 p.0) ≡ [])
    × Held stub (of_subscription stub) ([], 4) s
    × EndsOnce stub ctx_done (shutdown_called ∷ []) ([], 4) s
setup-Settles_example =
    setup-Settles stub (codes "nats://x") (codes "s") (codes "p") stream_options queue_options
      (some (λ m. true)) ([], 4) ctx_done (shutdown_called ∷ []) stub-Lawful

-- A span without a trace state, on a bus where the global propagator does nothing.
abbrev span : SpanContext
span = record {
  trace_id = codes "0af7651916cd43dd8448eb211c80319c";
  span_id = codes "b7ad6b7169203331";
  trace_flags = 5;
  trace_state = [];
}

abbrev spanned : Message
spanned =
    inject_message_trace_context (record { injected = []; span = some span })
      (record {
        subject = codes "acme.doc.create";
        header = [];
        data_bytes = marshal_event (record {
          spec_version = codes "1.0";
          id = codes "e1";
          type_name = codes "acme.doc.create";
          source = codes "acme";
          time = write_time 7;
          data_content_type = codes "application/json";
          tenant_id = codes "o1";
          trace_parent = codes "00-0af7651916cd43dd8448eb211c80319c-b7ad6b7169203331-01";
          trace_state = [];
          baggage = [];
          data_bytes = codes "{}";
        });
      })

publishes :
    (publish sample
      (λ m. true)
      (record { injected = []; span = some span })
      (codes "e1")
      7
      (some bus)
      change).0
    ≡ some spanned
unfolding publish sent_by build_message marshal_envelope_message marshal_envelope
    marshal_envelope_json marshal_payload_json body_message change_subject to_cloud_event
    inject_trace_context with_span trace_parent_of flags_text hex_digit carrier_get lookup_key
    trim_suffix drop_prefix has_prefix trim_space text_eq normalized_wire_format format_or_invalid
publishes = refl

span_reaches_consumer_example :
    extract_message_context w3c_only sample (some spanned) ≡ some (record span { trace_flags = 1 })
span_reaches_consumer_example =
    span_reaches_consumer w3c_only sample (λ t. true) w3c_only-ReadsW3c span (λ m. true)
      (codes "e1") 7 bus change spanned (refl, refl, refl, refl, refl, refl) refl (inl publishes)
