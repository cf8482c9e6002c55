-- ===== src/NatsBus/Publisher.antt =====
-- The publisher of natsbus/natsbus.go and the propagation of the trace context in natsbus/natsbus.go
-- and natsbus/propagation.go. What OpenTelemetry's propagator and the current span give, the new
-- identifier, the clock and the broker are arguments.
use service_runtime.Base.{
  ℕ, ◌+◌, ◌/◌, ◌%◌, Bool, Option, none, some, List, [], ◌∷◌, ◌++◌, reverse, ltb, ◌==◌,
  if◌then◌else◌, ℤ, Text, codes, is_empty, trim_space, has_prefix, lookup_key, insert_key,
}
use service_runtime.NatsBus.DeadLetters.{Message}
use service_runtime.NatsBus.Envelope.{
  Header, WireFormat, unset, other, publisher_nil, publish_failed, Result, ok, err, ◌>>=◌, Envelope,
  set_header, header_trace_parent, header_trace_state, header_baggage, normalized_wire_format,
}
use service_runtime.NatsBus.Codec.{Codecs, marshal_envelope_message, protobuf_type}

pub record Change (P : Type 0) : Type 0 where
  pub sequence : ℤ
  pub tenant_id : Text
  pub aggregate_type : Text
  pub aggregate_id : Text
  pub operation : Text
  pub aggregate_version : ℤ
  pub recorded_at : ℕ
  pub payload : Option P

-- `trace.SpanContext`, where it is valid: hexadecimal identifiers and the byte of its flags.
pub record SpanContext : Type 0 where
  pub trace_id : Text
  pub span_id : Text
  pub trace_flags : ℕ
  pub trace_state : Text

-- What the context holds: the headers that the global propagator injects, and the current span.
pub record TraceScope : Type 0 where
  pub injected : List (Text × Text)
  pub span : Option SpanContext

pub record Publisher : Type 0 where
  pub subject_prefix : Text
  pub source : Text
  pub wire_format : WireFormat

-- `strings.TrimSuffix`
unfoldable pub drop_prefix : Text → Text → Text
drop_prefix s [] = s
drop_prefix [] (y ∷ ys) = []
drop_prefix (x ∷ xs) (y ∷ ys) = drop_prefix xs ys

unfoldable pub trim_suffix : Text → Text → Text
unfolding drop_prefix
trim_suffix s suffix =
    if has_prefix (reverse s) (reverse suffix)
    then reverse (drop_prefix (reverse s) (reverse suffix))
    else s

abbrev pub dot : Text
dot = codes "."

abbrev pub changes_suffix : Text
changes_suffix = codes ".changes"

unfoldable pub event_source : Text → Text
event_source subject_prefix =
    let trimmed = trim_suffix (trim_space subject_prefix) dot in trim_suffix trimmed changes_suffix

unfoldable pub change_subject : {P : Type 0} → Text → Change P → Text
change_subject prefix c =
    trim_suffix prefix dot ++ (dot ++ (c.aggregate_type ++ (dot ++ c.operation)))

unfoldable pub to_cloud_event : {P : Type 0} → Text → ℕ → Text → Text → Change P → Envelope P
to_cloud_event new_id now subject source c = record {
  spec_version = codes "1.0";
  id = new_id;
  type_name = subject;
  source = source;
  time = if c.recorded_at == 0 then now else c.recorded_at;
  data_content_type = protobuf_type;
  tenant_id = c.tenant_id;
  trace_parent = [];
  trace_state = [];
  baggage = [];
  payload = c.payload;
  wire_format = unset;
}

value_or_empty : Option Text → Text
value_or_empty none = []
value_or_empty (some v) = v

-- `MapCarrier.Get`
unfoldable pub carrier_get : Text → List (Text × Text) → Text
unfolding value_or_empty
carrier_get k m = value_or_empty (lookup_key k m)

unfoldable pub hex_digit : ℕ → ℕ
hex_digit d = if ltb d 10 then 48 + d else 87 + d

-- The sampled and the random flag of the byte, in two hexadecimal digits
unfoldable pub flags_text : ℕ → Text
unfolding hex_digit
flags_text flags = let f = flags % 4 in hex_digit (f / 16) ∷ hex_digit (f % 16) ∷ []

unfoldable pub trace_parent_of : SpanContext → Text
unfolding flags_text
trace_parent_of s =
    codes "00-"
    ++ (s.trace_id ++ (codes "-" ++ (s.span_id ++ (codes "-" ++ flags_text s.trace_flags))))

unfoldable pub with_span : {P : Type 0} → Option SpanContext → Envelope P → Envelope P
with_span none e = e
with_span (some s) e = record e {
  trace_state = trim_space s.trace_state;
  trace_parent = trace_parent_of s;
}

unfoldable pub inject_trace_context : {P : Type 0} → TraceScope → Envelope P → Envelope P
unfolding with_span
inject_trace_context scope e =
    let parent = trim_space (carrier_get header_trace_parent scope.injected) in
    let e' = record e {
      trace_parent = parent;
      trace_state = trim_space (carrier_get header_trace_state scope.injected);
      baggage = trim_space (carrier_get header_baggage scope.injected);
    } in
    if is_empty parent then with_span scope.span e' else e'

-- What is put into the headers of a message
unfoldable pub propagated_span : Option SpanContext → List (Text × Text) → List (Text × Text)
propagated_span none m = m
propagated_span (some s) m =
    let m' = insert_key header_trace_parent (trace_parent_of s) m in
    if is_empty s.trace_state then m' else insert_key header_trace_state s.trace_state m'

unfoldable pub propagated : TraceScope → List (Text × Text)
unfolding propagated_span
propagated scope =
    if is_empty (carrier_get header_trace_parent scope.injected)
    then propagated_span scope.span scope.injected
    else scope.injected

-- The names are those of a map, so that the order of the writes is not seen.
unfoldable pub set_all : List (Text × Text) → Header → Header
set_all [] h = h
set_all ((k, v) ∷ m) h = set_all m (set_header k v h)

unfoldable pub inject_message_trace_context : TraceScope → Message → Message
inject_message_trace_context scope m = record m { header = set_all (propagated scope) m.header }

unfoldable pub format_or_invalid : Option WireFormat → WireFormat
format_or_invalid none = other
format_or_invalid (some f) = f

module _ {P : Type 0} (c : Codecs P) where
  -- `buildMessage` of a publisher that is there
  unfoldable pub build_message : TraceScope → Text → ℕ → Publisher → Change P → Result Message
  unfolding format_or_invalid
  build_message scope new_id now p change = do
    let subject = change_subject p.subject_prefix change
    let e = inject_trace_context scope (to_cloud_event new_id now subject p.source change)
    m ←
        marshal_envelope_message c subject e
          (format_or_invalid (normalized_wire_format p.wire_format))
    ok (inject_message_trace_context scope m)

  -- The broker takes the message, or it does not.
  unfoldable pub sent : (Message → Bool) → Result Message → Option Message × Result Message
  sent accepts (err e) = (none, err e)
  sent accepts (ok m) = if accepts m then (some m, ok m) else (none, err publish_failed)

  -- `Publish`: the message that the broker took, and the result.
  unfoldable pub publish :
      (Message → Bool)
      → TraceScope
      → Text
      → ℕ
      → Option Publisher
      → Change P
      → Option Message × Result Message
  unfolding sent
  publish accepts scope new_id now none change = (none, err publisher_nil)
  publish accepts scope new_id now (some p) change =
      sent accepts (build_message scope new_id now p change)
