-- ===== src/NatsBus/Codec.antt =====
-- Encoding of envelopes (natsbus/natsbus.go). The codecs of encoding/json, protobuf and time are an
-- argument.
use service_runtime.Base.{
  ℕ, Option, none, some, [], ◌==◌, if◌then◌else◌, Text, codes, is_empty, trim_space,
}
use service_runtime.NatsBus.DeadLetters.{Message}
use service_runtime.NatsBus.Envelope.{
  Bytes, Header, WireFormat, unset, json, proto, proto_headers, other, wire_format_invalid, Result,
  ok, err, of_codec, ◌>>=◌, Envelope, CloudEvent, EventEnvelope, set_header, set_nonempty,
  header_spec_version, header_id, header_type, header_source, header_time, header_data_content_type,
  header_tenant_id, header_trace_parent, header_trace_state, header_baggage,
}

-- An error is `none`.
pub record Codecs (P : Type 0) : Type 0 where
  -- encoding/json, of a `CloudEvent`
  pub marshal_event : CloudEvent → Option Bytes
  pub unmarshal_event : Bytes → Option CloudEvent
  -- protobuf, of an `EventEnvelope`
  pub marshal_message : EventEnvelope P → Option Bytes
  pub unmarshal_message : Bytes → Option (EventEnvelope P)
  -- protobuf and protojson, of an `anypb.Any`
  pub marshal_any : P → Option Bytes
  pub unmarshal_any : Bytes → Option P
  pub marshal_any_json : P → Option Bytes
  pub unmarshal_any_json : Bytes → Option P
  -- time.RFC3339, in UTC
  pub format_time : ℕ → Text
  pub parse_time : Text → Option ℕ

abbrev pub protobuf_type : Text
protobuf_type = codes "application/protobuf"

abbrev pub json_type : Text
json_type = codes "application/json"

abbrev pub null_json : Bytes
null_json = codes "null"

module _ {P : Type 0} (c : Codecs P) where
  unfoldable pub marshal_payload_json : Option P → Result Bytes
  marshal_payload_json none = ok null_json
  marshal_payload_json (some p) = of_codec (c.marshal_any_json p)

  unfoldable pub marshal_envelope_json : Envelope P → Result Bytes
  unfolding marshal_payload_json
  marshal_envelope_json e = do
    raw ← marshal_payload_json e.payload
    of_codec (
        c.marshal_event (record {
          spec_version = e.spec_version;
          id = e.id;
          type_name = e.type_name;
          source = e.source;
          time = c.format_time e.time;
          data_content_type = json_type;
          tenant_id = e.tenant_id;
          trace_parent = e.trace_parent;
          trace_state = e.trace_state;
          baggage = e.baggage;
          data_bytes = raw;
        }))

  unfoldable pub event_envelope : Envelope P → EventEnvelope P
  event_envelope e = record {
    spec_version = e.spec_version;
    id = e.id;
    type_name = e.type_name;
    source = e.source;
    time = some e.time;
    data_content_type = protobuf_type;
    tenant_id = e.tenant_id;
    trace_parent = e.trace_parent;
    trace_state = e.trace_state;
    baggage = e.baggage;
    payload = e.payload;
  }

  unfoldable pub marshal_envelope_proto : Envelope P → Result Bytes
  unfolding event_envelope
  marshal_envelope_proto e = of_codec (c.marshal_message (event_envelope e))

  -- The headers of `marshalEnvelopeProtoHeaders`, in the order in which they are set
  unfoldable pub envelope_header : Envelope P → Header
  envelope_header e =
      let kind = trim_space e.data_content_type in
      set_header header_data_content_type (if is_empty kind then protobuf_type else kind) (
        set_nonempty header_baggage e.baggage (
          set_nonempty header_trace_state e.trace_state (
            set_nonempty header_trace_parent e.trace_parent (
              set_nonempty header_tenant_id e.tenant_id (
                set_nonempty header_time (if e.time == 0 then [] else c.format_time e.time) (
                  set_header header_source e.source (
                    set_header header_type e.type_name (
                      set_header header_id e.id
                        (set_header header_spec_version e.spec_version [])))))))))

  unfoldable pub payload_bytes : Option P → Result Bytes
  payload_bytes none = ok []
  payload_bytes (some p) = of_codec (c.marshal_any p)

  unfoldable pub marshal_envelope_proto_headers : Text → Envelope P → Result Message
  unfolding payload_bytes envelope_header
  marshal_envelope_proto_headers subject e = do
    raw ← payload_bytes e.payload
    ok (record { subject = subject; header = envelope_header e; data_bytes = raw })

  unfoldable pub marshal_envelope : Envelope P → WireFormat → Result Bytes
  marshal_envelope e json = marshal_envelope_json e
  marshal_envelope e proto = marshal_envelope_proto e
  marshal_envelope e proto_headers = err wire_format_invalid
  marshal_envelope e unset = err wire_format_invalid
  marshal_envelope e other = err wire_format_invalid

  unfoldable pub body_message : Text → Result Bytes → Result Message
  body_message subject r = do
    raw ← r
    ok (record { subject = subject; header = []; data_bytes = raw })

  unfoldable pub marshal_envelope_message : Text → Envelope P → WireFormat → Result Message
  unfolding body_message
  marshal_envelope_message subject e json = body_message subject (marshal_envelope e json)
  marshal_envelope_message subject e proto = body_message subject (marshal_envelope e proto)
  marshal_envelope_message subject e proto_headers = marshal_envelope_proto_headers subject e
  marshal_envelope_message subject e unset = err wire_format_invalid
  marshal_envelope_message subject e other = err wire_format_invalid
