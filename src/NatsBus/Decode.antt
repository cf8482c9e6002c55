-- ===== src/NatsBus/Decode.antt =====
-- Decoding of envelopes (natsbus/natsbus.go).
use service_runtime.Base.{
  ℕ, Bool, ◌||◌, Option, none, some, [], ◌∷◌, if◌then◌else◌, Text, is_empty, text_eq, trim_space,
  to_lower, has_prefix,
}
use service_runtime.NatsBus.DeadLetters.{Message}
use service_runtime.NatsBus.Envelope.{
  Bytes, Header, WireFormat, unset, json, proto, proto_headers, other, BusError, envelope_empty,
  wire_format_invalid, message_nil, Result, ok, err, of_codec, ◌>>=◌, Envelope, get_header,
  header_spec_version, header_id, header_type, header_source, header_time, header_data_content_type,
  header_tenant_id, header_trace_parent, header_trace_state, header_baggage,
  has_cloud_event_headers, detect_wire_format, trim_leading_json_whitespace, trim_bytes,
}
use service_runtime.NatsBus.Codec.{Codecs, json_type, null_json}

-- `strings.Contains`
unfoldable pub contains_text : Text → Text → Bool
contains_text [] t = is_empty t
contains_text (c ∷ s) t = has_prefix (c ∷ s) t || contains_text s t

module _ {P : Type 0} (c : Codecs P) where
  unfoldable pub unmarshal_payload_json : Bytes → Result (Option P)
  unmarshal_payload_json raw =
      let trimmed = trim_bytes raw in
      if is_empty trimmed || text_eq trimmed null_json
      then ok none
      else (do p ← of_codec (c.unmarshal_any_json trimmed); ok (some p))

  unfoldable pub unmarshal_header_payload : Text → Bytes → Result (Option P)
  unmarshal_header_payload content_type raw =
      if is_empty (trim_bytes raw)
      then ok none
      else if contains_text (to_lower content_type) json_type
      then unmarshal_payload_json raw
      else (do p ← of_codec (c.unmarshal_any raw); ok (some p))

  unfoldable pub unmarshal_envelope_json : Bytes → Result (Envelope P)
  unmarshal_envelope_json raw = do
    event ← of_codec (c.unmarshal_event raw)
    recorded_at ← of_codec (c.parse_time event.time)
    payload ← unmarshal_payload_json event.data_bytes
    ok (record {
      spec_version = event.spec_version;
      id = event.id;
      type_name = event.type_name;
      source = event.source;
      time = recorded_at;
      data_content_type = event.data_content_type;
      tenant_id = event.tenant_id;
      trace_parent = event.trace_parent;
      trace_state = event.trace_state;
      baggage = event.baggage;
      payload = payload;
      wire_format = json;
    })

  time_or_zero : Option ℕ → ℕ
  time_or_zero none = 0
  time_or_zero (some t) = t

  unfoldable pub unmarshal_envelope_proto : Bytes → Result (Envelope P)
  unfolding time_or_zero
  unmarshal_envelope_proto raw = do
    message ← of_codec (c.unmarshal_message raw)
    ok (record {
      spec_version = message.spec_version;
      id = message.id;
      type_name = message.type_name;
      source = message.source;
      time = time_or_zero message.time;
      data_content_type = message.data_content_type;
      tenant_id = message.tenant_id;
      trace_parent = message.trace_parent;
      trace_state = message.trace_state;
      baggage = message.baggage;
      payload = message.payload;
      wire_format = proto;
    })

  -- `ce-time`, where it is there
  unfoldable pub header_recorded_at : Header → Result ℕ
  header_recorded_at h =
      let raw = trim_space (get_header header_time h) in
      if is_empty raw then ok 0 else of_codec (c.parse_time raw)

  unfoldable pub unmarshal_envelope_proto_headers : Message → Result (Envelope P)
  unmarshal_envelope_proto_headers m = do
    recorded_at ← header_recorded_at m.header
    payload ← unmarshal_header_payload (get_header header_data_content_type m.header) m.data_bytes
    ok (record {
      spec_version = trim_space (get_header header_spec_version m.header);
      id = trim_space (get_header header_id m.header);
      type_name = trim_space (get_header header_type m.header);
      source = trim_space (get_header header_source m.header);
      time = recorded_at;
      data_content_type = trim_space (get_header header_data_content_type m.header);
      tenant_id = trim_space (get_header header_tenant_id m.header);
      trace_parent = trim_space (get_header header_trace_parent m.header);
      trace_state = trim_space (get_header header_trace_state m.header);
      baggage = trim_space (get_header header_baggage m.header);
      payload = payload;
      wire_format = proto_headers;
    })

  proto_or_error : BusError → Result (Envelope P) → Result (Envelope P)
  proto_or_error x (ok e) = ok e
  proto_or_error x (err y) = err x

  -- A body that is no JSON event after leading white space was cut off may be a protobuf message.
  json_or_proto : Bool → Bytes → Result (Envelope P) → Result (Envelope P)
  unfolding proto_or_error
  json_or_proto is_trimmed raw (ok e) = ok e
  json_or_proto is_trimmed raw (err x) =
      if is_trimmed then proto_or_error x (unmarshal_envelope_proto raw) else err x

  unmarshal_as : WireFormat → Bool → Bytes → Bytes → Result (Envelope P)
  unfolding json_or_proto
  unmarshal_as json is_trimmed trimmed raw =
      json_or_proto is_trimmed raw (unmarshal_envelope_json trimmed)
  unmarshal_as proto is_trimmed trimmed raw = unmarshal_envelope_proto raw
  unmarshal_as proto_headers is_trimmed trimmed raw = err wire_format_invalid
  unmarshal_as unset is_trimmed trimmed raw = err wire_format_invalid
  unmarshal_as other is_trimmed trimmed raw = err wire_format_invalid

  unfoldable pub unmarshal_envelope : Bytes → Result (Envelope P)
  unfolding unmarshal_as
  unmarshal_envelope raw =
      let (trimmed, is_trimmed) = trim_leading_json_whitespace raw in
      if is_empty raw || is_empty trimmed
      then err envelope_empty
      else unmarshal_as (detect_wire_format trimmed) is_trimmed trimmed raw

  unfoldable pub unmarshal_message : Option Message → Result (Envelope P)
  unmarshal_message none = err message_nil
  unmarshal_message (some m) =
      if has_cloud_event_headers m.header
      then unmarshal_envelope_proto_headers m
      else unmarshal_envelope m.data_bytes
