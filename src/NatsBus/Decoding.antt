-- ===== src/NatsBus/Decoding.antt =====
-- The round trip of an envelope through a NATS message (natsbus/natsbus.go), in every wire format.
use service_runtime.Base.{
  ◌<◌, false, Option, none, some, [], ◌==◌, Text, codes, is_empty, trim_space, to_lower, has_prefix,
  ◌≡◌, refl, ap, ◌∙◌, inl, inr, arith, Bool-cases, lookup_key,
}
use service_runtime.NatsBus.DeadLetters.{Message}
use service_runtime.NatsBus.Envelope.{
  Bytes, WireFormat, unset, json, proto, proto_headers, other, Result, ok, Envelope, get_header,
  header_spec_version, header_id, header_type, header_source, header_data_content_type,
  header_tenant_id, header_trace_parent, header_trace_state, header_baggage,
  has_cloud_event_headers, trim_bytes,
}
use service_runtime.NatsBus.Codec.{
  Codecs, protobuf_type, marshal_envelope_json, marshal_envelope_proto, envelope_header,
  marshal_envelope_proto_headers, marshal_envelope, marshal_envelope_message, payload_bytes,
  body_message,
}
use service_runtime.NatsBus.Decode.{
  contains_text, unmarshal_header_payload, header_recorded_at, unmarshal_envelope_proto_headers,
  unmarshal_envelope, unmarshal_message,
}
use service_runtime.NatsBus.Headers.{
  get-spec_version, get-id, get-type_name, get-source, get-content_type, get-time, get-tenant_id,
  get-trace_parent, get-trace_state, get-baggage,
}
use service_runtime.NatsBus.RoundTrip.{
  Lawful, rfc3339_end, whole_seconds, >>=_inv, of_codec_inv, as_decoded, decode_json, decode_proto,
}

abbrev pub IsTrimmed : Text → Type 0
IsTrimmed t = trim_space t ≡ t

-- An envelope as `toCloudEvent` makes it, whose texts have no white space round them.
pub record IsClean {P : Type 0} (c : Codecs P) (e : Envelope P) : Type 0 where
  pub version : e.spec_version ≡ codes "1.0"
  pub content_type : e.data_content_type ≡ protobuf_type
  pub time : e.time < rfc3339_end
  pub id : IsTrimmed e.id × (is_empty e.id ≡ false)
  pub type_name : IsTrimmed e.type_name × (is_empty e.type_name ≡ false)
  pub source : IsTrimmed e.source × (is_empty e.source ≡ false)
  pub tenant_id : IsTrimmed e.tenant_id
  pub trace_parent : IsTrimmed e.trace_parent
  pub trace_state : IsTrimmed e.trace_state
  pub baggage : IsTrimmed e.baggage
  -- The bytes of the payload are not all white space.
  pub payload :
      (p : P) (b : Bytes)
      → e.payload ≡ some p
      → c.marshal_any p ≡ some b
      → is_empty (trim_bytes b) ≡ false

trim_nil : trim_space [] ≡ []
unfolding trim_space
trim_nil = refl

protobuf-IsTrimmed : IsTrimmed protobuf_type
unfolding trim_space
protobuf-IsTrimmed = refl

version-IsTrimmed : (v : Text) → v ≡ codes "1.0" → IsTrimmed v
unfolding trim_space
version-IsTrimmed v e = rw e refl

module _ {P : Type 0} (c : Codecs P) (law : Lawful c) where
  header-RoundTrip :
      (p : Option P) (raw : Bytes)
      → payload_bytes c p ≡ ok raw
      → ((q : P) (b : Bytes)
          → p ≡ some q
          → c.marshal_any q ≡ some b
          → is_empty (trim_bytes b) ≡ false)
      → unmarshal_header_payload c protobuf_type raw ≡ ok p
  unfolding payload_bytes unmarshal_header_payload trim_bytes contains_text to_lower has_prefix
  header-RoundTrip none raw h full = let e : raw ≡ [] = ground (arith, h) in rw e
  header-RoundTrip (some p) raw h full =
      let encoded = of_codec_inv _ raw h in
      rw (full p raw refl encoded, law.any_round_trip p raw encoded)

  time-RoundTrip :
      (e : Envelope P)
      → e.time < rfc3339_end
      → header_recorded_at c (envelope_header c e) ≡ ok (whole_seconds e.time)
  unfolding header_recorded_at
  time-RoundTrip e t = elim (Bool-cases (e.time == 0)) [
    | inl z ↦
        let zero_time : 0 ≡ whole_seconds e.time = ground (arith, z) in
        rw (get-time c e, z, trim_nil) (ap ok zero_time)
    | inr z ↦
        let text = law.time_is_text e.time t in
        rw (get-time c e, z, text.0, text.1, law.time_round_trip e.time t) refl
  ]

  -- The fields of a clean envelope, as they are read from its headers.
  read-IsTrimmed :
      (k v : Text) (e : Envelope P)
      → get_header k (envelope_header c e) ≡ v
      → IsTrimmed v
      → trim_space (get_header k (envelope_header c e)) ≡ v
  read-IsTrimmed k v e g t = ap trim_space g ∙ t

  read_content_type :
      (e : Envelope P)
      → e.data_content_type ≡ protobuf_type
      → get_header header_data_content_type (envelope_header c e) ≡ protobuf_type
  unfolding trim_space
  read_content_type e h = rw (get-content_type c e, h) refl

  decode_headers :
      (subject : Text) (e : Envelope P) (raw : Bytes)
      → IsClean c e
      → payload_bytes c e.payload ≡ ok raw
      → unmarshal_message c
          (some (record { subject = subject; header = envelope_header c e; data_bytes = raw }))
        ≡ ok (as_decoded proto_headers e)
  unfolding unmarshal_message unmarshal_envelope_proto_headers as_decoded has_cloud_event_headers
  decode_headers subject e raw clean made =
      let spec =
        read-IsTrimmed header_spec_version _ e (get-spec_version c e)
          (version-IsTrimmed e.spec_version clean.version) in
      let id = read-IsTrimmed header_id _ e (get-id c e) clean.id.0 in
      let kind = read-IsTrimmed header_type _ e (get-type_name c e) clean.type_name.0 in
      let source = read-IsTrimmed header_source _ e (get-source c e) clean.source.0 in
      let tenant = read-IsTrimmed header_tenant_id _ e (get-tenant_id c e) clean.tenant_id in
      let parent =
        read-IsTrimmed header_trace_parent _ e (get-trace_parent c e) clean.trace_parent in
      let state = read-IsTrimmed header_trace_state _ e (get-trace_state c e) clean.trace_state in
      let baggage = read-IsTrimmed header_baggage _ e (get-baggage c e) clean.baggage in
      let content = read_content_type e clean.content_type in
      let full : is_empty e.spec_version ≡ false = rw clean.version refl in
      rw (spec, id, kind, source, full, clean.id.1, clean.type_name.1, clean.source.1)
        (rw
          (time-RoundTrip e clean.time, content, header-RoundTrip e.payload raw made clean.payload)
          (rw (tenant, parent, state, baggage, protobuf-IsTrimmed) refl))

  body_headers : has_cloud_event_headers [] ≡ false
  unfolding has_cloud_event_headers get_header lookup_key trim_space
  body_headers = refl

  decode_body :
      (subject : Text) (r : Result Bytes) (m : Message) (e : Envelope P)
      → ((raw : Bytes) → r ≡ ok raw → unmarshal_envelope c raw ≡ ok e)
      → body_message c subject r ≡ ok m
      → (unmarshal_message c (some m) ≡ ok e) × (m.subject ≡ subject)
  unfolding body_message unmarshal_message
  decode_body subject r m e back h =
      let (raw, made, h') = >>=_inv r _ m h in
      let same : m ≡ record { subject = subject; header = []; data_bytes = raw } =
        ground (arith, h') in
      rw same ((rw body_headers (back raw made), refl))

  -- A message that carries a clean envelope, in JSON, protobuf or headers, is decoded to that
  -- envelope, whichever of the formats it is in: with the format that was found, its content type,
  -- and in JSON and headers the time in whole seconds.
  pub decode_encode :
      (subject : Text) (e : Envelope P) (f : WireFormat) (m : Message)
      → IsClean c e
      → marshal_envelope_message c subject e f ≡ ok m
      → (unmarshal_message c (some m) ≡ ok (as_decoded f e)) × (m.subject ≡ subject)
  unfolding marshal_envelope_message marshal_envelope marshal_envelope_proto_headers
  decode_encode subject e json m clean h =
      decode_body subject (marshal_envelope_json c e) m _
        (λ raw made. decode_json c law e raw clean.time made) h
  decode_encode subject e proto m clean h =
      decode_body subject (marshal_envelope_proto c e) m _
        (λ raw made. decode_proto c law e raw clean.version made) h
  decode_encode subject e proto_headers m clean h =
      let (raw, made, h') = >>=_inv (payload_bytes c e.payload) _ m h in
      let same : m ≡ record { subject = subject; header = envelope_header c e; data_bytes = raw } =
        ground (arith, h') in
      rw same ((decode_headers subject e raw clean made, refl))
  decode_encode subject e unset m clean h = absurd (ground (arith, h))
  decode_encode subject e other m clean h = absurd (ground (arith, h))
