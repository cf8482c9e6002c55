-- ===== src/NatsBus/RoundTrip.antt =====
-- What is decoded from an encoded envelope (natsbus/natsbus.go), in each wire format.
use service_runtime.Base.{
  ℕ, ◌-◌, ◌%◌, ◌<◌, false, Option, none, some, ◌∷◌, codes, is_empty, text_eq, trim_space, ◌≡◌, refl,
  sym, ap, ◌∙◌, arith,
}
use service_runtime.NatsBus.Envelope.{
  Bytes, WireFormat, json, proto, Result, ok, err, of_codec, ◌>>=◌, Envelope, CloudEvent,
  EventEnvelope, detect_wire_format, trim_leading_json_whitespace, trim_leading_from, trim_bytes,
}
use service_runtime.NatsBus.Codec.{
  Codecs, protobuf_type, json_type, null_json, marshal_payload_json, marshal_envelope_json,
  event_envelope, marshal_envelope_proto,
}
use service_runtime.NatsBus.Decode.{
  unmarshal_payload_json, unmarshal_envelope_json, unmarshal_envelope_proto, unmarshal_envelope,
}

-- The first time after the year 9999, the last that RFC 3339 has.
abbrev pub rfc3339_end : ℕ
rfc3339_end = 315537897600000000000

abbrev pub whole_seconds : ℕ → ℕ
whole_seconds t = t - t % 1000000000

-- What the codecs promise. json.Marshal compacts the bytes of a raw message.
pub record Lawful {P : Type 0} (c : Codecs P) : Type 0 where
  pub compact : Bytes → Bytes
  pub event_round_trip :
      (e : CloudEvent) (b : Bytes)
      → c.marshal_event e ≡ some b
      → c.unmarshal_event b ≡ some (record e { data_bytes = compact e.data_bytes })
  pub event_is_object :
      (e : CloudEvent) (b : Bytes) → c.marshal_event e ≡ some b → (r : Bytes) × (b ≡ 123 ∷ r)
  pub null_is_compact : compact null_json ≡ null_json
  pub any_json_round_trip :
      (p : P) (b : Bytes)
      → c.marshal_any_json p ≡ some b
      → (r : Bytes) × (trim_bytes (compact b) ≡ 123 ∷ r) × (c.unmarshal_any_json (123 ∷ r) ≡ some p)
  pub message_round_trip :
      (m : EventEnvelope P) (b : Bytes)
      → c.marshal_message m ≡ some b
      → c.unmarshal_message b ≡ some m
  -- The first field of the message is its version, with its tag and its length.
  pub message_starts :
      (m : EventEnvelope P) (b : Bytes)
      → c.marshal_message m ≡ some b
      → m.spec_version ≡ codes "1.0"
      → (r : Bytes) × (b ≡ 10 ∷ 3 ∷ r)
  pub any_round_trip : (p : P) (b : Bytes) → c.marshal_any p ≡ some b → c.unmarshal_any b ≡ some p
  pub time_round_trip :
      (t : ℕ) → t < rfc3339_end → c.parse_time (c.format_time t) ≡ some (whole_seconds t)
  pub time_is_text :
      (t : ℕ)
      → t < rfc3339_end
      → (trim_space (c.format_time t) ≡ c.format_time t) × (is_empty (c.format_time t) ≡ false)

pub >>=_inv :
    {A B : Type 0} (m : Result A) (f : A → Result B) (b : B)
    → (m >>= f) ≡ ok b
    → (a : A) × (m ≡ ok a) × (f a ≡ ok b)
>>=_inv (ok a) f b h = (a, refl, h)
>>=_inv (err e) f b h = absurd (ground (arith, h))

pub of_codec_inv : {A : Type 0} (o : Option A) (a : A) → of_codec o ≡ ok a → o ≡ some a
of_codec_inv none a h = cc
of_codec_inv (some b) a h = ground (arith, h)

-- What a format keeps of an envelope: JSON and headers keep whole seconds, and the content type is
-- that of the format.
unfoldable pub as_decoded : {P : Type 0} → WireFormat → Envelope P → Envelope P
as_decoded json e = record e {
  time = whole_seconds e.time;
  data_content_type = json_type;
  wire_format = json;
}
as_decoded proto e = record e { data_content_type = protobuf_type; wire_format = proto }
as_decoded f e = record e {
  time = whole_seconds e.time;
  data_content_type = protobuf_type;
  wire_format = f;
}

module _ {P : Type 0} (c : Codecs P) (law : Lawful c) where
  payload-RoundTrip :
      (p : Option P) (raw : Bytes)
      → marshal_payload_json c p ≡ ok raw
      → unmarshal_payload_json c (law.compact raw) ≡ ok p
  unfolding marshal_payload_json unmarshal_payload_json trim_bytes text_eq
  payload-RoundTrip none raw h =
      let e : raw ≡ null_json = ground (arith, h) in rw (e, law.null_is_compact)
  payload-RoundTrip (some p) raw h =
      let (r, t, u) = law.any_json_round_trip p raw (of_codec_inv _ raw h) in rw (t, u)

  pub decode_json :
      (e : Envelope P) (b : Bytes)
      → e.time < rfc3339_end
      → marshal_envelope_json c e ≡ ok b
      → unmarshal_envelope c b ≡ ok (as_decoded json e)
  unfolding marshal_envelope_json unmarshal_envelope unmarshal_envelope_json as_decoded
      detect_wire_format trim_leading_json_whitespace trim_leading_from
  decode_json e b t h =
      let (raw, made, h') = >>=_inv (marshal_payload_json c e.payload) _ b h in
      let encoded = of_codec_inv _ b h' in
      let (r, starts) = law.event_is_object _ b encoded in
      let back = law.event_round_trip _ b encoded in
      let parsed = law.time_round_trip e.time t in
      let payload = payload-RoundTrip e.payload raw made in
      rw starts (rw ((ap c.unmarshal_event (sym starts) ∙ back), parsed, payload) refl)

  pub decode_proto :
      (e : Envelope P) (b : Bytes)
      → e.spec_version ≡ codes "1.0"
      → marshal_envelope_proto c e ≡ ok b
      → unmarshal_envelope c b ≡ ok (as_decoded proto e)
  unfolding marshal_envelope_proto unmarshal_envelope unmarshal_envelope_proto as_decoded
      detect_wire_format trim_leading_json_whitespace trim_leading_from event_envelope
  decode_proto e b v h =
      let encoded = of_codec_inv _ b h in
      let (r, starts) = law.message_starts _ b encoded v in
      let back = law.message_round_trip _ b encoded in
      rw starts (rw (ap c.unmarshal_message (sym starts) ∙ back) refl)
