-- ===== src/NatsBus/Published.antt =====
-- What arrives of a published change, and what connecting leaves open (natsbus/natsbus.go and
-- natsbus/consumer.go).
use service_runtime.Base.{
  ℕ, ◌<◌, false, Option, none, some, List, [], ◌∷◌, Text, codes, is_empty, text_eq, trim_space, ◌≡◌,
  refl, sym, ap, ◌∙◌, ◌⊎◌, inl, inr, arith, Bool-cases, All, lookup_key, insert_key,
}
use service_runtime.NatsBus.DeadLetters.{Message}
use service_runtime.NatsBus.Envelope.{
  Header, WireFormat, unset, json, proto, proto_headers, other, ok, Envelope, set_header,
  get_header, header_spec_version, header_trace_parent, header_trace_state, header_baggage,
  has_cloud_event_headers, normalized_wire_format,
}
use service_runtime.NatsBus.Codec.{
  Codecs, marshal_envelope_message, marshal_envelope, marshal_envelope_json, marshal_envelope_proto,
  body_message,
}
use service_runtime.NatsBus.Decode.{unmarshal_message}
use service_runtime.NatsBus.RoundTrip.{
  Lawful, rfc3339_end, as_decoded, >>=_inv, decode_json, decode_proto,
}
use service_runtime.NatsBus.Headers.{get_header-set_header}
use service_runtime.NatsBus.Publisher.{
  Change, TraceScope, SpanContext, Publisher, change_subject, to_cloud_event, inject_trace_context,
  propagated, propagated_span, trace_parent_of, carrier_get, set_all, inject_message_trace_context,
  build_message, with_span, format_or_invalid,
}

-- The headers that a trace context is carried in
abbrev pub IsTraceKey : Text × Text → Type 0
IsTraceKey (k, v) = (k ≡ header_trace_parent) ⊎ (k ≡ header_trace_state) ⊎ (k ≡ header_baggage)

set_all-spec_version :
    (m : List (Text × Text)) (h : Header)
    → All IsTraceKey m
    → get_header header_spec_version (set_all m h) ≡ get_header header_spec_version h
unfolding set_all text_eq
set_all-spec_version [] h a = refl
set_all-spec_version ((k, v) ∷ m) h a = set_all-spec_version m (set_header k v h) a.1 ∙ step k a.0
  where
    step :
        (j : Text)
        → IsTraceKey (j, v)
        → get_header header_spec_version (set_header j v h) ≡ get_header header_spec_version h
    step j (inl e) = get_header-set_header header_spec_version j v h ∙ rw e refl
    step j (inr (inl e)) = get_header-set_header header_spec_version j v h ∙ rw e refl
    step j (inr (inr e)) = get_header-set_header header_spec_version j v h ∙ rw e refl

All-insert_key :
    (k v : Text) (m : List (Text × Text))
    → IsTraceKey (k, v)
    → All IsTraceKey m
    → All IsTraceKey (insert_key k v m)
unfolding insert_key
All-insert_key k v [] p a = (p, tt)
All-insert_key k v ((j, w) ∷ m) p a = elim (Bool-cases (text_eq j k)) [
  | inl e ↦ rw e ((p, a.1))
  | inr e ↦ rw e ((a.0, All-insert_key k v m p a.1))
]

propagated-All :
    (scope : TraceScope) → All IsTraceKey scope.injected → All IsTraceKey (propagated scope)
unfolding propagated propagated_span
propagated-All scope a =
    elim (Bool-cases (is_empty (carrier_get header_trace_parent scope.injected))) [
      | inl e ↦ rw e (go scope.span)
      | inr e ↦ rw e a
    ]
  where
    go : (s : Option SpanContext) → All IsTraceKey (propagated_span s scope.injected)
    go none = a
    go (some s) =
        let m =
          All-insert_key header_trace_parent (trace_parent_of s) scope.injected (inl refl) a in
        elim (Bool-cases (is_empty s.trace_state)) [
          | inl e ↦ rw e m
          | inr e ↦ rw e (All-insert_key header_trace_state s.trace_state _ (inr (inl refl)) m)
        ]

no_version : get_header header_spec_version [] ≡ []
unfolding get_header lookup_key
no_version = refl

blank : trim_space [] ≡ []
unfolding trim_space
blank = refl

-- Trace headers alone do not make a message one that carries its envelope in headers.
injected-no_headers :
    (scope : TraceScope)
    → All IsTraceKey scope.injected
    → has_cloud_event_headers (set_all (propagated scope) []) ≡ false
unfolding has_cloud_event_headers
injected-no_headers scope a =
    rw (set_all-spec_version (propagated scope) [] (propagated-All scope a) ∙ no_version, blank)
      refl

-- The formats that carry the envelope in the body
abbrev pub body_format : WireFormat → Option WireFormat
body_format unset = some json
body_format json = some json
body_format proto = some proto
body_format proto_headers = none
body_format other = none

-- The format that a publisher's messages are encoded in
body_format_lem :
    (f g : WireFormat)
    → body_format f ≡ some g
    → (format_or_invalid (normalized_wire_format f) ≡ g) × (body_format g ≡ some g)
unfolding normalized_wire_format format_or_invalid
body_format_lem unset g h = ground (arith, h)
body_format_lem json g h = ground (arith, h)
body_format_lem proto g h = ground (arith, h)
body_format_lem proto_headers g h = cc
body_format_lem other g h = cc

-- The fields that neither the trace context nor a decoding changes.
abbrev Carries : {P : Type 0} → Envelope P → Envelope P → Type 0
Carries e d =
    (d.spec_version ≡ e.spec_version)
    × (d.id ≡ e.id)
    × (d.type_name ≡ e.type_name)
    × (d.source ≡ e.source)
    × (d.tenant_id ≡ e.tenant_id)
    × (d.payload ≡ e.payload)

as_decoded-Carries : {P : Type 0} (f : WireFormat) (e : Envelope P) → Carries e (as_decoded f e)
unfolding as_decoded
as_decoded-Carries unset e = (refl, refl, refl, refl, refl, refl)
as_decoded-Carries json e = (refl, refl, refl, refl, refl, refl)
as_decoded-Carries proto e = (refl, refl, refl, refl, refl, refl)
as_decoded-Carries proto_headers e = (refl, refl, refl, refl, refl, refl)
as_decoded-Carries other e = (refl, refl, refl, refl, refl, refl)

with_span-Carries :
    {P : Type 0} (s : Option SpanContext) (e : Envelope P)
    → Carries e (with_span s e) × ((with_span s e).time ≡ e.time)
unfolding with_span
with_span-Carries none e = ((refl, refl, refl, refl, refl, refl), refl)
with_span-Carries (some s) e = ((refl, refl, refl, refl, refl, refl), refl)

inject-Carries :
    {P : Type 0} (scope : TraceScope) (e : Envelope P)
    → Carries e (inject_trace_context scope e) × ((inject_trace_context scope e).time ≡ e.time)
unfolding inject_trace_context
inject-Carries scope e =
    elim (Bool-cases (is_empty (trim_space (carrier_get header_trace_parent scope.injected)))) [
      | inl none_there ↦ rw none_there (with_span-Carries scope.span _)
      | inr there ↦ rw there (((refl, refl, refl, refl, refl, refl), refl))
    ]

module _ {P : Type 0} (c : Codecs P) (law : Lawful c) where
  body_decodes :
      (scope : TraceScope) (subject : Text) (e : Envelope P) (f : WireFormat) (m : Message)
      → body_format f ≡ some f
      → All IsTraceKey scope.injected
      → e.time < rfc3339_end
      → e.spec_version ≡ codes "1.0"
      → marshal_envelope_message c subject e f ≡ ok m
      → (unmarshal_message c (some (inject_message_trace_context scope m)) ≡ ok (as_decoded f e))
        × (m.subject ≡ subject)
  unfolding marshal_envelope_message marshal_envelope body_message unmarshal_message
      inject_message_trace_context
  body_decodes scope subject e json m f a t v h =
      let (raw, made, h') = >>=_inv (marshal_envelope_json c e) _ m h in
      let same : m ≡ record { subject = subject; header = []; data_bytes = raw } =
        ground (arith, h') in
      rw same ((rw (injected-no_headers scope a) (decode_json c law e raw t made), refl))
  body_decodes scope subject e proto m f a t v h =
      let (raw, made, h') = >>=_inv (marshal_envelope_proto c e) _ m h in
      let same : m ≡ record { subject = subject; header = []; data_bytes = raw } =
        ground (arith, h') in
      rw same ((rw (injected-no_headers scope a) (decode_proto c law e raw v made), refl))
  body_decodes scope subject e unset m f a t v h = absurd (ground (arith, f))
  body_decodes scope subject e proto_headers m f a t v h = absurd (ground (arith, f))
  body_decodes scope subject e other m f a t v h = absurd (ground (arith, f))

  -- A change that is published in JSON or protobuf, with whatever trace context, arrives as an
  -- envelope with its tenant and payload, whose type is the message's subject and whose source is
  -- the publisher's.
  pub publish-decode :
      (scope : TraceScope) (new_id : Text) (now : ℕ) (p : Publisher) (change : Change P)
      (f : WireFormat) (m : Message)
      → body_format p.wire_format ≡ some f
      → All IsTraceKey scope.injected
      → now < rfc3339_end
      → change.recorded_at < rfc3339_end
      → build_message c scope new_id now p change ≡ ok m
      → (d : Envelope P) × (unmarshal_message c (some m) ≡ ok d)
        × (d.payload ≡ change.payload)
        × (d.tenant_id ≡ change.tenant_id)
        × (d.id ≡ new_id)
        × (d.source ≡ p.source)
        × (d.type_name ≡ m.subject)
        × (m.subject ≡ change_subject p.subject_prefix change)
  unfolding build_message to_cloud_event inject_message_trace_context
  publish-decode scope new_id now p change f m body keys t t' h =
      let subject = change_subject p.subject_prefix change in
      let event : Envelope P = to_cloud_event new_id now subject p.source change in
      let e : Envelope P = inject_trace_context scope event in
      let format = body_format_lem p.wire_format f body in
      let (kept, same_time) = inject-Carries scope event in
      let (m', made, sent) = >>=_inv (marshal_envelope_message c subject e _) _ m h in
      let time : e.time < rfc3339_end = ground (arith, same_time) in
      let made' : marshal_envelope_message c subject e f ≡ ok m' = rw format.0 at made in
      let (arrives, named) = body_decodes scope subject e f m' format.1 keys time kept.0 made' in
      let here : m ≡ inject_message_trace_context scope m' = ground (arith, sent) in
      let d = as_decoded-Carries f e in
      (
        as_decoded f e,
        rw here arrives,
        d.5 ∙ kept.5,
        d.4 ∙ kept.4,
        d.1 ∙ kept.1,
        d.3 ∙ kept.3,
        d.2 ∙ kept.2 ∙ sym (subject_of m m' here named),
        subject_of m m' here named,
      )
    where
      subject_of :
          (n n' : Message)
          → n ≡ inject_message_trace_context scope n'
          → n'.subject ≡ change_subject p.subject_prefix change
          → n.subject ≡ change_subject p.subject_prefix change
      subject_of n n' e named = ap (λ (x : Message). x.subject) e ∙ named
