-- ===== src/NatsBus/Propagation.antt =====
-- The trace context of received messages, and the publisher that wraps another (natsbus/natsbus.go
-- and natsbus/propagation.go). A context is the span that it has, if it is valid; a carrier is its
-- `Get`. OpenTelemetry's propagators are arguments.
use service_runtime.Base.{
  ℕ, Bool, not, Option, none, some, List, [], ◌∷◌, if◌then◌else◌, Text, is_empty, insert_key,
}
use service_runtime.NatsBus.DeadLetters.{Message}
use service_runtime.NatsBus.Envelope.{
  Result, ok, err, publisher_nil, Envelope, get_header, header_trace_parent, header_trace_state,
  header_baggage,
}
use service_runtime.NatsBus.Codec.{Codecs}
use service_runtime.NatsBus.Decode.{unmarshal_message}
use service_runtime.NatsBus.Publisher.{
  Change, TraceScope, SpanContext, Publisher, carrier_get, inject_message_trace_context,
  build_message, sent,
}

-- `Extract` of the global propagator and of W3C's: the span that they find in a carrier.
pub record Propagators : Type 0 where
  pub global : (Text → Text) → Option SpanContext
  pub w3c : (Text → Text) → Option SpanContext

or_context : Option SpanContext → Option SpanContext → Option SpanContext
or_context none context = context
or_context (some s) context = some s

set_entry : Text → Text → List (Text × Text) → List (Text × Text)
set_entry k v m = if is_empty v then m else insert_key k v m

envelope_carrier : {P : Type 0} → Envelope P → List (Text × Text)
unfolding set_entry
envelope_carrier e =
    set_entry header_baggage e.baggage
      (set_entry header_trace_state e.trace_state (set_entry header_trace_parent e.trace_parent []))

module _ (p : Propagators) where
  fall_back : Text → (Text → Text) → Option SpanContext → Option SpanContext
  unfolding or_context
  fall_back parent carrier (some s) = some s
  fall_back parent carrier none = if is_empty parent then none else p.w3c carrier

  -- `ExtractContext`
  unfoldable pub extract_context :
      {P : Type 0} → Option SpanContext → Envelope P → Option SpanContext
  unfolding fall_back envelope_carrier or_context
  extract_context context e = elim (envelope_carrier e) [
    | [] ↦ context
    | x ∷ m ↦
        let carrier = λ (k : Text). carrier_get k (x ∷ m) in
        fall_back e.trace_parent carrier (or_context (p.global carrier) context)
  ]

  unfoldable pub header_trace_context_present : Message → Bool
  header_trace_context_present m = not (is_empty (get_header header_trace_parent m.header))

  unfoldable pub propagation_fallback_extract : Message → Option SpanContext
  propagation_fallback_extract m =
      if is_empty (get_header header_trace_parent m.header)
      then none
      else p.w3c (λ k. get_header k m.header)

  decoded_context : {P : Type 0} → Result (Envelope P) → Option SpanContext
  unfolding extract_context
  decoded_context (err e) = none
  decoded_context (ok e) = extract_context none e

  -- `extractMessageContext`
  unfoldable pub extract_message_context :
      {P : Type 0} → Codecs P → Option Message → Option SpanContext
  unfolding propagation_fallback_extract header_trace_context_present decoded_context or_context
  extract_message_context c none = none
  extract_message_context c (some m) =
      if header_trace_context_present m
      then or_context (p.global (λ k. get_header k m.header)) (propagation_fallback_extract m)
      else decoded_context (unmarshal_message c (some m))

module _ {P : Type 0} (c : Codecs P) where
  unfoldable pub inject_again : TraceScope → Result Message → Result Message
  inject_again scope (err e) = err e
  inject_again scope (ok m) = ok (inject_message_trace_context scope m)

  -- `Publish` of `PropagatingPublisher`
  unfoldable pub publish_propagating :
      (Message → Bool)
      → TraceScope
      → Text
      → ℕ
      → Option Publisher
      → Change P
      → Option Message × Result Message
  unfolding inject_again sent
  publish_propagating accepts scope new_id now none change = (none, err publisher_nil)
  publish_propagating accepts scope new_id now (some p) change =
      sent c accepts (inject_again scope (build_message c scope new_id now p change))
