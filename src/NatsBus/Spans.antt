-- ===== src/NatsBus/Spans.antt =====
-- A span crosses the bus without a global propagator (natsbus/natsbus.go and natsbus/propagation.go).
use service_runtime.Base.{
  ℕ, ◌%◌, Bool, true, false, not, ◌&&◌, none, some, [], ◌∷◌, leb, ◌||◌, ◌==◌, Text, is_empty,
  text_eq, trim_space, length, lookup_key, insert_key, ◌≡◌, refl, sym, ap, ◌∙◌, ◌⊎◌, inl, inr,
  arith, Bool-cases,
}
use service_runtime.NatsBus.DeadLetters.{Message}
use service_runtime.NatsBus.Envelope.{
  Bytes, WireFormat, unset, json, proto, proto_headers, other, Result, ok, err, Envelope,
  set_header, get_header, header_trace_parent, header_trace_state,
}
use service_runtime.NatsBus.Codec.{
  Codecs, marshal_envelope_message, marshal_envelope, marshal_envelope_proto_headers,
  envelope_header, payload_bytes, body_message,
}
use service_runtime.NatsBus.RoundTrip.{>>=_inv}
use service_runtime.NatsBus.Headers.{get_header-set_header, get-trace_state}
use service_runtime.NatsBus.Publisher.{
  Change, TraceScope, SpanContext, Publisher, change_subject, to_cloud_event, inject_trace_context,
  with_span, propagated, propagated_span, trace_parent_of, carrier_get, set_all,
  inject_message_trace_context, build_message, publish, sent,
}
use service_runtime.NatsBus.Propagation.{
  Propagators, extract_message_context, header_trace_context_present, propagation_fallback_extract,
  publish_propagating, inject_again,
}

-- The identifiers of a valid span: 16 and 8 bytes in hexadecimal digits, not all of them zero.
abbrev pub is_hex : ℕ → Bool
is_hex c = (leb 48 c && leb c 57) || (leb 97 c && leb c 102)

abbrev pub all_hex : Text → Bool
all_hex [] = true
all_hex (c ∷ cs) = is_hex c && all_hex cs

abbrev pub not_zero : Text → Bool
not_zero [] = false
not_zero (c ∷ cs) = not (c == 48) || not_zero cs

abbrev pub IsSpan : SpanContext → Type 0
IsSpan s =
    (length s.trace_id ≡ 32)
    × (all_hex s.trace_id ≡ true)
    × (length s.span_id ≡ 16)
    × (all_hex s.span_id ≡ true)
    × (not_zero s.trace_id ≡ true)
    × (not_zero s.span_id ≡ true)

-- What is left of a span on the way: the sampled and the random flag.
abbrev pub received : SpanContext → SpanContext
received s = record s { trace_flags = s.trace_flags % 4 }

-- The global propagator does nothing, and W3C's reads a `traceparent` and a `tracestate`; `is_state`
-- are the texts that it takes for a trace state.
pub record ReadsW3c (p : Propagators) (is_state : Text → Bool) : Type 0 where
  pub no_global : (g : Text → Text) → p.global g ≡ none
  pub reads :
      (s : SpanContext) (g : Text → Text)
      → IsSpan s
      → is_state s.trace_state ≡ true
      → g header_trace_parent ≡ trace_parent_of s
      → g header_trace_state ≡ s.trace_state
      → p.w3c g ≡ some (received s)

abbrev scope_of : SpanContext → TraceScope
scope_of s = record { injected = []; span = some s }

-- A message whose trace state is not one of another span
abbrev IsPlain : SpanContext → Message → Type 0
IsPlain s m = is_empty s.trace_state ≡ true → get_header header_trace_state m.header ≡ s.trace_state

parent-filled : (s : SpanContext) → is_empty (trace_parent_of s) ≡ false
unfolding trace_parent_of
parent-filled s = refl

blank : trim_space [] ≡ []
unfolding trim_space
blank = refl

injected_header :
    (s : SpanContext) (m : Message)
    → IsPlain s m
    → let m' = inject_message_trace_context (scope_of s) m in
      (get_header header_trace_parent m'.header ≡ trace_parent_of s)
      × (get_header header_trace_state m'.header ≡ s.trace_state)
unfolding inject_message_trace_context propagated propagated_span set_all carrier_get lookup_key
    insert_key text_eq
injected_header s m plain = elim (Bool-cases (is_empty s.trace_state)) [
  | inl e ↦ rw e (
      (
        get_header-set_header header_trace_parent header_trace_parent (trace_parent_of s) m.header,
        get_header-set_header header_trace_state header_trace_parent (trace_parent_of s) m.header
            ∙ plain e,
      ))
  | inr e ↦
      let h = set_header header_trace_parent (trace_parent_of s) m.header in
      rw e (
        (
          get_header-set_header header_trace_parent header_trace_state s.trace_state h
              ∙ get_header-set_header header_trace_parent header_trace_parent (trace_parent_of s)
                  m.header,
          get_header-set_header header_trace_state header_trace_state s.trace_state h,
        ))
]

module _ {P : Type 0} (p : Propagators) (c : Codecs P) (is_state : Text → Bool)
    (law : ReadsW3c p is_state) where
  injected_reaches :
      (s : SpanContext) (m : Message)
      → IsSpan s
      → is_state s.trace_state ≡ true
      → IsPlain s m
      → extract_message_context p c (some (inject_message_trace_context (scope_of s) m))
        ≡ some (received s)
  unfolding extract_message_context header_trace_context_present propagation_fallback_extract
  injected_reaches s m valid state plain =
      let m' = inject_message_trace_context (scope_of s) m in
      let (parent, kept) = injected_header s m plain in
      let filled : is_empty (get_header header_trace_parent m'.header) ≡ false =
        ap is_empty parent ∙ parent-filled s in
      rw (filled, law.no_global (λ k. get_header k m'.header))
        (law.reads s (λ k. get_header k m'.header) valid state parent kept)

  -- Injecting twice does no harm.
  injected-IsPlain :
      (s : SpanContext) (m : Message)
      → IsPlain s m
      → IsPlain s (inject_message_trace_context (scope_of s) m)
  injected-IsPlain s m plain e = (injected_header s m plain).1

no_state : get_header header_trace_state [] ≡ []
unfolding get_header lookup_key
no_state = refl

empty_text : (t : Text) → is_empty t ≡ true → t ≡ []
empty_text [] e = refl
empty_text (x ∷ t) e = cc

module _ {P : Type 0} (c : Codecs P) where
  body-IsPlain :
      (s : SpanContext) (subject : Text) (r : Result Bytes) (m : Message)
      → body_message c subject r ≡ ok m
      → IsPlain s m
  unfolding body_message
  body-IsPlain s subject (err e) m h = absurd (ground (arith, h))
  body-IsPlain s subject (ok raw) m h =
      let same : m ≡ record { subject = subject; header = []; data_bytes = raw } =
        ground (arith, h) in
      λ e. rw same (no_state ∙ sym (empty_text s.trace_state e))

  encoded-IsPlain :
      (s : SpanContext) (subject : Text) (e : Envelope P) (f : WireFormat) (m : Message)
      → e.trace_state ≡ trim_space s.trace_state
      → marshal_envelope_message c subject e f ≡ ok m
      → IsPlain s m
  unfolding marshal_envelope_message marshal_envelope_proto_headers
  encoded-IsPlain s subject e json m t h = body-IsPlain s subject (marshal_envelope c e json) m h
  encoded-IsPlain s subject e proto m t h = body-IsPlain s subject (marshal_envelope c e proto) m h
  encoded-IsPlain s subject e proto_headers m t h =
      let (raw, made, h') = >>=_inv (payload_bytes c e.payload) _ m h in
      let same : m ≡ record { subject = subject; header = envelope_header c e; data_bytes = raw } =
        ground (arith, h') in
      λ z.
        let none_there = empty_text s.trace_state z in
        rw same (get-trace_state c e ∙ t ∙ trimmed s.trace_state none_there)
    where
      trimmed : (x : Text) → x ≡ [] → trim_space x ≡ x
      trimmed x z = rw z blank
  encoded-IsPlain s subject e unset m t h = absurd (ground (arith, h))
  encoded-IsPlain s subject e other m t h = absurd (ground (arith, h))

  spanned :
      (s : SpanContext) (e : Envelope P)
      → (inject_trace_context (scope_of s) e).trace_state ≡ trim_space s.trace_state
  unfolding inject_trace_context with_span carrier_get lookup_key trim_space
  spanned s e = refl

  built-IsPlain :
      (s : SpanContext) (new_id : Text) (now : ℕ) (b : Publisher) (change : Change P) (m : Message)
      → build_message c (scope_of s) new_id now b change ≡ ok m
      → (m' : Message) × (m ≡ inject_message_trace_context (scope_of s) m') × IsPlain s m'
  unfolding build_message
  built-IsPlain s new_id now b change m h =
      let subject = change_subject b.subject_prefix change in
      let event : Envelope P = to_cloud_event new_id now subject b.source change in
      let e : Envelope P = inject_trace_context (scope_of s) event in
      let (m', made, sent) = >>=_inv (marshal_envelope_message c subject e _) _ m h in
      (m', ground (arith, sent), encoded-IsPlain s subject e _ m' (spanned s event) made)

sent_inv :
    {P : Type 0} (c : Codecs P) (accepts : Message → Bool) (r : Result Message) (m : Message)
    → (sent c accepts r).0 ≡ some m
    → r ≡ ok m
unfolding sent
sent_inv c accepts (err e) m h = absurd (ground (arith, h))
sent_inv c accepts (ok n) m h = ground (arith, h)

inject_again_inv :
    {P : Type 0} (c : Codecs P) (scope : TraceScope) (r : Result Message) (m : Message)
    → inject_again c scope r ≡ ok m
    → (n : Message) × (r ≡ ok n) × (m ≡ inject_message_trace_context scope n)
unfolding inject_again
inject_again_inv c scope (err e) m h = absurd (ground (arith, h))
inject_again_inv c scope (ok n) m h = (n, refl, ground (arith, h))

module _ {P : Type 0} (p : Propagators) (c : Codecs P) (is_state : Text → Bool)
    (law : ReadsW3c p is_state) where
  -- A change that is published in a span, by a publisher of any format or by one that propagates,
  -- where the global propagator does nothing: from the message that the broker took, a consumer gets
  -- that span, with the flags that W3C has. The trace state must be one that W3C's propagator reads.
  pub span_reaches_consumer :
      (s : SpanContext) (accepts : Message → Bool) (new_id : Text) (now : ℕ) (b : Publisher)
      (change : Change P) (m : Message)
      → IsSpan s
      → is_state s.trace_state ≡ true
      → let scope : TraceScope = record { injected = []; span = some s } in
        ((publish c accepts scope new_id now (some b) change).0 ≡ some m)
          ⊎ ((publish_propagating c accepts scope new_id now (some b) change).0 ≡ some m)
        → extract_message_context p c (some m) ≡ some (record s { trace_flags = s.trace_flags % 4 })
  unfolding publish publish_propagating
  span_reaches_consumer s accepts new_id now b change m valid state (inl h) =
      let built = sent_inv c accepts _ m h in
      let (m', same, plain) = built-IsPlain c s new_id now b change m built in
      rw same (injected_reaches p c is_state law s m' valid state plain)
  span_reaches_consumer s accepts new_id now b change m valid state (inr h) =
      let (n, built, again) = inject_again_inv c (scope_of s) _ m (sent_inv c accepts _ m h) in
      let (m', same, plain) = built-IsPlain c s new_id now b change n built in
      let plain' = injected-IsPlain p c is_state law s m' plain in
      rw again (rw same (injected_reaches p c is_state law s _ valid state plain'))
