-- ===== src/NatsBus/W3c.antt =====
-- Propagators for the tests of natsbus/propagation.go: the global one does nothing, and the other
-- reads the header `traceparent` by its columns.
use service_runtime.Base.{
  ℕ, ◌-◌, ◌%◌, true, none, some, [], ◌∷◌, ◌++◌, Text, codes, length, ◌≡◌, refl, sym, ap, ◌∙◌, arith,
}
use service_runtime.NatsBus.Envelope.{header_trace_parent, header_trace_state}
use service_runtime.NatsBus.Publisher.{SpanContext, trace_parent_of, flags_text, hex_digit}
use service_runtime.NatsBus.Propagation.{Propagators}
use service_runtime.NatsBus.Sample.{split_at, split_at-length}
use service_runtime.NatsBus.Spans.{ReadsW3c, received}

split_exact : (n : ℕ) (t rest : Text) → length t ≡ n → split_at n (t ++ rest) ≡ (t, rest)
split_exact n t rest l = ap (λ k. split_at k (t ++ rest)) (sym l) ∙ split_at-length t rest

read_flags : Text → ℕ
read_flags [] = 0
read_flags (a ∷ []) = 0
read_flags (a ∷ b ∷ r) = b - 48

read_flags-flags_text : (f : ℕ) → read_flags (flags_text f) ≡ f % 4
unfolding read_flags flags_text hex_digit
read_flags-flags_text f = ground arith

span_of : Text → Text × Text → Text × Text → SpanContext
unfolding read_flags split_at
span_of state (trace_id, r) (span_id, r') = record {
  trace_id = trace_id;
  span_id = span_id;
  trace_flags = read_flags (split_at 1 r').1;
  trace_state = state;
}

-- The identifiers begin in the columns 3 and 36.
pub read_parent : Text → Text → SpanContext
unfolding span_of split_at
read_parent parent state =
    let id = split_at 32 (split_at 3 parent).1 in span_of state id (split_at 16 (split_at 1 id.1).1)

read_parent_lem :
    (s : SpanContext)
    → length s.trace_id ≡ 32
    → length s.span_id ≡ 16
    → read_parent (trace_parent_of s) s.trace_state ≡ received s
unfolding read_parent trace_parent_of span_of
read_parent_lem s l k =
    let after_id = codes "-" ++ (s.span_id ++ (codes "-" ++ flags_text s.trace_flags)) in
    let id = split_exact 32 s.trace_id after_id l in
    let span = split_exact 16 s.span_id (codes "-" ++ flags_text s.trace_flags) k in
    let flags = read_flags-flags_text s.trace_flags in rw (id) (rw (span) (rw flags refl))

abbrev pub w3c_only : Propagators
w3c_only = record {
  global = λ g. none;
  w3c = λ g. some (read_parent (g header_trace_parent) (g header_trace_state));
}

pub w3c_only-ReadsW3c : ReadsW3c w3c_only (λ t. true)
w3c_only-ReadsW3c = record {
  no_global = λ g. refl;
  reads = λ s g valid state parent kept. ap some (
      ap (λ t. read_parent t (g header_trace_state)) parent
      ∙ ap (read_parent (trace_parent_of s)) kept
      ∙ read_parent_lem s valid.0 valid.2);
}
