-- ===== src/NatsBus/Sample.antt =====
-- Codecs for the tests of natsbus/natsbus.go: a text is written with its length before it, and the
-- only payload is an empty message.
use service_runtime.Base.{
  ℕ, zero, suc, ◌+◌, ◌-◌, ◌*◌, ◌/◌, Option, none, some, List, [], ◌∷◌, ◌++◌, Text, codes, length,
  trim_space, ◌≡◌, refl, ap, ◌∙◌, arith,
}
use service_runtime.NatsBus.Envelope.{Bytes, CloudEvent, EventEnvelope, trim_bytes}
use service_runtime.NatsBus.Codec.{Codecs}
use service_runtime.NatsBus.RoundTrip.{Lawful, whole_seconds}

pub data EmptyMessage : Type 0 where
  empty_message : EmptyMessage

put_text : Text → Bytes → Bytes
put_text t rest = length t ∷ (t ++ rest)

unfoldable pub split_at : ℕ → Bytes → Text × Bytes
split_at zero bs = ([], bs)
split_at (suc n) [] = ([], [])
split_at (suc n) (b ∷ bs) = let (t, rest) = split_at n bs in (b ∷ t, rest)

take_text : Bytes → Text × Bytes
unfolding split_at
take_text [] = ([], [])
take_text (n ∷ bs) = split_at n bs

pub split_at-length : (t : Text) (rest : Bytes) → split_at (length t) (t ++ rest) ≡ (t, rest)
unfolding split_at
split_at-length [] rest = refl
split_at-length (c ∷ t) rest = rw (split_at-length t rest) refl

take-put : (t : Text) (rest : Bytes) → take_text (put_text t rest) ≡ (t, rest)
unfolding take_text put_text
take-put t rest = split_at-length t rest

put_texts : List Text → Bytes → Bytes
unfolding put_text
put_texts [] rest = rest
put_texts (t ∷ ts) rest = put_text t (put_texts ts rest)

take_texts : ℕ → Bytes → List Text × Bytes
unfolding take_text
take_texts zero bs = ([], bs)
take_texts (suc n) bs =
    let (t, bs') = take_text bs in let (ts, rest) = take_texts n bs' in (t ∷ ts, rest)

takes-puts :
    (ts : List Text) (rest : Bytes) → take_texts (length ts) (put_texts ts rest) ≡ (ts, rest)
unfolding take_texts put_texts
takes-puts [] rest = refl
takes-puts (t ∷ ts) rest = rw (take-put t (put_texts ts rest), takes-puts ts rest) refl

put_time : Option ℕ → ℕ
put_time none = 0
put_time (some t) = suc t

take_time : ℕ → Option ℕ
take_time zero = none
take_time (suc t) = some t

put_payload : Option EmptyMessage → ℕ
put_payload none = 0
put_payload (some empty_message) = 1

take_payload : ℕ → Option EmptyMessage
take_payload zero = none
take_payload (suc n) = some empty_message

take_put_time : (o : Option ℕ) → take_time (put_time o) ≡ o
unfolding take_time put_time
take_put_time none = refl
take_put_time (some t) = refl

take_put_payload : (o : Option EmptyMessage) → take_payload (put_payload o) ≡ o
unfolding take_payload put_payload
take_put_payload none = refl
take_put_payload (some empty_message) = refl

texts_after : EventEnvelope EmptyMessage → List Text
texts_after m =
    m.id ∷ m.type_name ∷ m.source ∷ m.data_content_type ∷ m.tenant_id ∷ m.trace_parent
    ∷ m.trace_state ∷ m.baggage ∷ []

texts_of : EventEnvelope EmptyMessage → List Text
unfolding texts_after
texts_of m = m.spec_version ∷ texts_after m

pub marshal_message : EventEnvelope EmptyMessage → Bytes
unfolding put_texts put_time put_payload texts_of
marshal_message m = 10 ∷ put_texts (texts_of m) (put_time m.time ∷ put_payload m.payload ∷ [])

read_message : List Text × Bytes → Option (EventEnvelope EmptyMessage)
unfolding take_time take_payload
read_message
      (
        version ∷ id ∷ type_name ∷ source ∷ content ∷ tenant ∷ parent ∷ state ∷ baggage ∷ [],
        time ∷ payload ∷ [],
      ) =
    some (record {
      spec_version = version;
      id = id;
      type_name = type_name;
      source = source;
      time = take_time time;
      data_content_type = content;
      tenant_id = tenant;
      trace_parent = parent;
      trace_state = state;
      baggage = baggage;
      payload = take_payload payload;
    })
read_message p = none

pub unmarshal_message : Bytes → Option (EventEnvelope EmptyMessage)
unfolding read_message take_texts
unmarshal_message [] = none
unmarshal_message (b ∷ bs) = read_message (take_texts 9 bs)

read_back : (m : EventEnvelope EmptyMessage) → unmarshal_message (marshal_message m) ≡ some m
unfolding unmarshal_message marshal_message read_message texts_of texts_after
read_back m =
    rw (takes-puts (texts_of m) (put_time m.time ∷ put_payload m.payload ∷ []))
      (rw (take_put_time m.time, take_put_payload m.payload) refl)

pub marshal_event : CloudEvent → Bytes
unfolding put_texts
marshal_event e =
    123
    ∷ put_texts
        (e.spec_version ∷ e.id ∷ e.type_name ∷ e.source ∷ e.time ∷ e.data_content_type ∷ e.tenant_id
          ∷ e.trace_parent ∷ e.trace_state ∷ e.baggage ∷ e.data_bytes ∷ [])
        []

read_event : List Text × Bytes → Option CloudEvent
read_event
      (
        version ∷ id ∷ type_name ∷ source ∷ time ∷ content ∷ tenant ∷ parent ∷ state ∷ baggage ∷ raw
            ∷ [],
        rest,
      ) =
    some (record {
      spec_version = version;
      id = id;
      type_name = type_name;
      source = source;
      time = time;
      data_content_type = content;
      tenant_id = tenant;
      trace_parent = parent;
      trace_state = state;
      baggage = baggage;
      data_bytes = raw;
    })
read_event p = none

pub unmarshal_event : Bytes → Option CloudEvent
unfolding read_event take_texts
unmarshal_event [] = none
unmarshal_event (b ∷ bs) = read_event (take_texts 11 bs)

event_read_back : (e : CloudEvent) → unmarshal_event (marshal_event e) ≡ some e
unfolding unmarshal_event marshal_event read_event
event_read_back e = ap read_event (
    takes-puts
      (e.spec_version ∷ e.id ∷ e.type_name ∷ e.source ∷ e.time ∷ e.data_content_type ∷ e.tenant_id
        ∷ e.trace_parent ∷ e.trace_state ∷ e.baggage ∷ e.data_bytes ∷ [])
      [])

-- A time is one code that is no white space.
pub write_time : ℕ → Text
write_time t = (20000 + t / 1000000000) ∷ []

pub read_time : Text → Option ℕ
read_time [] = none
read_time (c ∷ cs) = some ((c - 20000) * 1000000000)

time_read_back : (t : ℕ) → read_time (write_time t) ≡ some (whole_seconds t)
unfolding read_time write_time
time_read_back t = ap some (ground arith)

time_IsTrimmed : (t : ℕ) → trim_space (write_time t) ≡ write_time t
unfolding trim_space write_time
time_IsTrimmed t = ground arith

braces_object : trim_bytes (codes "{}") ≡ codes "{}"
unfolding trim_bytes
braces_object = refl

abbrev pub sample : Codecs EmptyMessage
sample = record {
  marshal_event = λ e. some (marshal_event e);
  unmarshal_event = unmarshal_event;
  marshal_message = λ m. some (marshal_message m);
  unmarshal_message = unmarshal_message;
  marshal_any = λ p. some (codes "{}");
  unmarshal_any = λ b. some empty_message;
  marshal_any_json = λ p. some (codes "{}");
  unmarshal_any_json = λ b. some empty_message;
  format_time = write_time;
  parse_time = read_time;
}

only_message : (p q : EmptyMessage) → p ≡ q
only_message empty_message empty_message = refl

some_inj : {A : Type 0} (x y : A) → some x ≡ some y → y ≡ x
some_inj x y e = ground (arith, e)

version_starts :
    (m : EventEnvelope EmptyMessage)
    → m.spec_version ≡ codes "1.0"
    → (r : Bytes) × (marshal_message m ≡ 10 ∷ 3 ∷ r)
unfolding marshal_message put_texts put_text texts_of texts_after
version_starts m v = (
  _,
  ap
      (λ t.
        10 ∷ put_text t (put_texts (texts_after m) (put_time m.time ∷ put_payload m.payload ∷ [])))
      v,
)

pub sample-Lawful : Lawful sample
unfolding marshal_event write_time
sample-Lawful = record {
  compact = λ b. b;
  event_round_trip = λ e b h. rw (some_inj _ b h) (event_read_back e);
  event_is_object = λ e b h. (_, some_inj _ b h);
  null_is_compact = refl;
  any_json_round_trip = λ p b h.
      (codes "}", rw (some_inj _ b h) braces_object, ap some (only_message empty_message p));
  message_round_trip = λ m b h. rw (some_inj _ b h) (read_back m);
  message_starts = λ m b h v. let (r, starts) = version_starts m v in (r, some_inj _ b h ∙ starts);
  any_round_trip = λ p b h. ap some (only_message empty_message p);
  time_round_trip = λ t h. time_read_back t;
  time_is_text = λ t h. (time_IsTrimmed t, refl);
}
