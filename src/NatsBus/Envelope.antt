-- ===== src/NatsBus/Envelope.antt =====
-- The envelope of natsbus/natsbus.go and its parts: headers, wire formats, white space of bytes.
-- `P` stands for `*anypb.Any` without nil. A time is in nanoseconds after Go's zero time, which is 0.
use service_runtime.Base.{
  ℕ, Bool, true, false, not, ◌&&◌, ◌||◌, Option, none, some, List, [], ◌∷◌, reverse, leb, ◌==◌,
  if◌then◌else◌, Text, codes, is_empty, trim_space, lookup_key, insert_key,
}

abbrev pub Bytes : Type 0
Bytes = List ℕ

abbrev pub Header : Type 0
Header = List (Text × List Text)

-- `WireFormat`: the empty string, the three formats, and any other string.
pub data WireFormat : Type 0 where
  unset json proto proto_headers other : WireFormat

pub data BusError : Type 0 where
  publisher_nil nats_url_required stream_name_required subject_prefix_required : BusError
  envelope_empty wire_format_invalid message_nil codec_failed publish_failed : BusError
  connect_failed jetstream_failed create_stream_failed queue_subscribe_failed : BusError
  consumer_stream_required consumer_subject_required consumer_durable_required : BusError
  consumer_handler_nil handler_failed : BusError

pub data Result (A : Type 0) : Type 0 where
  ok : A → Result A
  err : BusError → Result A

infixl 5 ◌>>=◌
abbrev pub ◌>>=◌ : {A B : Type 0} → Result A → (A → Result B) → Result B
ok a >>= f = f a
err e >>= f = err e

-- The error of a codec
abbrev pub of_codec : {A : Type 0} → Option A → Result A
of_codec none = err codec_failed
of_codec (some a) = ok a

pub record Envelope (P : Type 0) : Type 0 where
  pub spec_version : Text
  pub id : Text
  pub type_name : Text
  pub source : Text
  pub time : ℕ
  pub data_content_type : Text
  pub tenant_id : Text
  pub trace_parent : Text
  pub trace_state : Text
  pub baggage : Text
  pub payload : Option P
  pub wire_format : WireFormat

pub record CloudEvent : Type 0 where
  pub spec_version : Text
  pub id : Text
  pub type_name : Text
  pub source : Text
  pub time : Text
  pub data_content_type : Text
  pub tenant_id : Text
  pub trace_parent : Text
  pub trace_state : Text
  pub baggage : Text
  pub data_bytes : Bytes

-- `natsbusv1.EventEnvelope`, a generated message
pub record EventEnvelope (P : Type 0) : Type 0 where
  pub spec_version : Text
  pub id : Text
  pub type_name : Text
  pub source : Text
  pub time : Option ℕ
  pub data_content_type : Text
  pub tenant_id : Text
  pub trace_parent : Text
  pub trace_state : Text
  pub baggage : Text
  pub payload : Option P

-- `Header.Set` and `Header.Get` of NATS, which keep a name as it is written
unfoldable pub set_header : Text → Text → Header → Header
set_header k v h = insert_key k (v ∷ []) h

first_value : Option (List Text) → Text
first_value none = []
first_value (some []) = []
first_value (some (v ∷ vs)) = v

unfoldable pub get_header : Text → Header → Text
unfolding first_value
get_header k h = first_value (lookup_key k h)

-- `if value != "" { Set }`
unfoldable pub set_nonempty : Text → Text → Header → Header
set_nonempty k v h = if is_empty v then h else set_header k v h

abbrev pub header_spec_version : Text
header_spec_version = codes "ce-specversion"

abbrev pub header_id : Text
header_id = codes "ce-id"

abbrev pub header_type : Text
header_type = codes "ce-type"

abbrev pub header_source : Text
header_source = codes "ce-source"

abbrev pub header_time : Text
header_time = codes "ce-time"

abbrev pub header_data_content_type : Text
header_data_content_type = codes "content-type"

abbrev pub header_tenant_id : Text
header_tenant_id = codes "ce-tenantid"

abbrev pub header_trace_parent : Text
header_trace_parent = codes "traceparent"

abbrev pub header_trace_state : Text
header_trace_state = codes "tracestate"

abbrev pub header_baggage : Text
header_baggage = codes "baggage"

unfoldable pub has_cloud_event_headers : Header → Bool
has_cloud_event_headers h =
    not (is_empty (trim_space (get_header header_spec_version h)))
    && not (is_empty (trim_space (get_header header_id h)))
    && not (is_empty (trim_space (get_header header_type h)))
    && not (is_empty (trim_space (get_header header_source h)))

unfoldable pub normalized_wire_format : WireFormat → Option WireFormat
normalized_wire_format unset = some json
normalized_wire_format json = some json
normalized_wire_format proto = some proto
normalized_wire_format proto_headers = some proto_headers
normalized_wire_format other = none

unfoldable pub detect_wire_format : Bytes → WireFormat
detect_wire_format [] = unset
detect_wire_format (b ∷ bs) = if b == 123 then json else proto

-- What is left, and whether anything was cut off
unfoldable pub trim_leading_from : Bool → Bytes → Bytes × Bool
trim_leading_from cut [] = ([], false)
trim_leading_from cut (b ∷ bs) = elim (b == 32 || b == 10 || b == 13 || b == 9) [
  | true ↦ trim_leading_from true bs
  | false ↦ (b ∷ bs, cut)
]

unfoldable pub trim_leading_json_whitespace : Bytes → Bytes × Bool
trim_leading_json_whitespace bs = trim_leading_from false bs

-- `bytes.TrimSpace`: white space of one byte, and the encodings of the other Unicode spaces
space1 : ℕ → Bool
space1 a = a == 32 || (leb 9 a && leb a 13)

space2 : ℕ → ℕ → Bool
space2 a b = a == 0xC2 && (b == 0x85 || b == 0xA0)

space3 : ℕ → ℕ → ℕ → Bool
space3 a b c =
    (a == 0xE1 && b == 0x9A && c == 0x80)
    || (a == 0xE2
        && b == 0x80
        && ((leb 0x80 c && leb c 0x8A) || c == 0xA8 || c == 0xA9 || c == 0xAF))
    || (a == 0xE2 && b == 0x81 && c == 0x9F)
    || (a == 0xE3 && b == 0x80 && c == 0x80)

drop_spaces : Bytes → Bytes
drop_spaces [] = []
drop_spaces (a ∷ []) = if space1 a then [] else a ∷ []
drop_spaces (a ∷ b ∷ []) = elim (space1 a) [
  | true ↦ drop_spaces (b ∷ [])
  | false ↦ if space2 a b then [] else a ∷ b ∷ []
]
drop_spaces (a ∷ b ∷ c ∷ r) = elim (space1 a) [
  | true ↦ drop_spaces (b ∷ c ∷ r)
  | false ↦ elim (space2 a b) [
    | true ↦ drop_spaces (c ∷ r)
    | false ↦ elim (space3 a b c) [ true ↦ drop_spaces r | false ↦ a ∷ b ∷ c ∷ r ]
  ]
]

-- The same from the end: the bytes are reversed.
drop_spaces_back : Bytes → Bytes
drop_spaces_back [] = []
drop_spaces_back (a ∷ []) = if space1 a then [] else a ∷ []
drop_spaces_back (b ∷ a ∷ []) = elim (space1 b) [
  | true ↦ drop_spaces_back (a ∷ [])
  | false ↦ if space2 a b then [] else b ∷ a ∷ []
]
drop_spaces_back (c ∷ b ∷ a ∷ r) = elim (space1 c) [
  | true ↦ drop_spaces_back (b ∷ a ∷ r)
  | false ↦ elim (space2 b c) [
    | true ↦ drop_spaces_back (a ∷ r)
    | false ↦ elim (space3 a b c) [ true ↦ drop_spaces_back r | false ↦ c ∷ b ∷ a ∷ r ]
  ]
]

unfoldable pub trim_bytes : Bytes → Bytes
unfolding drop_spaces drop_spaces_back space1 space2 space3
trim_bytes bs = reverse (drop_spaces_back (reverse (drop_spaces bs)))
