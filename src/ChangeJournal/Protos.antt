-- ===== src/ChangeJournal/Protos.antt =====
-- `ToProto` and `ChangeFromProto` of changejournal/changejournal.go. `S` stands for a struct message
-- that is not nil; the codecs are an argument. A time is in nanoseconds after Go's zero time.
use service_runtime.Base.{
  ℕ, ◌||◌, Option, none, some, List, [], ◌∷◌, ◌==◌, if◌then◌else◌, ℤ, Text, codes, is_empty,
  text_eq, ◌≡◌, ◌≢◌, refl, sym, ap, ◌∙◌, inl, inr, arith, Bool-cases, Option-cases,
}
use service_runtime.NatsBus.Envelope.{trim_bytes}
use service_runtime.ChangeJournal.{Change}

pub data ProtoError : Type 0 where
  unmarshal_change_payload change_payload_not_object encode_change_payload : ProtoError
  marshal_change_payload_struct : ProtoError

pub data ProtoResult (A : Type 0) : Type 0 where
  done : A → ProtoResult A
  failed : ProtoError → ProtoResult A

-- `eventsv1.Change`, a generated message
pub record ProtoChange (S : Type 0) : Type 0 where
  pub seq : ℤ
  pub organization_id : Text
  pub aggregate_type : Text
  pub aggregate_id : Text
  pub operation : Text
  pub actor_type : Text
  pub actor_id : Text
  pub aggregate_version : ℤ
  pub recorded_at : Option ℕ
  pub payload : Option S

-- json.Unmarshal into a value, the value as a map, structpb.NewStruct and protojson.Marshal
pub record StructCodec (J F S : Type 0) : Type 0 where
  pub decode : List ℕ → Option J
  pub fields : J → Option F
  pub new_struct : F → Option S
  pub marshal_struct : S → Option (List ℕ)

abbrev null_json : List ℕ
null_json = codes "null"

trim_nil : trim_bytes [] ≡ []
unfolding trim_bytes
trim_nil = refl

module _ {J F S : Type 0} (c : StructCodec J F S) where
  struct_of_fields : Option F → ProtoResult (Option S)
  struct_of_fields none = failed change_payload_not_object
  struct_of_fields (some f) = elim (c.new_struct f) [
    | none ↦ failed encode_change_payload
    | some s ↦ done (some s)
  ]

  struct_of_value : Option J → ProtoResult (Option S)
  unfolding struct_of_fields
  struct_of_value none = failed unmarshal_change_payload
  struct_of_value (some j) = struct_of_fields (c.fields j)

  unfoldable pub change_payload_to_struct : List ℕ → ProtoResult (Option S)
  unfolding struct_of_value
  change_payload_to_struct payload =
      let trimmed = trim_bytes payload in
      if is_empty trimmed || text_eq trimmed null_json
      then done none
      else struct_of_value (c.decode trimmed)

  unfoldable pub struct_to_change_payload : Option S → ProtoResult (List ℕ)
  struct_to_change_payload none = done []
  struct_to_change_payload (some s) = elim (c.marshal_struct s) [
    | none ↦ failed marshal_change_payload_struct
    | some b ↦ done b
  ]

  proto_with : Change → ProtoResult (Option S) → ProtoResult (ProtoChange S)
  proto_with h (failed e) = failed e
  proto_with h (done s) = done (record {
    seq = h.sequence;
    organization_id = h.organization_id;
    aggregate_type = h.aggregate_type;
    aggregate_id = h.aggregate_id;
    operation = h.operation;
    actor_type = h.actor_type;
    actor_id = h.actor_id;
    aggregate_version = h.aggregate_version;
    recorded_at = if h.recorded_at == 0 then none else some h.recorded_at;
    payload = s;
  })

  unfoldable pub to_proto : Change → ProtoResult (ProtoChange S)
  unfolding proto_with
  to_proto h = proto_with h (change_payload_to_struct h.payload)

  time_or_zero : Option ℕ → ℕ
  time_or_zero none = 0
  time_or_zero (some t) = t

  change_with : ProtoChange S → ProtoResult (List ℕ) → ProtoResult Change
  unfolding time_or_zero
  change_with m (failed e) = failed e
  change_with m (done payload) = done (record {
    sequence = m.seq;
    organization_id = m.organization_id;
    aggregate_type = m.aggregate_type;
    aggregate_id = m.aggregate_id;
    operation = m.operation;
    actor_type = m.actor_type;
    actor_id = m.actor_id;
    aggregate_version = m.aggregate_version;
    recorded_at = time_or_zero m.recorded_at;
    payload = payload;
  })

  -- Of a message that is not nil
  unfoldable pub change_from_proto : ProtoChange S → ProtoResult Change
  unfolding change_with
  change_from_proto m = change_with m (struct_to_change_payload m.payload)

  -- What the codecs promise: an encoded struct is an object without white space round it, and it is
  -- read back.
  pub record Lawful : Type 0 where
    pub is_object :
        (s : S) (b : List ℕ) → c.marshal_struct s ≡ some b → (r : List ℕ) × (trim_bytes b ≡ 123 ∷ r)
    pub reads_back :
        (s : S) (b : List ℕ)
        → c.marshal_struct s ≡ some b
        → (j : J) × (f : F) × (c.decode (trim_bytes b) ≡ some j)
          × (c.fields j ≡ some f)
          × (c.new_struct f ≡ some s)

module _ {J F S : Type 0} (c : StructCodec J F S) where
  payload-RoundTrip :
      Lawful c
      → (p : Option S) (b : List ℕ) → struct_to_change_payload c p ≡ done b
      → change_payload_to_struct c b ≡ done p
  unfolding struct_to_change_payload change_payload_to_struct text_eq
  payload-RoundTrip law none b h = let e : b ≡ [] = ground (arith, h) in rw e (rw trim_nil refl)
  payload-RoundTrip law (some s) b h = elim (Option-cases (c.marshal_struct s)) [
    | inl n ↦ absurd (ground (arith, n, h))
    | inr (b', e) ↦
        let same : b ≡ b' = ground (arith, e, h) in
        let (r, object) = law.is_object s b' e in
        let (j, f, decoded, fields, made) = law.reads_back s b' e in
        rw same (
          rw (object, ap c.decode (sym object) ∙ decoded)
            (rw (fields) (rw (made, struct_of_fields) refl)))
  ]

  time_back :
      (r : Option ℕ)
      → r ≢ some 0
      → (if time_or_zero c r == 0 then none else some (time_or_zero c r)) ≡ r
  unfolding time_or_zero
  time_back none h = refl
  time_back (some t) h = elim (Bool-cases (t == 0)) [
    | inl z ↦ let e : t ≡ 0 = ground (arith, z) in absurd (h (ap some e))
    | inr n ↦ rw n refl
  ]

  change_with_inv :
      (m : ProtoChange S) (p : ProtoResult (List ℕ)) (h : Change)
      → change_with c m p ≡ done h
      → (b : List ℕ) × (p ≡ done b) × (change_with c m (done b) ≡ done h)
  unfolding change_with
  change_with_inv m (failed x) h e = absurd (ground (arith, e))
  change_with_inv m (done b) h e = (b, refl, e)

  to_proto_done :
      (m : ProtoChange S) (b : List ℕ) (h : Change)
      → m.recorded_at ≢ some 0
      → change_payload_to_struct c b ≡ done m.payload
      → change_with c m (done b) ≡ done h
      → to_proto c h ≡ done m
  unfolding change_with to_proto
  to_proto_done m b h t p e =
      let taken : Change = record {
        sequence = m.seq;
        organization_id = m.organization_id;
        aggregate_type = m.aggregate_type;
        aggregate_id = m.aggregate_id;
        operation = m.operation;
        actor_type = m.actor_type;
        actor_id = m.actor_id;
        aggregate_version = m.aggregate_version;
        recorded_at = time_or_zero c m.recorded_at;
        payload = b;
      } in
      let same : h ≡ taken = ground (arith, e) in rw same (rw (p, time_back m.recorded_at t) refl)

  -- A message that is taken over as a change and given out again is the same message, except that a
  -- time of zero is left out.
  pub to_proto-change_from_proto :
      Lawful c
      → (m : ProtoChange S) (h : Change) → m.recorded_at ≢ some 0
      → change_from_proto c m ≡ done h
      → to_proto c h ≡ done m
  unfolding change_from_proto to_proto
  to_proto-change_from_proto law m h t e =
      let (b, made, taken) = change_with_inv m (struct_to_change_payload c m.payload) h e in
      to_proto_done m b h t (payload-RoundTrip law m.payload b made) taken
