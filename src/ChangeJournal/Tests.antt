-- ===== src/ChangeJournal/Tests.antt =====
-- Tests of changejournal/changejournal.go, and its theorems at concrete inputs.
use service_runtime.Base.{ℕ, none, some, List, [], pos, codes, trim_space, ◌≡◌, refl, arith}
use service_runtime.NatsBus.Envelope.{trim_bytes}
use service_runtime.ChangeJournal.Defs.{join_placeholders, dollar, unset_style}
use service_runtime.ChangeJournal.{Actor, Change, WriteOptions, Codecs, default_audit_action}
use service_runtime.ChangeJournal.Protos.{
  ProtoChange, StructCodec, Lawful, done, to_proto, change_from_proto, struct_to_change_payload,
  to_proto-change_from_proto,
}

names_action : default_audit_action (codes " doc ") (codes "create") ≡ codes "doc.create"
unfolding default_audit_action trim_space
names_action = refl

numbers_placeholders : join_placeholders dollar 3 ≡ codes "$1, $2, $3"
unfolding join_placeholders
numbers_placeholders = refl

-- Values are bytes already.
abbrev bytes_codec : Codecs (List ℕ) (List ℕ) (List ℕ) (List ℕ)
bytes_codec = record {
  any_json = λ a. some a;
  new_any = λ m. none;
  json = λ v. some v;
  metadata_json = λ d. some d;
  get_version = λ p. some (pos 4);
}

abbrev actor : Actor
actor = record { actor_type = codes "user"; id = codes "u1"; organization_id = codes "o1" }

abbrev write_options : WriteOptions
write_options = record {
  placeholder_style = unset_style;
  audit_action = [];
  now = 5;
  new_id = codes "n1";
}

-- The only struct is the one without fields.
abbrev empty_struct : StructCodec (Unit {0}) (Unit {0}) (Unit {0})
empty_struct = record {
  decode = λ b. some tt;
  fields = λ j. some tt;
  new_struct = λ f. some tt;
  marshal_struct = λ s. some (codes "{}");
}

braces_object : trim_bytes (codes "{}") ≡ codes "{}"
unfolding trim_bytes
braces_object = refl

empty_struct-Lawful : Lawful empty_struct
empty_struct-Lawful = record {
  is_object =
      λ s b e. let same : b ≡ codes "{}" = ground (arith, e) in (codes "}", rw same braces_object);
  reads_back = λ s b e. (tt, tt, refl, refl, refl);
}

abbrev message : ProtoChange (Unit {0})
message = record {
  seq = pos 9;
  organization_id = codes "o1";
  aggregate_type = codes "doc";
  aggregate_id = codes "d1";
  operation = codes "create";
  actor_type = codes "user";
  actor_id = codes "u1";
  aggregate_version = pos 4;
  recorded_at = some 5;
  payload = some tt;
}

abbrev change : Change
change = record {
  sequence = pos 9;
  organization_id = codes "o1";
  aggregate_type = codes "doc";
  aggregate_id = codes "d1";
  operation = codes "create";
  actor_type = codes "user";
  actor_id = codes "u1";
  aggregate_version = pos 4;
  recorded_at = 5;
  payload = codes "{}";
}

message_taken : change_from_proto empty_struct message ≡ done change
unfolding change_from_proto struct_to_change_payload
message_taken = refl

to_proto-change_from_proto_example : to_proto empty_struct change ≡ done message
to_proto-change_from_proto_example =
    to_proto-change_from_proto empty_struct empty_struct-Lawful message change
      (λ e. ground (arith, e)) message_taken
