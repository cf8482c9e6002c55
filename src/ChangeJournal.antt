-- ===== src/ChangeJournal.antt =====
-- changejournal/changejournal.go: the audit entry and the journal record of a mutation. The
-- transaction, the codecs of JSON and protobuf, the clock and the new identifier are arguments.
pub mod Defs
pub mod Writes
pub mod Protos
mod Tests
use service_runtime.Base.{
  ℕ, suc, Bool, true, false, not, ◌&&◌, ◌||◌, Option, none, some, List, [], ◌∷◌, ◌++◌, ◌==◌,
  if◌then◌else◌, ℤ, pos, negsuc, Text, codes, is_empty, text_eq, trim_space,
}
use service_runtime.ChangeJournal.Defs.{
  PlaceholderStyle, unset_style, dollar, question, other_style, SqlTemplates, templates,
}

pub record Actor : Type 0 where
  pub actor_type : Text
  pub id : Text
  pub organization_id : Text

pub record Change : Type 0 where
  pub sequence : ℤ
  pub organization_id : Text
  pub aggregate_type : Text
  pub aggregate_id : Text
  pub operation : Text
  pub actor_type : Text
  pub actor_id : Text
  pub aggregate_version : ℤ
  pub recorded_at : ℕ
  pub payload : List ℕ

pub record AuditEntry : Type 0 where
  pub id : Text
  pub organization_id : Text
  pub actor_type : Text
  pub actor_id : Text
  pub action : Text
  pub resource_type : Text
  pub resource_id : Text
  pub metadata : List ℕ
  pub created_at : ℕ

-- What is passed for a placeholder of a statement
pub data SqlValue : Type 0 where
  null : SqlValue
  text_value : Text → SqlValue
  int_value : ℤ → SqlValue
  time_value : ℕ → SqlValue
  json_value : List ℕ → SqlValue

unfoldable pub nullable_string : Text → SqlValue
nullable_string value = if is_empty (trim_space value) then null else text_value value

unfoldable pub default_audit_action : Text → Text → Text
default_audit_action resource_type operation =
    let r = trim_space resource_type in
    let o = trim_space operation in
    if is_empty r then o else if is_empty o then r else r ++ (codes "." ++ o)

-- `WriteOptions`, with the clock's reading and the identifier that its functions give
pub record WriteOptions : Type 0 where
  pub placeholder_style : PlaceholderStyle
  pub audit_action : Text
  pub now : ℕ
  pub new_id : Text

default_style : PlaceholderStyle → PlaceholderStyle
default_style unset_style = dollar
default_style dollar = dollar
default_style question = question
default_style other_style = other_style

unfoldable pub with_defaults : Text → Text → WriteOptions → WriteOptions
unfolding default_style
with_defaults resource_type operation o = record o {
  placeholder_style = default_style o.placeholder_style;
  audit_action =
      if is_empty o.audit_action
      then default_audit_action resource_type operation
      else o.audit_action;
}

-- A payload: an `*anypb.Any`, another protobuf message, or any other value.
pub data Payload (A M V : Type 0) : Type 0 where
  any_payload : A → Payload A M V
  message_payload : M → Payload A M V
  plain_payload : V → Payload A M V

-- The codecs, where an error is `none`, and the `GetVersion` of a payload that has one.
pub record Codecs (A M V D : Type 0) : Type 0 where
  pub any_json : A → Option (List ℕ)
  pub new_any : M → Option A
  pub json : V → Option (List ℕ)
  pub metadata_json : D → Option (List ℕ)
  pub get_version : Payload A M V → Option ℤ

-- `DBTX`, over a world that its calls change
pub record Dbtx (W : Type 0) : Type 0 where
  pub exec : Text → List SqlValue → W → W × Bool
  pub query_row : Text → List SqlValue → W → W × Option ℤ

pub data JournalError : Type 0 where
  marshal_audit_metadata marshal_change_payload insert_audit_entry : JournalError
  insert_change_journal : JournalError

pub data Result (A : Type 0) : Type 0 where
  ok : A → Result A
  err : JournalError → Result A

module _ {A M V D : Type 0} (c : Codecs A M V D) where
  marshal_wrapped : Option A → Option (List ℕ)
  marshal_wrapped none = none
  marshal_wrapped (some a) = c.any_json a

  unfoldable pub marshal_payload : Payload A M V → Option (List ℕ)
  unfolding marshal_wrapped
  marshal_payload (any_payload a) = c.any_json a
  marshal_payload (message_payload m) = marshal_wrapped (c.new_any m)
  marshal_payload (plain_payload v) = c.json v

  version_or_one : Option ℤ → ℤ
  version_or_one none = pos 1
  version_or_one (some v) = v

  unfoldable pub aggregate_version : Payload A M V → ℤ
  unfolding version_or_one
  aggregate_version p = version_or_one (c.get_version p)

-- The entries of one mutation
unfoldable pub audit_entry : WriteOptions → Actor → Text → Text → List ℕ → AuditEntry
audit_entry o actor resource_type resource_id metadata = record {
  id = o.new_id;
  organization_id = actor.organization_id;
  actor_type = actor.actor_type;
  actor_id = actor.id;
  action = o.audit_action;
  resource_type = resource_type;
  resource_id = resource_id;
  metadata = metadata;
  created_at = o.now;
}

unfoldable pub change_record : WriteOptions → Actor → Text → Text → Text → ℤ → List ℕ → Change
change_record o actor resource_type resource_id operation version payload = record {
  sequence = pos 0;
  organization_id = actor.organization_id;
  aggregate_type = resource_type;
  aggregate_id = resource_id;
  operation = operation;
  actor_type = actor.actor_type;
  actor_id = actor.id;
  aggregate_version = version;
  recorded_at = o.now;
  payload = payload;
}

-- The arguments of the two statements
unfoldable pub audit_values : AuditEntry → List SqlValue
unfolding nullable_string
audit_values e =
    text_value e.id
    ∷ text_value e.organization_id
    ∷ text_value e.actor_type
    ∷ nullable_string e.actor_id
    ∷ text_value e.action
    ∷ text_value e.resource_type
    ∷ nullable_string e.resource_id
    ∷ json_value e.metadata
    ∷ time_value e.created_at
    ∷ []

unfoldable pub journal_values : Change → List SqlValue
unfolding nullable_string
journal_values e =
    text_value e.organization_id
    ∷ text_value e.aggregate_type
    ∷ nullable_string e.aggregate_id
    ∷ text_value e.operation
    ∷ text_value e.actor_type
    ∷ nullable_string e.actor_id
    ∷ int_value e.aggregate_version
    ∷ time_value e.recorded_at
    ∷ json_value e.payload
    ∷ []

module _ {W A M V D : Type 0} (db : Dbtx W) (c : Codecs A M V D) where
  unfoldable pub sequence_or_error : W × Option ℤ → W × Result ℤ
  sequence_or_error (w, none) = (w, err insert_change_journal)
  sequence_or_error (w, some s) = (w, ok s)

  unfoldable pub insert_change : SqlTemplates → Change → W × Bool → W × Result ℤ
  unfolding sequence_or_error
  insert_change t change (w, false) = (w, err insert_audit_entry)
  insert_change t change (w, true) =
      sequence_or_error (db.query_row t.insert_change_journal (journal_values change) w)

  unfoldable pub insert_both : SqlTemplates → AuditEntry → Change → W → W × Result ℤ
  unfolding insert_change
  insert_both t entry change w =
      insert_change t change (db.exec t.insert_audit_entry (audit_values entry) w)

  unfoldable pub write_mutation_with_options :
      Actor → Text → Text → Text → Payload A M V → D → WriteOptions → W → W × Result ℤ
  unfolding insert_both
  write_mutation_with_options actor resource_type resource_id operation payload metadata opts w =
      let o = with_defaults resource_type operation opts in
      let t = templates o.placeholder_style in
      elim (c.metadata_json metadata) [
        | none ↦ (w, err marshal_audit_metadata)
        | some m ↦ elim (marshal_payload c payload) [
          | none ↦ (w, err marshal_change_payload)
          | some p ↦
              insert_both t (audit_entry o actor resource_type resource_id m)
                (change_record o actor resource_type resource_id operation
                  (aggregate_version c payload) p)
                w
        ]
      ]
