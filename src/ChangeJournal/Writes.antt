-- ===== src/ChangeJournal/Writes.antt =====
-- What a mutation writes (changejournal/changejournal.go), seen by a transaction that records its
-- statements.
use service_runtime.Base.{
  ℕ, suc, Bool, true, false, ◌||◌, Option, none, some, List, [], ◌∷◌, ◌++◌, ◌==◌, if◌then◌else◌, ℤ,
  Text, codes, text_eq, length, ◌≡◌, is_some,
}
use service_runtime.ChangeJournal.Defs.{SqlTemplates}
use service_runtime.ChangeJournal.{
  Actor, SqlValue, text_value, json_value, Dbtx, marshal_audit_metadata, marshal_change_payload,
  insert_audit_entry, insert_change_journal, Result, ok, err,
}

abbrev pub Statement : Type 0
Statement = Text × List SqlValue

-- A transaction that records its statements; the outcomes are given.
abbrev pub recording : Bool → Option ℤ → Dbtx (List Statement)
recording works sequence = record {
  exec = λ q vs w. (w ++ ((q, vs) ∷ []), works);
  query_row = λ q vs w. (w ++ ((q, vs) ∷ []), sequence);
}

-- The columns of the two tables, in the order of the statements
abbrev pub audit_columns : List Text
audit_columns =
    codes "id"
    ∷ codes "organization_id"
    ∷ codes "actor_type"
    ∷ codes "actor_id"
    ∷ codes "action"
    ∷ codes "resource_type"
    ∷ codes "resource_id"
    ∷ codes "metadata"
    ∷ codes "created_at"
    ∷ []

abbrev pub journal_columns : List Text
journal_columns =
    codes "organization_id"
    ∷ codes "aggregate_type"
    ∷ codes "aggregate_id"
    ∷ codes "operation"
    ∷ codes "actor_type"
    ∷ codes "actor_id"
    ∷ codes "aggregate_version"
    ∷ codes "recorded_at"
    ∷ codes "payload"
    ∷ []

-- The value that a column gets
unfoldable pub column : Text → List Text → List SqlValue → Option SqlValue
column name [] vs = none
column name (c ∷ cs) [] = none
column name (c ∷ cs) (v ∷ vs) = if text_eq c name then some v else column name cs vs

abbrev pub audit_column : Text → List SqlValue → Option SqlValue
audit_column name vs = column name audit_columns vs

abbrev pub journal_column : Text → List SqlValue → Option SqlValue
journal_column name vs = column name journal_columns vs

-- The columns of the two rows that tell of the same thing
abbrev pub Agree : List SqlValue → List SqlValue → Type 0
Agree a j =
    (audit_column (codes "organization_id") a ≡ journal_column (codes "organization_id") j)
    × (audit_column (codes "actor_type") a ≡ journal_column (codes "actor_type") j)
    × (audit_column (codes "actor_id") a ≡ journal_column (codes "actor_id") j)
    × (audit_column (codes "resource_type") a ≡ journal_column (codes "aggregate_type") j)
    × (audit_column (codes "resource_id") a ≡ journal_column (codes "aggregate_id") j)
    × (audit_column (codes "created_at") a ≡ journal_column (codes "recorded_at") j)

-- The placeholders of a statement: question marks and dollars
unfoldable pub marks : Text → ℕ
marks [] = 0
marks (c ∷ cs) = if c == 63 || c == 36 then suc (marks cs) else marks cs

abbrev pub Fits : Statement → Type 0
Fits (q, vs) = length vs ≡ marks q

-- The statements that are run and the result, by what fails first: the metadata or the payload cannot
-- be encoded, the audit entry or the journal's record is not inserted.
abbrev pub expected :
    Bool → Bool → Bool → Option ℤ → Statement → Statement → List Statement × Result ℤ
expected false payload works sequence a j = ([], err marshal_audit_metadata)
expected true false works sequence a j = ([], err marshal_change_payload)
expected true true false sequence a j = (a ∷ [], err insert_audit_entry)
expected true true true none a j = (a ∷ j ∷ [], err insert_change_journal)
expected true true true (some s) a j = (a ∷ j ∷ [], ok s)

-- What the rows tell of the actor and the operation
abbrev pub Tells : Actor → Text → List SqlValue → List SqlValue → Type 0
Tells actor op a j =
    (audit_column (codes "organization_id") a ≡ some (text_value actor.organization_id))
    × (audit_column (codes "actor_type") a ≡ some (text_value actor.actor_type))
    × (journal_column (codes "operation") j ≡ some (text_value op))

-- A column that has an encoding, if there is one
abbrev pub Carries : Option (List ℕ) → Option SqlValue → Type 0
Carries none v = Unit {0}
Carries (some b) v = v ≡ some (json_value b)

-- What is run and returned, for the encodings of the metadata and the payload
abbrev pub Written :
    SqlTemplates
    → Actor
    → Text
    → Option (List ℕ)
    → Option (List ℕ)
    → Bool
    → Option ℤ
    → List Statement × Result ℤ
    → Type 0
Written t actor op metadata payload works sequence r =
    (a : Statement) × (j : Statement) × (r
      ≡ expected (is_some metadata) (is_some payload) works sequence a j)
    × (a.0 ≡ t.insert_audit_entry)
    × (j.0 ≡ t.insert_change_journal)
    × Fits a
    × Fits j
    × Agree a.1 j.1
    × Tells actor op a.1 j.1
    × Carries metadata (audit_column (codes "metadata") a.1)
    × Carries payload (journal_column (codes "payload") j.1)
