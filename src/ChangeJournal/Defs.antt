-- ===== src/ChangeJournal/Defs.antt =====
-- The statements of changejournal/changejournal.go with their placeholders.
use service_runtime.Base.{
  ℕ, zero, suc, ◌+◌, ◌/◌, ◌%◌, [], ◌∷◌, ◌++◌, ltb, if◌then◌else◌, Text, codes,
}

-- `PlaceholderStyle`: 0, the two styles, and any other number.
pub data PlaceholderStyle : Type 0 where
  unset_style dollar question other_style : PlaceholderStyle

pub record SqlTemplates : Type 0 where
  pub insert_audit_entry : Text
  pub insert_change_journal : Text

unfoldable pub normalized_placeholder_style : PlaceholderStyle → PlaceholderStyle
normalized_placeholder_style question = question
normalized_placeholder_style dollar = dollar
normalized_placeholder_style unset_style = dollar
normalized_placeholder_style other_style = dollar

-- The decimal digits of a number, put before `tail`; more rounds than digits change nothing.
decimal_from : ℕ → ℕ → Text → Text
decimal_from zero n tail = tail
decimal_from (suc rounds) n tail =
    let rest = decimal_from rounds (n / 10) ((48 + n % 10) ∷ tail) in
    if ltb n 10 then (48 + n) ∷ tail else rest

unfoldable pub decimal : ℕ → Text
unfolding decimal_from
decimal n = decimal_from (suc n) n []

unfoldable pub placeholder : PlaceholderStyle → ℕ → Text
placeholder question index = codes "?"
placeholder dollar index = codes "$" ++ decimal (index + 1)
placeholder unset_style index = codes "$" ++ decimal (index + 1)
placeholder other_style index = codes "$" ++ decimal (index + 1)

-- The placeholders from an index on, joined by commas
placeholders_from : PlaceholderStyle → ℕ → ℕ → Text
placeholders_from style index zero = []
placeholders_from style index (suc zero) = placeholder style index
placeholders_from style index (suc (suc n)) =
    placeholder style index ++ (codes ", " ++ placeholders_from style (index + 1) (suc n))

unfoldable pub join_placeholders : PlaceholderStyle → ℕ → Text
unfolding placeholders_from placeholder decimal
join_placeholders style count = placeholders_from style 0 count

-- A line break and two or three tabulators
abbrev line2 : Text
line2 = 10 ∷ 9 ∷ 9 ∷ []

abbrev line3 : Text
line3 = 10 ∷ 9 ∷ 9 ∷ 9 ∷ []

unfoldable pub templates : PlaceholderStyle → SqlTemplates
unfolding join_placeholders normalized_placeholder_style
templates style =
    let s = normalized_placeholder_style style in
    record {
      insert_audit_entry =
          line2
          ++ (codes
                "insert into audit_entries (id, organization_id, actor_type, actor_id, action, resource_type, resource_id, metadata, created_at)"
              ++ (line2
                  ++ (codes "values (" ++ (join_placeholders s 9 ++ codes ")" ++ (10 ∷ 9 ∷ [])))));
      insert_change_journal =
          line2
          ++ (codes "insert into change_journal ("
              ++ (line3
                  ++ (codes
                        "organization_id, aggregate_type, aggregate_id, operation, actor_type, actor_id, aggregate_version, recorded_at, payload"
                      ++ (line2
                          ++ (codes ") values ("
                              ++ (join_placeholders s 9
                                  ++ (codes ")"
                                      ++ (line2 ++ (codes "returning seq" ++ (10 ∷ 9 ∷ []))))))))));
    }
