-- ===== src/Sentry/Schema.antt =====
-- `decision_schema` of introspection.rs.
use acip_sidecar.Prelude.{false, List, [], ◌∷◌}
use acip_sidecar.Text.{Text, text}
use acip_sidecar.Json.{Value, bool, str, arr, obj, Fields, end, field, array}

abbrev typed : Text → Value
typed t = obj (field (text "type") (str t) end)

abbrev one_of : List Text → Value
one_of names =
    obj (field (text "type") (str (text "string")) (field (text "enum") (arr (array names)) end))

abbrev strings : Value
strings =
    obj
      (field (text "type") (str (text "array")) (field (text "items") (typed (text "string")) end))

abbrev properties : Fields
properties = field (text "tools_allowed") (typed (text "boolean")) (
    field (text "risk_level") (one_of (text "low" ∷ text "medium" ∷ text "high" ∷ [])) (
      field (text "action")
        (one_of (text "allow" ∷ text "sanitize" ∷ text "block" ∷ text "needs_review" ∷ []))
        (field (text "fenced_content") (typed (text "string"))
          (field (text "reasons") strings (field (text "detected_patterns") strings end)))))

abbrev required : List Text
required =
    text "tools_allowed"
    ∷ text "risk_level"
    ∷ text "action"
    ∷ text "fenced_content"
    ∷ text "reasons"
    ∷ text "detected_patterns"
    ∷ []

unfoldable pub decision_schema : Value
decision_schema = obj (
    field (text "$schema") (str (text "https://json-schema.org/draft/2020-12/schema")) (
      field (text "title") (str (text "AcipDecision")) (
        field (text "type") (str (text "object")) (
          field (text "required") (arr (array required)) (
            field (text "properties") (obj properties)
              (field (text "additionalProperties") (bool false) end))))))
