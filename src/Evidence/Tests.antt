-- ===== src/Evidence/Tests.antt =====
-- A finding's evidence with a header and a response, for src/mcp_behaviour_guard/evidence.py.
use mcp_behaviour_guard.Prelude.{◌≡◌, refl, ◌==◌, true, [], ◌∷◌}
use mcp_behaviour_guard.Json.{Json, text, object, field, end}
use mcp_behaviour_guard.Evidence.{Filters, redact}
use mcp_behaviour_guard.Evidence.Labels.{is_redacted, redact-is_redacted}

abbrev filters : Filters
filters = record {
  sensitive_key = λ name. name == "token";
  scrub = λ s. s;
  replace = λ s old new. s;
  lower = λ s. s;
  skip_seven = λ s. s;
}

abbrev evidence : Json
evidence =
    object
      (field "call" (object (field "token" (text "t0p") (field "response" (text "x") end))) end)

exported :
    redact filters ("t0p" ∷ []) evidence
    ≡ object (
        field "call"
          (object (
            field "token"
              (text "[redacted]")
              (field "response" (text "[omitted from exported evidence]") end)))
          end)
unfolding redact
exported = refl

redact-is_redacted_example : is_redacted filters (redact filters ("t0p" ∷ []) evidence) ≡ true
redact-is_redacted_example = redact-is_redacted filters ("t0p" ∷ []) evidence
