-- ===== src/Tests/Trail.antt =====
-- The theorem on the rows of the audit log at a concrete input.
use open_bastion.Base.{is_some, none, refl, some, true, ◌↔◌, ◌≡◌}
use open_bastion.Audit.{
  Json, is_sensitive, text, array, object, no_items, item, no_fields, field, redacted,
  sanitize_object, AuditedRequest, AuditRow, intercept,
}
use open_bastion.Audit.Routes.{IsListed, IsMutation, IsSent}
use open_bastion.Audit.Redaction.{IsClean, intercept-IsClean}

-- A new provider, with a secret in a list.
abbrev provider_body : Json
provider_body = object (
    field "name" (text "corp") (
      field "config"
        (array (item (object (field "clientSecret" (text "s3cret") no_fields)) no_items))
        no_fields))

abbrev provider_request : AuditedRequest
provider_request = record {
  method = "POST";
  url = "/auth-providers?x=/groups";
  pathname = "/auth-providers";
  body = provider_body;
  user_id = some "u1";
  auth_method = none;
}

sanitized :
    sanitize_object provider_body
    ≡ object (
        field "name" (text "corp") (
          field "config"
            (array (item (object (field "clientSecret" redacted no_fields)) no_items))
            no_fields))
unfolding sanitize_object is_sensitive
sanitized = refl

intercept-IsClean_example :
    ((is_some (intercept provider_request) ≡ true)
      ↔ (IsMutation "POST" × (IsListed "/auth-providers" → ⊥)))
    × ((row : AuditRow)
        → intercept provider_request ≡ some row
        → ((j : Json) → row.details ≡ some j → IsClean j)
          × (IsSent "POST" → IsClean provider_body → row.details ≡ some provider_body)
          × ((IsSent "POST" → ⊥) → row.details ≡ none))
intercept-IsClean_example = intercept-IsClean provider_request
