-- ===== src/Core/Outbox/Tests.antt =====
-- Payloads with keys that are prohibited, and with keys that are not.
use biaice.Common.{◌≡◌, refl, true, false, codes, text_eq, lower}
use biaice.Core.Errors.{value_error, err}
use biaice.Core.Outbox.{
  leaf, array, dict, no_items, item, Fields, no_fields, field, separate_capitals, canonical_key,
  is_prohibited, payload_must_be_deidentified,
}
use biaice.Core.Outbox.Laws.{keys, payload_must_be_deidentified-harmless}

separate_capitals_in : canonical_key (codes "accessToken") ≡ codes "access_token"
unfolding canonical_key separate_capitals lower
separate_capitals_in = refl

dash_prohibited : is_prohibited (codes "Access-token") ≡ true
unfolding is_prohibited canonical_key separate_capitals lower text_eq
dash_prohibited = refl

-- A key in capitals only gets an underscore before each of them, and is no longer recognised.
capitals_allowed : is_prohibited (codes "SECRET") ≡ false
unfolding is_prohibited canonical_key separate_capitals lower text_eq
capitals_allowed = refl

-- {"rows": [{"accessToken": "..."}]}
abbrev nested : Fields
nested =
    field (codes "rows") (array (item (dict (field (codes "accessToken") leaf no_fields)) no_items))
      no_fields

payload_must_be_deidentified-harmless_example :
    payload_must_be_deidentified nested ≡ err value_error
unfolding keys is_prohibited canonical_key separate_capitals lower text_eq
payload_must_be_deidentified-harmless_example = payload_must_be_deidentified-harmless nested
