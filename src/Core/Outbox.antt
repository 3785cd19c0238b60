-- ===== src/Core/Outbox.antt =====
-- The check of an event's payload (core/outbox.py). A payload is a JSON value; keys are ASCII.
pub mod Laws
pub mod Tests
use biaice.Common.{
  ℕ, ◌+◌, Bool, true, false, List, [], ◌∷◌, map, Text, codes, text_eq, leb, ◌==◌, ◌&&◌, any, lower,
  if◌then◌else◌,
}
use biaice.Core.Errors.{Failure, value_error, Result, ok, err, ◌>>◌}

-- What is no dict and no list is a leaf.
mutual
  pub data Value : Type 0 where
    leaf : Value
    array : Items → Value
    dict : Fields → Value

  pub data Items : Type 0 where
    no_items : Items
    item : Value → Items → Items

  pub data Fields : Type 0 where
    no_fields : Fields
    field : Text → Value → Fields → Fields

abbrev prohibited_event_keys : List Text
prohibited_event_keys = map codes (
    "body" ∷ "content" ∷ "plaintext" ∷ "api_key" ∷ "secret" ∷ "prompt" ∷ "model_response"
    ∷ "personal_data" ∷ "cost_detail" ∷ "raw_prompt" ∷ "response_body" ∷ "request_body"
    ∷ "raw_content" ∷ "document_text" ∷ "personal_information" ∷ "credential_plaintext"
    ∷ "access_token" ∷ "refresh_token" ∷ "authorization_header" ∷ [])

-- An underscore before each capital
unfoldable pub separate_capitals : Text → Text
separate_capitals [] = []
separate_capitals (c ∷ s) =
    let rest = separate_capitals s in if leb b'A' c && leb c b'Z' then b'_' ∷ c ∷ rest else c ∷ rest

abbrev pub underscored : ℕ → ℕ
underscored c = if c == b'-' then b'_' else c

-- The same, not before the first character, with underscores for dashes and in lower case
unfoldable pub canonical_key : Text → Text
canonical_key [] = []
canonical_key (c ∷ s) = lower (map underscored (c ∷ separate_capitals s))

unfoldable pub is_prohibited : Text → Bool
is_prohibited key = any (λ k. text_eq (canonical_key key) k) prohibited_event_keys

abbrev pub refuse_key : Text → Result (Unit {0})
refuse_key key = if is_prohibited key then err value_error else ok tt

-- The path is left out: it is only for the text of the error.
unfoldable mutual
  pub reject_sensitive_keys : Value → Result (Unit {0})
  reject_sensitive_keys leaf = ok tt
  reject_sensitive_keys (array xs) = reject_items xs
  reject_sensitive_keys (dict fs) = reject_fields fs

  pub reject_items : Items → Result (Unit {0})
  reject_items no_items = ok tt
  reject_items (item x xs) = reject_sensitive_keys x >> reject_items xs

  pub reject_fields : Fields → Result (Unit {0})
  reject_fields no_fields = ok tt
  reject_fields (field key nested fs) =
      refuse_key key >> (reject_sensitive_keys nested >> reject_fields fs)

-- `payload_must_be_deidentified` of an envelope whose payload has these fields
unfoldable pub payload_must_be_deidentified : Fields → Result Fields
payload_must_be_deidentified payload = reject_sensitive_keys (dict payload) >> ok payload
