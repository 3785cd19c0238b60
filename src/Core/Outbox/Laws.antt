-- ===== src/Core/Outbox/Laws.antt =====
-- Which payloads the check of core/outbox.py accepts.
use biaice.Common.{
  ◌≡◌, refl, sym, ap, ◌∙◌, Bool, true, false, not, ◌&&◌, List, [], ◌∷◌, ◌++◌, Text, if◌then◌else◌,
  arith,
}
use biaice.Core.Errors.{value_error, Result, ok, err, ◌>>◌}
use biaice.Core.Outbox.{
  Value, leaf, array, dict, Items, no_items, item, Fields, no_fields, field, is_prohibited,
  reject_sensitive_keys, reject_items, reject_fields, refuse_key, payload_must_be_deidentified,
}

-- The keys of a value at every depth.
unfoldable mutual
  pub keys : Value → List Text
  keys leaf = []
  keys (array xs) = keys_items xs
  keys (dict fs) = keys_fields fs

  pub keys_items : Items → List Text
  keys_items no_items = []
  keys_items (item x xs) = keys x ++ keys_items xs

  pub keys_fields : Fields → List Text
  keys_fields no_fields = []
  keys_fields (field key nested fs) = key ∷ (keys nested ++ keys_fields fs)

-- No key of the list is prohibited.
abbrev pub harmless : List Text → Bool
harmless [] = true
harmless (key ∷ rest) = not (is_prohibited key) && harmless rest

harmless-++ : (xs ys : List Text) → harmless (xs ++ ys) ≡ (harmless xs && harmless ys)
harmless-++ [] ys = refl
harmless-++ (x ∷ xs) ys =
    simp (harmless-++ xs ys) (assoc (not (is_prohibited x)) (harmless xs) (harmless ys))
  where
    assoc : (a b c : Bool) → (a && (b && c)) ≡ ((a && b) && c)
    assoc a b c = ground arith

abbrev verdict : Bool → Result (Unit {0})
verdict b = if b then ok tt else err value_error

verdict-&& : (a b : Bool) → (verdict a >> verdict b) ≡ verdict (a && b)
verdict-&& true b = refl
verdict-&& false b = refl

refuse_key-verdict : (key : Text) → refuse_key key ≡ verdict (not (is_prohibited key))
refuse_key-verdict key = by_bool (is_prohibited key)
  where
    by_bool : (b : Bool) → (if b then err value_error else ok tt) ≡ verdict (not b)
    by_bool true = refl
    by_bool false = refl

both :
    (a b : Bool) {first rest : Result (Unit {0})}
    → first ≡ verdict a
    → rest ≡ verdict b
    → (first >> rest) ≡ verdict (a && b)
both a b h k = rw (h, k) (verdict-&& a b)

mutual
  unfolding reject_sensitive_keys keys

  reject-verdict : (v : Value) → reject_sensitive_keys v ≡ verdict (harmless (keys v))
  reject-verdict leaf = refl
  reject-verdict (array xs) = reject_items-verdict xs
  reject-verdict (dict fs) = reject_fields-verdict fs

  reject_items-verdict : (xs : Items) → reject_items xs ≡ verdict (harmless (keys_items xs))
  reject_items-verdict no_items = refl
  reject_items-verdict (item x xs) =
      both _ _ (reject-verdict x) (reject_items-verdict xs)
      ∙ ap verdict (sym (harmless-++ (keys x) (keys_items xs)))

  reject_fields-verdict : (fs : Fields) → reject_fields fs ≡ verdict (harmless (keys_fields fs))
  reject_fields-verdict no_fields = refl
  reject_fields-verdict (field key nested fs) = both _ _ (refuse_key-verdict key) (
      both _ _ (reject-verdict nested) (reject_fields-verdict fs)
      ∙ ap verdict (sym (harmless-++ (keys nested) (keys_fields fs))))

-- Keys taken as ASCII, the validator returns a payload unchanged exactly if no key of it, at any
-- depth of nested dicts and lists, is prohibited; otherwise it raises ValueError.
pub payload_must_be_deidentified-harmless :
    (payload : Fields)
    → payload_must_be_deidentified payload
      ≡ (if harmless (keys_fields payload) then ok payload else err value_error)
unfolding payload_must_be_deidentified reject_sensitive_keys
payload_must_be_deidentified-harmless payload =
    rw (reject_fields-verdict payload) (by_bool (harmless (keys_fields payload)))
  where
    by_bool : (b : Bool) → (verdict b >> ok payload) ≡ (if b then ok payload else err value_error)
    by_bool true = refl
    by_bool false = refl
