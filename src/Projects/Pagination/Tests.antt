-- ===== src/Projects/Pagination/Tests.antt =====
-- Three items read two at a time, with a codec that writes the two parts of a key with a bar between them.
use biaice.Common.{
  ◌≡◌, ◌≢◌, refl, ap, ℕ, zero, suc, true, false, pos, none, some, List, [], ◌∷◌, Text, text_eq,
  text_ltb,
}
use biaice.Core.Errors.{Result, ok, err, validation_error, ◌>>=◌}
use biaice.Projects.Pagination.{Key, CursorCodec, paginate, collect, clamp_limit}
use biaice.Projects.Pagination.Following.{follow, follow-all}

-- The first part of the key, a 1 before each of its characters, then a 0 and the second part.
abbrev encode : Key → Text
encode ([], b) = 0 ∷ b
encode (c ∷ a, b) = 1 ∷ c ∷ encode (a, b)

abbrev decode : Text → Result Key
decode [] = err validation_error
decode (zero ∷ b) = ok ([], b)
decode (suc n ∷ []) = err validation_error
decode (suc n ∷ c ∷ t) = decode t >>= λ k. ok (c ∷ k.0, k.1)

abbrev marked : CursorCodec
marked = record { encode = encode; decode = decode }

decode-encode : (a b : Text) → decode (encode (a, b)) ≡ ok (a, b)
decode-encode [] b = refl
decode-encode (c ∷ a) b = ap (λ r. r >>= λ k. ok (c ∷ k.0, k.1)) (decode-encode a b)

encode_filled : (a b : Text) → encode (a, b) ≢ []
encode_filled [] b = λ e. cc
encode_filled (c ∷ a) b = λ e. cc

abbrev by_number : ℕ → Key
by_number n = (n ∷ [], [])

abbrev numbers : List ℕ
numbers = 3 ∷ 5 ∷ 8 ∷ []

paginate_first :
    paginate by_number numbers (some marked) none (some (pos 2))
    ≡ ok (3 ∷ 5 ∷ [], some (encode (by_number 5)), true)
unfolding paginate collect clamp_limit
paginate_first = refl

paginate_second :
    paginate by_number numbers (some marked) (some (encode (by_number 5))) (some (pos 2))
    ≡ ok (8 ∷ [], none, false)
unfolding paginate collect clamp_limit text_eq text_ltb
paginate_second = refl

follow-all_example : follow by_number 4 marked (some (pos 2)) none numbers ≡ ok numbers
unfolding text_eq text_ltb
follow-all_example =
    follow-all by_number marked (some (pos 2)) (λ k. decode-encode k.0 k.1)
      (λ k. encode_filled k.0 k.1) numbers
      (((refl, refl), ((refl, refl), tt)), (((refl, refl), tt), (tt, tt)))
