-- ===== src/Projects/Pagination/Following.antt =====
-- Who follows the cursors of modules/projects/application/pagination.py reads every item once.
use biaice.Common.{
  ℕ, zero, suc, ◌-◌, ◌≤◌, ◌<◌, ◌≡◌, ◌≢◌, refl, sym, ap, ◌∙◌, subst, ℤ, pos, negsuc, Bool, true,
  false, Option, none, some, List, [], ◌∷◌, ◌++◌, Text, text_eq_refl, text_ltb, ltb, last?,
  some_inj, length, All, arith,
}
use biaice.Core.Errors.{Result, ok, ◌>>=◌}
use biaice.Projects.Pagination.{
  clamp_limit, Key, leb_key, CursorCodec, passed, collect, cursor_after, page_of, start_after,
  paginate,
}

text_ltb_irrefl : (t : Text) → text_ltb t t ≡ false
unfolding text_ltb
text_ltb_irrefl [] = refl
text_ltb_irrefl (c ∷ t) = ground (arith, text_ltb_irrefl t)

leb_key_refl : (k : Key) → leb_key k k ≡ true
leb_key_refl (a, b) = simp (text_eq_refl a, text_ltb_irrefl b) refl

clamp_limit_pos : (limit : Option ℤ) → 1 ≤ clamp_limit limit
unfolding clamp_limit
clamp_limit_pos none = omega arith
clamp_limit_pos (some (negsuc n)) = omega arith
clamp_limit_pos (some (pos n)) = ground arith

module _ {T : Type 0} (key : T → Key) where
  -- The one key is strictly below the other.
  abbrev pub Below : T → T → Type 0
  Below x y = (leb_key (key x) (key y) ≡ true) × (leb_key (key y) (key x) ≡ false)

  abbrev pub Sorted : List T → Type 0
  Sorted [] = Unit
  Sorted (x ∷ xs) = All (Below x) xs × Sorted xs

  abbrev further : List T → Option Text → (Text → Result (List T)) → Result (List T)
  further page none go = ok page
  further page (some next) go = go next >>= λ rest. ok (page ++ rest)

  -- The pages one after the other, from a cursor on, at most as many as there is fuel.
  unfoldable pub follow : ℕ → CursorCodec → Option ℤ → Option Text → List T → Result (List T)
  follow zero codec limit cursor items = ok []
  follow (suc fuel) codec limit cursor items =
      let next_pages : Text → Result (List T) = λ next. follow fuel codec limit (some next) items in
      paginate key items (some codec) cursor limit >>= λ p. further p.0 p.1 next_pages

  take : ℕ → List T → List T
  take zero xs = []
  take (suc n) [] = []
  take (suc n) (x ∷ xs) = x ∷ take n xs

  drop : ℕ → List T → List T
  drop zero xs = xs
  drop (suc n) [] = []
  drop (suc n) (x ∷ xs) = drop n xs

  take-drop : (n : ℕ) (xs : List T) → take n xs ++ drop n xs ≡ xs
  unfolding take drop
  take-drop zero xs = refl
  take-drop (suc n) [] = refl
  take-drop (suc n) (x ∷ xs) = ap (λ ys. x ∷ ys) (take-drop n xs)

  take_all : (n : ℕ) (xs : List T) → length xs ≤ n → take n xs ≡ xs
  unfolding take
  take_all zero [] h = refl
  take_all zero (x ∷ xs) h = absurd (omega arith)
  take_all (suc n) [] h = refl
  take_all (suc n) (x ∷ xs) h = ap (λ ys. x ∷ ys) (take_all n xs (omega arith))

  length-drop : (n : ℕ) (xs : List T) → length (drop n xs) ≡ length xs - n
  unfolding drop
  length-drop zero xs = omega arith
  length-drop (suc n) [] = omega arith
  length-drop (suc n) (x ∷ xs) = omega (arith, length-drop n xs)

  -- Items up to the cursor are passed over.
  collect-passed :
      (start : Option Key) (room : ℕ) (before items : List T)
      → All (λ x. passed key start x ≡ true) before
      → collect key start room (before ++ items) ≡ collect key start room items
  unfolding collect
  collect-passed start room [] items h = refl
  collect-passed start zero (x ∷ before) items h =
      rw (h.0) (collect-passed start zero before items h.1)
  collect-passed start (suc room) (x ∷ before) items h =
      rw (h.0) (collect-passed start (suc room) before items h.1)

  -- Items after it fill the page.
  collect-take :
      (start : Option Key) (room : ℕ) (items : List T)
      → All (λ x. passed key start x ≡ false) items
      → collect key start room items ≡ (take room items, ltb room (length items))
  unfolding collect take
  collect-take start zero [] h = refl
  collect-take start (suc room) [] h = ap (λ b. ([], b)) (none_below room)
    where
      none_below : (n : ℕ) → false ≡ ltb (suc n) 0
      none_below n = ground arith
  collect-take start zero (x ∷ items) h = rw (h.0) (ap (λ b. ([], b)) (zero_below (length items)))
    where
      zero_below : (n : ℕ) → true ≡ ltb 0 (suc n)
      zero_below n = ground arith
  collect-take start (suc room) (x ∷ items) h =
      rw (h.0, collect-take start room items h.1)
        (ap (λ b. (x ∷ take room items, b)) (lower_by_one room (length items)))
    where
      lower_by_one : (a b : ℕ) → ltb a b ≡ ltb (suc a) (suc b)
      lower_by_one a b = ground arith

  All-take : (P : T → Type 0) (n : ℕ) (xs : List T) → All P xs → All P (take n xs)
  unfolding take
  All-take P zero xs h = tt
  All-take P (suc n) [] h = tt
  All-take P (suc n) (x ∷ xs) h = (h.0, All-take P n xs h.1)

  All-append : (P : T → Type 0) (xs ys : List T) → All P xs → All P ys → All P (xs ++ ys)
  All-append P [] ys h k = k
  All-append P (x ∷ xs) ys h k = (h.0, All-append P xs ys h.1 k)

  All-last? : (P : T → Type 0) (xs : List T) {x : T} → All P xs → last? xs ≡ some x → P x
  All-last? P [] h e = cc
  All-last? P (x ∷ []) h e = subst P (some_inj _ _ e) h.0
  All-last? P (x ∷ y ∷ ys) h e = All-last? P (y ∷ ys) h.1 e

  All-rest : (P : T → Type 0) (xs ys : List T) → All P (xs ++ ys) → All P ys
  All-rest P [] ys h = h
  All-rest P (x ∷ xs) ys h = All-rest P xs ys h.1

  All-mono : (P Q : T → Type 0) (xs : List T) → ((a : T) → P a → Q a) → All P xs → All Q xs
  All-mono P Q [] f h = tt
  All-mono P Q (x ∷ xs) f h = (f x h.0, All-mono P Q xs f h.1)

  -- A full page ends in an item that no item of it is above, and that all the items behind it are
  -- above.
  page_end :
      (n : ℕ) (items : List T)
      → Sorted items
      → 1 ≤ n
      → n < length items
      → (x : T) × (last? (take n items) ≡ some x)
        × All (λ y. passed key (some (key x)) y ≡ true) (take n items)
        × All (λ y. passed key (some (key x)) y ≡ false) (drop n items)
  unfolding take drop
  page_end zero items sorted low high = absurd (omega arith)
  page_end (suc n) [] sorted low high = absurd (omega arith)
  page_end (suc zero) (x ∷ xs) sorted low high = (
    x,
    refl,
    (leb_key_refl (key x), tt),
    All-mono (Below x) (λ y. leb_key (key y) (key x) ≡ false) xs (λ y b. b.1) sorted.0,
  )
  page_end (suc (suc n)) (w ∷ []) sorted low high = absurd (omega arith)
  page_end (suc (suc n)) (w ∷ y ∷ ys) sorted low high =
      let (x, last, up, above) = page_end (suc n) (y ∷ ys) sorted.1 (omega arith) (omega arith) in
      (
        x,
        last,
        (
          (All-last? (Below w) (y ∷ take n ys) (All-take (Below w) (suc n) (y ∷ ys) sorted.0)
              last).0,
          up,
        ),
        above,
      )

  -- What comes before the page is not above its end.
  before_end :
      (n : ℕ) (before items : List T) {x : T}
      → Sorted (before ++ items)
      → last? (take n items) ≡ some x
      → All (λ y. passed key (some (key x)) y ≡ true) before
  before_end n [] items sorted last = tt
  before_end n (b ∷ before) items sorted last = (
    (All-last? (Below b) (take n items)
        (All-take (Below b) n items (All-rest (Below b) before items sorted.0)) last).0,
    before_end n before items sorted.1 last,
  )

  Sorted-rest : (before items : List T) → Sorted (before ++ items) → Sorted items
  Sorted-rest [] items h = h
  Sorted-rest (b ∷ before) items h = Sorted-rest before items h.1

  regroup :
      (n : ℕ) (before items : List T) → (before ++ take n items) ++ drop n items ≡ before ++ items
  regroup n [] items = take-drop n items
  regroup n (b ∷ before) items = ap (λ xs. b ∷ xs) (regroup n before items)

  module _ (codec : CursorCodec) (limit : Option ℤ)
      (decodes : (k : Key) → codec.decode (codec.encode k) ≡ ok k)
      (shows : (k : Key) → codec.encode k ≢ []) where
    start_again : (k : Key) → start_after key (some codec) (some (codec.encode k)) ≡ ok (some k)
    start_again k = by_text (codec.encode k) (shows k) (decodes k)
      where
        by_text :
            (t : Text)
            → t ≢ []
            → codec.decode t ≡ ok k
            → start_after key (some codec) (some t) ≡ ok (some k)
        by_text [] h e = absurd (h refl)
        by_text (c ∷ cs) h e = ap (λ r. r >>= λ j. ok (some j)) e

    paginate-page :
        (cursor : Option Text) (start : Option Key) (before items : List T)
        → start_after key (some codec) cursor ≡ ok start
        → All (λ x. passed key start x ≡ true) before
        → All (λ x. passed key start x ≡ false) items
        → paginate key (before ++ items) (some codec) cursor limit
          ≡ ok (
              page_of key
                (some codec)
                (take (clamp_limit limit) items, ltb (clamp_limit limit) (length items)))
    unfolding paginate
    paginate-page cursor start before items at up above =
        ap
          (λ r. r >>= λ s.
            ok (page_of key (some codec) (collect key s (clamp_limit limit) (before ++ items))))
          at
        ∙ ap (λ c. ok (page_of key (some codec) c))
            (collect-passed start (clamp_limit limit) before items up
              ∙ collect-take start (clamp_limit limit) items above)

    -- One page and the pages behind it are all the items, when the pages behind it are the items
    -- behind it.
    further-page :
        (n : ℕ) (items : List T) (go : Text → Result (List T))
        → Sorted items
        → 1 ≤ n
        → ((x : T)
            → n < length items
            → last? (take n items) ≡ some x
            → All (λ y. passed key (some (key x)) y ≡ true) (take n items)
            → All (λ y. passed key (some (key x)) y ≡ false) (drop n items)
            → go (codec.encode (key x)) ≡ ok (drop n items))
        → (more : Bool) → ltb n (length items) ≡ more
        → further
            (page_of key (some codec) (take n items, more)).0
            (page_of key (some codec) (take n items, more)).1
            go
          ≡ ok items
    further-page n items go sorted low behind false e = ap ok (take_all n items (ground arith))
    further-page n items go sorted low behind true e =
        let high : n < length items = ground arith in
        let (x, last, up, above) = page_end n items sorted low high in
        ap (λ l. further (take n items) (cursor_after key (some codec) l) go) last
        ∙ ap (λ r. r >>= λ rest. ok (take n items ++ rest)) (behind x high last up above)
        ∙ ap ok (take-drop n items)

    follow-page :
        (fuel : ℕ) (cursor : Option Text) (start : Option Key) (before items : List T)
        → start_after key (some codec) cursor ≡ ok start
        → All (λ x. passed key start x ≡ true) before
        → All (λ x. passed key start x ≡ false) items
        → Sorted items
        → ((x : T)
            → clamp_limit limit < length items
            → last? (take (clamp_limit limit) items) ≡ some x
            → All (λ y. passed key (some (key x)) y ≡ true) (take (clamp_limit limit) items)
            → All (λ y. passed key (some (key x)) y ≡ false) (drop (clamp_limit limit) items)
            → follow fuel codec limit (some (codec.encode (key x))) (before ++ items)
              ≡ ok (drop (clamp_limit limit) items))
        → follow (suc fuel) codec limit cursor (before ++ items) ≡ ok items
    unfolding follow
    follow-page fuel cursor start before items at up above sorted behind =
        ap
          (λ r. r >>= λ p.
            further p.0 p.1 (λ next. follow fuel codec limit (some next) (before ++ items)))
          (paginate-page cursor start before items at up above)
        ∙ further-page (clamp_limit limit) items
            (λ next. follow fuel codec limit (some next) (before ++ items)) sorted
            (clamp_limit_pos limit) behind (ltb (clamp_limit limit) (length items)) refl

    follow_from :
        (fuel : ℕ) (cursor : Option Text) (start : Option Key) (before items : List T)
        → start_after key (some codec) cursor ≡ ok start
        → All (λ x. passed key start x ≡ true) before
        → All (λ x. passed key start x ≡ false) items
        → Sorted (before ++ items)
        → length items ≤ fuel
        → follow (suc fuel) codec limit cursor (before ++ items) ≡ ok items
    follow_from zero cursor start before items at up above sorted enough =
        follow-page zero cursor start before items at up above (Sorted-rest before items sorted)
          (λ x high last up' above'. absurd (omega arith))
    follow_from (suc fuel) cursor start before items at up above sorted enough =
        follow-page (suc fuel) cursor start before items at up above
          (Sorted-rest before items sorted)
          (λ x high last up' above'.
            subst
              (λ all.
                follow (suc fuel) codec limit (some (codec.encode (key x))) all ≡ ok (drop n items))
              (regroup n before items)
              (follow_from fuel (some (codec.encode (key x))) (some (key x))
                (before ++ take n items) (drop n items) (start_again (key x))
                (All-append (λ y. passed key (some (key x)) y ≡ true) before (take n items)
                  (before_end n before items sorted last) up')
                above' (subst Sorted (sym (regroup n before items)) sorted)
                (shorter (drop n items) (length-drop n items) (clamp_limit_pos limit) high)))
      where
        n : ℕ
        n = clamp_limit limit

        shorter :
            (xs : List T) {m : ℕ}
            → length xs ≡ length items - m
            → 1 ≤ m
            → m < length items
            → length xs ≤ fuel
        shorter xs e low high = omega arith

    -- When the items are strictly sorted by their keys and the codec decodes every cursor it
    -- encodes, none of them empty, then following the cursors from the first page on, with more
    -- fuel than there are items, reads every item once and in order, whatever the limit of a
    -- page.
    pub follow-all :
        (items : List T)
        → Sorted items
        → follow (suc (length items)) codec limit none items ≡ ok items
    follow-all items sorted =
        follow_from (length items) none none [] items refl tt (all_behind items) sorted
          (omega arith)
      where
        all_behind : (xs : List T) → All (λ x. passed key none x ≡ false) xs
        all_behind [] = tt
        all_behind (x ∷ xs) = (refl, all_behind xs)
