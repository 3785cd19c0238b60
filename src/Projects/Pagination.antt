-- ===== src/Projects/Pagination.antt =====
-- Cursor pagination (modules/projects/application/pagination.py). The codec of the cursors is an
-- argument, which stands for the codec at the caller's scope, and so is the key of an item: its
-- sort key and its tie breaker.
pub mod Following
pub mod Tests
use biaice.Common.{
  ℕ, zero, suc, ℤ, pos, negsuc, Bool, true, false, not, ◌&&◌, Option, none, some, List, [], ◌∷◌,
  ◌++◌, Text, text_eq, text_ltb, ltb, last?, is_empty, if◌then◌else◌,
}
use biaice.Core.Errors.{Failure, stable, Result, ok, err, ◌>>=◌, ◌>>◌}
use biaice.Core.Errors.Code.{invalid_cursor}

abbrev default_page_size : ℕ
default_page_size = 50

abbrev max_page_size : ℕ
max_page_size = 100

unfoldable pub clamp_limit : Option ℤ → ℕ
clamp_limit none = default_page_size
clamp_limit (some (negsuc n)) = 1
clamp_limit (some (pos n)) = if ltb n 1 then 1 else if ltb max_page_size n then max_page_size else n

abbrev pub Key : Type 0
Key = Text × Text

-- `a <= b` of two pairs
abbrev pub leb_key : Key → Key → Bool
leb_key (a, c) (b, d) = if text_eq a b then not (text_ltb d c) else text_ltb a b

pub record CursorCodec : Type 0 where
  pub encode : Key → Text
  pub decode : Text → Result Key

module _ {T : Type 0} (key : T → Key) where
  abbrev pub passed : Option Key → T → Bool
  passed none x = false
  passed (some k) x = leb_key (key x) k

  -- The loop, with the room that is left on the page: the items of the page, and whether there
  -- are more.
  unfoldable pub collect : Option Key → ℕ → List T → List T × Bool
  collect start room [] = ([], false)
  collect start zero (x ∷ xs) =
      let rest = collect start zero xs in if passed start x then rest else ([], true)
  collect start (suc room) (x ∷ xs) =
      let skipped = collect start (suc room) xs in
      let taken = collect start room xs in
      if passed start x then skipped else (x ∷ taken.0, taken.1)

  abbrev pub cursor_after : Option CursorCodec → Option T → Option Text
  cursor_after none last = none
  cursor_after (some codec) none = none
  cursor_after (some codec) (some x) = some (codec.encode (key x))

  abbrev pub page_of : Option CursorCodec → List T × Bool → List T × Option Text × Bool
  page_of codec (selected, more) =
      (selected, if more then cursor_after codec (last? selected) else none, more)

  abbrev pub start_after : Option CursorCodec → Option Text → Result (Option Key)
  start_after codec none = ok none
  start_after none (some []) = ok none
  start_after (some codec) (some []) = ok none
  start_after none (some (c ∷ cs)) = err (stable invalid_cursor)
  start_after (some codec) (some (c ∷ cs)) = codec.decode (c ∷ cs) >>= λ k. ok (some k)

  -- The page, its next cursor and whether there is more.
  unfoldable pub paginate :
      List T → Option CursorCodec → Option Text → Option ℤ → Result (List T × Option Text × Bool)
  unfolding collect
  paginate items codec cursor limit = start_after codec cursor >>= λ start.
      ok (page_of codec (collect start (clamp_limit limit) items))
