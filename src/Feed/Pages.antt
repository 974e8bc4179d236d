-- ===== src/Feed/Pages.antt =====
-- One page of `GetFeedPage` (feed/feed.go): its limit, its response and the cursor that it carries.
use baldsky.Common.{
  Text, List, [], ◌∷◌, ◌++◌, none, some, false, is_empty, ◌≡◌, refl, ◌≢◌, ◌∙◌, ap, sym, ok, ℕ, zero,
  suc, ◌+◌, ◌<◌, ◌≤◌, ltb, map, length, take, arith, NoColons, append_assoc, map-append,
  length-take, length-append, lt→ltb,
}
use baldsky.Db.Tables.{PostRow}
use baldsky.Feed.Cursor.{build_cursor, parse_cursor-build_cursor}
use baldsky.Feed.Skeleton.{page_limit, page_cursor, last_cursor, page_response}

-- A post whose cursor can be told apart: neither part is empty, and the time holds no "::".
abbrev pub HasCursor : PostRow → Type 0
HasCursor r = (r.indexed_at ≢ []) × (r.cid ≢ []) × NoColons r.indexed_at

-- The limit of a page lies between 1 and 100.
pub page_limit_bounds :
    (limit_str : Text) → (1 ≤ page_limit limit_str) × (page_limit limit_str ≤ 100)
unfolding page_limit
page_limit_bounds limit_str = ground arith

build_cursor-ne-nil : (at cid : Text) → is_empty (build_cursor at cid) ≡ false
unfolding build_cursor
build_cursor-ne-nil [] cid = refl
build_cursor-ne-nil (x ∷ at) cid = refl

pub page_cursor_built :
    (r : PostRow)
    → HasCursor r
    → page_cursor (build_cursor r.indexed_at r.cid) ≡ ok (some (r.indexed_at, r.cid))
unfolding page_cursor
page_cursor_built r (a, b, h) =
    rw build_cursor-ne-nil (rw (parse_cursor-build_cursor r.indexed_at r.cid a b h))

-- A full page ends with a post, behind which the rest follows.
pub record FullPage (limit : ℕ) (ys : List PostRow) : Type 0 where
  pub before : List PostRow
  pub last : PostRow
  pub rest : List PostRow
  pub splits : ys ≡ before ++ last ∷ rest
  pub page : take limit ys ≡ before ++ last ∷ []

pub full_page : (limit : ℕ) (ys : List PostRow) → 1 ≤ limit → limit ≤ length ys → FullPage limit ys
full_page zero ys p h = absurd (omega arith)
full_page (suc n) [] p h = absurd (omega arith)
full_page (suc zero) (y ∷ ys) p h = record {
  before = [];
  last = y;
  rest = ys;
  splits = refl;
  page = refl;
}
full_page (suc (suc n)) (y ∷ ys) p h =
    let f = full_page (suc n) ys (omega arith) (omega arith) in
    record {
      before = y ∷ f.before;
      last = f.last;
      rest = f.rest;
      splits = ap (λ t. y ∷ t) f.splits;
      page = ap (λ t. y ∷ t) f.page;
    }

pub take_all : (limit : ℕ) (ys : List PostRow) → length ys ≤ limit → take limit ys ≡ ys
take_all zero [] h = refl
take_all zero (y ∷ ys) h = absurd (omega arith)
take_all (suc n) [] h = refl
take_all (suc n) (y ∷ ys) h = ap (λ t. y ∷ t) (take_all n ys (omega arith))

last_cursor-append :
    (xs : List PostRow) (r : PostRow)
    → last_cursor (xs ++ r ∷ []) ≡ some (build_cursor r.indexed_at r.cid)
unfolding last_cursor
last_cursor-append [] r = refl
last_cursor-append (x ∷ []) r = refl
last_cursor-append (x ∷ y ∷ xs) r = last_cursor-append (y ∷ xs) r

abbrev pub uris : List PostRow → List Text
uris rows = map (λ r. r.uri) rows

-- A page that is not full is the last one.
pub response_short :
    (limit : ℕ) (ys : List PostRow)
    → length ys < limit
    → page_response limit (take limit ys) ≡ record { feed = uris ys; cursor = none }
unfolding page_response
response_short limit ys h = rw (take_all limit ys (omega arith), lt→ltb (length ys) limit h)

-- A full one carries the cursor of its last post.
pub response_full :
    (limit : ℕ) (ys : List PostRow) (f : FullPage limit ys)
    → limit ≤ length ys
    → page_response limit (take limit ys) ≡ record {
      feed = uris (f.before ++ f.last ∷ []);
      cursor = some (build_cursor f.last.indexed_at f.last.cid);
    }
unfolding page_response
response_full limit ys f h =
    let full : length (take limit ys) ≡ limit = omega (arith, length-take limit ys) in
    let test : ltb (length (take limit ys)) limit ≡ false = ground arith in
    rw (test, f.page, last_cursor-append f.before f.last)

pub uris_full :
    (limit : ℕ) (ys : List PostRow) (f : FullPage limit ys)
    → uris (f.before ++ f.last ∷ []) ++ uris f.rest ≡ uris ys
uris_full limit ys f =
    sym (map-append (λ r. r.uri) (f.before ++ f.last ∷ []) f.rest)
    ∙ ap uris (append_assoc f.before (f.last ∷ []) f.rest ∙ sym f.splits)

pub rest_shorter :
    (limit : ℕ) (ys : List PostRow) (f : FullPage limit ys) (fuel : ℕ)
    → length ys < suc fuel
    → length f.rest < fuel
rest_shorter limit ys f fuel h =
    let count : length ys ≡ length f.before + suc (length f.rest) =
      ap length f.splits ∙ length-append f.before (f.last ∷ f.rest) in
    omega arith
