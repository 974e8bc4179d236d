-- ===== src/Feed/Cursor.antt =====
-- `parseCursor` and `buildCursor` of feed/feed.go.
use baldsky.Common.{
  Text, [], ◌∷◌, ◌++◌, Option, none, some, false, ◌||◌, cut, colons, cut_sound, cut-append,
  NoColons, is_empty, if◌then◌else◌, ◌≡◌, refl, ◌≢◌, inl, inr, Option-cases, sym,
}

-- The guards on the parts: there are two, and neither is empty.
abbrev valid_parts : Option (Text × Text) → Option (Text × Text)
valid_parts none = none
valid_parts (some (at, cid)) = if is_empty at || is_empty cid then none else some (at, cid)

-- The parts of `SplitN(cursor, "::", 2)`, when there are two and neither is empty.
unfoldable pub parse_cursor : Text → Option (Text × Text)
parse_cursor cursor = valid_parts (cut cursor colons)

unfoldable pub build_cursor : Text → Text → Text
build_cursor indexed_at cid = indexed_at ++ (colons ++ cid)

is_empty_ne : (s : Text) → s ≢ [] → is_empty s ≡ false
is_empty_ne [] h = absurd (h refl)
is_empty_ne (c ∷ s) h = refl

-- A cursor that was built from two texts that are not empty, the first of which holds no "::" and
-- does not end in ":", is parsed into the same two texts.
pub parse_cursor-build_cursor :
    (indexed_at cid : Text)
    → indexed_at ≢ []
    → cid ≢ []
    → NoColons indexed_at
    → parse_cursor (build_cursor indexed_at cid) ≡ some (indexed_at, cid)
unfolding parse_cursor build_cursor
parse_cursor-build_cursor indexed_at cid a b h =
    rw (cut-append indexed_at cid h) (rw (is_empty_ne indexed_at a, is_empty_ne cid b))

valid_parts_sound :
    (a b at cid : Text)
    → valid_parts (some (a, b)) ≡ some (at, cid)
    → (a ≡ at) × (b ≡ cid) × (a ≢ []) × (b ≢ [])
valid_parts_sound [] b at cid h = cc
valid_parts_sound (c ∷ a) [] at cid h = cc
valid_parts_sound (c ∷ a) (d ∷ b) at cid h = (cc, cc, λ e. cc, λ e. cc)

-- Whatever cursor is accepted is the one that its two parts build, and neither part is empty.
build_cursor-parse_cursor :
    (cursor indexed_at cid : Text)
    → parse_cursor cursor ≡ some (indexed_at, cid)
    → (build_cursor indexed_at cid ≡ cursor) × (indexed_at ≢ []) × (cid ≢ [])
unfolding parse_cursor build_cursor
build_cursor-parse_cursor cursor indexed_at cid h = elim (Option-cases (cut cursor colons)) [
  | inl e ↦ let k = rw e at h in cc
  | inr ((a, b), e) ↦
      let (p, q, r, t) = valid_parts_sound a b indexed_at cid (rw e at h) in
      (rw (← p, ← q) (sym (cut_sound cursor colons a b e)), rw (← p) r, rw (← q) t)
]
