-- ===== src/Feed/Publish/Facets.antt =====
-- The facet of `BuildDescription` of feed/feed.go.
use baldsky.Common.{
  Text, List, [], ◌∷◌, ◌++◌, ℕ, ◌+◌, ◌-◌, length, take, drop, ◌≡◌, refl, ◌≢◌, ◌∙◌, ap, sym, arith,
  append_assoc, length-append,
}
use baldsky.Common.Utf8.{to_bytes, rune_bytes}
use baldsky.Feed.Publish.{Facet, newlines, build_description}

to_bytes-append : (s t : Text) → to_bytes (s ++ t) ≡ to_bytes s ++ to_bytes t
unfolding to_bytes
to_bytes-append [] t = refl
to_bytes-append (c ∷ s) t =
    ap (λ l. rune_bytes c ++ l) (to_bytes-append s t)
    ∙ sym (append_assoc (rune_bytes c) (to_bytes s) (to_bytes t))

-- A slice behind a prefix.
drop-append : (xs ys : List ℕ) → drop (length xs) (xs ++ ys) ≡ ys
drop-append [] ys = refl
drop-append (x ∷ xs) ys = drop-append xs ys

take_whole : (xs : List ℕ) → take (length xs) xs ≡ xs
take_whole [] = refl
take_whole (x ∷ xs) = ap (λ l. x ∷ l) (take_whole xs)

-- The bytes that a facet marks in a text.
abbrev pub slice : Facet → Text → List ℕ
slice f s = take (f.byte_end - f.byte_start) (drop f.byte_start (to_bytes s))

-- With a link, the one facet of a description links to the link's URL, ends where the description
-- ends, and marks, in the bytes of the whole text, exactly the bytes of the label.
pub build_description_lem :
    (description link_label link_url : Text)
    → link_url ≢ []
    → (full : Text) × (f : Facet) × (build_description description link_label link_url
        ≡ (full, f ∷ []))
      × (slice f full ≡ to_bytes link_label)
      × (f.byte_end ≡ length (to_bytes full))
      × (f.link ≡ link_url)
unfolding build_description
build_description_lem description link_label [] h = absurd (h refl)
build_description_lem description link_label (x ∷ url) h =
    let start = length (to_bytes (description ++ newlines)) in
    let split_bytes =
      ap to_bytes (sym (append_assoc description newlines link_label))
      ∙ to_bytes-append (description ++ newlines) link_label in
    let span : start + length (to_bytes link_label) - start ≡ length (to_bytes link_label) =
      omega arith in
    (
      description ++ (newlines ++ link_label),
      record {
        byte_start = start;
        byte_end = start + length (to_bytes link_label);
        link = x ∷ url;
      },
      refl,
      rw (span, split_bytes, drop-append (to_bytes (description ++ newlines)) (to_bytes link_label))
          (take_whole (to_bytes link_label)),
      rw split_bytes
          (sym (length-append (to_bytes (description ++ newlines)) (to_bytes link_label))),
      refl,
    )
