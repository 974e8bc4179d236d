-- ===== src/Feed/Publish/Tests.antt =====
-- The theorems on the published records of feed/feed.go at concrete inputs.
use baldsky.Common.{Text, [], ◌∷◌, none, ok, ℕ, ◌+◌, length, codes, ◌≡◌}
use baldsky.Common.Utf8.{to_bytes}
use baldsky.Feed.Publish.{Pds, Facet, build_description}
use baldsky.Feed.Publish.Facets.{slice, build_description_lem}

build_description_lem_example :
    (full : Text) × (f : Facet) × (build_description
        (codes "Glatze")
        (codes "mehr")
        (codes "https://x")
      ≡ (full, f ∷ []))
    × (slice f full ≡ to_bytes (codes "mehr"))
    × (f.byte_end ≡ length (to_bytes full))
    × (f.link ≡ codes "https://x")
build_description_lem_example =
    build_description_lem (codes "Glatze") (codes "mehr") (codes "https://x") (λ e. cc)

-- A PDS that counts the changes of its records, and lets everyone in.
abbrev pub pds : Pds ℕ ℕ
pds = record {
  create_session = λ identifier password w. (ok 1, w);
  create_record = λ auth repo collection rkey r w. (ok rkey, w + 1);
  get_record = λ auth collection repo rkey w. (ok none, w);
  put_record = λ auth repo collection rkey swap r w. (ok rkey, w + 1);
  delete_record = λ auth repo collection rkey w. (none, w + 1);
}
