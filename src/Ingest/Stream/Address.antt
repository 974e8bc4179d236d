-- ===== src/Ingest/Stream/Address.antt =====
-- `FirehoseURL` of atproto/atproto.go: the address that `Run` of firehose/firehose.go dials.
use baldsky.Common.{
  Text, Option, some, ℕ, zero, suc, ℤ, pos, negsuc, Result, ok, err, Error, codes, ◌≡◌, refl, ap,
  ◌∙◌, sym, arith,
}
use baldsky.Common.Decimal.{show}
use baldsky.Common.Shown.{show-injective}

-- The calls of `net/url`: `set_query` sets one value of the query and leaves the others.
pub record UrlPackage (U : Type 0) : Type 0 where
  pub parse : Text → Result Error U
  pub set_path : Text → U → U
  pub set_query : Text → Text → U → U
  pub to_string : U → Text

same_ok : {s t : Text} (r : Result Error Text) → r ≡ ok s → r ≡ ok t → s ≡ t
same_ok r h k = cc

same_some : {s t : Text} → some s ≡ some t → s ≡ t
same_some h = cc

module _ {U : Type 0} (url : UrlPackage U) where
  abbrev pub with_cursor : ℤ → U → U
  with_cursor (pos zero) u = u
  with_cursor (pos (suc n)) u = url.set_query (codes "cursor") (show (suc n)) u
  with_cursor (negsuc n) u = u

  abbrev pub address_of : ℤ → Result Error U → Result Error Text
  address_of cursor (err e) = err e
  address_of cursor (ok u) = ok (
      url.to_string
        (with_cursor cursor (url.set_path (codes "xrpc/com.atproto.sync.subscribeRepos") u)))

  unfoldable pub firehose_url : Text → ℤ → Result Error Text
  firehose_url service cursor = address_of cursor (url.parse service)

  -- What `net/url` documents of the query.
  pub record LawfulUrl : Type 0 where
    pub query : Text → Text → Option Text
    pub sets : (k v : Text) (u : U) → query (url.to_string (url.set_query k v u)) k ≡ some v

  -- Different positive cursors give different addresses, so that the relay can tell them apart.
  firehose_url-injective :
      (lawful : LawfulUrl) (service address : Text) (n m : ℕ)
      → firehose_url service (pos (suc n)) ≡ ok address
      → firehose_url service (pos (suc m)) ≡ ok address
      → n ≡ m
  unfolding firehose_url
  firehose_url-injective lawful service address n m h k = of_parsed (url.parse service) h k
    where
      of_parsed :
          (o : Result Error U)
          → address_of (pos (suc n)) o ≡ ok address
          → address_of (pos (suc m)) o ≡ ok address
          → n ≡ m
      of_parsed (err e) a b = cc
      of_parsed (ok u) a b =
          let v = url.set_path (codes "xrpc/com.atproto.sync.subscribeRepos") u in
          let to = url.to_string in
          let at_n : to (url.set_query (codes "cursor") (show (suc n)) v) ≡ address =
            same_ok _ refl a in
          let at_m : to (url.set_query (codes "cursor") (show (suc m)) v) ≡ address =
            same_ok _ refl b in
          let both : some (show (suc n)) ≡ some (show (suc m)) =
            sym (lawful.sets (codes "cursor") (show (suc n)) v)
            ∙ ap (λ t. lawful.query t (codes "cursor")) (at_n ∙ sym at_m)
            ∙ lawful.sets (codes "cursor") (show (suc m)) v in
          let same = show-injective (suc n) (suc m) (same_some both) in omega arith
