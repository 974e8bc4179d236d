-- ===== src/Feed/Publish/Records.antt =====
-- What `Delete` of feed/feed.go returns, by way of the loop that it shares with `Publish` and
-- `Update`.
use baldsky.Common.{
  Text, List, [], ◌∷◌, Option, none, some, Result, ok, err, Error, ◌≡◌, ◌≢◌, refl, ap, text_eq,
  text_eq_iff, text_eq_refl, Bool-cases, inl, inr, All,
}
use baldsky.Cache.{put, find}
use baldsky.Cache.Laws.{find-put}
use baldsky.Feed.Service.{FeedEntry, FeedMap, Service, feed_generator_uri}
use baldsky.Feed.Publish.Client.{with_client-with_session}
use baldsky.Feed.Publish.{
  Pds, generator, each_feed, after_feed, with_session, delete_feed, deleted_uri, delete_all,
}

-- Each feed generator among the entries has its URI in the list.
abbrev pub Recorded : (Text → Text) → List (Text × Text) → FeedMap → Type 0
Recorded uri done feeds =
    All
      (λ e. e.1.collection_name ≡ generator → find e.1.short_name done ≡ some (uri e.1.short_name))
      feeds

module _ {W Auth : Type 0} (pds : Pds W Auth) (s : Service) (uri : Text → Text)
    (operation : FeedEntry → W → Result Error Text × W)
    (named : (entry : FeedEntry) (w w' : W) (u : Text)
      → operation entry w ≡ (ok u, w')
      → u ≡ uri entry.short_name) where
  -- What was in the list of the done feeds stays.
  abbrev Keeps : List (Text × Text) → List (Text × Text) → Type 0
  Keeps before after = (k : Text) → find k before ≡ some (uri k) → find k after ≡ some (uri k)

  find-put_uri :
      (name k : Text) (done : List (Text × Text))
      → find k done ≡ some (uri k)
      → find k (put name (uri name) done) ≡ some (uri k)
  find-put_uri name k done h = elim (Bool-cases (text_eq name k)) [
    | inl e ↦
        let same : name ≡ k = (text_eq_iff name k).0 e in
        rw (find-put, e) (ap (λ t. some (uri t)) same)
    | inr e ↦ rw (find-put, e) h
  ]

  after_feed_lem :
      (k : Text) (entry : FeedEntry) (feeds : FeedMap) (before after : List (Text × Text))
      (w w' : W)
      → ((done : List (Text × Text)) (v : W)
          → each_feed pds s operation feeds done v ≡ ((after, none), w')
          → Keeps done after × Recorded uri after feeds)
      → (o : Result Error Text × W) → operation entry w ≡ o
      → after_feed pds s (λ d v. each_feed pds s operation feeds d v) entry before o
        ≡ ((after, none), w')
      → Keeps before after × Recorded uri after ((k, entry) ∷ feeds)
  after_feed_lem k entry feeds before after w w' ih (err x, v) e h = cc
  after_feed_lem k entry feeds before after w w' ih (ok u, v) e h =
      let same = named entry w v u e in
      let (keeps, rest) =
        ih (put entry.short_name (uri entry.short_name) before) v (rw (← same) h) in
      (
        λ j f. keeps j (find-put_uri entry.short_name j before f),
        (λ g. keeps entry.short_name (rw (find-put, text_eq_refl)), rest),
      )

  each_feed_lem :
      (feeds : FeedMap) (before after : List (Text × Text)) (w w' : W)
      → each_feed pds s operation feeds before w ≡ ((after, none), w')
      → Keeps before after × Recorded uri after feeds
  unfolding each_feed
  each_feed_lem [] before after w w' h =
      let same : before ≡ after = cc in (λ k e. rw (← same) e, tt)
  each_feed_lem ((k, entry) ∷ feeds) before after w w' h =
      elim (Bool-cases (text_eq entry.collection_name generator)) [
        | inr other ↦
            let (keeps, rest) = each_feed_lem feeds before after w w' (simp other at h) in
            (keeps, (λ e. let f = (text_eq_iff entry.collection_name generator).1 e in cc, rest))
        | inl it_is ↦
            after_feed_lem k entry feeds before after w w'
              (λ done v r. each_feed_lem feeds done after v w' r) (operation entry w) refl
              (simp it_is at h)
      ]

module _ {W Auth : Type 0} (pds : Pds W Auth) (s : Service) where
  delete_feed_named :
      (auth : Auth) (entry : FeedEntry) (w w' : W) (u : Text)
      → delete_feed pds s auth entry w ≡ (ok u, w')
      → u ≡ feed_generator_uri s.publisher_did entry.short_name
  unfolding delete_feed
  delete_feed_named auth entry w w' u h =
      of_answer (pds.delete_record auth s.publisher_did entry.collection_name entry.short_name w) h
    where
      of_answer :
          (o : Option Error × W)
          → deleted_uri pds s (feed_generator_uri s.publisher_did entry.short_name) o ≡ (ok u, w')
          → u ≡ feed_generator_uri s.publisher_did entry.short_name
      of_answer (some e, v) k = cc
      of_answer (none, v) k = cc

  session_lem :
      (o : Result Error Auth × W) (done : List (Text × Text)) (w' : W)
      → with_session pds s (λ auth entry v. delete_feed pds s auth entry v) o ≡ ((done, none), w')
      → Recorded (feed_generator_uri s.publisher_did) done s.feeds
  session_lem (err e, w) done w' h = cc
  session_lem (ok auth, w) done w' h =
      (each_feed_lem pds s (feed_generator_uri s.publisher_did)
        (λ entry v. delete_feed pds s auth entry v) (delete_feed_named auth) s.feeds [] done w w'
        h).1

  -- If `Delete` returns no error, the service has a PDS, an identifier and a password, and what it
  -- returns has, under the name of each configured feed generator, the URI that the service
  -- advertises for it.
  pub delete_all-feed_generator_uri :
      (w w' : W) (done : List (Text × Text))
      → delete_all pds s w ≡ ((done, none), w')
      → ((s.pds ≢ []) × (s.publisher_identifier ≢ []) × (s.publisher_password ≢ []))
        × Recorded (feed_generator_uri s.publisher_did) done s.feeds
  unfolding delete_all
  delete_all-feed_generator_uri w w' done h =
      let (configured, k) =
        with_client-with_session pds s (λ auth entry v. delete_feed pds s auth entry v) w w' done
          h in
      (
        configured,
        session_lem (pds.create_session s.publisher_identifier s.publisher_password w) done w' k,
      )
