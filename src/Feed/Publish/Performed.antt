-- ===== src/Feed/Publish/Performed.antt =====
-- The loop of `Publish`, `Update` and `Delete` of feed/feed.go over a PDS that does what it is asked.
use baldsky.Common.{
  Text, List, [], ◌∷◌, Option, none, some, true, Result, ok, err, Error, ◌≡◌, refl, text_eq,
  Bool-cases, inl, inr,
}
use baldsky.Cache.{put}
use baldsky.Feed.Entries.{Named}
use baldsky.Feed.Service.{FeedEntry, FeedMap, Service, feed_generator_uri}
use baldsky.Feed.Publish.{
  Pds, FeedGenerator, Published, generator, record_of, each_feed, after_feed, with_session,
  with_client, publish_feed, put_existing, update_feed, deleted_uri, delete_feed, publish, update,
  delete_all,
}
use baldsky.Feed.Publish.Client.{with_client-with_session}
use baldsky.Feed.Publish.Effects.{Changed, LawfulPds, Done, Done-nil, Done-other, Done-step}

module _ {W Auth : Type 0} (pds : Pds W Auth) (s : Service) (lawful : LawfulPds pds)
    (effect : FeedEntry → Option FeedGenerator) where
  -- An operation that returns no error has done to the record of its feed what is wanted.
  abbrev Does : (FeedEntry → W → Result Error Text × W) → Type 0
  Does operation =
      (entry : FeedEntry) (w w' : W) (uri : Text)
      → operation entry w ≡ (ok uri, w')
      → Changed s.publisher_did entry.collection_name entry.short_name (effect entry)
          (lawful.stored w) (lawful.stored w')

  abbrev AllDone : FeedMap → W → W → Type 0
  AllDone feeds w w' = Done s effect feeds (lawful.stored w) (lawful.stored w')

  after_feed_done :
      (operation : FeedEntry → W → Result Error Text × W) (k : Text) (entry : FeedEntry)
      (feeds : FeedMap) (before after : List (Text × Text)) (w w' : W)
      → Does operation
      → Named ((k, entry) ∷ feeds)
      → text_eq entry.collection_name generator ≡ true
      → ((done : List (Text × Text)) (v : W)
          → each_feed pds s operation feeds done v ≡ ((after, none), w')
          → AllDone feeds v w')
      → (o : Result Error Text × W) → operation entry w ≡ o
      → after_feed pds s (λ d v. each_feed pds s operation feeds d v) entry before o
        ≡ ((after, none), w')
      → AllDone ((k, entry) ∷ feeds) w w'
  after_feed_done operation k entry feeds before after w w' does named it_is ih (err x, v) e h = cc
  after_feed_done operation k entry feeds before after w w' does named it_is ih (ok uri, v) e h =
      Done-step s effect k entry feeds (lawful.stored w) (lawful.stored v) (lawful.stored w')
        named.0.0 it_is named.0.1 (does entry w v uri e) (ih (put entry.short_name uri before) v h)

  each_feed_done :
      (operation : FeedEntry → W → Result Error Text × W) (feeds : FeedMap)
      (before after : List (Text × Text)) (w w' : W)
      → Does operation
      → Named feeds
      → each_feed pds s operation feeds before w ≡ ((after, none), w')
      → AllDone feeds w w'
  unfolding each_feed
  each_feed_done operation [] before after w w' does named h =
      let same : w ≡ w' = cc in rw (← same) (Done-nil s effect (lawful.stored w))
  each_feed_done operation ((k, entry) ∷ feeds) before after w w' does named h =
      elim (Bool-cases (text_eq entry.collection_name generator)) [
        | inr other ↦
            Done-other s effect k entry feeds (lawful.stored w) (lawful.stored w') other named.0.1
              (each_feed_done operation feeds before after w w' does named.1 (simp other at h))
        | inl it_is ↦
            after_feed_done operation k entry feeds before after w w' does named it_is
              (λ done v r. each_feed_done operation feeds done after v w' does named.1 r)
              (operation entry w) refl (simp it_is at h)
      ]

  with_session_done :
      (operation : Auth → FeedEntry → W → Result Error Text × W) (done : List (Text × Text))
      (w w' : W)
      → ((auth : Auth) → Does (operation auth))
      → Named s.feeds
      → (o : Result Error Auth × W) → lawful.stored o.1 ≡ lawful.stored w
      → with_session pds s operation o ≡ ((done, none), w')
      → AllDone s.feeds w w'
  with_session_done operation done w w' does named (err x, v) keeps h = cc
  with_session_done operation done w w' does named (ok auth, v) keeps h =
      rw (← keeps) (each_feed_done (operation auth) s.feeds [] done v w' (does auth) named h)

  with_client_done :
      (operation : Auth → FeedEntry → W → Result Error Text × W) (done : List (Text × Text))
      (w w' : W)
      → ((auth : Auth) → Does (operation auth))
      → Named s.feeds
      → with_client pds s operation w ≡ ((done, none), w')
      → AllDone s.feeds w w'
  with_client_done operation done w w' does named h =
      with_session_done operation done w w' does named
        (pds.create_session s.publisher_identifier s.publisher_password w)
        (lawful.session_keeps s.publisher_identifier s.publisher_password w)
        (with_client-with_session pds s operation w w' done h).1

-- The three operations on the published feeds, and what each wants of the record of a feed.
pub data Verb : Type 0 where
  publishing : Verb
  updating : Verb
  deleting : Verb

module _ {W Auth : Type 0} (pds : Pds W Auth) (s : Service) where
  abbrev pub perform : Verb → (FeedEntry → Text) → W → Published × W
  perform publishing now w = publish pds s now w
  perform updating now w = update pds s now w
  perform deleting now w = delete_all pds s w

  abbrev pub effect_of : Verb → (FeedEntry → Text) → FeedEntry → Option FeedGenerator
  effect_of publishing now entry = some (record_of pds s (now entry) entry)
  effect_of updating now entry = some (record_of pds s (now entry) entry)
  effect_of deleting now entry = none

  publish_feed-Does :
      (lawful : LawfulPds pds) (now : FeedEntry → Text) (auth : Auth)
      → Does pds s lawful
          (effect_of publishing now)
          (λ entry v. publish_feed pds s (now entry) auth entry v)
  unfolding publish_feed
  publish_feed-Does lawful now auth entry w w' uri h =
      lawful.created auth s.publisher_did entry.collection_name entry.short_name
        (record_of pds s (now entry) entry) w w' uri h

  put_existing_does :
      (lawful : LawfulPds pds) (now : FeedEntry → Text) (auth : Auth) (entry : FeedEntry) (w w' : W)
      (uri : Text) (o : Result Error (Option Text) × W)
      → lawful.stored o.1 ≡ lawful.stored w
      → put_existing pds s (now entry) auth entry o ≡ (ok uri, w')
      → Changed s.publisher_did entry.collection_name entry.short_name
          (some (record_of pds s (now entry) entry))
          (lawful.stored w)
          (lawful.stored w')
  put_existing_does lawful now auth entry w w' uri (err e, v) keeps h = cc
  put_existing_does lawful now auth entry w w' uri (ok cid, v) keeps h = rw (← keeps) (
      lawful.replaced auth s.publisher_did entry.collection_name entry.short_name cid
        (record_of pds s (now entry) entry) v w' uri h)

  update_feed-Does :
      (lawful : LawfulPds pds) (now : FeedEntry → Text) (auth : Auth)
      → Does pds s lawful
          (effect_of updating now)
          (λ entry v. update_feed pds s (now entry) auth entry v)
  unfolding update_feed
  update_feed-Does lawful now auth entry w w' uri h =
      put_existing_does lawful now auth entry w w' uri
        (pds.get_record auth entry.collection_name s.publisher_did entry.short_name w)
        (lawful.get_keeps auth entry.collection_name s.publisher_did entry.short_name w) h

  deleted_uri_does :
      (lawful : LawfulPds pds) (entry : FeedEntry) (auth : Auth) (w w' : W) (uri advertised : Text)
      (o : Option Error × W)
      → pds.delete_record auth s.publisher_did entry.collection_name entry.short_name w ≡ o
      → deleted_uri pds s advertised o ≡ (ok uri, w')
      → Changed s.publisher_did entry.collection_name entry.short_name none
          (lawful.stored w)
          (lawful.stored w')
  deleted_uri_does lawful entry auth w w' uri advertised (some e, v) q h = cc
  deleted_uri_does lawful entry auth w w' uri advertised (none, v) q h =
      let same : v ≡ w' = cc in
      rw (← same) (lawful.removed auth s.publisher_did entry.collection_name entry.short_name w v q)

  delete_feed-Does :
      (lawful : LawfulPds pds) (now : FeedEntry → Text) (auth : Auth)
      → Does pds s lawful (effect_of deleting now) (λ entry v. delete_feed pds s auth entry v)
  unfolding delete_feed
  delete_feed-Does lawful now auth entry w w' uri h =
      deleted_uri_does lawful entry auth w w' uri
        (feed_generator_uri s.publisher_did entry.short_name)
        (pds.delete_record auth s.publisher_did entry.collection_name entry.short_name w) refl h

  pub perform-Done :
      (lawful : LawfulPds pds) (verb : Verb) (now : FeedEntry → Text) (w w' : W)
      (done : List (Text × Text))
      → Named s.feeds
      → perform verb now w ≡ ((done, none), w')
      → Done s (effect_of verb now) s.feeds (lawful.stored w) (lawful.stored w')
  unfolding publish update delete_all
  perform-Done lawful publishing now w w' done named h =
      with_client_done pds s lawful (effect_of publishing now)
        (λ auth entry v. publish_feed pds s (now entry) auth entry v) done w w'
        (λ auth. publish_feed-Does lawful now auth) named h
  perform-Done lawful updating now w w' done named h =
      with_client_done pds s lawful (effect_of updating now)
        (λ auth entry v. update_feed pds s (now entry) auth entry v) done w w'
        (λ auth. update_feed-Does lawful now auth) named h
  perform-Done lawful deleting now w w' done named h =
      with_client_done pds s lawful (effect_of deleting now)
        (λ auth entry v. delete_feed pds s auth entry v) done w w'
        (λ auth. delete_feed-Does lawful now auth) named h
