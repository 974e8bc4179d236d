-- ===== src/Feed/Publish/Client.antt =====
-- The checks of the configuration with which `Publish`, `Update` and `Delete` of feed/feed.go start.
use baldsky.Common.{
  Text, List, [], ◌∷◌, none, false, Result, Error, ◌≡◌, ◌≢◌, is_empty, Bool-cases, inl, inr,
}
use baldsky.Feed.Service.{FeedEntry, Service}
use baldsky.Feed.Publish.{Pds, with_session, with_client}

filled : (t : Text) → is_empty t ≡ false → t ≢ []
filled [] k = cc
filled (c ∷ t) k = λ e. cc

-- Without an error, the service has a PDS and credentials, and the session and the loop returned
-- none.
pub with_client-with_session :
    {W Auth : Type 0} (pds : Pds W Auth) (s : Service)
    (operation : Auth → FeedEntry → W → Result Error Text × W) (w w' : W)
    (done : List (Text × Text))
    → with_client pds s operation w ≡ ((done, none), w')
    → ((s.pds ≢ []) × (s.publisher_identifier ≢ []) × (s.publisher_password ≢ []))
      × (with_session pds s operation
            (pds.create_session s.publisher_identifier s.publisher_password w)
          ≡ ((done, none), w'))
unfolding with_client
with_client-with_session pds s operation w w' done h = elim (Bool-cases (is_empty s.pds)) [
  | inl e ↦ let k = simp e at h in cc
  | inr e ↦ elim (Bool-cases (is_empty s.publisher_identifier)) [
    | inl f ↦ let k = simp (e, f) at h in cc
    | inr f ↦ elim (Bool-cases (is_empty s.publisher_password)) [
      | inl g ↦ let k = simp (e, f, g) at h in cc
      | inr g ↦ (
        (filled s.pds e, filled s.publisher_identifier f, filled s.publisher_password g),
        simp (e, f, g) at h,
      )
    ]
  ]
]
