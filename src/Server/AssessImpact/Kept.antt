-- ===== src/Server/AssessImpact/Kept.antt =====
-- `AssessImpact` of internal/server/impact.go twice: an assessment is kept in the cache, under the
-- scan that it was computed from.
use kdelta.Prelude.{
  ℕ, Bool, true, List, [], ◌∷◌, ◌++◌, Option, none, some, ◌≡◌, ◌⊎◌, refl, inl, inr, if◌then◌else◌,
  map,
}
use kdelta.Text.{Text, js, truthy}
use kdelta.Query.{Codes}
use kdelta.Api.Changes.{ChangeSet}
use kdelta.Api.Impact.{ImpactAssessment}
use kdelta.Api.Service.{ScanResponse, AssessImpactRequest, AssessImpactResponse}
use kdelta.Server.Store.{Store, change_set, latest_scan, impact}
use kdelta.Server.Store.Invalidation.{Write, written, written-IsCurrent}
use kdelta.Server.Scan.{resource_stream}
use kdelta.Server.GetChanges.{resolve_change_set}
use kdelta.Api.Resource.{Resource, VersionStream}
use kdelta.Server.Vers.{Semver}
use kdelta.Server.Versions.{Upstream}
use kdelta.Server.AssessImpact.{assessed, Runner, told, identified, assess_impact}
use kdelta.Server.AssessImpact.Rows.{with_impact, impact-put, resource_stream-with_impact}

-- The change set of a request: its own, or the one that is cached for its range, given by both ends
abbrev pub IsGiven : Codes → Store → AssessImpactRequest → ChangeSet → Type 0
IsGiven code s req set =
    (req.change_set ≡ some set)
    ⊎ ((req.change_set ≡ none)
        × ((resource : Resource) × (stream : VersionStream) × (resource_stream code (some s)
                req.range.ref req.range.stream_id
              ≡ inr (resource, stream))
            × (truthy req.range.from_version ≡ true)
            × (truthy req.range.to_version ≡ true)
            × (change_set resource.upstream stream.kind req.range.from_version req.range.to_version
                  s
                ≡ some set)))

-- What is said of a change set that is not the request's own
abbrev pub announced : Option ChangeSet → List AssessImpactResponse
announced none = told (js "cache") (js "serving the cached change set") ∷ []
announced (some set) = []

module _ (semver : Semver) (trim : Text → Text) (parse_url : Text → Option (Text × Text))
    (code : Codes) where
  given_again :
      (upstream upstream' : Option Upstream) (cluster cluster' : Bool) (runner runner' : Runner)
      (asked stored asked' stored' : ℕ) (ws : List Write) (req : AssessImpactRequest)
      (set : ChangeSet) (id : ℕ) (inventory : ScanResponse) (a : ImpactAssessment)
      → req.change_set ≡ some set
      → truthy req.range.stream_id ≡ true
      → latest_scan (written ws) ≡ some (id, inventory)
      → impact req.range.ref req.range.stream_id set.from_version set.to_version (written ws) ≡ none
      → (runner.assess (record {
        target = req.range.ref;
        stream_id = req.range.stream_id;
        change_set = set;
        inventory = inventory;
        cluster = cluster;
      })).1
        ≡ assessed a
      → let kept = identified req.range.ref req.range.stream_id set a in
        let first =
          assess_impact semver trim parse_url code upstream cluster
            (some runner)
            asked
            stored
            (some (written ws))
            req in
        (t : Store) × ((sent : List AssessImpactResponse) × (first ≡ record {
          events = sent ++ (AssessImpactResponse.result kept ∷ []);
          error = none;
          store = some t;
        }))
        × (assess_impact semver trim parse_url code upstream' cluster'
              (some runner')
              asked'
              stored'
              (some t)
              req
            ≡ record {
              events =
                  announced req.change_set
                  ++ (told (js "cache") (js "serving the cached assessment (re-scan to invalidate)")
                      ∷ AssessImpactResponse.result kept
                      ∷ []);
              error = none;
              store = some t;
            })
  unfolding assess_impact
  given_again upstream upstream' cluster cluster' runner runner' asked stored asked' stored' ws req
        set id inventory a given streamed latest missing answered =
      let kept = identified req.range.ref req.range.stream_id set a in
      let put = impact-put (written ws) id inventory kept (written-IsCurrent ws) latest in
      (
        with_impact id kept (written ws),
        (
          (if cluster
                then []
                else told (js "assessing")
                    (js "no cluster connection - assessing from the inventory alone")
                  ∷ [])
              ++ map AssessImpactResponse.progress
                  (runner.assess (record {
                    target = req.range.ref;
                    stream_id = req.range.stream_id;
                    change_set = set;
                    inventory = inventory;
                    cluster = cluster;
                  })).0,
          rw (given, streamed, latest, missing, answered, put.0) refl,
        ),
        rw (given, streamed, latest, put.1) refl,
      )

  cached_again :
      (upstream upstream' : Option Upstream) (cluster cluster' : Bool) (runner runner' : Runner)
      (asked stored asked' stored' : ℕ) (ws : List Write) (req : AssessImpactRequest)
      (resource : Resource) (stream : VersionStream) (set : ChangeSet) (id : ℕ)
      (inventory : ScanResponse) (a : ImpactAssessment)
      → req.change_set ≡ none
      → resource_stream code (some (written ws)) req.range.ref req.range.stream_id
        ≡ inr (resource, stream)
      → truthy req.range.from_version ≡ true
      → truthy req.range.to_version ≡ true
      → change_set resource.upstream stream.kind req.range.from_version req.range.to_version
          (written ws)
        ≡ some set
      → truthy req.range.stream_id ≡ true
      → latest_scan (written ws) ≡ some (id, inventory)
      → impact req.range.ref req.range.stream_id set.from_version set.to_version (written ws) ≡ none
      → (runner.assess (record {
        target = req.range.ref;
        stream_id = req.range.stream_id;
        change_set = set;
        inventory = inventory;
        cluster = cluster;
      })).1
        ≡ assessed a
      → let kept = identified req.range.ref req.range.stream_id set a in
        let first =
          assess_impact semver trim parse_url code upstream cluster
            (some runner)
            asked
            stored
            (some (written ws))
            req in
        (t : Store) × ((sent : List AssessImpactResponse) × (first ≡ record {
          events = sent ++ (AssessImpactResponse.result kept ∷ []);
          error = none;
          store = some t;
        }))
        × (assess_impact semver trim parse_url code upstream' cluster'
              (some runner')
              asked'
              stored'
              (some t)
              req
            ≡ record {
              events =
                  announced req.change_set
                  ++ (told (js "cache") (js "serving the cached assessment (re-scan to invalidate)")
                      ∷ AssessImpactResponse.result kept
                      ∷ []);
              error = none;
              store = some t;
            })
  unfolding assess_impact resolve_change_set
  cached_again upstream upstream' cluster cluster' runner runner' asked stored asked' stored' ws req
        resource stream set id inventory a given found from to known streamed latest missing
        answered =
      let kept = identified req.range.ref req.range.stream_id set a in
      let put = impact-put (written ws) id inventory kept (written-IsCurrent ws) latest in
      (
        with_impact id kept (written ws),
        (
          told (js "cache") (js "serving the cached change set")
                ∷ (if cluster
                    then []
                    else told (js "assessing")
                        (js "no cluster connection - assessing from the inventory alone")
                      ∷ [])
              ++ map AssessImpactResponse.progress
                  (runner.assess (record {
                    target = req.range.ref;
                    stream_id = req.range.stream_id;
                    change_set = set;
                    inventory = inventory;
                    cluster = cluster;
                  })).0,
          rw (given, streamed, found, from, to, known, from, latest, missing, answered, put.0) refl,
        ),
        rw
            (
              given,
              streamed,
              resource_stream-with_impact code id kept (written ws) req.range.ref
                  req.range.stream_id,
              found,
              from,
              to,
              known,
              from,
              latest,
              put.1,
            )
            refl,
      )

  -- Whatever was written before, and where the change set is the client's or the one that is cached for
  -- the request's range: an assessment of it that was not there is kept. The stream ends with the
  -- agent's assessment under the fields of the request. The same request, with an id of a stream, sent
  -- next on the cache that is left, is answered from it: with progress alone and then the same
  -- assessment, whatever the agent and upstream say by then, and the cache stays as it is.
  pub assess_impact-again :
      (upstream upstream' : Option Upstream) (cluster cluster' : Bool) (runner runner' : Runner)
      (asked stored asked' stored' : ℕ) (ws : List Write) (req : AssessImpactRequest)
      (set : ChangeSet) (id : ℕ) (inventory : ScanResponse) (a : ImpactAssessment)
      → IsGiven code (written ws) req set
      → truthy req.range.stream_id ≡ true
      → latest_scan (written ws) ≡ some (id, inventory)
      → impact req.range.ref req.range.stream_id set.from_version set.to_version (written ws) ≡ none
      → (runner.assess (record {
        target = req.range.ref;
        stream_id = req.range.stream_id;
        change_set = set;
        inventory = inventory;
        cluster = cluster;
      })).1
        ≡ assessed a
      → let kept = identified req.range.ref req.range.stream_id set a in
        let first =
          assess_impact semver trim parse_url code upstream cluster
            (some runner)
            asked
            stored
            (some (written ws))
            req in
        (t : Store) × ((sent : List AssessImpactResponse) × (first ≡ record {
          events = sent ++ (AssessImpactResponse.result kept ∷ []);
          error = none;
          store = some t;
        }))
        × (assess_impact semver trim parse_url code upstream' cluster'
              (some runner')
              asked'
              stored'
              (some t)
              req
            ≡ record {
              events =
                  announced req.change_set
                  ++ (told (js "cache") (js "serving the cached assessment (re-scan to invalidate)")
                      ∷ AssessImpactResponse.result kept
                      ∷ []);
              error = none;
              store = some t;
            })
  assess_impact-again upstream upstream' cluster cluster' runner runner' asked stored asked' stored'
        ws req set id inventory a (inl given) streamed latest missing answered =
      given_again upstream upstream' cluster cluster' runner runner' asked stored asked' stored' ws
        req set id inventory a given streamed latest missing answered
  assess_impact-again upstream upstream' cluster cluster' runner runner' asked stored asked' stored'
        ws req set id inventory a (inr (given, (resource, stream, found, from, to, known))) streamed
        latest missing answered =
      cached_again upstream upstream' cluster cluster' runner runner' asked stored asked' stored' ws
        req resource stream set id inventory a given found from to known streamed latest missing
        answered
