-- ===== src/Tests/Assess.antt =====
-- An assessment on the small cluster, asked for twice.
use kdelta.Prelude.{inl, ◌++◌, true, false, [], ◌∷◌, ◌++◌, List, Option, none, some, ◌≡◌, refl}
use kdelta.Text.{Text, js, text_eq}
use kdelta.Api.Changes.{ChangeSet}
use kdelta.Api.Impact.{ImpactAssessment}
use kdelta.Api.Service.{AssessImpactRequest, AssessImpactResponse}
use kdelta.Server.Table.{same_key}
use kdelta.Server.Store.{Store, latest_scan, impact}
use kdelta.Server.Store.Invalidation.{Write, scanned, written}
use kdelta.Server.Changes.{Extraction}
use kdelta.Server.AssessImpact.{Runner, Assessment, told, identified, assess_impact}
use kdelta.Server.AssessImpact.Kept.{announced, assess_impact-again}
use kdelta.Tests.Cluster.{codes, node, second_scan, before, assessment, by_length, trim, upstream}

abbrev parse_url : Text → Option (Text × Text)
parse_url u = none

abbrev scanned_twice : List Write
scanned_twice = scanned second_scan ∷ before

abbrev proposed : ChangeSet
proposed = record {
  package_key = none;
  kind = 1;
  from_version = b'1' ∷ [];
  to_version = b'2' ∷ [];
  versions = [];
  migration_guides = [];
}

abbrev request : AssessImpactRequest
request = record {
  range = record { ref = some node; stream_id = b's' ∷ []; from_version = []; to_version = [] };
  change_set = some proposed;
}

-- An agent that gives the same assessment for everything.
abbrev runner : Runner
runner = record {
  extraction = record { extract_changes = λ key notes. ([], Extraction.no_credentials) };
  assess = λ r. ([], Assessment.assessed assessment);
}

abbrev kept : ImpactAssessment
kept = identified (some node) (b's' ∷ []) proposed assessment

latest : latest_scan (written scanned_twice) ≡ some (2, second_scan)
unfolding latest_scan written same_key text_eq
latest = refl

missing : impact (some node) (b's' ∷ []) (b'1' ∷ []) (b'2' ∷ []) (written scanned_twice) ≡ none
unfolding impact written same_key text_eq
missing = refl

assess_impact-again_example :
    (t : Store) × ((sent : List AssessImpactResponse) × (assess_impact by_length trim parse_url
          codes
          (some upstream)
          false
          (some runner)
          0
          0
          (some (written scanned_twice))
          request
        ≡ record {
          events = sent ++ (AssessImpactResponse.result kept ∷ []);
          error = none;
          store = some t;
        }))
    × (assess_impact by_length trim parse_url codes none true (some runner) 1 1 (some t) request
        ≡ record {
          events =
              announced request.change_set
              ++ (told (js "cache") (js "serving the cached assessment (re-scan to invalidate)")
                  ∷ AssessImpactResponse.result kept
                  ∷ []);
          error = none;
          store = some t;
        })
assess_impact-again_example =
    assess_impact-again by_length trim parse_url codes (some upstream) none false true runner runner
      0 0 1 1 scanned_twice request proposed 2 second_scan assessment (inl refl) refl latest missing
      refl
