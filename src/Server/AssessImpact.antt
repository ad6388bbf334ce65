-- ===== src/Server/AssessImpact.antt =====
-- internal/server/impact.go and scanForImpact of versions.go. The agent that assesses is a parameter
-- beside that of Changes; so is whether a view of the cluster can be opened.
pub mod Rows
pub mod Kept
use kdelta.Prelude.{
  ℕ, Bool, true, false, List, [], ◌∷◌, ◌++◌, Option, none, some, ◌⊎◌, inl, inr, ◌>>=◌, map,
  if◌then◌else◌,
}
use kdelta.Text.{Text, js, truthy}
use kdelta.Query.{RpcError, connect_error, other_error, Codes}
use kdelta.Ref.{ResourceRef}
use kdelta.Api.Changes.{ChangeSet}
use kdelta.Api.Impact.{ImpactAssessment}
use kdelta.Api.Resource.{Resource, VersionStream}
use kdelta.Api.Service.{
  ScanResponse, Progress, GetChangesResponse, AssessImpactRequest, AssessImpactResponse, RangeInput,
}
use kdelta.Server.{Answer}
use kdelta.Server.Store.{Store, latest_scan, impact, put_impact}
use kdelta.Server.Vers.{Semver}
use kdelta.Server.Scan.{resource_stream}
use kdelta.Server.Versions.{Upstream}
use kdelta.Server.Changes.{Agent}
use kdelta.Server.GetChanges.{resolve_change_set}

-- `agent.AssessRequest`, without its callback; `cluster` says whether there is a view of it.
pub record AssessRequest : Type 0 where
  pub target : Option ResourceRef
  pub stream_id : Text
  pub change_set : ChangeSet
  pub inventory : ScanResponse
  pub cluster : Bool

pub data Assessment : Type 0 where
  assessed : ImpactAssessment → Assessment
  no_credentials : Text → Assessment
  failed : RpcError → Assessment

-- `agent.Runner`
pub record Runner : Type 0 where
  pub extraction : Agent
  pub assess : AssessRequest → List Progress × Assessment

-- The events of a stream, the error that ends it, if one does, and the cache that is left.
pub record Assessing : Type 0 where
  pub events : List AssessImpactResponse
  pub error : Option RpcError
  pub store : Option Store

unfoldable pub stopped : List AssessImpactResponse → RpcError → Option Store → Assessing
stopped sent e store = record { events = sent; error = some e; store = store }

unfoldable pub sent_result : List AssessImpactResponse → ImpactAssessment → Store → Assessing
sent_result sent a s = record {
  events = sent ++ (AssessImpactResponse.result a ∷ []);
  error = none;
  store = some s;
}

abbrev pub told : Text → Text → AssessImpactResponse
told stage message = AssessImpactResponse.progress (record { stage = stage; message = message })

-- What was sent while the change set was resolved: there is progress alone.
unfoldable pub progress_only : List GetChangesResponse → List AssessImpactResponse
progress_only [] = []
progress_only (GetChangesResponse.progress p ∷ es) =
    AssessImpactResponse.progress p ∷ progress_only es
progress_only (e ∷ es) = progress_only es

-- The identity fields are the server's.
abbrev pub identified : Option ResourceRef → Text → ChangeSet → ImpactAssessment → ImpactAssessment
identified target stream_id set a = record a {
  target = target;
  stream_id = stream_id;
  from_version = set.from_version;
  to_version = set.to_version;
}

module _ (code : Codes) (runner : Runner) (cluster : Bool) (target : Option ResourceRef)
    (stream_id : Text) where
  -- `s.store.PutImpact`, and the result
  unfoldable pub put_result :
      List AssessImpactResponse → ImpactAssessment → Store → Option Store → Assessing
  unfolding stopped sent_result
  put_result sent a s none = stopped sent (other_error []) (some s)
  put_result sent a s (some t) = sent_result sent a t

  unfoldable pub finish : ℕ → ChangeSet → Store → List AssessImpactResponse → Assessment → Assessing
  unfolding stopped put_result put_impact
  finish id set s sent (no_credentials text) =
      stopped sent (connect_error code.failed_precondition text) (some s)
  finish id set s sent (failed e) = stopped sent e (some s)
  finish id set s sent (assessed a) =
      put_result sent (identified target stream_id set a) s
        (put_impact id (identified target stream_id set a) s)

  unfoldable pub run_agent :
      ℕ → ScanResponse → ChangeSet → Store → List AssessImpactResponse → Assessing
  unfolding finish js
  run_agent id inventory set s sent =
      let r = runner.assess (record {
        target = target;
        stream_id = stream_id;
        change_set = set;
        inventory = inventory;
        cluster = cluster;
      }) in
      let note =
        if cluster
        then []
        else told (js "assessing") (js "no cluster connection - assessing from the inventory alone")
          ∷ [] in
      finish id set s (sent ++ (note ++ map AssessImpactResponse.progress r.0)) r.1

  -- the assessment that is cached, or else the agent's
  unfoldable pub cached_or_assess :
      ℕ
      → ScanResponse
      → ChangeSet
      → Store
      → List AssessImpactResponse
      → Option ImpactAssessment
      → Assessing
  unfolding run_agent sent_result js
  cached_or_assess id inventory set s sent none = run_agent id inventory set s sent
  cached_or_assess id inventory set s sent (some a) =
      sent_result
        (sent
          ++ (told (js "cache") (js "serving the cached assessment (re-scan to invalidate)") ∷ []))
        a s

  -- `scanForImpact` and what follows it
  unfoldable pub with_scan :
      ChangeSet → Store → List AssessImpactResponse → Option (ℕ × ScanResponse) → Assessing
  unfolding stopped cached_or_assess impact js
  with_scan set s sent none =
      stopped sent
        (connect_error code.failed_precondition (js "no scan cached yet - run a scan first"))
        (some s)
  with_scan set s sent (some (id, inventory)) =
      cached_or_assess id inventory set s sent
        (impact target stream_id set.from_version set.to_version s)

  unfoldable pub with_store : ChangeSet → List AssessImpactResponse → Option Store → Assessing
  unfolding stopped with_scan latest_scan js
  with_store set sent none =
      stopped sent
        (connect_error code.failed_precondition (js "no cache is configured on this server")) none
  with_store set sent (some s) = with_scan set s sent (latest_scan s)

  unfoldable pub with_set : List AssessImpactResponse → Answer ChangeSet → Option Store → Assessing
  unfolding stopped with_store
  with_set sent (inl e) store = stopped sent e store
  with_set sent (inr set) store = with_store set sent store

-- The stream that is assessed: the first of the resource where no id is given.
unfoldable pub first_stream : Answer (Resource × VersionStream) → Text
first_stream (inl e) = []
first_stream (inr (r, s)) = s.id

module _ (semver : Semver) (trim : Text → Text) (parse_url : Text → Option (Text × Text))
    (code : Codes) (upstream : Option Upstream) (cluster : Bool) where
  -- The change set: the client's, or the one of the range.
  unfoldable pub assess_set :
      Runner → Text → ℕ → ℕ → Option Store → RangeInput → Option ChangeSet → Assessing
  unfolding with_set resolve_change_set progress_only
  assess_set runner stream_id asked stored store range (some set) =
      with_set code runner cluster range.ref stream_id [] (inr set) store
  assess_set runner stream_id asked stored store range none =
      let r =
        resolve_change_set semver trim parse_url code upstream (some runner.extraction) false asked
          stored store range.ref stream_id range.from_version range.to_version in
      with_set code runner cluster range.ref stream_id (progress_only r.sent) r.answer r.store

  -- `AssessImpact`
  unfoldable pub assess_impact :
      Option Runner → ℕ → ℕ → Option Store → AssessImpactRequest → Assessing
  unfolding stopped assess_set first_stream resource_stream js
  assess_impact none asked stored store req =
      stopped []
        (connect_error code.failed_precondition
          (js "impact assessment requires the agent runner; this server was built without one"))
        store
  assess_impact (some runner) asked stored store req =
      let id = req.range.stream_id in
      let stream_id =
        if truthy id then id else first_stream (resource_stream code store req.range.ref []) in
      assess_set runner stream_id asked stored store req.range req.change_set
