-- ===== src/Api/Service.antt =====
-- Requests, responses and stream events of packages/api/src/gen/kdelta/v1/service_pb.ts.
use kdelta.Prelude.{ℕ, List, Option}
use kdelta.Text.{Text}
use kdelta.Ref.{ResourceRef}
use kdelta.Api.Resource.{Resource, ResourceEdge}
use kdelta.Api.Version.{Version}
use kdelta.Api.Changes.{ChangeSet, VersionChanges}
use kdelta.Api.Impact.{ImpactAssessment}

pub record EchoRequest : Type 0 where
  pub message : Text

pub record EchoResponse : Type 0 where
  pub message : Text

pub record ListResourcesRequest : Type 0 where
  pub page_size : ℕ
  pub page_token : Text
  pub selector : Text

pub record ListResourcesResponse : Type 0 where
  pub resources : List Resource
  pub next_page_token : Text

pub record ListVersionsRequest : Type 0 where
  pub ref : Option ResourceRef
  pub stream_id : Text

pub record ListVersionsResponse : Type 0 where
  pub versions : List Version
  pub current : Text
  pub latest : Text
  pub versions_behind : ℕ

-- The fields that the UI sets in `GetChangesRequest` and in `AssessImpactRequest` alike.
pub record RangeInput : Type 0 where
  pub ref : Option ResourceRef
  pub stream_id : Text
  pub from_version : Text
  pub to_version : Text

pub record Progress : Type 0 where
  pub stage : Text
  pub message : Text

pub record GetResourceRequest : Type 0 where
  pub ref : Option ResourceRef

pub record GetResourceResponse : Type 0 where
  pub resource : Option Resource
  pub edges : List ResourceEdge

pub record ScanRequest : Type 0 where
  pub namespaces : List Text
  pub selector : Text
  pub detectors : List Text

pub record ScanResponse : Type 0 where
  pub resources : List Resource
  pub edges : List ResourceEdge

-- `AssessImpactRequest`: the fields of a range, and a change set where the client has one.
pub record AssessImpactRequest : Type 0 where
  pub range : RangeInput
  pub change_set : Option ChangeSet

-- The oneof `event` of the two responses that come as streams; `unset` where `case` is undefined.
pub data GetChangesResponse : Type 0 where
  progress : Progress → GetChangesResponse
  result : ChangeSet → GetChangesResponse
  partial : VersionChanges → GetChangesResponse
  unset : GetChangesResponse

pub data AssessImpactResponse : Type 0 where
  progress : Progress → AssessImpactResponse
  result : ImpactAssessment → AssessImpactResponse
  unset : AssessImpactResponse
