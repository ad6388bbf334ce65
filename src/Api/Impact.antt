-- ===== src/Api/Impact.antt =====
-- Messages of packages/api/src/gen/kdelta/v1/impact_pb.ts.
use kdelta.Prelude.{ℕ, Bool, List, Option}
use kdelta.Text.{Text}
use kdelta.Ref.{ResourceRef}
use kdelta.Api.Common.{Link, Provenance}
use kdelta.Api.Resource.{KubernetesObjectRef}

pub record ChangeEvidence : Type 0 where
  pub version : Text
  pub type : ℕ
  pub summary : Text
  pub affected_paths : List Text
  pub references : List Link

pub record RecommendedAction : Type 0 where
  pub kind : ℕ
  pub description : Text
  pub command : Text
  pub before_upgrade : Bool

pub record ImpactFinding : Type 0 where
  pub severity : ℕ
  pub affected : Option ResourceRef
  pub title : Text
  pub rationale : Text
  pub evidence : List ChangeEvidence
  pub actions : List RecommendedAction

pub record InformationGap : Type 0 where
  pub description : Text
  pub suggestion : Text
  pub refs : List ResourceRef

pub record ResourceImpact : Type 0 where
  pub ref : Option ResourceRef
  pub objects : List KubernetesObjectRef
  pub severity : ℕ
  pub explanation : Text

pub record ImpactAssessment : Type 0 where
  pub target : Option ResourceRef
  pub stream_id : Text
  pub from_version : Text
  pub to_version : Text
  pub overall_severity : ℕ
  pub summary : Text
  pub resources : List ResourceImpact
  pub findings : List ImpactFinding
  pub gaps : List InformationGap
  pub provenance : Option Provenance
