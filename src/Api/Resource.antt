-- ===== src/Api/Resource.antt =====
-- Messages of packages/api/src/gen/kdelta/v1/resource_pb.ts.
use kdelta.Prelude.{ℕ, List, Option}
use kdelta.Text.{Text}
use kdelta.Ref.{ResourceRef}
use kdelta.Api.Common.{Link, PackageKey, Provenance}
use kdelta.Api.Version.{VersionSource}
use kdelta.Api.Changes.{ChangeSource}

pub record KubernetesObjectRef : Type 0 where
  pub api_version : Text
  pub kind : Text
  pub namespace : Text
  pub name : Text
  pub uid : Text

pub record Condition : Type 0 where
  pub type : Text
  pub status : ℕ
  pub reason : Text
  pub message : Text

pub record DetectedVersion : Type 0 where
  pub value : Text
  pub digest : Text
  pub provenance : Option Provenance

pub record VersionStream : Type 0 where
  pub id : Text
  pub kind : ℕ
  pub current : Option DetectedVersion
  pub constraint : Text
  pub scheme : ℕ
  pub source : Option VersionSource
  pub changes : List ChangeSource
  pub source_provenance : Option Provenance

pub record Resource : Type 0 where
  pub ref : Option ResourceRef
  pub display_name : Text
  pub upstream : Option PackageKey
  pub links : List Link
  pub streams : List VersionStream
  pub objects : List KubernetesObjectRef
  pub labels : List (Text × Text)
  pub conditions : List Condition
  pub provenance : Option Provenance

pub record ResourceEdge : Type 0 where
  pub parent : Option ResourceRef
  pub child : Option ResourceRef
  pub kind : ℕ
