-- ===== src/Api/Version.antt =====
-- Messages of packages/api/src/gen/kdelta/v1/version_pb.ts.
use kdelta.Prelude.{ℕ, Bool, List}
use kdelta.Text.{Text}
use kdelta.Api.Common.{Link}

pub record GitHubReleasesSource : Type 0 where
  pub owner : Text
  pub repo : Text
  pub tag_pattern : Text

pub record HelmRepositorySource : Type 0 where
  pub repository_url : Text
  pub chart : Text

pub record OciRegistrySource : Type 0 where
  pub reference : Text

pub record ContainerTagsSource : Type 0 where
  pub reference : Text
  pub tag_pattern : Text

pub record GitTagsSource : Type 0 where
  pub repository_url : Text
  pub tag_pattern : Text

-- The oneof `source` of `VersionSource`: one of the cases, or `unset`, where `case` is undefined.
pub data SourceCase : Type 0 where
  github_releases : GitHubReleasesSource → SourceCase
  helm_repository : HelmRepositorySource → SourceCase
  oci_registry : OciRegistrySource → SourceCase
  container_tags : ContainerTagsSource → SourceCase
  git_tags : GitTagsSource → SourceCase
  unset : SourceCase

pub record VersionSource : Type 0 where
  pub source : SourceCase

pub record Version : Type 0 where
  pub value : Text
  pub prerelease : Bool
  pub deprecated : Bool
  pub digest : Text
  pub links : List Link

pub record VersionRangeEvent : Type 0 where
  pub kind : ℕ
  pub version : Text

pub record VersionRange : Type 0 where
  pub scheme : ℕ
  pub events : List VersionRangeEvent
