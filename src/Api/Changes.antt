-- ===== src/Api/Changes.antt =====
-- Messages of packages/api/src/gen/kdelta/v1/changes_pb.ts.
use kdelta.Prelude.{ℕ, List, Option}
use kdelta.Text.{Text}
use kdelta.Api.Common.{Link, PackageKey, Provenance}
use kdelta.Api.Version.{VersionRange}

pub record ReleaseNotesSource : Type 0 where
  pub repository_url : Text
  pub tag_pattern : Text

pub record ChangelogFileSource : Type 0 where
  pub repository_url : Text
  pub path : Text

pub record UrlTemplateSource : Type 0 where
  pub template : Text

pub record ChartAnnotationsSource : Type 0 where
  pub annotation : Text

pub record MigrationGuideSource : Type 0 where
  pub url : Text

pub record GitDiffSource : Type 0 where
  pub repository_url : Text

-- The oneof `source` of `ChangeSource`; `unset` where `case` is undefined.
pub data ChangeSourceCase : Type 0 where
  release_notes : ReleaseNotesSource → ChangeSourceCase
  changelog_file : ChangelogFileSource → ChangeSourceCase
  url_template : UrlTemplateSource → ChangeSourceCase
  chart_annotations : ChartAnnotationsSource → ChangeSourceCase
  migration_guide : MigrationGuideSource → ChangeSourceCase
  git_diff : GitDiffSource → ChangeSourceCase
  unset : ChangeSourceCase

pub record ChangeSource : Type 0 where
  pub source : ChangeSourceCase

pub record Change : Type 0 where
  pub type : ℕ
  pub summary : Text
  pub detail : Text
  pub affected_paths : List Text
  pub references : List Link

pub record VersionChanges : Type 0 where
  pub version : Text
  pub changes : List Change
  pub provenance : Option Provenance

pub record MigrationGuide : Type 0 where
  pub link : Option Link
  pub applies : Option VersionRange
  pub summary : Text
  pub provenance : Option Provenance

pub record ChangeSet : Type 0 where
  pub package_key : Option PackageKey
  pub kind : ℕ
  pub from_version : Text
  pub to_version : Text
  pub versions : List VersionChanges
  pub migration_guides : List MigrationGuide
