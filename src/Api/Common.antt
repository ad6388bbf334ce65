-- ===== src/Api/Common.antt =====
-- Messages of packages/api/src/gen/kdelta/v1/common_pb.ts.
use kdelta.Prelude.{ℕ}
use kdelta.Text.{Text}

pub record Link : Type 0 where
  pub kind : ℕ
  pub url : Text
  pub title : Text

pub record PackageKey : Type 0 where
  pub system : Text
  pub name : Text
  pub registry_url : Text

pub record Provenance : Type 0 where
  pub method : ℕ
  pub source_url : Text
  pub detector : Text
  pub model : Text
