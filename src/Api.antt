-- ===== src/Api.antt =====
-- The messages of packages/api/src/gen/kdelta/v1 that the UI reads: one record to a message, with
-- the fields of the generated type. Left out are the fields that hold a timestamp or a fraction,
-- which the UI never reads. A value of a generated enum is a number, as it is at run time, where a
-- newer server may send one that has no name.
pub mod Common
pub mod Resource
pub mod Version
pub mod Changes
pub mod Impact
pub mod Service
pub mod Enum
pub mod LinkKind
pub mod ChangeType
pub mod ImpactSeverity
pub mod ConditionStatus
pub mod VersionKind
pub mod VersioningScheme
pub mod VersionRangeEventKind
pub mod ProvenanceMethod
pub mod ActionKind
pub mod EdgeKind
pub mod Methods
