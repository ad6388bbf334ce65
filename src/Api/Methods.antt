-- ===== src/Api/Methods.antt =====
-- The service of packages/api/src/gen/kdelta/v1/service_pb.ts: its methods, with the messages that
-- they take and return, by name.
use kdelta.Prelude.{List, [], ◌∷◌, String}

pub data MethodKind : Type 0 where
  unary server_streaming : MethodKind

pub record MethodDesc : Type 0 where
  pub name : String
  pub kind : MethodKind
  pub input : String
  pub output : String

abbrev method : String → MethodKind → String → String → MethodDesc
method n k i o = record { name = n; kind = k; input = i; output = o }

-- `KdeltaService`
unfoldable pub kdelta_service : List MethodDesc
kdelta_service =
    method "echo" unary "EchoRequest" "EchoResponse"
    ∷ method "scan" unary "ScanRequest" "ScanResponse"
    ∷ method "listResources" unary "ListResourcesRequest" "ListResourcesResponse"
    ∷ method "getResource" unary "GetResourceRequest" "GetResourceResponse"
    ∷ method "listVersions" unary "ListVersionsRequest" "ListVersionsResponse"
    ∷ method "getChanges" server_streaming "GetChangesRequest" "GetChangesResponse"
    ∷ method "assessImpact" server_streaming "AssessImpactRequest" "AssessImpactResponse"
    ∷ []
