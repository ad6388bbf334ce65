-- ===== src/Query.antt =====
-- What a query of the query library (`useQuery`, `useMutation`) shows a component: the documented
-- union of its results, where data and error are there or not by the status. The library is not
-- part of the repository; the components take its results as they come.
use kdelta.Prelude.{ℕ, Bool, true, false, Option, none, some}
use kdelta.Text.{Text}

-- A `ConnectError` with its code, or any other error; the text is `String(error)`.
pub data RpcError : Type 0 where
  connect_error : ℕ → Text → RpcError
  other_error : Text → RpcError

abbrev pub shown : RpcError → Text
shown (connect_error code t) = t
shown (other_error t) = t

-- The status codes of @connectrpc/connect that the UI names.
pub record Codes : Type 0 where
  pub failed_precondition : ℕ
  pub invalid_argument : ℕ
  pub not_found : ℕ
  pub unimplemented : ℕ
  pub permission_denied : ℕ
  pub unauthenticated : ℕ

pub data Status (A : Type 0) : Type 0 where
  pending : Status A
  -- after a failed refetch the data of an earlier success is still there
  failed : RpcError → Option A → Status A
  success : A → Status A

pub record Query (A : Type 0) : Type 0 where
  pub status : Status A
  pub is_fetching : Bool

module _ {A : Type 0} where
  abbrev pub status_pending : Status A → Bool
  status_pending pending = true
  status_pending _ = false

  abbrev pub status_error : Status A → Option RpcError
  status_error pending = none
  status_error (failed e last) = some e
  status_error (success a) = none

  abbrev pub status_payload : Status A → Option A
  status_payload pending = none
  status_payload (failed e last) = last
  status_payload (success a) = some a

  -- `isPending`, `error` and `data`
  abbrev pub is_pending : Query A → Bool
  is_pending q = status_pending q.status

  abbrev pub error : Query A → Option RpcError
  error q = status_error q.status

  abbrev pub payload : Query A → Option A
  payload q = status_payload q.status

-- What `useMutation` shows: whether a call is under way, its error or its result.
pub record Mutation (A : Type 0) : Type 0 where
  pub under_way : Bool
  pub failure : Option RpcError
  pub answer : Option A
