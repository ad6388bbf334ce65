-- ===== src/Streamed/Cache.antt =====
-- The query library's cache under the options of streamed.ts: which stream a cached value is from.
use mathlib.Core.List.{foldl}
use kdelta.Prelude.{ℕ, Bool, true, List, [], ◌∷◌, ◌≡◌, refl, inl, inr, take, In, if◌then◌else◌}
use kdelta.Api.Service.{RangeInput}
use kdelta.Streamed.{
  StreamState, StreamEvent, Method, QueryOptions, reducer, fold_events, stream_state_options,
}

pub record Entry (Key R : Type 0) : Type 0 where
  pub key : Key
  pub value : StreamState R

-- `served` is what the server streams in answer to a call.
module _ {Key R : Type 0} (served : Method × RangeInput → List (StreamEvent R)) where
  -- What the library's documentation says of a streamed query: it makes the options' call, folds the
  -- events that have come so far from the initial value, or from the value cached before where it
  -- is not told to reset, and keeps the result under the options' key.
  abbrev pub fetched : QueryOptions Key R → StreamState R → ℕ → Entry Key R
  fetched o before n = record {
    key = o.query_key;
    value = foldl reducer (if o.refetch_reset then o.initial else before) (take n (served o.call));
  }

  -- The entries that fetches with the options of one method leave, the latest first.
  pub data Filled (create_query_key : Method → RangeInput → Key) (method : Method)
      : List (Entry Key R) → Type 0 where
    nothing : Filled create_query_key method []
    fetch :
        {entries : List (Entry Key R)} (input : RangeInput) (before : StreamState R) (n : ℕ)
        → Filled create_query_key method entries
        → Filled create_query_key method
            (fetched (stream_state_options create_query_key method input true) before n ∷ entries)

  -- Whatever was fetched before, in whatever order, and however far each stream has come: where the
  -- key function tells inputs apart, what the cache holds under the key of an input is folded from
  -- the first events that the server streams for that very input.
  pub Filled-fold_events :
      {create_query_key : Method → RangeInput → Key} {method : Method}
      {entries : List (Entry Key R)}
      → ((x y : RangeInput) → create_query_key method x ≡ create_query_key method y → x ≡ y)
      → Filled create_query_key method entries
      → (input : RangeInput) (enabled : Bool) (e : Entry Key R) → In e entries
      → e.key ≡ (stream_state_options create_query_key {R = R} method input enabled).query_key
      → (n : ℕ) × (e.value ≡ fold_events (take n (served (method, input))))
  unfolding stream_state_options fold_events
  Filled-fold_events apart nothing input enabled e h k = absurd h
  Filled-fold_events {method} apart (fetch x before n filled) input enabled e (inl last) k =
      let same : x ≡ input = apart x input (rw last at k) in (n, rw (last, same) refl)
  Filled-fold_events apart (fetch x before n filled) input enabled e (inr older) k =
      Filled-fold_events apart filled input enabled e older k
