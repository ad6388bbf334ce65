-- ===== src/Server/Store/Refused.antt =====
-- When `SaveScan` of internal/store/store.go fails: the primary key of the resources.
use kdelta.Prelude.{
  ℕ, suc, Bool, true, false, List, [], ◌∷◌, Option, none, some, ◌≡◌, ◌≢◌, ◌↔◌, refl, ap, inl, inr,
  ◌>>=◌, is_some, map, All, Distinct, Bool-cases, Option-cases, arith,
}
use kdelta.Text.{Text}
use kdelta.Api.Resource.{Resource}
use kdelta.Api.Service.{ScanResponse}
use kdelta.Server.{string_of}
use kdelta.Server.Table.{Key, same_key, same_key_iff, select, insert}
use kdelta.Server.Store.{Store, insert_resources, write_scan, save_scan}
use kdelta.Server.Store.Invalidation.{
  Write, written, Belong, superseded, written-IsCurrent, write_scan-superseded,
}

abbrev ref_key : Resource → ℕ → Key
ref_key r id = (string_of r.ref ∷ [], id)

-- No row has the key of a resource.
abbrev Free : ℕ → List (Key × Resource) → Resource → Type 0
Free id rows r = select (ref_key r id) rows ≡ none

Belong-Free :
    (id : ℕ) (rows : List (Key × Resource)) (r : Resource) → Belong id rows → Free (suc id) rows r
unfolding select
Belong-Free id [] r h = refl
Belong-Free id (((texts, n), q) ∷ rows) r h =
    let number : n ≡ id = h.0 in
    elim (Bool-cases (same_key (texts, n) (ref_key r (suc id)))) [
      | inl same ↦
          let keys = (same_key_iff (texts, n) (ref_key r (suc id))).0 same in
          let clash : n ≡ suc id = ap (λ (k : Key). k.1) keys in absurd (omega arith)
      | inr other ↦ rw other (Belong-Free id rows r h.1)
    ]

-- A row more, under the key of another resource.
Free-cons :
    (id : ℕ) (rows : List (Key × Resource)) (q r : Resource)
    → Free id ((ref_key q id, q) ∷ rows) r ↔ ((string_of q.ref ≢ string_of r.ref) × Free id rows r)
unfolding select
Free-cons id rows q r = elim (Bool-cases (same_key (ref_key q id) (ref_key r id))) [
  | inl same ↦
      let keys = (same_key_iff (ref_key q id) (ref_key r id)).0 same in
      let texts : string_of q.ref ∷ [] ≡ string_of r.ref ∷ [] = ap (λ (k : Key). k.0) keys in
      let equal : string_of q.ref ≡ string_of r.ref = cc in
      rw same ((λ h. absurd (ground arith)), (λ h. absurd (h.0 equal)))
  | inr other ↦
      let differs : string_of q.ref ≢ string_of r.ref = λ e.
        let same : same_key (ref_key q id) (ref_key r id) ≡ true =
          (same_key_iff (ref_key q id) (ref_key r id)).1 (ap (λ t. (t ∷ [], id)) e) in
        absurd (ground arith) in
      rw other ((λ h. (differs, h)), (λ h. h.1))
]

-- The references of resources, as the server writes them.
abbrev pub refs_of : List Resource → List Text
refs_of rs = map (λ (r : Resource). string_of r.ref) rs

All-refs :
    (id : ℕ) (rows : List (Key × Resource)) (q : Resource) (rs : List Resource)
    → All (Free id ((ref_key q id, q) ∷ rows)) rs
      ↔ (All (λ t. string_of q.ref ≢ t) (refs_of rs) × All (Free id rows) rs)
All-refs id rows q [] = ((λ h. (tt, tt)), (λ h. tt))
All-refs id rows q (r ∷ rs) =
    let head = Free-cons id rows q r in
    let tail = All-refs id rows q rs in
    (
      (λ h. (((head.0 h.0).0, (tail.0 h.1).0), ((head.0 h.0).1, (tail.0 h.1).1))),
      (λ h. (head.1 (h.0.0, h.1.0), tail.1 (h.0.1, h.1.1))),
    )

insert_resources_iff :
    (id : ℕ) (rs : List Resource) (rows : List (Key × Resource))
    → (is_some (insert_resources id rs rows) ≡ true)
      ↔ (Distinct (refs_of rs) × All (Free id rows) rs)
unfolding insert_resources insert
insert_resources_iff id [] rows = ((λ h. (tt, tt)), (λ h. refl))
insert_resources_iff id (q ∷ rs) rows =
    let rest = insert_resources_iff id rs ((ref_key q id, q) ∷ rows) in
    let split = All-refs id rows q rs in
    elim (Option-cases (select (ref_key q id) rows)) [
      | inl free ↦ rw free (
        (λ h.
            let (distinct, all) = rest.0 h in
            (((split.0 all).0, distinct), (refl, (split.0 all).1))),
        (λ h. rest.1 (h.0.1, split.1 (h.0.0, h.1.1))),
      )
      | inr (b, taken) ↦ rw taken (
        (λ h. absurd (ground arith)),
        (λ h. let e : some b ≡ none = h.1.0 in absurd (ground arith)),
      )
    ]

is_some-bind :
    {A B : Type 0} (o : Option A) (f : A → B) → is_some (o >>= (λ a. some (f a))) ≡ is_some o
is_some-bind none f = refl
is_some-bind (some a) f = refl

All-Free :
    (id : ℕ) (rows : List (Key × Resource)) (rs : List Resource)
    → Belong id rows
    → All (Free (suc id) rows) rs
All-Free id rows [] h = tt
All-Free id rows (r ∷ rs) h = (Belong-Free id rows r h, All-Free id rows rs h)

write_scan_iff :
    (ws : List Write) (scan : ScanResponse)
    → (is_some (write_scan scan (written ws)) ≡ true) ↔ Distinct (refs_of scan.resources)
write_scan_iff ws scan =
    let s = written ws in
    let current = written-IsCurrent ws in
    let rows = insert_resources (suc s.sequence) scan.resources s.resources in
    let inserts = insert_resources_iff (suc s.sequence) scan.resources s.resources in
    let free = All-Free s.sequence s.resources scan.resources current.resources_belong in
    rw
      (
        write_scan-superseded scan s current,
        is_some-bind {B = ℕ × Store} rows (λ r. (suc s.sequence, superseded scan s r)),
      )
      ((λ h. (inserts.0 h).0), (λ h. inserts.1 (h, free)))

-- Whatever was written before, a scan is saved exactly if it can be marshalled, the database has no
-- error, and no two of its resources are written as the same reference.
pub save_scan_iff :
    (fails : Bool) (ws : List Write) (scan : ScanResponse)
    → (is_some (save_scan fails scan (written ws)) ≡ true)
      ↔ ((fails ≡ false) × Distinct (refs_of scan.resources))
unfolding save_scan
save_scan_iff true ws scan = ((λ h. absurd (ground arith)), λ h. absurd (ground arith))
save_scan_iff false ws scan =
    let fine = write_scan_iff ws scan in ((λ h. (refl, fine.0 h)), λ h. fine.1 h.1)
