-- ===== src/Server/Scan/Detail.antt =====
-- `GetResource` of internal/server/scan.go: which of the resources it finds, and its errors.
use mathlib.Core.Bool.{and-eq-true_iff}
use kdelta.Prelude.{
  ℕ, suc, true, false, List, [], ◌∷◌, Option, none, some, ◌≡◌, ◌≢◌, ◌↔◌, refl, sym, ◌⊎◌, inl, inr,
  filter, All, In, Bool-cases, Option-cases, arith,
}
use kdelta.Text.{text_eq, text_eq_iff, text_eq_self}
use kdelta.Query.{RpcError, connect_error, Codes}
use kdelta.Ref.{ResourceRef}
use kdelta.Api.Resource.{Resource}
use kdelta.Api.Service.{ScanResponse}
use kdelta.Server.{Answer, ref_or_empty, string_of, refs_equal}
use kdelta.Server.Table.{Key, same_key_iff, same_key, select, insert}
use kdelta.Server.Store.{Store, insert_resources, write_scan, save_scan}
use kdelta.Server.Store.Invalidation.{
  Write, written, write_scan-superseded, save_scan_lem, written-IsCurrent,
}
use kdelta.Server.Scan.{cached_scan, find_resource, touches, get_resource}

pub refs_equal_iff :
    (a b : Option ResourceRef) → (refs_equal a b ≡ true) ↔ (ref_or_empty a ≡ ref_or_empty b)
unfolding refs_equal
refs_equal_iff a b =
    let x = ref_or_empty a in
    let y = ref_or_empty b in
    (
      (λ h.
          let (front, names) = (and-eq-true_iff _ (text_eq x.name y.name)).0 h in
          let (detectors, namespaces) =
            (and-eq-true_iff (text_eq x.detector y.detector) (text_eq x.namespace y.namespace)).0
              front in
          let d : x.detector ≡ y.detector = (text_eq_iff _ _).0 detectors in
          let s : x.namespace ≡ y.namespace = (text_eq_iff _ _).0 namespaces in
          let n : x.name ≡ y.name = (text_eq_iff _ _).0 names in
          λ i. record { detector = d i; namespace = s i; name = n i }),
      λ e. rw (e, text_eq_self y.detector, text_eq_self y.namespace, text_eq_self y.name) refl,
    )

string_of-equal : (a b : Option ResourceRef) → refs_equal a b ≡ true → string_of a ≡ string_of b
unfolding string_of
string_of-equal a b h = rw ((refs_equal_iff a b).0 h) refl

abbrev ref_key : Option ResourceRef → ℕ → Key
ref_key target id = (string_of target ∷ [], id)

-- A resource that was inserted had a key of its own.
insert_resources-step :
    (id : ℕ) (q : Resource) (rs : List Resource) (rows inserted : List (Key × Resource))
    → insert_resources id (q ∷ rs) rows ≡ some inserted
    → (select (ref_key q.ref id) rows ≡ none)
      × (insert_resources id rs ((ref_key q.ref id, q) ∷ rows) ≡ some inserted)
unfolding insert_resources insert
insert_resources-step id q rs rows inserted e =
    elim (Option-cases (select (ref_key q.ref id) rows)) [
      | inl fresh ↦ (fresh, rw fresh at e)
      | inr (taken, there) ↦ let f : none ≡ some inserted = rw there at e in absurd (ground arith)
    ]

select_other :
    (j k : Key) (q : Resource) (rows : List (Key × Resource))
    → select k ((j, q) ∷ rows) ≡ none
    → (same_key j k ≡ false) × (select k rows ≡ none)
unfolding select
select_other j k q rows e = elim (Bool-cases (same_key j k)) [
  | inl same ↦ let f : some q ≡ none = rw same at e in absurd (ground arith)
  | inr other ↦ (other, rw other at e)
]

-- No resource that is inserted has the key of a row that was there.
inserted-fresh :
    (id : ℕ) (rs : List Resource) (rows inserted : List (Key × Resource)) (r : Resource)
    → insert_resources id rs rows ≡ some inserted
    → In r rs
    → select (ref_key r.ref id) rows ≡ none
inserted-fresh id [] rows inserted r e there = absurd there
inserted-fresh id (q ∷ rs) rows inserted r e (inl here) =
    rw here (insert_resources-step id q rs rows inserted e).0
inserted-fresh id (q ∷ rs) rows inserted r e (inr later) =
    let (fresh, rest) = insert_resources-step id q rs rows inserted e in
    (select_other (ref_key q.ref id) (ref_key r.ref id) q rows
      (inserted-fresh id rs ((ref_key q.ref id, q) ∷ rows) inserted r rest later)).1

refs-other :
    (id : ℕ) (a b : Option ResourceRef)
    → same_key (ref_key a id) (ref_key b id) ≡ false
    → refs_equal a b ≡ false
refs-other id a b other = elim (Bool-cases (refs_equal a b)) [
  | inl same ↦
      let keys : same_key (ref_key a id) (ref_key b id) ≡ true =
        (same_key_iff _ _).1 (rw (string_of-equal a b same) refl) in
      absurd (ground arith)
  | inr different ↦ different
]

-- In a scan that was saved, a resource is the first with its reference.
find_resource_self :
    (id : ℕ) (rs : List Resource) (rows inserted : List (Key × Resource)) (r : Resource)
    → insert_resources id rs rows ≡ some inserted
    → In r rs
    → find_resource r.ref rs ≡ some r
unfolding find_resource
find_resource_self id [] rows inserted r e there = absurd there
find_resource_self id (q ∷ rs) rows inserted r e (inl here) =
    rw (sym here, (refs_equal_iff r.ref r.ref).1 refl) refl
find_resource_self id (q ∷ rs) rows inserted r e (inr later) =
    let (fresh, rest) = insert_resources-step id q rs rows inserted e in
    let (other, _) =
      select_other (ref_key q.ref id) (ref_key r.ref id) q rows
        (inserted-fresh id rs ((ref_key q.ref id, q) ∷ rows) inserted r rest later) in
    rw (refs-other id q.ref r.ref other)
      (find_resource_self id rs ((ref_key q.ref id, q) ∷ rows) inserted r rest later)

-- After a scan is saved, it is the one that the handlers read.
pub cached_scan-saved :
    (code : Codes) (ws : List Write) (scan : ScanResponse) (id : ℕ) (t : Store)
    → write_scan scan (written ws) ≡ some (id, t)
    → cached_scan code (some t) ≡ inr scan
unfolding cached_scan save_scan
cached_scan-saved code ws scan id t saved =
    rw (save_scan_lem false ws scan id t none [] [] [] saved).0 refl

find_resource-saved :
    (ws : List Write) (scan : ScanResponse) (id : ℕ) (t : Store) (r : Resource)
    → write_scan scan (written ws) ≡ some (id, t)
    → In r scan.resources
    → find_resource r.ref scan.resources ≡ some r
find_resource-saved ws scan id t r saved there =
    elim (Option-cases
      (insert_resources (suc (written ws).sequence) scan.resources (written ws).resources)) [
        | inl failed ↦
            let result : Option (ℕ × Store) = some (id, t) in
            let f : none ≡ result =
              rw (write_scan-superseded scan (written ws) (written-IsCurrent ws), failed) at
                saved in
            absurd (ground arith)
        | inr (rows, inserted) ↦
            find_resource_self (suc (written ws).sequence) scan.resources (written ws).resources
              rows r inserted there
      ]

-- Whatever was written before, the server answers a request for a resource of the scan that was
-- saved last with that resource, and with the edges of the scan that touch it.
pub get_resource-saved :
    (code : Codes) (ws : List Write) (scan : ScanResponse) (id : ℕ) (t : Store) (r : Resource)
    → write_scan scan (written ws) ≡ some (id, t)
    → In r scan.resources
    → get_resource code (some t) (record { ref = r.ref })
      ≡ inr (record { resource = some r; edges = filter (touches r.ref) scan.edges })
unfolding get_resource
get_resource-saved code ws scan id t r saved there =
    rw (cached_scan-saved code ws scan id t saved, find_resource-saved ws scan id t r saved there)
      refl

find_resource-cases :
    (target : Option ResourceRef) (rs : List Resource)
    → (All (λ r. ref_or_empty r.ref ≢ ref_or_empty target) rs × (find_resource target rs ≡ none))
      ⊎ ((r : Resource) × In r rs
          × (ref_or_empty r.ref ≡ ref_or_empty target)
          × (find_resource target rs ≡ some r))
unfolding find_resource
find_resource-cases target [] = inl (tt, refl)
find_resource-cases target (q ∷ rs) = elim (Bool-cases (refs_equal q.ref target)) [
  | inl same ↦ inr (q, inl refl, (refs_equal_iff q.ref target).0 same, rw same refl)
  | inr other ↦
      let differs : ref_or_empty q.ref ≢ ref_or_empty target = λ e.
        let same : refs_equal q.ref target ≡ true = (refs_equal_iff q.ref target).1 e in
        absurd (ground arith) in
      elim (find_resource-cases target rs) [
        | inl (all, missing) ↦ inl ((differs, all), rw other missing)
        | inr (r, there, same, found) ↦ inr (r, inr there, same, rw other found)
      ]
]

answer-cases :
    {A : Type 0} (a : Answer A) → ((e : RpcError) × (a ≡ inl e)) ⊎ ((b : A) × (a ≡ inr b))
answer-cases (inl e) = inl (e, refl)
answer-cases (inr b) = inr (b, refl)

-- Without a cached scan `GetResource` fails as the cache does. With one, either no resource of the
-- scan has the reference that is asked for and the code is not_found, or the answer is a resource of
-- the scan with that reference and the edges of the scan that touch it.
pub get_resource-answers :
    (code : Codes) (store : Option Store) (target : Option ResourceRef)
    → ((e : RpcError) × (cached_scan code store ≡ inl e)
        × (get_resource code store (record { ref = target }) ≡ inl e))
      ⊎ ((scan : ScanResponse) × (cached_scan code store ≡ inr scan)
          × All (λ r. ref_or_empty r.ref ≢ ref_or_empty target) scan.resources
          × (get_resource code store (record { ref = target })
              ≡ inl (connect_error code.not_found [])))
      ⊎ ((scan : ScanResponse) × (cached_scan code store ≡ inr scan)
          × ((r : Resource) × In r scan.resources
              × (ref_or_empty r.ref ≡ ref_or_empty target)
              × (get_resource code store (record { ref = target })
                  ≡ inr
                      (record { resource = some r; edges = filter (touches target) scan.edges }))))
unfolding get_resource
get_resource-answers code store target = elim (answer-cases (cached_scan code store)) [
  | inl (e, failed) ↦ inl (e, failed, rw failed refl)
  | inr (scan, cached) ↦ elim (find_resource-cases target scan.resources) [
    | inl (all, missing) ↦ inr (inl (scan, cached, all, rw (cached, missing) refl))
    | inr (r, there, same, found) ↦
        inr (inr (scan, cached, (r, there, same, rw (cached, found) refl)))
  ]
]
