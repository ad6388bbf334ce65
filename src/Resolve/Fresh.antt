-- ===== src/Resolve/Fresh.antt =====
-- The packages of a scan differ, and what the cache says of one stays while others are written.
use kdelta.Prelude.{
  ℕ, true, false, List, [], ◌∷◌, Option, none, some, ◌≡◌, ◌≢◌, refl, ap, inl, inr, All, Distinct,
  Bool-cases, Option-cases, arith,
}
use kdelta.Text.{Text}
use kdelta.Api.Resource.{Resource}
use kdelta.Server.Table.{same_key, same_key_iff, select-upsert_other, Key}
use kdelta.Server.Store.{Store, resolution, put_resolution}
use kdelta.Upstream.Fetch.{Web, Client}
use kdelta.Resolve.{
  Package, Times, eligible, package_of, same_package, seen, packages_in, cached, stored_at,
  remember,
}
use kdelta.Resolve.Group.{same_package_iff}

abbrev Unseen : List Package → Package → Type 0
Unseen before j = seen j before ≡ false

Unseen-cons :
    (k : Package) (before ks : List Package)
    → All (Unseen (k ∷ before)) ks
    → All (λ j. k ≢ j) ks × All (Unseen before) ks
unfolding seen
Unseen-cons k before [] h = (tt, tt)
Unseen-cons k before (j ∷ ks) h =
    let (differ, rest) = Unseen-cons k before ks h.1 in
    elim (Bool-cases (same_package k j)) [
      | inl same ↦ let clash : true ≡ false = rw same at (h.0) in absurd (ground arith)
      | inr other ↦
          let unseen : seen j before ≡ false = rw other at (h.0) in
          (
            ((λ e. let same = (same_package_iff k j).1 e in absurd (ground arith)), differ),
            (unseen, rest),
          )
    ]

packages_in-Distinct_after :
    (before : List Package) (rs : List Resource)
    → All (Unseen before) (packages_in before rs) × Distinct (packages_in before rs)
unfolding packages_in
packages_in-Distinct_after before [] = (tt, tt)
packages_in-Distinct_after before (r ∷ rs) = elim (Bool-cases (eligible r)) [
  | inr unfit ↦ rw unfit (packages_in-Distinct_after before rs)
  | inl fits ↦
      let k = package_of r in
      let (unseen, distinct) = packages_in-Distinct_after (k ∷ before) rs in
      let (differ, rest) = Unseen-cons k before (packages_in (k ∷ before) rs) unseen in
      elim (Bool-cases (seen k before)) [
        | inl old ↦ rw (fits, old) (rest, distinct)
        | inr new ↦ rw (fits, new) ((new, rest), (differ, distinct))
      ]
]

pub packages_in-Distinct : (rs : List Resource) → Distinct (packages_in [] rs)
packages_in-Distinct rs = (packages_in-Distinct_after [] rs).1

other_key :
    (j k : Package)
    → j ≢ k
    → same_key (j.system ∷ j.name ∷ [], 0) (k.system ∷ k.name ∷ [], 0) ≡ false
other_key j k differ =
    let a : Key = (j.system ∷ j.name ∷ [], 0) in
    let b : Key = (k.system ∷ k.name ∷ [], 0) in
    elim (Bool-cases (same_key a b)) [
      | inl same ↦
          let texts : j.system ∷ j.name ∷ [] ≡ k.system ∷ k.name ∷ [] =
            ap (λ (x : Key). x.0) ((same_key_iff a b).0 same) in
          let systems : j.system ≡ k.system = cc in
          let names : j.name ≡ k.name = cc in
          absurd (differ (λ i. record { system = systems i; name = names i }))
      | inr other ↦ other
    ]

module _ (web : Web) (client : Client) (times : Times) where
  resolution-stored_at :
      (j k : Package) (url : Text) (written : Option ℕ) (now age failure_age : ℕ) (s : Store)
      → j ≢ k
      → resolution now k.system k.name age failure_age (stored_at web client times j url written s)
        ≡ resolution now k.system k.name age failure_age s
  unfolding stored_at resolution put_resolution
  resolution-stored_at j k url none now age failure_age s differ = refl
  resolution-stored_at j k url (some at) now age failure_age s differ =
      rw (select-upsert_other _ _ _ s.resolutions (other_key j k differ)) refl

  pub cached-remember :
      (j k : Package) (url : Text) (store : Option Store)
      → j ≢ k
      → cached web client times k (remember web client times j url store)
        ≡ cached web client times k store
  unfolding cached remember
  cached-remember j k url none differ = refl
  cached-remember j k url (some s) differ = elim (Option-cases (times.asked k)) [
    | inl failed ↦ rw failed refl
    | inr (now, asked) ↦ rw asked (resolution-stored_at j k url (times.stored j) now _ _ s differ)
  ]
