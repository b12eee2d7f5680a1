-- ===== src/Kube/ByIpLaws.antt =====
-- What `PodByIPCache` of kube/podbyipcache.go answers.
use egressd.Prelude.{
  ◌≤◌, ◌<◌, ◌≡◌, refl, ap, ◌⊎◌, inl, inr, true, false, none, some, List, [], ◌∷◌, ◌++◌, arith, ltb,
  nat_comparable, string_comparable, Bool-cases, All,
}
use egressd.Prelude.Table.{insert}
use egressd.Kube.{Pod, Object, pod, node, other, not_found, other_error, Result, ok, err}
use egressd.Kube.ByIp.{Indexer, PodByIpCache, is_earlier, earliest_pod, is_finished}

-- The pods among the items, in order.
pub pods_of : List Object → List Pod
pods_of [] = []
pods_of (pod t ∷ items) = t ∷ pods_of items
pods_of (node t ∷ items) = pods_of items
pods_of (other ∷ items) = pods_of items

-- The first of the pods that were created before all the others.
pub record Earliest (pods : List Pod) (t : Pod) : Type 0 where
  pub before : List Pod
  pub after : List Pod
  pub here : pods ≡ before ++ t ∷ after
  pub later : All (λ (u : Pod). t.creation_timestamp < u.creation_timestamp) before
  pub no_earlier : All (λ (u : Pod). t.creation_timestamp ≤ u.creation_timestamp) after

-- The outcome of the loop from a pod `t` on.
abbrev From : Pod → List Pod → Pod → Type 0
From t pods r =
    ((r ≡ t) × All (λ (u : Pod). t.creation_timestamp ≤ u.creation_timestamp) pods)
    ⊎ (Earliest pods r × (r.creation_timestamp < t.creation_timestamp))

From-keep :
    {t u r : Pod} {pods : List Pod}
    → t.creation_timestamp ≤ u.creation_timestamp
    → From t pods r
    → From t (u ∷ pods) r
From-keep h (inl (e, all)) = inl (e, (h, all))
From-keep {u = u} h (inr (c, less)) = inr (
  record {
    before = u ∷ c.before;
    after = c.after;
    here = ap (◌∷◌ u) c.here;
    later = (omega arith, c.later);
    no_earlier = c.no_earlier;
  },
  less,
)

From-switch :
    {t u r : Pod} {pods : List Pod}
    → u.creation_timestamp < t.creation_timestamp
    → From u pods r
    → From t (u ∷ pods) r
From-switch {pods = pods} h (inl (e, all)) =
    rw e (inr (record { before = []; after = pods; here = refl; later = tt; no_earlier = all }, h))
From-switch {u = u} h (inr (c, less)) = inr (
  record {
    before = u ∷ c.before;
    after = c.after;
    here = ap (◌∷◌ u) c.here;
    later = (less, c.later);
    no_earlier = c.no_earlier;
  },
  omega arith,
)

earliest_pod-From :
    (t : Pod) (items : List Object)
    → (r : Pod) × (earliest_pod (some t) items ≡ some r) × From t (pods_of items) r
unfolding earliest_pod pods_of is_earlier
earliest_pod-From t [] = (t, refl, inl (refl, tt))
earliest_pod-From t (node u ∷ items) = earliest_pod-From t items
earliest_pod-From t (other ∷ items) = earliest_pod-From t items
earliest_pod-From t (pod u ∷ items) =
    elim (Bool-cases (ltb u.creation_timestamp t.creation_timestamp)) [
      | inl less ↦
          let (r, e, f) = earliest_pod-From u items in rw less (r, e, From-switch (ground arith) f)
      | inr more ↦
          let (r, e, f) = earliest_pod-From t items in rw more (r, e, From-keep (ground arith) f)
    ]

From-Earliest : {t r : Pod} {pods : List Pod} → From t pods r → Earliest (t ∷ pods) r
From-Earliest {pods = pods} (inl (e, all)) =
    rw e (record { before = []; after = pods; here = refl; later = tt; no_earlier = all })
From-Earliest {t = t} (inr (c, less)) = record {
  before = t ∷ c.before;
  after = c.after;
  here = ap (◌∷◌ t) c.here;
  later = (less, c.later);
  no_earlier = c.no_earlier;
}

pub earliest_pod_cases :
    (items : List Object)
    → ((pods_of items ≡ []) × (earliest_pod none items ≡ none))
      ⊎ ((r : Pod) × (earliest_pod none items ≡ some r) × Earliest (pods_of items) r)
unfolding earliest_pod pods_of is_earlier
earliest_pod_cases [] = inl (refl, refl)
earliest_pod_cases (node u ∷ items) = earliest_pod_cases items
earliest_pod_cases (other ∷ items) = earliest_pod_cases items
earliest_pod_cases (pod u ∷ items) =
    let (r, e, f) = earliest_pod-From u items in inr (r, e, From-Earliest f)

module _ (ix : Indexer) where
  open ix use {Store}

  -- At the earliest pod: returned as it is while it is pending or running; any other is taken from
  -- the index and noted as deleted, unless the index refuses.
  abbrev pub AtPod : PodByIpCache Store → Pod → PodByIpCache Store × Result Pod → Type 0
  AtPod c t r =
      ((is_finished t.phase ≡ false) × (r.0 ≡ c) × (r.1 ≡ ok t))
      ⊎ (((is_finished t.phase ≡ true)
            × (ix.delete t c.indexer ≡ none)
            × (r.0 ≡ c)
            × (r.1 ≡ err other_error))
          ⊎ ((indexer : Store) × (is_finished t.phase ≡ true)
              × (ix.delete t c.indexer ≡ some indexer)
              × (r.0 ≡ record { indexer = indexer; deleted_pods = insert t.uid t c.deleted_pods })
              × (r.1 ≡ ok t)))

  abbrev pub AtItems : PodByIpCache Store → List Object → PodByIpCache Store × Result Pod → Type 0
  AtItems c items r =
      ((pods_of items ≡ []) × (r.0 ≡ c) × (r.1 ≡ err not_found))
      ⊎ ((t : Pod) × Earliest (pods_of items) t × AtPod c t r)
