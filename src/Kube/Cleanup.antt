-- ===== src/Kube/Cleanup.antt =====
-- What the cleanup of `PodByIPCache` of kube/podbyipcache.go removes.
use egressd.Prelude.{
  ℕ, ◌-◌, ◌≤◌, ◌<◌, ◌≡◌, refl, sym, ap, ◌⊎◌, inl, inr, true, false, none, some, List, [], ◌∷◌, ◌++◌,
  arith, String, leb, nat_comparable, string_comparable, Bool-cases, Option-cases, keep, All,
}
use egressd.Kube.{Pod}
use egressd.Kube.ByIp.{Indexer, PodByIpCache, is_kept, delete_or_log, clean_pods, cleanup_expired}

module _ (ix : Indexer) where
  open ix use {Store}

  -- The store after the pods are deleted from it in turn; where that fails it stays.
  abbrev remove_all : Store → List (String × Pod) → Store
  remove_all store [] = store
  remove_all store (entry ∷ entries) =
      remove_all (elim (ix.delete entry.1 store) [ none ↦ store | some left ↦ left ]) entries

  -- The pod has no deletion timestamp, or one of more than two minutes ago.
  abbrev pub IsDue : ℕ → Pod → Type 0
  IsDue now t =
      (t.deletion_timestamp ≡ none)
      ⊎ ((at : ℕ) × (t.deletion_timestamp ≡ some at) × (120000000000 < now - at))

  abbrev pub IsRecent : ℕ → Pod → Type 0
  IsRecent now t = (at : ℕ) × (t.deletion_timestamp ≡ some at) × (now - at ≤ 120000000000)

  abbrev StartsRecent : ℕ → List (String × Pod) → Type 0
  StartsRecent now [] = Unit {0}
  StartsRecent now (entry ∷ entries) = IsRecent now entry.1

  is_kept_cases :
      (now : ℕ) (t : Pod)
      → ((is_kept ix now t ≡ true) × IsRecent now t) ⊎ ((is_kept ix now t ≡ false) × IsDue now t)
  unfolding is_kept
  is_kept_cases now t = elim (Option-cases t.deletion_timestamp) [
    | inl unset ↦ inr (rw unset refl, inl unset)
    | inr (at, set) ↦ elim (Bool-cases (leb (now - at) 120000000000)) [
      | inl recent ↦ inl (rw (is_kept, set) recent, (at, set, ground arith))
      | inr old ↦ inr (rw (is_kept, set) old, inr (at, set, ground arith))
    ]
  ]

  pub record Cleaned (now : ℕ) (c c' : PodByIpCache Store) : Type 0 where
    pub removed : List (String × Pod)
    pub split : c.deleted_pods ≡ removed ++ c'.deleted_pods
    pub expired : All (λ (e : String × Pod). IsDue now e.1) removed
    pub stops : StartsRecent now c'.deleted_pods
    pub store : c'.indexer ≡ remove_all c.indexer removed

  clean_pods-Cleaned :
      (now : ℕ) (store : Store) (entries : List (String × Pod))
      → Cleaned now
          (record { indexer = store; deleted_pods = entries })
          (clean_pods ix now store entries)
  unfolding clean_pods
  clean_pods-Cleaned now store [] = record {
    removed = [];
    split = refl;
    expired = tt;
    stops = tt;
    store = refl;
  }
  clean_pods-Cleaned now store (entry ∷ entries) = elim (is_kept_cases now entry.1) [
    | inl (kept, recent) ↦
        rw kept (record { removed = []; split = refl; expired = tt; stops = recent; store = refl })
    | inr (gone, due) ↦
        let r = clean_pods-Cleaned now (delete_or_log ix entry.1 store) entries in
        rw gone (record {
          removed = entry ∷ r.removed;
          split = ap (◌∷◌ entry) r.split;
          expired = (due, r.expired);
          stops = r.stops;
          store = r.store;
        })
  ]

  -- A tick of the cleanup removes, in the order in which it visits the deleted pods, those before
  -- the first whose deletion timestamp is at most two minutes ago, from the map and from the index,
  -- where an error of the index is passed over. Each of those has no deletion timestamp or one of
  -- more than two minutes ago. The tick stops there, so what is due behind stays.
  pub cleanup_expired-Cleaned :
      (now : ℕ) (c : PodByIpCache Store) → Cleaned now c (cleanup_expired ix now c)
  unfolding cleanup_expired
  cleanup_expired-Cleaned now c = clean_pods-Cleaned now c.indexer c.deleted_pods

  -- Under the order that the comment in the loop asks for, in which no pod that is due comes behind
  -- one that is not.
  abbrev pub DueFirst : ℕ → List (String × Pod) → Type 0
  DueFirst now [] = Unit {0}
  DueFirst now (entry ∷ entries) =
      (is_kept ix now entry.1 ≡ true
        → All (λ (e : String × Pod). is_kept ix now e.1 ≡ true) entries)
      × DueFirst now entries

  clean_pods-DueFirst :
      (now : ℕ) (store : Store) (entries : List (String × Pod))
      → DueFirst now entries
      → (clean_pods ix now store entries).deleted_pods ≡ keep (λ e. is_kept ix now e.1) entries
  unfolding clean_pods
  clean_pods-DueFirst now store [] h = refl
  clean_pods-DueFirst now store (entry ∷ entries) h = elim (Bool-cases (is_kept ix now entry.1)) [
    | inl kept ↦ rw kept (ap (◌∷◌ entry) (sym (keep_all entries (h.0 kept))))
    | inr gone ↦ rw gone (clean_pods-DueFirst now (delete_or_log ix entry.1 store) entries h.1)
  ]
    where
      keep_all :
          (es : List (String × Pod))
          → All (λ (e : String × Pod). is_kept ix now e.1 ≡ true) es
          → keep (λ e. is_kept ix now e.1) es ≡ es
      keep_all [] all = refl
      keep_all (e ∷ es) all = rw all.0 (ap (◌∷◌ e) (keep_all es all.1))

  -- If the map is visited in an order in which no pod that is due comes behind one that is not, a
  -- tick leaves exactly the pods that are not due.
  cleanup_expired-DueFirst :
      (now : ℕ) (c : PodByIpCache Store)
      → DueFirst now c.deleted_pods
      → (cleanup_expired ix now c).deleted_pods ≡ keep (λ e. is_kept ix now e.1) c.deleted_pods
  unfolding cleanup_expired
  cleanup_expired-DueFirst now c h = clean_pods-DueFirst now c.indexer c.deleted_pods h
