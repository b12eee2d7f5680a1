-- ===== src/Kube/ByIp.antt =====
-- `PodByIPCache` of kube/podbyipcache.go. The indexer of client-go is a parameter.
use egressd.Prelude.{
  ℕ, ◌-◌, Bool, true, false, Option, none, some, List, [], ◌∷◌, String, ltb, leb, if◌then◌else◌,
  nat_comparable, string_comparable,
}
use egressd.Prelude.Table.{insert}
use egressd.Kube.{
  Phase, pending, running, succeeded, failed, unknown, Pod, Object, pod, node, other, not_found,
  other_error, Result, ok, err,
}

-- A thread-safe store of objects with an index; `none` is an error.
pub record Indexer : Type 1 where
  pub Store : Type 0
  pub by_index : String → Store → Option (List Object)
  pub add : Pod → Store → Option Store
  pub delete : Pod → Store → Option Store

pub record PodByIpCache (Store : Type 0) : Type 0 where
  pub indexer : Store
  pub deleted_pods : List (String × Pod)

-- The index function of `NewPodByIPCache`.
unfoldable pub pod_ip_index : Object → Option (List String)
pod_ip_index (pod t) = some (t.pod_ip ∷ [])
pod_ip_index (node t) = none
pod_ip_index other = none

abbrev pub pod_timeout : ℕ
pod_timeout = 120000000000

-- `pod.CreationTimestamp.Before(&earliestPod.CreationTimestamp)`, or no pod yet.
unfoldable pub is_earlier : Pod → Option Pod → Bool
is_earlier t none = true
is_earlier t (some earliest) = ltb t.creation_timestamp earliest.creation_timestamp

unfoldable pub earliest_pod : Option Pod → List Object → Option Pod
earliest_pod earliest [] = earliest
earliest_pod earliest (pod t ∷ items) =
    earliest_pod (if is_earlier t earliest then some t else earliest) items
earliest_pod earliest (node t ∷ items) = earliest_pod earliest items
earliest_pod earliest (other ∷ items) = earliest_pod earliest items

-- `Phase != PodPending && Phase != PodRunning`.
unfoldable pub is_finished : Phase → Bool
is_finished pending = false
is_finished running = false
is_finished succeeded = true
is_finished failed = true
is_finished unknown = true

module _ (ix : Indexer) where
  open ix use {Store}

  -- The end of `Get`, at the earliest pod.
  unfoldable pub get_found : PodByIpCache Store → Pod → PodByIpCache Store × Result Pod
  get_found c t =
      if is_finished t.phase
      then elim (ix.delete t c.indexer) [
        | none ↦ (c, err other_error)
        | some indexer ↦
            (record { indexer = indexer; deleted_pods = insert t.uid t c.deleted_pods }, ok t)
      ]
      else (c, ok t)

  unfoldable pub get_items : PodByIpCache Store → List Object → PodByIpCache Store × Result Pod
  get_items c [] = (c, err not_found)
  get_items c (item ∷ items) = elim (earliest_pod none (item ∷ items)) [
    | none ↦ (c, err not_found)
    | some t ↦ get_found c t
  ]

  unfoldable pub get : String → PodByIpCache Store → PodByIpCache Store × Result Pod
  get key c = elim (ix.by_index key c.indexer) [
    | none ↦ (c, err other_error)
    | some items ↦ get_items c items
  ]

  unfoldable pub on_delete : Object → PodByIpCache Store → PodByIpCache Store
  on_delete (pod t) c = record c { deleted_pods = insert t.uid t c.deleted_pods }
  on_delete (node t) c = c
  on_delete other c = c

  -- An error of the indexer is only logged.
  unfoldable pub on_add_or_update : Object → PodByIpCache Store → PodByIpCache Store
  on_add_or_update (pod t) c = elim (ix.add t c.indexer) [
    | none ↦ c
    | some indexer ↦ record c { indexer = indexer }
  ]
  on_add_or_update (node t) c = c
  on_add_or_update other c = c

  -- The test that ends the loop of a cleanup.
  unfoldable pub is_kept : ℕ → Pod → Bool
  is_kept now t = elim t.deletion_timestamp [ none ↦ false | some at ↦ leb (now - at) pod_timeout ]

  abbrev pub delete_or_log : Pod → Store → Store
  delete_or_log t store = elim (ix.delete t store) [ none ↦ store | some indexer ↦ indexer ]

  -- The loop over `deletedPods`, in the order in which the map is visited.
  unfoldable pub clean_pods : ℕ → Store → List (String × Pod) → PodByIpCache Store
  clean_pods now store [] = record { indexer = store; deleted_pods = [] }
  clean_pods now store (entry ∷ entries) =
      let rest = clean_pods now (delete_or_log entry.1 store) entries in
      if is_kept now entry.1
      then record { indexer = store; deleted_pods = entry ∷ entries }
      else rest

  -- One tick of `runCleanupExpiredLoop`.
  unfoldable pub cleanup_expired : ℕ → PodByIpCache Store → PodByIpCache Store
  cleanup_expired now c = clean_pods now c.indexer c.deleted_pods
