-- ===== src/Kube/Running.antt =====
-- `RunningPodsCache` of kube/watcher.go.
use egressd.Prelude.{
  Bool, true, false, not, ◌||◌, List, [], ◌∷◌, String, if◌then◌else◌, ◌==◌, nat_comparable,
  string_comparable,
}
use egressd.Prelude.Table.{insert, delete, values}
use egressd.Kube.{
  Phase, pending, running, succeeded, failed, unknown, Pod, Object, pod, node, other, InformerEvent,
  added, updated, deleted,
}

pub record RunningPodsCache : Type 0 where
  pub pods : List (String × Pod)

abbrev pub new_running_pods_cache : RunningPodsCache
new_running_pods_cache = record { pods = [] }

unfoldable pub is_running : Phase → Bool
is_running running = true
is_running pending = false
is_running succeeded = false
is_running failed = false
is_running unknown = false

unfoldable pub get : RunningPodsCache → List Pod
get p = values p.pods

unfoldable pub on_delete : Object → RunningPodsCache → RunningPodsCache
on_delete (pod t) p = record p { pods = delete t.uid p.pods }
on_delete (node t) p = p
on_delete other p = p

unfoldable pub on_add_or_update : Object → RunningPodsCache → RunningPodsCache
on_add_or_update (pod t) p =
    if t.pod_ip == "" || not (is_running t.phase)
    then p
    else record p { pods = insert t.uid t p.pods }
on_add_or_update (node t) p = p
on_add_or_update other p = p

-- The handlers that `NewRunningPodsCache` registers.
unfoldable pub handle : InformerEvent → RunningPodsCache → RunningPodsCache
handle (added obj) p = on_add_or_update obj p
handle (updated old_obj new_obj) p = on_add_or_update new_obj p
handle (deleted obj) p = on_delete obj p

unfoldable pub handle_all : List InformerEvent → RunningPodsCache → RunningPodsCache
handle_all [] p = p
handle_all (event ∷ events) p = handle_all events (handle event p)
