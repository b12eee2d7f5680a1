-- ===== src/Kube/RunningLaws.antt =====
-- What `RunningPodsCache` of kube/watcher.go holds after any sequence of informer events.
use egressd.Prelude.{
  ◌≡◌, refl, ap, ◌∙◌, inl, inr, Bool, true, false, not, ◌&&◌, ◌||◌, Option, none, some, List, [],
  ◌∷◌, arith, String, if◌then◌else◌, ◌==◌, nat_comparable, string_comparable, Bool-cases, All,
}
use egressd.Prelude.Table.{
  lookup, insert, delete, values, lookup-insert, lookup-delete, IsTable, insert-IsTable,
  delete-IsTable,
}
use egressd.Kube.{Pod, Object, pod, node, other, InformerEvent, added, updated, deleted}
use egressd.Kube.Running.{
  RunningPodsCache, new_running_pods_cache, is_running, get, on_delete, on_add_or_update, handle,
  handle_all,
}

-- A report of a running pod with an address.
unfoldable pub is_report_of : String → Object → Option Pod
is_report_of uid (pod t) =
    if t.uid == uid && (not (t.pod_ip == "") && is_running t.phase) then some t else none
is_report_of uid (node t) = none
is_report_of uid other = none

unfoldable pub is_removal_of : String → Object → Bool
is_removal_of uid (pod t) = t.uid == uid
is_removal_of uid (node t) = false
is_removal_of uid other = false

abbrev or_else : Option Pod → Option Pod → Option Pod
or_else none p = p
or_else (some t) p = some t

-- The pod that the events leave under a uid: the last report of it as running with an address,
-- unless it was deleted since. Reports of any other state count for nothing.
unfoldable pub latest : String → Option Pod → List InformerEvent → Option Pod
latest uid known [] = known
latest uid known (added obj ∷ events) = latest uid (or_else (is_report_of uid obj) known) events
latest uid known (updated old_obj new_obj ∷ events) =
    latest uid (or_else (is_report_of uid new_obj) known) events
latest uid known (deleted obj ∷ events) =
    latest uid (if is_removal_of uid obj then none else known) events

on_add_or_update-lookup :
    (uid : String) (obj : Object) (p : RunningPodsCache)
    → lookup uid (on_add_or_update obj p).pods ≡ or_else (is_report_of uid obj) (lookup uid p.pods)
unfolding on_add_or_update is_report_of
on_add_or_update-lookup uid (pod t) p = ground (arith, lookup-insert t.uid uid t p.pods)
on_add_or_update-lookup uid (node t) p = refl
on_add_or_update-lookup uid other p = refl

on_delete-lookup :
    (uid : String) (obj : Object) (p : RunningPodsCache)
    → lookup uid (on_delete obj p).pods
      ≡ (if is_removal_of uid obj then none else lookup uid p.pods)
unfolding on_delete is_removal_of
on_delete-lookup uid (pod t) p = lookup-delete t.uid uid p.pods
on_delete-lookup uid (node t) p = refl
on_delete-lookup uid other p = refl

-- After any events the cache holds under each uid the last report of that pod as running with an
-- address, unless the pod was deleted since: a pod that stops running stays until it is deleted.
pub handle_all-latest :
    (uid : String) (events : List InformerEvent) (p : RunningPodsCache)
    → lookup uid (handle_all events p).pods ≡ latest uid (lookup uid p.pods) events
unfolding handle_all handle latest
handle_all-latest uid [] p = refl
handle_all-latest uid (added obj ∷ events) p =
    handle_all-latest uid events (on_add_or_update obj p)
    ∙ ap (λ (k : Option Pod). latest uid k events) (on_add_or_update-lookup uid obj p)
handle_all-latest uid (updated old_obj new_obj ∷ events) p =
    handle_all-latest uid events (on_add_or_update new_obj p)
    ∙ ap (λ (k : Option Pod). latest uid k events) (on_add_or_update-lookup uid new_obj p)
handle_all-latest uid (deleted obj ∷ events) p =
    handle_all-latest uid events (on_delete obj p)
    ∙ ap (λ (k : Option Pod). latest uid k events) (on_delete-lookup uid obj p)

abbrev pub IsTracked : Pod → Type 0
IsTracked t = ((t.pod_ip == "") ≡ false) × (is_running t.phase ≡ true)

abbrev pub AllTracked : List (String × Pod) → Type 0
AllTracked = All (λ (e : String × Pod). IsTracked e.1 × (e.0 ≡ e.1.uid))

insert-AllTracked :
    (t : Pod) (pods : List (String × Pod))
    → IsTracked t
    → AllTracked pods
    → AllTracked (insert t.uid t pods)
unfolding insert
insert-AllTracked t [] h all = ((h, refl), tt)
insert-AllTracked t (e ∷ pods) h all = elim (Bool-cases (e.0 == t.uid)) [
  | inl same ↦ rw same ((h, refl), all.1)
  | inr new ↦ rw new (all.0, insert-AllTracked t pods h all.1)
]

delete-AllTracked :
    (uid : String) (pods : List (String × Pod)) → AllTracked pods → AllTracked (delete uid pods)
unfolding delete
delete-AllTracked uid [] all = tt
delete-AllTracked uid (e ∷ pods) all = elim (Bool-cases (e.0 == uid)) [
  | inl same ↦ rw same (delete-AllTracked uid pods all.1)
  | inr new ↦ rw new (all.0, delete-AllTracked uid pods all.1)
]

abbrev pub IsCache : RunningPodsCache → Type 0
IsCache p = IsTable p.pods × AllTracked p.pods

on_add_or_update-IsCache :
    (obj : Object) (p : RunningPodsCache) → IsCache p → IsCache (on_add_or_update obj p)
unfolding on_add_or_update
on_add_or_update-IsCache (pod t) p h =
    elim (Bool-cases (t.pod_ip == "" || not (is_running t.phase))) [
      | inl skipped ↦ rw skipped h
      | inr kept ↦ rw kept (
        insert-IsTable t.uid t p.pods h.0,
        insert-AllTracked t p.pods (ground arith, ground arith) h.1,
      )
    ]
on_add_or_update-IsCache (node t) p h = h
on_add_or_update-IsCache other p h = h

on_delete-IsCache : (obj : Object) (p : RunningPodsCache) → IsCache p → IsCache (on_delete obj p)
unfolding on_delete
on_delete-IsCache (pod t) p h =
    (delete-IsTable t.uid p.pods h.0, delete-AllTracked t.uid p.pods h.1)
on_delete-IsCache (node t) p h = h
on_delete-IsCache other p h = h

handle_all-IsCache :
    (events : List InformerEvent) (p : RunningPodsCache) → IsCache p → IsCache (handle_all events p)
unfolding handle_all handle
handle_all-IsCache [] p h = h
handle_all-IsCache (added obj ∷ events) p h =
    handle_all-IsCache events (on_add_or_update obj p) (on_add_or_update-IsCache obj p h)
handle_all-IsCache (updated old_obj new_obj ∷ events) p h =
    handle_all-IsCache events (on_add_or_update new_obj p) (on_add_or_update-IsCache new_obj p h)
handle_all-IsCache (deleted obj ∷ events) p h =
    handle_all-IsCache events (on_delete obj p) (on_delete-IsCache obj p h)

values-All : (pods : List (String × Pod)) → AllTracked pods → All IsTracked (values pods)
unfolding values
values-All [] h = tt
values-All (e ∷ pods) h = (h.0.0, values-All pods h.1)

-- After any events from the start, every pod that `Get` returns was last kept as a running pod
-- with an address.
get-IsTracked :
    (events : List InformerEvent) → All IsTracked (get (handle_all events new_running_pods_cache))
unfolding get
get-IsTracked events =
    values-All (handle_all events new_running_pods_cache).pods
      (handle_all-IsCache events new_running_pods_cache (tt, tt)).1
