-- ===== src/Kube.antt =====
-- The Kubernetes objects that kube/*.go keeps, by the fields that the program reads or drops, and
-- `defaultTransformFunc` of kube/watcher.go. A time is in nanoseconds.
pub mod Running
pub mod RunningLaws
pub mod Nodes
pub mod ByIp
pub mod ByIpLaws
pub mod Cleanup
use egressd.Prelude.{
  ℕ, zero, suc, ◌+◌, ◌-◌, ◌*◌, ◌/◌, ◌%◌, ◌^◌, ◌≤◌, ◌<◌, ◌≡◌, refl, sym, ap, ◌∙◌, ◌≢◌, ◌↔◌, ◌⊎◌, inl,
  inr, Bool, true, false, not, ◌&&◌, ◌||◌, Option, none, some, List, [], ◌∷◌, ◌++◌, map, arith,
  String, ltb, leb, if◌then◌else◌, Comparable, ◌==◌, nat_comparable, string_comparable, nat_beq_iff,
  Bool-cases, Option-cases, length, sum_by, any, keep, All, length-append, sum_by-append,
  All-append, length-keep-le, keep-All, contains,
}

pub data Phase : Type 0 where
  pending running succeeded failed unknown : Phase

pub record Container : Type 0 where
  pub name : String
  pub ports : List (String × ℕ)

pub record Pod : Type 0 where
  pub uid : String
  pub name : String
  pub namespace : String
  pub managed_fields : List String
  pub labels : List (String × String)
  pub annotations : List (String × String)
  pub creation_timestamp : ℕ
  pub deletion_timestamp : Option ℕ
  pub node_name : String
  pub host_network : Bool
  pub containers : List Container
  pub pod_ip : String
  pub phase : Phase
  pub conditions : List String
  pub pod_ips : List String

pub data AddressType : Type 0 where
  internal_ip other_address : AddressType

pub record Node : Type 0 where
  pub name : String
  pub managed_fields : List String
  pub labels : List (String × String)
  pub addresses : List (AddressType × String)
  pub unschedulable : Bool
  pub capacity : List (String × String)

-- `interface{}`.
pub data Object : Type 0 where
  pod : Pod → Object
  node : Node → Object
  other : Object

-- What an informer tells its handlers.
pub data InformerEvent : Type 0 where
  added : Object → InformerEvent
  updated : Object → Object → InformerEvent
  deleted : Object → InformerEvent

pub data KubeError : Type 0 where
  not_found to_many_objects other_error : KubeError

pub data Result (A : Type 0) : Type 0 where
  ok : A → Result A
  err : KubeError → Result A

-- Everything but the listed fields is cleared.
unfoldable pub default_transform_func : Object → Option Object
default_transform_func (pod t) = some (
    pod (record t {
      managed_fields = [];
      containers = [];
      pod_ips = [];
      labels = [];
      annotations = [];
    }))
default_transform_func (node t) =
    some (node (record t { managed_fields = []; unschedulable = false; capacity = [] }))
default_transform_func other = none

value_or : {A : Type 0} → A → Result A → A
value_or a (ok b) = b
value_or a (err e) = a

pub ok-inj : {A : Type 0} {a b : A} → ok a ≡ ok b → a ≡ b
unfolding value_or
ok-inj {a = a} e = ap (value_or a) e
