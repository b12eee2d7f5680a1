-- ===== src/Kube/Nodes.antt =====
-- `NodeByNameCache` and `NodeByIPCache` of kube/watcher.go: the index functions and `Get`. The
-- indexer of client-go is a parameter: what `ByIndex` returns, `none` for an error.
use egressd.Prelude.{
  ◌≤◌, ◌≡◌, refl, ◌⊎◌, inl, inr, Bool, true, false, Option, none, some, List, [], ◌∷◌, map, arith,
  String, nat_comparable, string_comparable, length, keep, All, keep-All, contains,
}
use egressd.Kube.{
  Node, Object, pod, node, other, AddressType, internal_ip, other_address, not_found, other_error,
  Result, ok, err,
}

-- The keys of an object, or an error for an object of another kind.
unfoldable pub node_name_index : Object → Option (List String)
node_name_index (node t) = some (t.name ∷ [])
node_name_index (pod t) = none
node_name_index other = none

unfoldable pub first_internal_ip : List (AddressType × String) → List String
first_internal_ip [] = []
first_internal_ip ((internal_ip, address) ∷ addresses) = address ∷ []
first_internal_ip ((other_address, address) ∷ addresses) = first_internal_ip addresses

unfoldable pub node_ip_index : Object → Option (List String)
node_ip_index (node t) = some (first_internal_ip t.addresses)
node_ip_index (pod t) = none
node_ip_index other = none

-- A `Get` returns a node or an error, or panics on `node.(*corev1.Node)`.
pub data Got : Type 0 where
  got : Result Node → Got
  type_assertion_panic : Got

-- The body that the two `Get`s have in common.
unfoldable pub get_single : Option (List Object) → Got
get_single none = got (err other_error)
get_single (some []) = got (err not_found)
get_single (some (node t ∷ [])) = got (ok t)
get_single (some (pod t ∷ [])) = type_assertion_panic
get_single (some (other ∷ [])) = type_assertion_panic
get_single (some (x ∷ y ∷ objects)) = got (err other_error)

unfoldable pub get_by_name : (by_index : String → Option (List Object)) → String → Got
get_by_name by_index node_name = get_single (by_index node_name)

unfoldable pub get_by_ip : (by_index : String → Option (List Object)) → String → Got
get_by_ip by_index node_ip = get_single (by_index node_ip)

-- The documented behaviour of `ByIndex` over a store of nodes: those among whose keys the key is.
abbrev pub has_key : (Object → Option (List String)) → String → Node → Bool
has_key index key n = elim (index (node n)) [ none ↦ false | some keys ↦ contains key keys ]

abbrev pub Indexes :
    (Object → Option (List String)) → List Node → (String → Option (List Object)) → Type 0
Indexes index nodes by_index =
    (key : String) → by_index key ≡ some (map node (keep (has_key index key) nodes))

-- The answer for the nodes that match: the node if it is the only one.
abbrev pub SingleAnswer : (Node → Type 0) → List Node → Got → Type 0
SingleAnswer P matching answer =
    ((matching ≡ []) × (answer ≡ got (err not_found)))
    ⊎ (((n : Node) × (matching ≡ n ∷ []) × P n × (answer ≡ got (ok n)))
        ⊎ ((2 ≤ length matching) × (answer ≡ got (err other_error))))

single-SingleAnswer :
    (P : Node → Type 0) (matching : List Node)
    → All P matching
    → SingleAnswer P matching (get_single (some (map node matching)))
unfolding get_single
single-SingleAnswer P [] h = inl (refl, refl)
single-SingleAnswer P (n ∷ []) h = inr (inl (n, refl, h.0, refl))
single-SingleAnswer P (n ∷ m ∷ rest) h = inr (inr (omega arith, refl))

All-map {ℓ κ μ} :
    {A : Type ℓ} (P : A → Type κ) (Q : A → Type μ) (xs : List A)
    → ((a : A) → P a → Q a)
    → All P xs
    → All Q xs
All-map P Q [] f h = tt
All-map P Q (x ∷ xs) f h = (f x h.0, All-map P Q xs f h.1)

named : (key : String) (n : Node) → has_key node_name_index key n ≡ true → n.name ≡ key
unfolding node_name_index
named key n h = ground (arith, string_comparable.same_iff n.name key)

located :
    (key : String) (n : Node)
    → has_key node_ip_index key n ≡ true
    → first_internal_ip n.addresses ≡ key ∷ []
unfolding node_ip_index first_internal_ip
located key n h = first_key n.addresses h
  where
    first_key :
        (addresses : List (AddressType × String))
        → contains key (first_internal_ip addresses) ≡ true
        → first_internal_ip addresses ≡ key ∷ []
    first_key [] h = cc
    first_key ((internal_ip, address) ∷ addresses) h =
        ground (arith, string_comparable.same_iff address key)
    first_key ((other_address, address) ∷ addresses) h = first_key addresses h

-- Over a store of nodes, the lookup by name answers with the node of that name if there is exactly
-- one, with ErrNotFound if there is none, with another error if there are several, and never
-- panics.
pub get_by_name-SingleAnswer :
    (nodes : List Node) (by_index : String → Option (List Object)) (key : String)
    → Indexes node_name_index nodes by_index
    → SingleAnswer
        (λ n. n.name ≡ key)
        (keep (has_key node_name_index key) nodes)
        (get_by_name by_index key)
unfolding get_by_name
get_by_name-SingleAnswer nodes by_index key h = rw (h key) (
    single-SingleAnswer _ _
      (All-map _ _ (keep (has_key node_name_index key) nodes) (named key) (keep-All _ nodes)))

-- The lookup by address likewise, where a node's address is its first internal one.
get_by_ip-SingleAnswer :
    (nodes : List Node) (by_index : String → Option (List Object)) (key : String)
    → Indexes node_ip_index nodes by_index
    → SingleAnswer
        (λ n. first_internal_ip n.addresses ≡ key ∷ [])
        (keep (has_key node_ip_index key) nodes)
        (get_by_ip by_index key)
unfolding get_by_ip
get_by_ip-SingleAnswer nodes by_index key h = rw (h key) (
    single-SingleAnswer _ _
      (All-map _ _ (keep (has_key node_ip_index key) nodes) (located key) (keep-All _ nodes)))
