-- ===== src/Exporter/NodeLaws.antt =====
-- What a looked up node adds to the metric of exporter/exporter.go.
use egressd.Prelude.{
  ◌≡◌, sym, ap, ◌∙◌, Bool, true, false, String, nat_comparable, string_comparable,
}
use egressd.Kube.{Pod, Node, not_found, to_many_objects, other_error, Result, ok, err, ok-inj}
use egressd.Exporter.{PodNetworkMetric}
use egressd.Exporter.Build.{get_node_zone, with_src_node, with_dst_node}

-- The zone and the name of a node that may not be known.
unfoldable pub zone_of : Result Node → String
zone_of (ok n) = get_node_zone n
zone_of (err e) = ""

unfoldable pub name_of : Result Node → String
name_of (ok n) = n.name
name_of (err e) = ""

unfoldable pub is_found : Result Pod → Bool
is_found (ok p) = true
is_found (err e) = false

module _ (a m : PodNetworkMetric) where
  pub with_src_node-ok :
      (r : Result Node)
      → a.src_zone ≡ ""
      → with_src_node r a ≡ ok m
      → record a { src_zone = zone_of r } ≡ m
  unfolding with_src_node zone_of
  with_src_node-ok (ok n) z e = ok-inj e
  with_src_node-ok (err not_found) z e =
      ap (λ (x : String). record a { src_zone = x }) (sym z) ∙ ok-inj e
  with_src_node-ok (err to_many_objects) z e = cc
  with_src_node-ok (err other_error) z e = cc

  pub with_dst_node-ok :
      (r : Result Node)
      → a.dst_node ≡ ""
      → a.dst_zone ≡ ""
      → with_dst_node r a ≡ ok m
      → record a { dst_node = name_of r; dst_zone = zone_of r } ≡ m
  unfolding with_dst_node zone_of name_of
  with_dst_node-ok (ok n) u z e = ok-inj e
  with_dst_node-ok (err not_found) u z e =
      ap (λ (x : String). record a { dst_node = x; dst_zone = "" }) (sym u)
      ∙ ap (λ (x : String). record a { dst_zone = x }) (sym z)
      ∙ ok-inj e
  with_dst_node-ok (err to_many_objects) u z e = cc
  with_dst_node-ok (err other_error) u z e = cc
