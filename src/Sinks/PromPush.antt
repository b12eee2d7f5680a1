-- ===== src/Sinks/PromPush.antt =====
-- What `Push` of exporter/sinks/prom.go writes.
use egressd.Prelude.{ℕ, ◌≡◌, List, map, String, nat_comparable, string_comparable, All}
use egressd.Net.{NetAddr}
use egressd.Exporter.{PodNetworkMetric}
use egressd.Sinks.Prom.{NameOrder, Label, TimeSeries}
use egressd.Sinks.PromLaws.{AllLabelled}

module _ (net : NetAddr) (itoa : ℕ → String) (order : NameOrder) (custom : List Label) where
  -- One series for each metric, in order, with a value of the metric, at one time, and labelled.
  abbrev pub Carries :
      ℕ → String → (PodNetworkMetric → ℕ) → List PodNetworkMetric → List TimeSeries → Type 0
  Carries now name value items series =
      (map (λ (s : TimeSeries). s.value) series ≡ map value items)
      × All (λ (s : TimeSeries). s.time ≡ now) series
      × AllLabelled net itoa order custom name items series
