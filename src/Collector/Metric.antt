-- ===== src/Collector/Metric.antt =====
-- A descriptor and a constant metric of the Prometheus client. The help text is left out.
use process_exporter.Prelude.{◌≡◌, List, Text, length}

pub record Desc : Type 0 where
  pub fq_name : Text
  pub labels : List Text

pub data ValueType : Type 0 where
  gauge_value counter_value : ValueType

-- `prometheus.MustNewConstMetric(desc, valueType, value, labelValues...)`
pub record Metric (F : Type 0) : Type 0 where
  pub desc : Desc
  pub value_type : ValueType
  pub value : F
  pub label_values : List Text

-- As many label values as the descriptor has labels; otherwise `MustNewConstMetric` panics.
abbrev pub IsLabelled : {F : Type 0} → Metric F → Type 0
IsLabelled m = length m.label_values ≡ length m.desc.labels
