-- ===== src/Server/Metrics.antt =====
-- app/include/server/metrics/metrics.hpp: 64-bit counters, which wrap.
use my_server.Common.{ℕ, ◌+◌, ◌-◌, ◌%◌, ◌^◌}

abbrev pub u64 : ℕ
u64 = 2 ^ 64

-- `fetch_add(1)` and `fetch_sub(1)`.
abbrev pub fetch_add : ℕ → ℕ
fetch_add n = (n + 1) % u64

abbrev pub fetch_sub : ℕ → ℕ
fetch_sub n = (n + u64 - 1) % u64

pub record MetricsMixin : Type 0 where
  pub accepted : ℕ
  pub rejected_full : ℕ
  pub rejected_stopped : ℕ
  pub invalid : ℕ
  pub error : ℕ
  pub inflight : ℕ

abbrev pub no_metrics : MetricsMixin
no_metrics = record {
  accepted = 0;
  rejected_full = 0;
  rejected_stopped = 0;
  invalid = 0;
  error = 0;
  inflight = 0;
}

abbrev pub on_accepted : MetricsMixin → MetricsMixin
on_accepted m = record m { accepted = fetch_add m.accepted }

abbrev pub on_rejected_full : MetricsMixin → MetricsMixin
on_rejected_full m = record m { rejected_full = fetch_add m.rejected_full }

abbrev pub on_rejected_stopped : MetricsMixin → MetricsMixin
on_rejected_stopped m = record m { rejected_stopped = fetch_add m.rejected_stopped }

abbrev pub on_invalid : MetricsMixin → MetricsMixin
on_invalid m = record m { invalid = fetch_add m.invalid }

abbrev pub on_error : MetricsMixin → MetricsMixin
on_error m = record m { error = fetch_add m.error }

abbrev pub inflight_inc : MetricsMixin → MetricsMixin
inflight_inc m = record m { inflight = fetch_add m.inflight }

abbrev pub inflight_dec : MetricsMixin → MetricsMixin
inflight_dec m = record m { inflight = fetch_sub m.inflight }

pub record ServerMetrics : Type 0 where
  pub accepted_total : ℕ
  pub rejected_full_total : ℕ
  pub rejected_stopped_total : ℕ
  pub invalid_total : ℕ
  pub error_total : ℕ
  pub queue_depth_snapshot : ℕ
  pub inflight_snapshot : ℕ

unfoldable pub snapshot : MetricsMixin → ℕ → ServerMetrics
snapshot m queue_depth = record {
  accepted_total = m.accepted;
  rejected_full_total = m.rejected_full;
  rejected_stopped_total = m.rejected_stopped;
  invalid_total = m.invalid;
  error_total = m.error;
  queue_depth_snapshot = queue_depth;
  inflight_snapshot = m.inflight;
}
