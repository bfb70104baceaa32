-- ===== src/Pipeline/Aggregate.antt =====
-- `Pipeline.aggregate_hourly`: the connections of each protocol in each complete hour.
pub mod Idempotence
pub mod Spill
use vpn_pulse.Prelude.{
  ℕ, ◌+◌, ◌-◌, ◌*◌, ◌/◌, max, min, String, Bool, true, false, ◌&&◌, not, Option, none, some, List,
  [], ◌∷◌, ◌++◌, map, if◌then◌else◌, ◌==◌, string_eq, nat_eq,
}
use vpn_pulse.Prelude.Lists.{length, select, any}
use vpn_pulse.Prelude.Groups.{group_by}
use vpn_pulse.Prelude.Tables.{delete_where}
use vpn_pulse.Clock.{text_le, text_lt}
use vpn_pulse.Store.Tables.{ObservationRow, Protocol, Database}
use vpn_pulse.Pipeline.Tables.{MetricHour, State}

abbrev pub hour : ℕ
hour = 3600000000

-- `replace(minute=0, second=0, microsecond=0)`
abbrev pub hour_of : ℕ → ℕ
hour_of t = t / hour * hour

-- `connections.get(kind)`, where null and a missing key are both None.
unfoldable pub connections_of : String → List (String × Option ℕ) → Option ℕ
connections_of kind [] = none
connections_of kind ((k, v) ∷ rest) = if k == kind then v else connections_of kind rest

-- `if value is None: continue`
unfoldable pub add_sample : ℕ → Option ℕ → List (ℕ × ℕ) → List (ℕ × ℕ)
add_sample at none rest = rest
add_sample at (some v) rest = (at, v) ∷ rest

-- The samples of a protocol: when they were observed, and the value.
unfoldable pub samples_of : String → List ObservationRow → List (ℕ × ℕ)
samples_of kind [] = []
samples_of kind (o ∷ os) =
    add_sample o.observed_at (connections_of kind o.metrics.connections) (samples_of kind os)

unfoldable pub sum_of : List (ℕ × ℕ) → ℕ
sum_of [] = 0
sum_of ((_, v) ∷ xs) = v + sum_of xs

-- `min(values)` and `max(values)`, with the value to begin with.
unfoldable pub least : ℕ → List (ℕ × ℕ) → ℕ
least m [] = m
least m ((_, v) ∷ xs) = least (min m v) xs

unfoldable pub greatest : ℕ → List (ℕ × ℕ) → ℕ
greatest m [] = m
greatest m ((_, v) ∷ xs) = greatest (max m v) xs

abbrev pub first_value : List (ℕ × ℕ) → ℕ
first_value [] = 0
first_value ((_, v) ∷ _) = v

-- PRIMARY KEY (bucket_at, server_id, protocol_id, metric)
abbrev pub same_hour : MetricHour → MetricHour → Bool
same_hour m r =
    r.bucket_at == m.bucket_at && r.server_id == m.server_id && r.protocol_id == m.protocol_id

-- `INSERT INTO metric_hourly`: nothing on an IntegrityError.
unfoldable pub insert_hours : List MetricHour → List MetricHour → Option (List MetricHour)
unfolding any
insert_hours [] hourly = some hourly
insert_hours (m ∷ ms) hourly =
    let inserted = insert_hours ms (hourly ++ m ∷ []) in
    if any (same_hour m) hourly then none else inserted

module _ (hours now : ℕ) where
  abbrev pub window_end : ℕ
  window_end = hour_of now

  abbrev pub window_start : ℕ
  window_start = window_end - hours * hour

  abbrev pub in_window : ℕ → Bool
  in_window t = text_le window_start t && text_lt t window_end

module _ (interval_seconds hours now : ℕ) where
  unfoldable pub buckets_of : Database → Protocol → List (ℕ × List (ℕ × ℕ))
  buckets_of db p =
      group_by (λ (at, _). hour_of at)
        (samples_of p.kind (
          select
            (λ (o : ObservationRow).
              o.server_id == p.server_id
              && o.source_kind == "collector"
              && in_window hours now o.observed_at)
            db.observations))

  abbrev pub metric_row : Protocol → ℕ × List (ℕ × ℕ) → MetricHour
  metric_row p (at, values) = record {
    bucket_at = at;
    server_id = p.server_id;
    protocol_id = p.id;
    min = least (first_value values) values;
    max = greatest (first_value values) values;
    avg = record { num = sum_of values; den = length values };
    samples = length values;
    unknown_seconds = 3600 - length values * interval_seconds;
  }

  abbrev pub is_replaced : Protocol → MetricHour → Bool
  is_replaced p m =
      m.server_id == p.server_id && m.protocol_id == p.id && in_window hours now m.bucket_at

  unfoldable pub aggregate_protocol :
      Database → Protocol → List MetricHour → Option (List MetricHour)
  aggregate_protocol db p hourly =
      insert_hours (map (metric_row p) (buckets_of db p)) (delete_where (is_replaced p) hourly)

  unfoldable pub aggregate_protocols :
      Database → List Protocol → List MetricHour → ℕ → Option (List MetricHour × ℕ)
  aggregate_protocols db [] hourly rows = some (hourly, rows)
  aggregate_protocols db (p ∷ ps) hourly rows = elim (aggregate_protocol db p hourly) [
    | none ↦ none
    | some hourly' ↦ aggregate_protocols db ps hourly' (rows + length (buckets_of db p))
  ]

  -- One transaction: an error leaves the table as it was.
  unfoldable pub aggregate_hourly : State → Option (List MetricHour × ℕ)
  aggregate_hourly st =
      aggregate_protocols st.db (select (λ (p : Protocol). p.enabled) st.db.protocols) st.hourly 0
