-- ===== src/Reading/Points.antt =====
-- storage/read_model.py: `_points` and `metrics`, the chart of a server. Its floats are exact
-- quotients here.
pub mod Buckets
use vpn_pulse.Prelude.{
  ℕ, zero, suc, ◌+◌, ◌-◌, ◌*◌, ◌/◌, min, String, Bool, true, false, not, ◌&&◌, Option, none, some,
  List, [], ◌∷◌, map, ltb, leb, if◌then◌else◌, ◌==◌, string_eq, nat_eq, option_eq,
}
use vpn_pulse.Prelude.Lists.{select, any, length}
use vpn_pulse.Prelude.Sorting.{sort}
use vpn_pulse.Clock.{second, seconds, text_le}
use vpn_pulse.Domain.Models.{Ratio, unknown}
use vpn_pulse.Domain.Models
use vpn_pulse.Store.Tables.{ObservationRow, Database}
use vpn_pulse.Pipeline.Tables.{MetricHour, State}
use vpn_pulse.Reading.Timeline.{Interval, timeline, state_at}
use vpn_pulse.Reading.Cards.{ServerEntry, server_config}
use vpn_pulse.Reading.Status.{known_values, sum}

pub record ChartPoint : Type 0 where
  pub at : ℕ
  pub state : Models.State
  -- the coverage, which is 1 or 0
  pub seen : Bool
  pub connections : Option ℕ

pub record Chart : Type 0 where
  pub server_id : String
  pub period : String
  pub coverage : Ratio
  pub points : List ChartPoint

abbrev pub step_of : String → ℕ
step_of period = if period == "24h" then seconds 1800 else seconds 3600

abbrev pub count_of : String → ℕ
count_of period = if period == "24h" then 48 else 168

-- `int(quotient)` cuts towards zero, so what is less than a step before the start falls into the
-- first bucket.
unfoldable pub bucket_of : ℕ → ℕ → ℕ → ℕ → Option ℕ
bucket_of start step count t =
    if ltb t start
    then (if ltb (start - t) step then some 0 else none)
    else if ltb ((t - start) / step) count
    then some ((t - start) / step)
    else none

abbrev pub in_bucket : ℕ → ℕ → ℕ → ℕ → ℕ → Bool
in_bucket start step count i t = bucket_of start step count t == some i

-- The rows of a server since the start, ORDER BY observed_at.
unfoldable pub rows_since : Database → String → ℕ → List ObservationRow
unfolding select sort
rows_since db server_id start =
    sort (λ (a b : ObservationRow). text_le a.observed_at b.observed_at)
      (select (λ (o : ObservationRow). o.server_id == server_id && text_le start o.observed_at)
        db.observations)

-- What a row of the collector adds to its bucket of the day: `sum(known)` where there is any.
abbrev pub with_sum : List ℕ → List Ratio → List Ratio
with_sum [] rest = rest
with_sum (n ∷ ns) rest = record { num = sum (n ∷ ns); den = 1 } ∷ rest

unfoldable pub day_values : List ObservationRow → List Ratio
unfolding known_values sum
day_values [] = []
day_values (o ∷ rows) = with_sum (known_values o.metrics.connections) (day_values rows)

unfoldable pub week_values : List MetricHour → List Ratio
week_values [] = []
week_values (m ∷ hours) =
    let rest = week_values hours in if m.samples == 0 then rest else m.avg ∷ rest

-- The values that bucket `i` collects.
unfoldable pub values_in : State → String → String → ℕ → ℕ → ℕ → ℕ → List Ratio
unfolding rows_since day_values week_values select bucket_of
values_in st server_id period start step count i =
    if period == "24h"
    then day_values (
        select
          (λ (o : ObservationRow).
            o.source_kind == "collector" && in_bucket start step count i o.observed_at)
          (rows_since st.db server_id start))
    else week_values (
        select
          (λ (m : MetricHour).
            m.server_id == server_id
            && text_le start m.bucket_at
            && in_bucket start step count i m.bucket_at)
          st.hourly)

unfoldable pub add_ratio : Ratio → Ratio → Ratio
add_ratio a b = record { num = a.num * b.den + b.num * a.den; den = a.den * b.den }

unfoldable pub sum_ratio : List Ratio → Ratio
unfolding add_ratio
sum_ratio [] = record { num = 0; den = 1 }
sum_ratio (r ∷ rs) = add_ratio r (sum_ratio rs)

-- `int(floor(sum / len + 0.5))`
unfoldable pub average : List Ratio → Option ℕ
unfolding sum_ratio
average [] = none
average (r ∷ rs) =
    let total = sum_ratio (r ∷ rs) in
    let n = length (r ∷ rs) in some ((2 * total.num + total.den * n) / (2 * (total.den * n)))

module _ (st : State) (server_id period : String) (now : ℕ) where
  abbrev pub start_of : ℕ
  start_of = now - step_of period * count_of period

  unfoldable pub is_seen : ℕ → Bool
  unfolding rows_since any bucket_of
  is_seen i =
      any
        (λ (o : ObservationRow).
          in_bucket start_of (step_of period) (count_of period) i o.observed_at)
        (rows_since st.db server_id start_of)

  unfoldable pub point_at : List Interval → ℕ → ChartPoint
  unfolding is_seen values_in average state_at
  point_at intervals i =
      let end = start_of + step_of period * i + step_of period in
      record {
        at = end;
        state =
            if is_seen i then state_at intervals (min (end - second) (now - second)) else unknown;
        seen = is_seen i;
        connections =
            average (values_in st server_id period start_of (step_of period) (count_of period) i);
      }

  -- The points from bucket `i` on, `n` of them.
  unfoldable pub points_upto : List Interval → ℕ → ℕ → List ChartPoint
  unfolding point_at
  points_upto intervals i zero = []
  points_upto intervals i (suc n) = point_at intervals i ∷ points_upto intervals (suc i) n

  unfoldable pub points : List ChartPoint
  unfolding points_upto timeline
  points = points_upto (timeline st.db st.alerts server_id start_of now) 0 (count_of period)

  unfoldable pub metrics : List ServerEntry → Option Chart
  unfolding points select
  metrics config = elim (server_config config server_id) [
    | none ↦ none
    | some cfg ↦ some (record {
      server_id = server_id;
      period = period;
      coverage = record {
        num = length (select (λ (p : ChartPoint). p.seen) points);
        den = length points;
      };
      points = points;
    })
  ]
