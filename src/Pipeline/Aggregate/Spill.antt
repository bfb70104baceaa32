-- ===== src/Pipeline/Aggregate/Spill.antt =====
-- An observation just after the end of the window, whose text goes before the text of the end.
use mathlib.Core.Path.{subst}
use vpn_pulse.Prelude.{
  ℕ, ◌≤◌, ◌<◌, Bool, true, false, ◌&&◌, ◌≡◌, refl, sym, none, some, List, [], ◌∷◌, ◌==◌, ==-refl,
  string_eq, nat_eq, arith,
}
use vpn_pulse.Prelude.Lists.{select, any}
use vpn_pulse.Prelude.Tables.{delete_where}
use vpn_pulse.Prelude.Groups.{group_by}
use vpn_pulse.Clock.{text_le, text_lt}
use vpn_pulse.Store.Tables.{ObservationRow, Protocol, Database}
use vpn_pulse.Pipeline.Tables.{MetricHour}
use vpn_pulse.Pipeline.Aggregate.{
  hour, hour_of, connections_of, add_sample, samples_of, window_end, in_window, buckets_of,
  metric_row, is_replaced, same_hour, insert_hours, aggregate_protocol,
}
use vpn_pulse.Pipeline.Aggregate.Idempotence.{spills}

spills-in_window :
    (hours now t : ℕ)
    → spills now t ≡ true
    → 0 < hours
    → hour ≤ now
    → (in_window hours now t ≡ true) × (hour_of t ≡ window_end hours now)
unfolding text_le text_lt
spills-in_window hours now t h k l = (ground arith, ground arith)

end-not-in_window : (hours now : ℕ) → in_window hours now (window_end hours now) ≡ false
unfolding text_lt
end-not-in_window hours now = ground arith

select_one : {A : Type 0} (q : A → Bool) (x : A) → q x ≡ true → select q (x ∷ []) ≡ x ∷ []
unfolding select
select_one q x h = ground arith

module _ (interval hours now : ℕ) where
  buckets_of_spill :
      (db : Database) (p : Protocol) (o : ObservationRow) (v : ℕ)
      → db.observations ≡ o ∷ []
      → o.server_id ≡ p.server_id
      → o.source_kind ≡ "collector"
      → connections_of p.kind o.metrics.connections ≡ some v
      → in_window hours now o.observed_at ≡ true
      → buckets_of interval hours now db p ≡ (hour_of o.observed_at, (o.observed_at, v) ∷ []) ∷ []
  unfolding buckets_of samples_of add_sample group_by
  buckets_of_spill db p o v one server source value inside =
      let picked =
        select_one
          (λ (o : ObservationRow).
            o.server_id == p.server_id
            && o.source_kind == "collector"
            && in_window hours now o.observed_at)
          o (ground (arith, server, source, inside)) in
      rw (one, picked, value) refl

  -- When the one observation of the database is a value of the protocol and lies in the second after
  -- the window's end with a fraction, later than the first hour of the calendar and with a window of
  -- an hour at least, aggregating the protocol into an empty table succeeds and aggregating it again
  -- fails: the hour that begins is inserted, and a second run does not replace it.
  pub aggregate_protocol_spill :
      (db : Database) (p : Protocol) (o : ObservationRow) (v : ℕ)
      → db.observations ≡ o ∷ []
      → o.server_id ≡ p.server_id
      → o.source_kind ≡ "collector"
      → connections_of p.kind o.metrics.connections ≡ some v
      → spills now o.observed_at ≡ true
      → 0 < hours
      → hour ≤ now
      → (after : List MetricHour) × (aggregate_protocol interval hours now db p [] ≡ some after)
        × (aggregate_protocol interval hours now db p after ≡ none)
  unfolding aggregate_protocol insert_hours any delete_where
  aggregate_protocol_spill db p o v one server source value late some_hours later =
      let (inside, at_end) = spills-in_window hours now o.observed_at late some_hours later in
      let buckets = buckets_of_spill db p o v one server source value inside in
      let row = metric_row interval hours now p (hour_of o.observed_at, (o.observed_at, v) ∷ []) in
      let outside : in_window hours now (hour_of o.observed_at) ≡ false =
        subst (λ t. in_window hours now t ≡ false) (sym at_end) (end-not-in_window hours now) in
      let kept : is_replaced interval hours now p row ≡ false = ground (arith, outside) in
      let same : same_hour row row ≡ true =
        ground (arith, ==-refl row.bucket_at, ==-refl row.server_id, ==-refl row.protocol_id) in
      (row ∷ [], rw buckets refl, rw buckets (ground (arith, kept, same)))
