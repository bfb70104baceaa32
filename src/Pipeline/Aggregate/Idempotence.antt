-- ===== src/Pipeline/Aggregate/Idempotence.antt =====
-- The hours of a protocol are replaced, never doubled.
use vpn_pulse.Prelude.{
  ℕ, String, Bool, true, false, not, ◌&&◌, ◌≡◌, refl, sym, ◌∙◌, ap, Option, none, some, List, [],
  ◌∷◌, ◌++◌, map, ==-refl, string_eq, nat_eq, arith, leb,
}
use mathlib.Core.List.{append-nil, append_assoc}
use mathlib.Core.Path.{subst}
use vpn_pulse.Prelude.Lists.{select, all, any}
use vpn_pulse.Prelude.Tables.{
  delete_where, delete_where-append, delete_where_again, delete_where-all,
}
use vpn_pulse.Prelude.Groups.{all_keys-group_by, NodupKeys, has_key, group_by-NodupKeys}
use vpn_pulse.Clock.{text_le, text_lt}
use vpn_pulse.Store.Tables.{ObservationRow, Protocol, Database}
use vpn_pulse.Pipeline.Tables.{MetricHour}
use vpn_pulse.Pipeline.Aggregate.{
  hour_of, connections_of, add_sample, samples_of, window_end, in_window, buckets_of, metric_row,
  is_replaced, same_hour, insert_hours, aggregate_protocol,
}

-- An instant with a fraction in the second that the window ends with: its text goes before that of
-- the end, so that it counts as one of the window.
abbrev pub spills : ℕ → ℕ → Bool
spills now t = leb (window_end 0 now) t && text_lt t (window_end 0 now)

-- A whole hour of a time in a window of whole hours lies in the window.
hour_of-in_window :
    (hours now t : ℕ)
    → (in_window hours now t && not (spills now t)) ≡ true
    → in_window hours now (hour_of t) ≡ true
unfolding text_le text_lt
hour_of-in_window hours now t h = ground arith

all-add_sample :
    (q : ℕ → Bool) (t : ℕ) (v : Option ℕ) (rest : List (ℕ × ℕ))
    → q t ≡ true
    → all (λ (at, _). q at) rest ≡ true
    → all (λ (at, _). q at) (add_sample t v rest) ≡ true
unfolding all add_sample
all-add_sample q t none rest h m = m
all-add_sample q t (some v) rest h m = ground arith

all-samples_of :
    (q : ℕ → Bool) (kind : String) (os : List ObservationRow)
    → all (λ (o : ObservationRow). q o.observed_at) os ≡ true
    → all (λ (at, _). q at) (samples_of kind os) ≡ true
unfolding all samples_of
all-samples_of q kind [] h = refl
all-samples_of q kind (o ∷ os) h =
    all-add_sample q o.observed_at (connections_of kind o.metrics.connections) _ (ground arith)
      (all-samples_of q kind os (ground arith))

all-select_implies :
    {A : Type 0} (p q r : A → Bool) (xs : List A)
    → ((x : A) → p x ≡ true → r x ≡ false → q x ≡ true)
    → any r xs ≡ false
    → all q (select p xs) ≡ true
unfolding all select any
all-select_implies p q r [] f h = refl
all-select_implies p q r (x ∷ xs) f h = ground (arith, all-select_implies p q r xs f, f x)

-- A key that passes a test on all keys.
all_keys_sound :
    {A : Type 0} (q : ℕ → Bool) (k : ℕ) (g : List (ℕ × List A))
    → all (λ (j, _). q j) g ≡ true
    → has_key k g ≡ true
    → q k ≡ true
unfolding all
all_keys_sound q k [] h m = ground arith
all_keys_sound q k ((j, _) ∷ g) h m = elim (nat_eq.dec j k) [
  | yes e ↦ subst (λ i. q i ≡ true) e (ground arith)
  | no n ↦ all_keys_sound q k g (ground arith) (ground (arith, n))
]

any-delete_where :
    {A : Type 0} (p d : A → Bool) (xs : List A)
    → ((x : A) → p x ≡ true → d x ≡ true)
    → any p (delete_where d xs) ≡ false
unfolding any delete_where
any-delete_where p d [] f = refl
any-delete_where p d (x ∷ xs) f = ground (arith, any-delete_where p d xs f, f x)

module _ (interval hours now : ℕ) where
  all-buckets_of :
      (db : Database) (p : Protocol)
      → any (λ (o : ObservationRow). spills now o.observed_at) db.observations ≡ false
      → all (λ (at, _). in_window hours now at) (buckets_of interval hours now db p) ≡ true
  unfolding buckets_of
  all-buckets_of db p h =
      all_keys-group_by (in_window hours now) (λ (at, _). hour_of at) _
        (all-samples_of (λ t. in_window hours now (hour_of t)) p.kind _
          (all-select_implies _ _ (λ (o : ObservationRow). spills now o.observed_at) db.observations
            (λ o m n. hour_of-in_window hours now o.observed_at (ground arith)) h))

  all_replaced :
      (p : Protocol) (buckets : List (ℕ × List (ℕ × ℕ)))
      → all (λ (at, _). in_window hours now at) buckets ≡ true
      → all (is_replaced interval hours now p) (map (metric_row interval hours now p) buckets)
        ≡ true
  unfolding all
  all_replaced p [] h = refl
  all_replaced p ((at, values) ∷ buckets) h =
      ground (arith, all_replaced p buckets, ==-refl p.server_id, ==-refl p.id)

  -- The hour of a row that was just added is another one.
  any_later :
      (p : Protocol) (j k : ℕ) (values : List (ℕ × ℕ)) (hourly : List MetricHour)
      → ¬ (j ≡ k)
      → any (same_hour (metric_row interval hours now p (k, []))) hourly ≡ false
      → any
          (same_hour (metric_row interval hours now p (k, [])))
          (hourly ++ metric_row interval hours now p (j, values) ∷ [])
        ≡ false
  unfolding any
  any_later p j k values [] n h = ground (arith, n)
  any_later p j k values (m ∷ ms) n h = ground (arith, any_later p j k values ms n)

  -- Hours that the table does not have, each once, are all inserted.
  insert_hours-total :
      (p : Protocol) (buckets : List (ℕ × List (ℕ × ℕ))) (hourly : List MetricHour)
      → NodupKeys buckets
      → ((k : ℕ)
          → has_key k buckets ≡ true
          → any (same_hour (metric_row interval hours now p (k, []))) hourly ≡ false)
      → insert_hours (map (metric_row interval hours now p) buckets) hourly
        ≡ some (hourly ++ map (metric_row interval hours now p) buckets)
  unfolding insert_hours
  insert_hours-total p [] hourly u f = ap some (sym (append-nil hourly))
  insert_hours-total p ((j, values) ∷ buckets) hourly u f =
      let row = metric_row interval hours now p (j, values) in
      let rest = insert_hours-total p buckets (hourly ++ row ∷ []) u.1 (λ k m.
        any_later p j k values hourly (λ e. ground (arith, ap (λ i. has_key i buckets) e))
          (f k (ground arith))) in
      rw (f j (ground (arith, ==-refl j)), rest) (ap some (append_assoc hourly (row ∷ []) _))

  -- When no observation lies in the second after the window's end with a fraction, aggregating a
  -- protocol succeeds, and doing so again succeeds and leaves the table as it was.
  pub aggregate_protocol_again :
      (db : Database) (p : Protocol) (hourly : List MetricHour)
      → any (λ (o : ObservationRow). spills now o.observed_at) db.observations ≡ false
      → (after : List MetricHour) × (aggregate_protocol interval hours now db p hourly ≡ some after)
        × (aggregate_protocol interval hours now db p after ≡ some after)
  unfolding aggregate_protocol buckets_of
  aggregate_protocol_again db p hourly h =
      let replaced = is_replaced interval hours now p in
      let buckets = buckets_of interval hours now db p in
      let rows = map (metric_row interval hours now p) buckets in
      let in_buckets = all-buckets_of db p h in
      let again : delete_where replaced (delete_where replaced hourly ++ rows)
          ≡ delete_where replaced hourly =
        delete_where-append replaced (delete_where replaced hourly) rows
        ∙ ap (λ (l : List MetricHour). l ++ delete_where replaced rows)
            (delete_where_again replaced hourly)
        ∙ ap (λ (l : List MetricHour). delete_where replaced hourly ++ l)
            (delete_where-all replaced rows (all_replaced p buckets in_buckets))
        ∙ append-nil _ in
      let once =
        insert_hours-total p buckets (delete_where replaced hourly) (group_by-NodupKeys _ _) (λ k m.
          any-delete_where _ replaced hourly
            (λ r e. ground (arith, all_keys_sound (in_window hours now) k buckets in_buckets m))) in
      (
        delete_where replaced hourly ++ rows,
        once,
        ap (λ (l : List MetricHour). insert_hours rows l) again ∙ once,
      )
