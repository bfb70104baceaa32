-- ===== src/Api/Analytics/Retry.antt =====
-- A client that sends a batch once more: vpnpulse/analytics.py, `accept_batch`.
use mathlib.Core.Path.{subst}
use mathlib.Core.Option.{some-injective}
use vpn_pulse.Prelude.{
  ℕ, ◌+◌, Bool, true, some, List, [], ◌∷◌, ◌&&◌, ◌≡◌, refl, if◌then◌else◌, ==-refl, string_eq,
  arith, Bool-cases, Option-cases, inl, inr, leb,
}
use vpn_pulse.Prelude.Lists.{length, any, any-append, All}
use vpn_pulse.Prelude.Tables.{insert_or_ignore, insert_or_ignore_clash}
use vpn_pulse.Store.Tables.{ProductEvent, Database}
use vpn_pulse.Api.Analytics.{Event, event_row, has_event, accept_events, accept_batch}

abbrev IsStored : List ProductEvent → Event → Type 0
IsStored table e = any (has_event e.event_id) table ≡ true

any-insert_or_ignore :
    (p clash : ProductEvent → Bool) (row : ProductEvent) (table : List ProductEvent)
    → any p table ≡ true
    → any p (insert_or_ignore clash row table) ≡ true
unfolding insert_or_ignore
any-insert_or_ignore p clash row table h = ground (arith, any-append p table (row ∷ []), h)

any-insert_or_ignore_new :
    (clash : ProductEvent → Bool) (row : ProductEvent) (table : List ProductEvent)
    → clash row ≡ true
    → any clash (insert_or_ignore clash row table) ≡ true
unfolding insert_or_ignore any
any-insert_or_ignore_new clash row table h = ground (arith, any-append clash table (row ∷ []), h)

module _ (valid : Event → Bool) (retention_days : ℕ) where
  -- Rows stay.
  accept_events_keep :
      (p : ProductEvent → Bool) (received_at : ℕ) (events : List Event) (table : List ProductEvent)
      (n : ℕ) {t : List ProductEvent} {m : ℕ}
      → accept_events valid retention_days received_at events table n ≡ some (t, m)
      → any p table ≡ true
      → any p t ≡ true
  unfolding accept_events
  accept_events_keep p received_at [] table n {t} {m} h k = ground (arith, h, k)
  accept_events_keep p received_at (e ∷ events) table n {t} {m} h k = ground (
    arith,
    h,
    any-insert_or_ignore p (has_event e.event_id) (event_row retention_days received_at e) table k,
    accept_events_keep p received_at events
        (insert_or_ignore (has_event e.event_id) (event_row retention_days received_at e) table)
        (if any (has_event e.event_id) table then n else n + 1) {t = t} {m = m},
  )

  abbrev IsDone : List ProductEvent → Event → Type 0
  IsDone table e = IsStored table e × (valid e ≡ true)

  accept_events-IsDone :
      (received_at : ℕ) (events : List Event) (table : List ProductEvent) (n : ℕ)
      {t : List ProductEvent} {m : ℕ}
      → accept_events valid retention_days received_at events table n ≡ some (t, m)
      → All (IsDone t) events
  unfolding accept_events
  accept_events-IsDone received_at [] table n h = tt
  accept_events-IsDone received_at (e ∷ events) table n {t} {m} h =
      let row = event_row retention_days received_at e in
      let inserted = insert_or_ignore (has_event e.event_id) row table in
      let count = if any (has_event e.event_id) table then n else n + 1 in
      elim (Bool-cases (valid e)) [
        | inr refused ↦ absurd (ground (arith, h, refused))
        | inl is_valid ↦
            let rest : accept_events valid retention_days received_at events inserted count
                ≡ some (t, m) =
              rw is_valid at h in
            let new =
              any-insert_or_ignore_new (has_event e.event_id) row table (==-refl e.event_id) in
            (
              (
                accept_events_keep (has_event e.event_id) received_at events inserted count rest
                    new,
                is_valid,
              ),
              accept_events-IsDone received_at events inserted count rest,
            )
      ]

  accept_events_again :
      (later : ℕ) (events : List Event) (table : List ProductEvent) (n : ℕ)
      → All (IsDone table) events
      → accept_events valid retention_days later events table n ≡ some (table, n)
  unfolding accept_events
  accept_events_again later [] table n h = refl
  accept_events_again later (e ∷ events) table n h = ground (
    arith,
    h.0.0,
    h.0.1,
    insert_or_ignore_clash (has_event e.event_id) (event_row retention_days later e) table h.0.0,
    accept_events_again later events table n h.1,
  )

  -- A batch that was accepted may be sent again at any time: it is accepted, no event of it counts
  -- as new, and the database is as it was.
  pub accept_batch_again :
      (received_at later : ℕ) (events : List Event) (db db' : Database) (n : ℕ)
      → accept_batch valid retention_days received_at events db ≡ some (db', n)
      → accept_batch valid retention_days later events db' ≡ some (db', 0)
  unfolding accept_batch
  accept_batch_again received_at later events db db' n h =
      elim (Bool-cases (leb 1 (length events) && leb (length events) 50)) [
        | inr size ↦ absurd (ground (arith, h, size))
        | inl size ↦
            elim (Option-cases
              (accept_events valid retention_days received_at events db.product_events 0)) [
                | inl e ↦ absurd (ground (arith, h, e))
                | inr ((t, m), e) ↦
                    let done = accept_events-IsDone received_at events db.product_events 0 e in
                    let again = accept_events_again later events t 0 done in
                    let same : (record db { product_events = t }, m) ≡ (db', n) =
                      some-injective (record db { product_events = t }, m) (db', n)
                        (rw (size, e) at h) in
                    subst
                      (λ (x : Database × ℕ).
                        accept_batch valid retention_days later events x.0 ≡ some (x.0, 0))
                      same (rw (size, again))
              ]
      ]
