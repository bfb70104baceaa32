-- ===== src/Alerts/Delivery.antt =====
-- What one run of `deliver_pending` does to the queue, whatever the messenger answers.
use vpn_pulse.Prelude.{
  ℕ, ◌+◌, ◌<◌, ◌*◌, String, Bool, true, false, ◌≡◌, refl, ◌∙◌, List, [], ◌∷◌, if◌then◌else◌, ◌==◌,
  contains, string_eq, arith,
}
use vpn_pulse.Prelude.Lists.{length, select, any, any-select}
use vpn_pulse.Prelude.Sorting.{by_key, any-sort, length-sort}
use vpn_pulse.Prelude.Tables.{count_where}
use vpn_pulse.Alerts.Tables.{Notification, queue_state_eq}
use vpn_pulse.Alerts.Queries.{seconds}
use vpn_pulse.Alerts.Repository.{by_id, mark_superseded, supersede_ids}
use vpn_pulse.Alerts.Worker.{
  Messenger, accepted, is_due, settle, due_rows, collapse, Counts, tally, deliver, deliver_all,
  deliver_pending,
}
use vpn_pulse.Alerts.Collapse.{listed-collapse, length-collapse, Distinct, collapse-Distinct}

-- Every due row of the queue has its id among those still to be handled.
abbrev Covered : ℕ → (String → Bool) → List Notification → Type 0
Covered now ids [] = Unit
Covered now ids (q ∷ qs) = (is_due now q ≡ true → ids q.id ≡ true) × Covered now ids qs

Covered-mark_superseded :
    (now : ℕ) (id : String) (ids : String → Bool) (queue : List Notification)
    → Covered now (λ k. if k == id then true else ids k) queue
    → Covered now ids (mark_superseded id queue)
unfolding mark_superseded is_due
Covered-mark_superseded now id ids [] h = tt
Covered-mark_superseded now id ids (q ∷ qs) h =
    (ground (arith, h.0), Covered-mark_superseded now id ids qs h.1)

later : (now backoff attempts : ℕ) → 0 < backoff → now < now + seconds (backoff * (attempts + 1))
later now backoff attempts h = grind arith

Covered-settle :
    (now backoff : ℕ) (ok : Bool) (row : Notification) (ids : String → Bool)
    (queue : List Notification)
    → 0 < backoff
    → Covered now (λ k. if row.id == k then true else ids k) queue
    → Covered now ids (settle backoff now ok row queue)
unfolding settle is_due
Covered-settle now backoff true row ids [] p h = tt
Covered-settle now backoff false row ids [] p h = tt
Covered-settle now backoff true row ids (q ∷ qs) p h =
    (ground (arith, h.0), Covered-settle now backoff true row ids qs p h.1)
Covered-settle now backoff false row ids (q ∷ qs) p h = (
  ground (arith, h.0, later now backoff row.attempts p),
  Covered-settle now backoff false row ids qs p h.1,
)

Covered-mono :
    (now : ℕ) (ids more : String → Bool) (queue : List Notification)
    → ((k : String) → ids k ≡ true → more k ≡ true)
    → Covered now ids queue
    → Covered now more queue
Covered-mono now ids more [] m h = tt
Covered-mono now ids more (q ∷ qs) m h =
    (λ due. m q.id (h.0 due), Covered-mono now ids more qs m h.1)

Covered-supersede_ids :
    (now : ℕ) (xs : List String) (ids : String → Bool) (queue : List Notification)
    → Covered now (λ k. if contains xs k then true else ids k) queue
    → Covered now ids (supersede_ids xs queue)
unfolding supersede_ids
Covered-supersede_ids now [] ids queue h = h
Covered-supersede_ids now (x ∷ xs) ids queue h =
    Covered-supersede_ids now xs ids (mark_superseded x queue) (
      Covered-mark_superseded now x (λ k. if contains xs k then true else ids k) queue
        (Covered-mono now _ _ queue (λ k e. ground arith) h))

Covered-due_rows :
    (now : ℕ) (queue : List Notification)
    → Covered now (λ k. any (λ q. if is_due now q then by_id k q else false) queue) queue
unfolding any
Covered-due_rows now [] = tt
Covered-due_rows now (q ∷ qs) =
    (λ due. ground arith, Covered-mono now _ _ qs (λ k e. ground arith) (Covered-due_rows now qs))

Covered-none :
    (now : ℕ) (queue : List Notification)
    → Covered now (λ k. false) queue
    → any (is_due now) queue ≡ false
unfolding any
Covered-none now [] h = refl
Covered-none now (q ∷ qs) h = ground (arith, h.0, Covered-none now qs h.1)

tally-counts :
    (ok : Bool) (n : Counts)
    → ((tally ok n).sent + (tally ok n).failed ≡ n.sent + n.failed + 1)
      × ((tally ok n).superseded ≡ n.superseded)
unfolding tally
tally-counts true n = omega arith
tally-counts false n = omega arith

module _ {M : Type 0} (send : Messenger M) (backoff now : ℕ) where
  Covered-deliver_all :
      (rows : List Notification) (m : M) (queue : List Notification) (n : Counts)
      → 0 < backoff
      → Covered now (λ k. any (by_id k) rows) queue
      → Covered now (λ k. false) (deliver_all send backoff now rows m queue n).2
  unfolding deliver_all deliver any
  Covered-deliver_all [] m queue n p h = h
  Covered-deliver_all (row ∷ rows) m queue n p h =
      let (reply, m') = send m row.template row.params row.destination in
      Covered-deliver_all rows m' (settle backoff now (accepted reply) row queue) _ p
        (Covered-settle now backoff (accepted reply) row (λ k. any (by_id k) rows) queue p h)

  -- With a back-off of at least a second, nothing is due any more after a run: every due row was
  -- sent, superseded, given up, or put off to a later instant, whatever the messenger did.
  pub deliver_pending-due :
      (m : M) (queue : List Notification)
      → 0 < backoff
      → any (is_due now) (deliver_pending send backoff now m queue).2 ≡ false
  unfolding deliver_pending due_rows any
  deliver_pending-due m queue p =
      let rows = due_rows now queue in
      let (newest, dropped) = collapse [] [] rows in
      Covered-none now _ (
        Covered-deliver_all newest m (supersede_ids dropped queue) _ p (
          Covered-supersede_ids now dropped (λ k. any (by_id k) newest) queue
            (Covered-mono now _ _ queue (λ k e. kept k e) (Covered-due_rows now queue))))
    where
      kept :
          (k : String)
          → any (λ q. if is_due now q then by_id k q else false) queue ≡ true
          → (if contains (collapse [] [] (due_rows now queue)).1 k
              then true
              else any (by_id k) (collapse [] [] (due_rows now queue)).0)
            ≡ true
      kept k e =
          let rows = due_rows now queue in
          let found : any (by_id k) rows ≡ true =
            any-sort (by_key (λ (q : Notification). q.created_at)) (by_id k)
              (select (is_due now) queue)
            ∙ any-select (by_id k) (is_due now) queue
            ∙ e in
          ground (arith, listed-collapse k [] [] rows, found)

  deliver_all-counts :
      (rows : List Notification) (m : M) (queue : List Notification) (n : Counts)
      → let after = (deliver_all send backoff now rows m queue n).0 in
        (after.sent + after.failed ≡ n.sent + n.failed + length rows)
        × (after.superseded ≡ n.superseded)
  unfolding deliver_all deliver
  deliver_all-counts [] m queue n = omega arith
  deliver_all-counts (row ∷ rows) m queue n =
      let (reply, m') = send m row.template row.params row.destination in
      let queue' = settle backoff now (accepted reply) row queue in
      omega (
        arith,
        deliver_all-counts rows m' queue' (tally (accepted reply) n),
        tally-counts (accepted reply) n,
      )

  -- The counts that a run returns add up to the rows that were due.
  pub deliver_pending-counts :
      (m : M) (queue : List Notification)
      → let n = (deliver_pending send backoff now m queue).0 in
        n.sent + n.failed + n.superseded ≡ count_where (is_due now) queue
  unfolding deliver_pending count_where due_rows
  deliver_pending-counts m queue =
      let rows = due_rows now queue in
      let (newest, dropped) = collapse [] [] rows in
      omega (
        arith,
        deliver_all-counts newest m (supersede_ids dropped queue)
            (record { sent = 0; failed = 0; superseded = length dropped }),
        length-collapse [] [] rows,
        length-sort (by_key (λ (q : Notification). q.created_at)) (select (is_due now) queue),
      )

-- The rows that a run hands to the messenger: one at most for a scope and a destination.
pub collapse-due_rows-Distinct :
    (now : ℕ) (queue : List Notification) → Distinct (collapse [] [] (due_rows now queue)).0
collapse-due_rows-Distinct now queue = collapse-Distinct [] [] (due_rows now queue) tt
