-- ===== src/Bot/Polling.antt =====
-- No update is answered twice, and the pauses are bounded: vpnpulse/bot.py.
use mathlib.Core.List.{append-nil, append_assoc}
use mathlib.Core.Path.{subst}
use vpn_pulse.Prelude.{
  sym, map, Bool-cases, inl, inr, ℕ, zero, suc, ◌+◌, ◌≤◌, ◌<◌, min, Bool, true, false, ◌≡◌, refl,
  ◌∙◌, ap, some, List, [], ◌∷◌, ◌++◌, leb, if◌then◌else◌, arith,
}
use vpn_pulse.Prelude.Lists.{All, length, select}
use vpn_pulse.Bot.{
  is_command, Update, Messenger, Bot, answer, answer_all, poll_once, replied, pauses, two_to,
}

-- The ids of the updates rise, from a bound on.
abbrev pub IsRising : ℕ → List Update → Type 0
IsRising from [] = Unit
IsRising from (u ∷ updates) = (from ≤ u.update_id) × IsRising (suc u.update_id) updates

-- The id after the last one.
unfoldable pub end_of : ℕ → List Update → ℕ
end_of from [] = from
end_of from (u ∷ updates) = end_of (suc u.update_id) updates

module _ (m : Messenger) where
  answer-offset :
      (bot : Bot) (n : ℕ) (u : Update) → (answer m bot n u).0.offset ≡ some (suc u.update_id)
  unfolding answer
  answer-offset bot n u = ground (arith, suc_of u.update_id)
    where
      suc_of : (k : ℕ) → k + 1 ≡ suc k
      suc_of k = omega arith

  answer_all-offset :
      (bot : Bot) (n from : ℕ) (updates : List Update)
      → bot.offset ≡ some from
      → (answer_all m bot n updates).0.offset ≡ some (end_of from updates)
  unfolding answer_all end_of
  answer_all-offset bot n from [] h = h
  answer_all-offset bot n from (u ∷ updates) h =
      answer_all-offset (answer m bot n u).0 (answer m bot n u).1 (suc u.update_id) updates
        (answer-offset bot n u)

  answer-addressed :
      (bot : Bot) (n : ℕ) (u : Update)
      → (answer m bot n u).0.addressed
        ≡ bot.addressed ++ (if is_command m u then u.chat_id ∷ [] else [])
  unfolding answer
  answer-addressed bot n u = elim (Bool-cases (is_command m u)) [
    | inl e ↦ rw e refl
    | inr e ↦ rw e (sym (append-nil bot.addressed))
  ]

  -- How many of the chats the replies reached.
  abbrev pub reached : List Update → ℕ
  reached updates =
      length (select (λ (u : Update). m.is_sent u.chat_id) (select (is_command m) updates))

  answer-count : (bot : Bot) (n : ℕ) (u : Update) → (answer m bot n u).1 ≡ n + reached (u ∷ [])
  unfolding answer select
  answer-count bot n u = ground arith

  reached-cons :
      (u : Update) (updates : List Update)
      → reached (u ∷ updates) ≡ reached (u ∷ []) + reached updates
  unfolding select
  reached-cons u updates = ground arith

  answer_all-count :
      (bot : Bot) (n : ℕ) (updates : List Update)
      → (answer_all m bot n updates).1 ≡ n + reached updates
  unfolding answer_all select
  answer_all-count bot n [] = omega arith
  answer_all-count bot n (u ∷ updates) =
      let (next, count) = answer m bot n u in
      omega
        (arith, answer_all-count next count updates, answer-count bot n u, reached-cons u updates)

  answer_all-addressed :
      (bot : Bot) (n : ℕ) (updates : List Update)
      → (answer_all m bot n updates).0.addressed
        ≡ bot.addressed ++ map (λ (u : Update). u.chat_id) (select (is_command m) updates)
  unfolding answer_all select
  answer_all-addressed bot n [] = sym (append-nil bot.addressed)
  answer_all-addressed bot n (u ∷ updates) =
      let (next, count) = answer m bot n u in
      let chats = map (λ (v : Update). v.chat_id) (select (is_command m) updates) in
      answer_all-addressed next count updates
      ∙ ap (λ (w : List ℕ). w ++ chats) (answer-addressed bot n u)
      ∙ append_assoc bot.addressed (if is_command m u then u.chat_id ∷ [] else []) chats
      ∙ ap (λ (w : List ℕ). bot.addressed ++ w) (ground arith)

end_of-le : (from : ℕ) (updates : List Update) → IsRising from updates → from ≤ end_of from updates
unfolding end_of
end_of-le from [] r = omega arith
end_of-le from (u ∷ updates) r = omega (arith, r.0, end_of-le (suc u.update_id) updates r.1)

IsRising-append :
    (from : ℕ) (updates more : List Update)
    → IsRising from (updates ++ more)
    → IsRising from updates × IsRising (end_of from updates) more
unfolding end_of
IsRising-append from [] more r = (tt, r)
IsRising-append from (u ∷ updates) more r =
    let (front, back) = IsRising-append (suc u.update_id) updates more r.1 in ((r.0, front), back)

select-rising :
    (offset from : ℕ) (updates : List Update)
    → offset ≤ from
    → IsRising from updates
    → select (λ (u : Update). leb offset u.update_id) updates ≡ updates
unfolding select
select-rising offset from [] h r = refl
select-rising offset from (u ∷ updates) h r =
    ground
      (arith, r.0, h, select-rising offset (suc u.update_id) updates (omega (arith, h, r.0)) r.1)

select-after :
    (from : ℕ) (updates more : List Update)
    → IsRising from (updates ++ more)
    → select (λ (u : Update). leb (end_of from updates) u.update_id) (updates ++ more) ≡ more
unfolding select end_of
select-after from [] more r = select-rising from from more (omega arith) r
select-after from (u ∷ updates) more r =
    let front = (IsRising-append (suc u.update_id) updates more r.1).0 in
    ground (
      arith,
      end_of-le (suc u.update_id) updates front,
      select-after (suc u.update_id) updates more r.1,
    )

from_zero : (n : ℕ) → 0 + n ≡ n
from_zero n = omega arith

module _ (m : Messenger) (get_updates : ℕ → List Update → List Update) (bot : Bot) (u : Update)
    (updates more : List Update) where
  -- Each update is taken once, if getUpdates hands out the updates from the offset on and their ids
  -- rise: after a poll that was handed some updates, the offset is such that the next one is handed
  -- exactly those that came since. `sendMessage` is called once for each command of the poll, in
  -- their order and for nothing else, and the poll returns how many of these calls succeeded; a reply
  -- that failed is not tried again.
  pub poll_once-next :
      ((offset : ℕ) (held : List Update)
        → get_updates offset held ≡ select (λ (v : Update). leb offset v.update_id) held)
      → IsRising 0 (u ∷ updates ++ more)
      → let (next, polled) = poll_once m bot (some (u ∷ updates)) in
        ((offset : ℕ) × (next.offset ≡ some offset)
          × (get_updates offset (u ∷ updates ++ more) ≡ more))
        × (next.addressed
            ≡ bot.addressed
              ++ map (λ (v : Update). v.chat_id) (select (is_command m) (u ∷ updates)))
        × (polled ≡ replied (reached m (u ∷ updates)))
  unfolding poll_once end_of answer_all
  poll_once-next from rising = (
    (
      end_of (suc u.update_id) updates,
      answer_all-offset m (answer m bot 0 u).0 (answer m bot 0 u).1 (suc u.update_id) updates
          (answer-offset m bot 0 u),
      from (end_of (suc u.update_id) updates) (u ∷ updates ++ more)
          ∙ select-after 0 (u ∷ updates) more rising,
    ),
    answer_all-addressed m bot 0 (u ∷ updates),
    ap replied (answer_all-count m bot 0 (u ∷ updates) ∙ from_zero (reached m (u ∷ updates))),
  )

two_to-pos : (n : ℕ) → 0 < two_to n
unfolding two_to
two_to-pos zero = omega arith
two_to-pos (suc n) = omega (arith, two_to-pos n)

pause_bounds : (n : ℕ) → (2 ≤ min 60 (two_to (suc n))) × (min 60 (two_to (suc n)) ≤ 60)
unfolding two_to
pause_bounds n = (omega (arith, two_to-pos n), omega arith)

-- However often the polls fail, the bot pauses for two seconds at least before the next one, so it
-- does not spin, and for a minute at most.
pub pauses-bound :
    (failures : ℕ) (polls : List Bool) → All (λ p. (2 ≤ p) × (p ≤ 60)) (pauses failures polls)
unfolding pauses
pauses-bound failures [] = tt
pauses-bound failures (false ∷ polls) = pauses-bound 0 polls
pauses-bound failures (true ∷ polls) = (
  subst (λ k. (2 ≤ min 60 (two_to k)) × (min 60 (two_to k) ≤ 60)) (count_of failures)
      (pause_bounds (min failures 5)),
  pauses-bound (min (failures + 1) 6) polls,
)
  where
    count_of : (n : ℕ) → suc (min n 5) ≡ min (n + 1) 6
    count_of n = omega arith
