-- ===== src/Reading/Status/Overall.antt =====
-- What the overview promises: the state of the whole, and the star.
use vpn_pulse.Prelude.{
  ℕ, ◌≤◌, String, Bool, true, ◌≡◌, not, ◌&&◌, none, some, List, [], ◌∷◌, map, if◌then◌else◌, ◌==◌,
  string_eq, option_eq, arith, ltb,
}
use vpn_pulse.Prelude.Lists.{any, All}
use vpn_pulse.Domain.Models.{State, operational, state_eq}
use vpn_pulse.Domain.Recommender.{Loads, eligible}
use vpn_pulse.Domain.Choice.{recommend_server-eligible, eligible_as}
use vpn_pulse.Store.Tables.{Database}
use vpn_pulse.Alerts.Tables
use vpn_pulse.Reading.Cards.{ServerEntry, Card, card, servers_config}
use vpn_pulse.Reading.Status.{
  candidate, recommendation, finished, status, severity, worst, overall, greatest_priority,
}

worst-le : (best : State) (states : List State) → severity best ≤ severity (worst best states)
unfolding worst
worst-le best [] = omega arith
worst-le best (s ∷ states) =
    ground (arith, worst-le (if ltb (severity best) (severity s) then s else best) states)

abbrev state_of : Card → State
state_of c = c.state

abbrev worst_of : State → List Card → State
worst_of best cards = worst best (map state_of cards)

worst-All :
    (best : State) (cards : List Card)
    → All (λ c. severity (state_of c) ≤ severity (worst_of best cards)) cards
unfolding worst
worst-All best [] = tt
worst-All best (c ∷ cards) =
    let next = if ltb (severity best) (severity c.state) then c.state else best in
    (ground (arith, worst-le next (map state_of cards)), worst-All next cards)

worst-any :
    (best : State) (cards : List Card)
    → (if best == worst_of best cards
        then true
        else any (λ c. state_of c == worst_of best cards) cards)
      ≡ true
unfolding worst any
worst-any best [] = ground arith
worst-any best (c ∷ cards) = ground (arith, worst-any c.state cards, worst-any best cards)

-- The state of the whole is the worst of the cards' states, in the order operational, unknown,
-- degraded, unavailable: none is worse, and one has it.
pub overall-worst :
    (c : Card) (cards : List Card)
    → All (λ (d : Card). severity d.state ≤ severity (overall (c ∷ cards))) (c ∷ cards)
      × (any (λ (d : Card). d.state == overall (c ∷ cards)) (c ∷ cards) ≡ true)
unfolding overall any
overall-worst c cards =
    ((worst-le c.state (map state_of cards), worst-All c.state cards), worst-any c.state cards)

module _ (L : Loads) (float : ℕ → Loads.Load L) (silent_after : ℕ) where
  -- A card with the star of a server that is up.
  abbrev pub is_starred : String → Card → Bool
  is_starred id c =
      c.id == id && (c.recommended && (c.state == operational && not c.freshness.is_stale))

  starred :
      (db : Database) (alerts : Tables.Tables) (now top : ℕ) (lang id : String)
      (servers : List ServerEntry)
      → any (eligible_as L id) (
          map
            (λ (cfg : ServerEntry).
              candidate L float db alerts top cfg (card db alerts cfg now none))
            servers)
        ≡ true
      → any
          (is_starred id)
          (map (finished L float silent_after db alerts now lang (some id)) servers)
        ≡ true
  unfolding any eligible candidate card
  starred db alerts now top lang id [] h = h
  starred db alerts now top lang id (cfg ∷ servers) h =
      ground (arith, h, starred db alerts now top lang id servers)

  -- The server that `status` recommends is on the screen with the star, is shown as operational,
  -- and its evaluation is fresh.
  pub status-recommended :
      (db : Database) (alerts : Tables.Tables) (config : List ServerEntry) (now : ℕ)
      (lang id : String)
      → (status L float silent_after db alerts config now lang).recommended_server_id ≡ some id
      → any (is_starred id) (status L float silent_after db alerts config now lang).servers ≡ true
  unfolding status recommendation
  status-recommended db alerts config now lang id h =
      let servers = servers_config config in
      let found = recommend_server-eligible L _ none id h in
      rw h (starred db alerts now (greatest_priority servers) lang id servers found)
