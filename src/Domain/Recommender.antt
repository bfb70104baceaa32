-- ===== src/Domain/Recommender.antt =====
-- vpnpulse/domain/evaluator.py, `recommend_server`, and its candidates of models.py.
use vpn_pulse.Prelude.{
  ℕ, String, Bool, true, false, ◌&&◌, Option, none, some, List, [], ◌∷◌, ltb, if◌then◌else◌, ◌==◌,
  string_eq, option_eq,
}
use vpn_pulse.Prelude.Lists.{select, find}
use vpn_pulse.Prelude.Sorting.{sort}
use vpn_pulse.Prelude.Texts.{text_leb}
use vpn_pulse.Domain.Models.{Evaluation, operational, state_eq}

-- The floats that load scores are: `<=`, and `score * 1.10` as the machine rounds it.
pub record Loads : Type 1 where
  pub Load : Type 0
  pub le : Load → Load → Bool
  pub times_1_10 : Load → Load

pub record ServerCandidate (Load : Type 0) : Type 0 where
  pub server_id : String
  pub evaluation : Evaluation
  pub load_score : Option Load
  pub complete_protocol_coverage : Bool
  pub priority : ℕ

module _ (L : Loads) where
  open L use {Load, le, times_1_10}

  unfoldable pub eligible : ServerCandidate Load → Bool
  eligible item =
      item.evaluation.state == operational
      && ltb 0 item.evaluation.coverage.num
      && item.complete_protocol_coverage

  -- `-a.priority, a.server_id`, compared as tuples.
  unfoldable pub rank_leb : ServerCandidate Load → ServerCandidate Load → Bool
  rank_leb a b =
      if ltb b.priority a.priority
      then true
      else if ltb a.priority b.priority
      then false
      else text_leb a.server_id b.server_id

  -- The keys of two candidates, compared as tuples: known loads go before unknown ones.
  unfoldable pub scores_leb :
      Option Load → Option Load → ServerCandidate Load → ServerCandidate Load → Bool
  scores_leb none none a b = rank_leb a b
  scores_leb none (some _) a b = false
  scores_leb (some _) none a b = true
  scores_leb (some x) (some y) a b = if le x y then if le y x then rank_leb a b else true else false

  unfoldable pub key_leb : ServerCandidate Load → ServerCandidate Load → Bool
  unfolding scores_leb rank_leb
  key_leb a b = scores_leb a.load_score b.load_score a b

  -- Whether the previous server stays although `best` is first.
  unfoldable pub stays : Option Load → Option Load → Bool
  stays none b = true
  stays (some p) none = true
  stays (some p) (some b) = le p (times_1_10 b)

  unfoldable pub choose :
      Option (ServerCandidate Load) → List (ServerCandidate Load) → Option String
  unfolding stays
  choose previous [] = none
  choose none (best ∷ _) = some best.server_id
  choose (some previous) (best ∷ _) =
      if stays previous.load_score best.load_score
      then some previous.server_id
      else some best.server_id

  unfoldable pub recommend_server : List (ServerCandidate Load) → Option String → Option String
  recommend_server candidates previous_server_id =
      let items = select eligible candidates in
      choose (find (λ c. some c.server_id == previous_server_id) items) (sort key_leb items)
