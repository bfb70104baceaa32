-- ===== src/Domain/Ranking.antt =====
-- The order of the keys of `recommend_server` is total and transitive.
use vpn_pulse.Prelude.{true, false, ◌≡◌, refl, Option, none, some, string_eq, option_eq, arith}
use vpn_pulse.Prelude.Sorting.{IsOrder}
use vpn_pulse.Prelude.Texts.{text_leb-IsOrder}
use vpn_pulse.Domain.Recommender.{Loads, ServerCandidate, rank_leb, scores_leb, key_leb}

module _ (L : Loads) where
  open L use {Load, le, times_1_10}

  rank_leb-total : (a b : ServerCandidate Load) → rank_leb L a b ≡ false → rank_leb L b a ≡ true
  unfolding rank_leb
  rank_leb-total a b h = ground (arith, text_leb-IsOrder.total a.server_id b.server_id)

  rank_leb_trans :
      (a b c : ServerCandidate Load)
      → rank_leb L a b ≡ true
      → rank_leb L b c ≡ true
      → rank_leb L a c ≡ true
  unfolding rank_leb
  rank_leb_trans a b c h k =
      ground (arith, text_leb-IsOrder.trans a.server_id b.server_id c.server_id)

  module _ (o : IsOrder le) where
    scores_leb-total :
        (x y : Option Load) (a b : ServerCandidate Load)
        → scores_leb L x y a b ≡ false
        → scores_leb L y x b a ≡ true
    unfolding scores_leb
    scores_leb-total none none a b h = rank_leb-total a b h
    scores_leb-total none (some y) a b h = refl
    scores_leb-total (some x) none a b h = cc
    scores_leb-total (some x) (some y) a b h =
        ground (arith, o.total x y, o.total y x, rank_leb-total a b)

    scores_leb_trans :
        (x y z : Option Load) (a b c : ServerCandidate Load)
        → scores_leb L x y a b ≡ true
        → scores_leb L y z b c ≡ true
        → scores_leb L x z a c ≡ true
    unfolding scores_leb
    scores_leb_trans none none none a b c h k = rank_leb_trans a b c h k
    scores_leb_trans none none (some z) a b c h k = cc
    scores_leb_trans none (some y) z a b c h k = cc
    scores_leb_trans (some x) none none a b c h k = refl
    scores_leb_trans (some x) none (some z) a b c h k = cc
    scores_leb_trans (some x) (some y) none a b c h k = refl
    scores_leb_trans (some x) (some y) (some z) a b c h k =
        ground (arith, o.trans x y z, o.trans z x y, o.trans y z x, rank_leb_trans a b c)

    pub key_leb-IsOrder : IsOrder (key_leb L)
    unfolding key_leb
    key_leb-IsOrder = record {
      total = λ a b. scores_leb-total a.load_score b.load_score a b;
      trans = λ a b c. scores_leb_trans a.load_score b.load_score c.load_score a b c;
    }
