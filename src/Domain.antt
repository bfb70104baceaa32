-- ===== src/Domain.antt =====
-- vpnpulse/domain: the evidence about a scope, what is concluded from it, and which server to take.
-- `Models` has the types of models.py; `Evaluator` and `Recommender` have the two functions of
-- evaluator.py; the other modules hold what is proved of them.
pub mod Models
pub mod Evaluator
pub mod Evidence
pub mod Verdict
pub mod Recommender
pub mod Ranking
pub mod Choice
