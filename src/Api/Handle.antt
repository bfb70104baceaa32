-- ===== src/Api/Handle.antt =====
-- A request from the middleware to its answer: vpnpulse/api/app.py, `request_guards` before the
-- routes. The path that the middleware reads and the route are given side by side, and no route is
-- given for a body that does not fit the schema of its route, which FastAPI answers itself.
pub mod Refused
use vpn_pulse.Prelude.{ℕ, String, Bool, Option, none, some, List, Eq}
use vpn_pulse.Store.Tables.{Database}
use vpn_pulse.Api.Limiter.{Bucket}
use vpn_pulse.Api.Guards.{Incoming, Verdict, rejected, rate_limited, handed_on, request_guards}
use vpn_pulse.Api.Routes.{Response, Drawn, Route, App}
use vpn_pulse.Api.Routes.Serve.{serve}

-- `raw_problem`, a route's answer, or FastAPI's 422; an answer of 429 says when to come again.
pub data Answer (View : Type 0) : Type 0 where
  raw_problem : ℕ → String → Answer View
  come_again : ℕ → Answer View
  unprocessable : Answer View
  answered : Response View → Answer View

module _ {View K : Type 0} ⦃e : Eq K⦄ (key_of : String → String → K) (app : App View)
    (drawn : Drawn) (now : ℕ) (cookie authorization : Option String) (lang : String)
    (db : Database) where
  abbrev pub to_route : Option Route → Database × Answer View
  to_route none = (db, unprocessable)
  to_route (some route) =
      let (db', response) = serve app drawn now cookie authorization lang db route in
      (db', answered response)

  -- `call_next` is called only where the middleware hands the request on.
  abbrev pub after_guards : Option Route → Verdict → Database × Answer View
  after_guards route (rejected status problem_code) = (db, raw_problem status problem_code)
  after_guards route (rate_limited retry) = (db, come_again retry)
  after_guards route handed_on = to_route route

  unfoldable pub handle :
      Bool
      → Incoming
      → Option Route
      → List (K × Bucket)
      → Database × Answer View × List (K × Bucket)
  unfolding request_guards serve
  handle limits incoming route buckets =
      let (verdict, buckets') = request_guards key_of limits now incoming buckets in
      let (db', answer) = after_guards route verdict in (db', answer, buckets')
