-- ===== src/Api/Guards.antt =====
-- vpnpulse/api/app.py: what stands before the routes. The middleware takes the headers and the body
-- of a request; `require_session` and `require_probe` are called by the routes.
use vpn_pulse.Prelude.{
  ℕ, String, Bool, false, not, ◌&&◌, ◌||◌, Option, none, some, List, ltb, if◌then◌else◌, ◌==◌, Eq,
  string_eq, nat_eq,
}
use Prim.Native.Char.{code}
use vpn_pulse.Store.Tables.{Settings, Database}
use vpn_pulse.Store.Sessions.{Session, get_session}
use vpn_pulse.Store.Probes.{ProbeSummary, probe_by_token}
use vpn_pulse.Api.Limiter.{Bucket, allow}

-- A value, or a problem with its status and its code.
pub data Checked (A : Type 0) : Type 0 where
  passed : A → Checked A
  problem : ℕ → String → Checked A

abbrev pub max_body : ℕ
max_body = 65536

-- A request as the middleware reads it: `origin` and `expected` without the slashes at their ends,
-- the origin only where the header is there and not empty; `content_length` where the header is a
-- text of digits; the address of the peer and the first entry of x-forwarded-for, stripped.
pub record Incoming : Type 0 where
  pub method : String
  pub path : String
  pub origin : Option String
  pub expected : String
  pub content_length : Option ℕ
  pub body_length : ℕ
  pub peer : Option String
  pub forwarded : String

abbrev pub is_foreign : Option String → String → Bool
is_foreign none expected = false
is_foreign (some origin) expected = not (origin == expected)

abbrev pub is_too_long : Option ℕ → Bool
is_too_long none = false
is_too_long (some n) = ltb max_body n

unfoldable pub check_body : Incoming → Option (ℕ × String)
check_body r =
    if r.method == "POST" || r.method == "PUT" || r.method == "PATCH"
    then (if is_foreign r.origin r.expected
        then some (403, "ORIGIN_REJECTED")
        else if is_too_long r.content_length || ltb max_body r.body_length
        then some (413, "BODY_TOO_LARGE")
        else none)
    else none

-- `client_address`: the header of the proxy counts only when the proxy is on this machine.
unfoldable pub client_address : Option String → String → String
client_address none forwarded = "unknown"
client_address (some peer) forwarded =
    if peer == "127.0.0.1" && not (forwarded == "") then forwarded else peer

-- `limited`
unfoldable pub limit_of : String → Option ℕ
limit_of path =
    if path == "/api/v1/sessions"
    then some 60
    else if path == "/api/v1/probe/enroll"
    then some 20
    else if path == "/api/v1/probe/reports"
    then some 120
    else if path == "/api/v1/analytics/events:batch"
    then some 60
    else none

-- What the middleware comes to: it answers itself, or hands the request on.
pub data Verdict : Type 0 where
  rejected : ℕ → String → Verdict
  rate_limited : ℕ → Verdict
  handed_on : Verdict

module _ {K : Type 0} ⦃e : Eq K⦄ (key_of : String → String → K) where
  abbrev pub answer_limit : Bool × ℕ × List (K × Bucket) → Verdict × List (K × Bucket)
  answer_limit (allowed, retry, buckets) =
      ((if allowed then handed_on else rate_limited retry), buckets)

  unfoldable pub check_limit :
      ℕ → Incoming → Option ℕ → List (K × Bucket) → Verdict × List (K × Bucket)
  unfolding client_address
  check_limit now r none buckets = (handed_on, buckets)
  check_limit now r (some limit) buckets =
      answer_limit
        (allow 10000 limit now (key_of r.path (client_address r.peer r.forwarded)) buckets)

  unfoldable pub request_guards :
      Bool → ℕ → Incoming → List (K × Bucket) → Verdict × List (K × Bucket)
  unfolding check_body check_limit limit_of
  request_guards limits now r buckets = elim (check_body r) [
    | some (status, problem_code) ↦ (rejected status problem_code, buckets)
    | none ↦
        check_limit now r (if limits && r.method == "POST" then limit_of r.path else none) buckets
  ]

-- `require_session(token, role)`
unfoldable pub require_role : Option String → Option Session → Checked Session
require_role role none = problem 401 "SESSION_EXPIRED"
require_role none (some session) = passed session
require_role (some role) (some session) =
    if session.identity.role == role then passed session else problem 403 "ROLE_REQUIRED"

unfoldable pub require_session :
    Settings → Database → Option String → Option String → ℕ → Checked Session
unfolding require_role
require_session s db role token now = require_role role (get_session s db token now)

-- The rest of a text after a prefix, where the text starts with it.
unfoldable pub strip_prefix : String → String → Option String
strip_prefix String.[] t = some t
strip_prefix (String.◌∷◌ c p) String.[] = none
strip_prefix (String.◌∷◌ c p) (String.◌∷◌ d t) =
    let rest = strip_prefix p t in if code c == code d then rest else none

unfoldable pub require_token : Settings → Database → Option String → Checked ProbeSummary
require_token s db none = problem 401 "PROBE_TOKEN_REQUIRED"
require_token s db (some token) = elim (probe_by_token s db token) [
  | none ↦ problem 401 "PROBE_TOKEN_INVALID"
  | some probe ↦ passed probe
]

abbrev pub bearer_token : Option String → Option String
bearer_token none = none
bearer_token (some authorization) = strip_prefix "Bearer " authorization

unfoldable pub require_probe : Settings → Database → Option String → Checked ProbeSummary
unfolding require_token strip_prefix
require_probe s db authorization = require_token s db (bearer_token authorization)
