-- ===== src/Api/Handle/Refused.antt =====
-- Whom the paths of the administrator refuse: vpnpulse/api/app.py, with the middleware.
use vpn_pulse.Prelude.{
  ℕ, String, Bool, true, false, ◌≡◌, refl, ap, if◌then◌else◌, ◌&&◌, ◌||◌, ◌⊎◌, Bool-cases, ltb,
  string_eq, Option, none, some, List, Eq, ◌==◌, nat_eq, inl, inr,
}
use vpn_pulse.Store.Tables.{Database}
use vpn_pulse.Store.Sessions.{get_session}
use vpn_pulse.Api.Limiter.{Bucket, allow}
use vpn_pulse.Api.Guards.{
  Incoming, Verdict, rejected, rate_limited, handed_on, is_foreign, is_too_long, max_body, limit_of,
  client_address, check_body, answer_limit, check_limit, request_guards,
}
use vpn_pulse.Api.Routes.{Response, Drawn, Route, App}
use vpn_pulse.Api.Routes.Admission.{under_admin, is_admin, refusal, serve-under_admin}
use vpn_pulse.Api.Handle.{
  Answer, raw_problem, come_again, unprocessable, answered, after_guards, handle,
}

-- Where a route is known, it lies under /api/v1/admin.
abbrev pub leads_under_admin : Option Route → Bool
leads_under_admin none = true
leads_under_admin (some route) = under_admin route

-- The two problems of the middleware.
abbrev pub IsGuarded : ℕ → String → Type 0
IsGuarded status problem_code =
    ((status ≡ 403) × (problem_code ≡ "ORIGIN_REJECTED"))
    ⊎ ((status ≡ 413) × (problem_code ≡ "BODY_TOO_LARGE"))

-- An answer that lets nobody in: a foreign origin, a body that is too long, a client that asks too
-- often, a body that does not fit, or the refusal by the route.
abbrev pub IsRefusal : {View : Type 0} → Response View → Answer View → Type 0
IsRefusal r (raw_problem status problem_code) = IsGuarded status problem_code
IsRefusal r (come_again retry) = Unit
IsRefusal r unprocessable = Unit
IsRefusal r (answered response) = response ≡ r

abbrev IsVerdict : Verdict → Type 0
IsVerdict (rejected status problem_code) = IsGuarded status problem_code
IsVerdict (rate_limited retry) = Unit
IsVerdict handed_on = Unit

abbrev IsProblem : Option (ℕ × String) → Type 0
IsProblem none = Unit
IsProblem (some (status, problem_code)) = IsGuarded status problem_code

module _ {K : Type 0} ⦃e : Eq K⦄ (key_of : String → String → K) where
  answer_limit-IsVerdict : (r : Bool × ℕ × List (K × Bucket)) → IsVerdict (answer_limit key_of r).0
  answer_limit-IsVerdict (true, retry, buckets) = tt
  answer_limit-IsVerdict (false, retry, buckets) = tt

  check_limit-IsVerdict :
      (now : ℕ) (r : Incoming) (limit : Option ℕ) (buckets : List (K × Bucket))
      → IsVerdict (check_limit key_of now r limit buckets).0
  unfolding check_limit
  check_limit-IsVerdict now r none buckets = tt
  check_limit-IsVerdict now r (some limit) buckets =
      answer_limit-IsVerdict
        (allow 10000 limit now (key_of r.path (client_address r.peer r.forwarded)) buckets)

  check_body-IsProblem : (r : Incoming) → IsProblem (check_body r)
  unfolding check_body
  check_body-IsProblem r =
      elim (Bool-cases (r.method == "POST" || r.method == "PUT" || r.method == "PATCH")) [
        | inr m ↦ rw m tt
        | inl m ↦ elim (Bool-cases (is_foreign r.origin r.expected)) [
          | inl f ↦ rw (m, f) (inl (refl, refl))
          | inr f ↦ elim (Bool-cases (is_too_long r.content_length || ltb max_body r.body_length)) [
            | inl l ↦ rw (m, f, l) (inr (refl, refl))
            | inr l ↦ rw (m, f, l) tt
          ]
        ]
      ]

  request_guards-IsVerdict :
      (limits : Bool) (now : ℕ) (r : Incoming) (buckets : List (K × Bucket))
      → IsVerdict (request_guards key_of limits now r buckets).0
  unfolding request_guards
  request_guards-IsVerdict limits now r buckets = after_body (check_body r) (check_body-IsProblem r)
    where
      limit : Option ℕ
      limit = if limits && r.method == "POST" then limit_of r.path else none

      after_body :
          (found : Option (ℕ × String))
          → IsProblem found
          → let decided : Verdict × List (K × Bucket) = elim found [
            | some (status, problem_code) ↦ (rejected status problem_code, buckets)
            | none ↦ check_limit key_of now r limit buckets
          ] in
            IsVerdict decided.0
      after_body none h = check_limit-IsVerdict now r limit buckets
      after_body (some (status, problem_code)) h = h

  module _ {View : Type 0} (app : App View) (drawn : Drawn) (now : ℕ)
      (cookie authorization : Option String) (lang : String) (db : Database) where
    after_guards-IsRefusal :
        (route : Option Route) (verdict : Verdict)
        → leads_under_admin route ≡ true
        → is_admin (get_session app.settings db cookie now) ≡ false
        → IsVerdict verdict
        → let (db', answer) =
            after_guards key_of app drawn now cookie authorization lang db route verdict in
          (db' ≡ db) × IsRefusal (refusal (get_session app.settings db cookie now)) answer
    after_guards-IsRefusal route (rejected status problem_code) h k v = (refl, v)
    after_guards-IsRefusal route (rate_limited retry) h k v = (refl, tt)
    after_guards-IsRefusal none handed_on h k v = (refl, tt)
    after_guards-IsRefusal (some route) handed_on h k v =
        let same = serve-under_admin app drawn now cookie authorization lang db route h k in
        (
          ap (λ (x : Database × Response View). x.0) same,
          ap (λ (x : Database × Response View). x.1) same,
        )

    -- A request to a path under /api/v1/admin without a session of the administrator changes nothing
    -- in the database. The middleware answers it with 403 for a foreign origin, 413 for a body that is
    -- too long or 429, FastAPI answers 422 to a body that does not fit, and any other is answered by
    -- the route: 401 without a session in force, 403 with a session of another role.
    pub handle-under_admin :
        (limits : Bool) (incoming : Incoming) (route : Option Route) (buckets : List (K × Bucket))
        → leads_under_admin route ≡ true
        → is_admin (get_session app.settings db cookie now) ≡ false
        → let (db', answer, _) =
            handle key_of app drawn now cookie authorization lang db limits incoming route
              buckets in
          (db' ≡ db) × IsRefusal (refusal (get_session app.settings db cookie now)) answer
    unfolding handle
    handle-under_admin limits incoming route buckets h k =
        after_guards-IsRefusal route (request_guards key_of limits now incoming buckets).0 h k
          (request_guards-IsVerdict limits now incoming buckets)
