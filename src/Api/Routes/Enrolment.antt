-- ===== src/Api/Routes/Enrolment.antt =====
-- A probe enrols over the API: vpnpulse/api/app.py, `create_enrollment`, `enroll_probe` and
-- `probe_config` in a row.
use vpn_pulse.Prelude.{
  ==-refl, ℕ, ◌+◌, ◌*◌, ◌<◌, String, true, false, ◌≡◌, refl, sym, ap, ◌∙◌, Option, none, some, List,
  ◌==◌, string_eq, arith, Option-cases, inl, inr,
}
use mathlib.Core.Path.{subst}
use vpn_pulse.Prelude.Lists.{any, find}
use vpn_pulse.Clock.{seconds}
use vpn_pulse.Store.Tables.{Settings, Database}
use vpn_pulse.Store.Sessions.{Session, get_session}
use vpn_pulse.Store.Enrollments.{
  Enrollment, has_code, create_enrollment, consume_enrollment, usable, consumed,
}
use vpn_pulse.Store.Enrollments.Once.{consume_enrollment-create_enrollment, consume_enrollment_once}
use vpn_pulse.Store.Probes.{
  ProbeSummary, has_token, has_public_id, register_probe, probe_by_token, probe_targets,
}
use vpn_pulse.Store.Probes.Tokens.{probe_by_token-register_probe}
use vpn_pulse.Store.Retention.{audit}
use vpn_pulse.Api.Guards.{require_role, require_session, require_token, require_probe, strip_prefix}
use vpn_pulse.Api.Routes.{
  Response, reply, problem_details, Drawn, code, enrolled, config, enrollment_at, enroll_at,
  probe_config_at, App, guarded, is_given,
}
use vpn_pulse.Api.Routes.Serve.{audited, make_enrollment, answer_enroll, targets_of, serve}

module _ {View : Type 0} (app : App View) where
  -- The database in which an administrator's request for a code has been served.
  abbrev pub coded : Drawn → ℕ → String → List String → Database → Session → Database
  coded drawn now kind capabilities db session =
      (make_enrollment app drawn now kind capabilities db session).0

  -- The code of a kind that needs no server to run on is taken for a probe while it is in force.
  taken :
      (drawn : Drawn) (session : Session) (db : Database) (kind : String)
      (capabilities : List String) (now later : ℕ)
      → any (has_code (app.settings.sha drawn.secret)) db.enrollments ≡ false
      → later < now + seconds (60 * app.settings.enrollment_minutes)
      → (consume_enrollment app.settings
          (coded drawn now kind capabilities db session)
          drawn.secret
          later).1
        ≡ some (record { kind = kind; capabilities = capabilities; via_server_id = none })
  unfolding make_enrollment audited audit consume_enrollment create_enrollment
  taken drawn session db kind capabilities now later fresh in_force = ground (
    arith,
    consume_enrollment-create_enrollment app.settings db kind session.token drawn.secret
        capabilities none now later fresh,
    in_force,
  )

  -- What the device is told, and the database after it.
  abbrev pub enrolled_with : Drawn → String → ℕ → Enrollment → Database → Database × Response View
  enrolled_with device agent later e db =
      let (db', token, probe) =
        register_probe app.settings db e.kind e.capabilities agent e.via_server_id device.public_id
          device.secret device.prefix later in
      (db', reply 201 (enrolled token probe (targets_of app device later probe)))

  registered :
      (device : Drawn) (agent : String) (later : ℕ) (e : Enrollment)
      (r : Database × Option Enrollment)
      → r.1 ≡ some e
      → (e.kind == "abroad") ≡ false
      → answer_enroll app device later agent r ≡ enrolled_with device agent later e r.0
  unfolding answer_enroll
  registered device agent later e r h k =
      ap (λ (o : Option Enrollment). answer_enroll app device later agent (r.0, o)) h ∙ rw k

  turned_away :
      (device : Drawn) (agent : String) (later : ℕ) (e : Enrollment)
      (r : Database × Option Enrollment)
      → r.1 ≡ some e
      → (e.kind == "abroad") ≡ true
      → is_given e.via_server_id ≡ false
      → answer_enroll app device later agent r ≡ (r.0, problem_details 400 "ABROAD_VIA_REQUIRED")
  unfolding answer_enroll
  turned_away device agent later e r h k l =
      ap (λ (o : Option Enrollment). answer_enroll app device later agent (r.0, o)) h ∙ rw (k, l)

  unknown_code :
      (device : Drawn) (agent : String) (later : ℕ) (r : Database × Option Enrollment)
      → r.1 ≡ none
      → (answer_enroll app device later agent r).1 ≡ problem_details 401 "ENROLLMENT_INVALID"
  unfolding answer_enroll
  unknown_code device agent later (db, none) h = refl
  unknown_code device agent later (db, some e) h = cc

consume_enrollment-probes :
    (s : Settings) (db : Database) (secret : String) (now : ℕ)
    → (consume_enrollment s db secret now).0.probes ≡ db.probes
unfolding consume_enrollment consumed
consume_enrollment-probes s db secret now =
    elim (Option-cases (usable now (find (has_code (s.sha secret)) db.enrollments))) [
      | inl h ↦ rw h
      | inr (e, h) ↦ rw h
    ]

-- The configuration that the owner of a token reads.
probe_config_of :
    {View : Type 0} (app : App View) (device : Drawn) (latest : ℕ) (cookie : Option String)
    (header lang : String) (db : Database) (token : String) (p : ProbeSummary)
    → strip_prefix "Bearer " header ≡ some token
    → probe_by_token app.settings db token ≡ some p
    → serve app device latest cookie (some header) lang db probe_config_at
      ≡ (db, reply 200 (config (probe_targets app.servers p.kind p.via_server_id)))
unfolding serve require_probe require_token guarded targets_of
probe_config_of app device latest cookie header lang db token p bearer found =
    ground (arith, bearer, found)

-- The request of an administrator for a code is handed to `make_enrollment`.
asked_for :
    {View : Type 0} (app : App View) (drawn : Drawn) (now : ℕ)
    (cookie authorization : Option String) (lang : String) (session : Session) (db : Database)
    (kind : String) (capabilities : List String)
    → get_session app.settings db cookie now ≡ some session
    → session.identity.role ≡ "admin"
    → serve app drawn now cookie authorization lang db (enrollment_at kind capabilities)
      ≡ make_enrollment app drawn now kind capabilities db session
unfolding serve require_session require_role guarded string_eq
asked_for app drawn now cookie authorization lang session db kind capabilities h role =
    rw (h, role) refl

module _ {View : Type 0} (app : App View) (drawn device : Drawn) (session : Session)
    (db : Database) where
  module _ (token authorization : Option String) (lang : String) where
    -- What the three answers are, from the answer to the administrator on.
    abbrev pub IsEnrolled :
        String → List String → String → String → ℕ → ℕ → ℕ → Database × Response View → Type 0
    IsEnrolled kind capabilities agent header now later latest first =
        let second =
          serve app device later token authorization lang first.0 (enroll_at drawn.secret agent) in
        (first.1
          ≡ reply 201 (code drawn.secret (now + seconds (60 * app.settings.enrollment_minutes))))
        × ((p : ProbeSummary) × (p.id ≡ device.public_id)
            × (p.kind ≡ kind)
            × (second.1
                ≡ reply 201
                    (enrolled device.secret (some p) (probe_targets app.servers kind none))))
        × (serve app device latest token (some header) lang second.0 probe_config_at
            ≡ (second.0, reply 200 (config (probe_targets app.servers kind none))))

    IsEnrolled-coded :
        (kind agent header : String) (capabilities : List String) (now later latest : ℕ)
        → any (has_code (app.settings.sha drawn.secret)) db.enrollments ≡ false
        → any (has_token (app.settings.sha device.secret)) db.probes ≡ false
        → any (has_public_id device.public_id) db.probes ≡ false
        → later < now + seconds (60 * app.settings.enrollment_minutes)
        → (kind == "abroad") ≡ false
        → strip_prefix "Bearer " header ≡ some device.secret
        → IsEnrolled kind capabilities agent header now later latest
            (make_enrollment app drawn now kind capabilities db session)
    unfolding serve make_enrollment audited audit create_enrollment register_probe targets_of
    IsEnrolled-coded kind agent header capabilities now later latest fresh_code fresh_token
          fresh_name in_force at_home bearer =
        let e : Enrollment = record {
          kind = kind;
          capabilities = capabilities;
          via_server_id = none;
        } in
        let r =
          consume_enrollment app.settings (coded app drawn now kind capabilities db session)
            drawn.secret later in
        let same : r.0.probes ≡ db.probes =
          consume_enrollment-probes app.settings (coded app drawn now kind capabilities db session)
            drawn.secret later in
        let done : answer_enroll app device later agent r
            ≡ enrolled_with app device agent later e r.0 =
          registered app device agent later e r
            (taken app drawn session db kind capabilities now later fresh_code in_force) at_home in
        let (by_token, (m, is_m, m_id, m_kind, _, m_via)) =
          probe_by_token-register_probe app.settings r.0 kind agent device.public_id device.secret
            device.prefix capabilities none later (rw same fresh_token) (rw same fresh_name) in
        let found : probe_by_token app.settings (answer_enroll app device later agent r).0
              device.secret
            ≡ some m =
          ap (λ (x : Database × Response View). probe_by_token app.settings x.0 device.secret) done
          ∙ by_token
          ∙ is_m in
        (
          refl,
          (
            m,
            m_id,
            m_kind,
            ap (λ (x : Database × Response View). x.1) done ∙ rw (is_m, m_kind, m_via) refl,
          ),
          probe_config_of app device latest token header lang
                (answer_enroll app device later agent r).0 device.secret m bearer found
              ∙ rw (m_kind, m_via),
        )

    -- A probe that is not abroad enrols over the API. An administrator asks for a code for its kind and
    -- is told the code and when it expires; the device that sends the code before that is told its
    -- token, its summary with that kind, and every enabled server with the checks of the kind; and a
    -- request for the configuration that carries the token is answered with the same servers. The
    -- code, the token and the name that the process draws must be new to their tables.
    pub enroll_at-probe_config_at :
        (cookie : Option String) (kind agent header : String) (capabilities : List String)
        (now later latest : ℕ)
        → get_session app.settings db cookie now ≡ some session
        → session.identity.role ≡ "admin"
        → any (has_code (app.settings.sha drawn.secret)) db.enrollments ≡ false
        → any (has_token (app.settings.sha device.secret)) db.probes ≡ false
        → any (has_public_id device.public_id) db.probes ≡ false
        → later < now + seconds (60 * app.settings.enrollment_minutes)
        → (kind == "abroad") ≡ false
        → strip_prefix "Bearer " header ≡ some device.secret
        → IsEnrolled kind capabilities agent header now later latest
            (serve app drawn now cookie authorization lang db (enrollment_at kind capabilities))
    enroll_at-probe_config_at cookie kind agent header capabilities now later latest in_session role
          fresh_code fresh_token fresh_name in_force at_home bearer =
        subst (IsEnrolled kind capabilities agent header now later latest)
          (sym (
            asked_for app drawn now cookie authorization lang session db kind capabilities
              in_session role))
          (IsEnrolled-coded kind agent header capabilities now later latest fresh_code fresh_token
            fresh_name in_force at_home bearer)

    -- A code for the kind "abroad" that an administrator was given over the API enrols nobody,
    -- while it is in force and new to the table: the first probe that sends it is told that a
    -- server is missing, and the code is used up, so whoever sends it next is told that it is
    -- invalid.
    pub enroll_at-abroad :
        (agent other : String) (capabilities : List String) (now later latest : ℕ)
        → any (has_code (app.settings.sha drawn.secret)) db.enrollments ≡ false
        → later < now + seconds (60 * app.settings.enrollment_minutes)
        → let (db', answer) =
            serve app device later token authorization lang
              (coded app drawn now "abroad" capabilities db session)
              (enroll_at drawn.secret agent) in
          (answer ≡ problem_details 400 "ABROAD_VIA_REQUIRED")
          × ((serve app device latest token authorization lang db' (enroll_at drawn.secret other)).1
              ≡ problem_details 401 "ENROLLMENT_INVALID")
    unfolding serve
    enroll_at-abroad agent other capabilities now later latest fresh in_force =
        let db' = coded app drawn now "abroad" capabilities db session in
        let e : Enrollment = record {
          kind = "abroad";
          capabilities = capabilities;
          via_server_id = none;
        } in
        let used = taken app drawn session db "abroad" capabilities now later fresh in_force in
        let r = consume_enrollment app.settings db' drawn.secret later in
        let first =
          turned_away app device agent later e r used (==-refl {A = String} "abroad") refl in
        let again = consume_enrollment_once app.settings db' drawn.secret later latest e used in
        (
          ap (λ (x : Database × Response View). x.1) first,
          ap
                (λ (x : Database × Response View).
                  (answer_enroll app device latest other
                    (consume_enrollment app.settings x.0 drawn.secret latest)).1)
                first
              ∙ unknown_code app device other latest
                  (consume_enrollment app.settings r.0 drawn.secret latest) again,
        )
