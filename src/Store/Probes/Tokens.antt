-- ===== src/Store/Probes/Tokens.antt =====
-- The token of a probe, from `register_probe` to `revoke_probe`.
use text.Mathlib.TextEquality.{eq_iff}
use vpn_pulse.Prelude.{
  ℕ, String, false, ◌≡◌, ◌≢◌, refl, Option, none, some, List, [], ◌∷◌, ◌++◌, ==-refl, string_eq,
  arith, Option-cases, inl, inr,
}
use vpn_pulse.Prelude.Lists.{any, find, select}
use vpn_pulse.Prelude.Tables.{update_where, count_where, find-update_where, find-append_new}
use vpn_pulse.Store.Tables.{Settings, Probe, Database}
use vpn_pulse.Store.Probes.{
  ProbeSummary, has_public_id, summary_of, probe_summary, has_token, new_probe, register_probe,
  summary_unless_revoked, probe_by_token, revocable, revoke_probe,
}

active_ne_revoked : ◌≢◌ {A = String} "active" "revoked"
active_ne_revoked = ground (arith, eq_iff "active" "revoked")

module _ (s : Settings) where
  -- A probe that is registered under a fresh name and a fresh token is found by the token, and its
  -- summary is the one that was returned: active, with its kind and
  -- its place.
  pub probe_by_token-register_probe :
      (db : Database) (kind agent public_id token prefix : String) (capabilities : List String)
      (via : Option String) (now : ℕ)
      → any (has_token (s.sha token)) db.probes ≡ false
      → any (has_public_id public_id) db.probes ≡ false
      → let (db', t, summary) =
          register_probe s db kind capabilities agent via public_id token prefix now in
        (probe_by_token s db' t ≡ summary)
        × ((m : ProbeSummary) × (summary ≡ some m)
            × (m.id ≡ public_id)
            × (m.kind ≡ kind)
            × (m.status ≡ "active")
            × (m.via_server_id ≡ via))
  unfolding probe_by_token register_probe probe_summary summary_unless_revoked summary_of
  probe_by_token-register_probe db kind agent public_id token prefix capabilities via now t i =
      let row = new_probe s kind capabilities agent via public_id token prefix now in
      let db' = record db { probes = db.probes ++ row ∷ [] } in
      let by_token =
        find-append_new (has_token (s.sha token)) db.probes row t (==-refl (s.sha token)) in
      let by_name = find-append_new (has_public_id public_id) db.probes row i (==-refl public_id) in
      elim (Option-cases (probe_summary db' public_id)) [
        | inl e ↦ absurd (ground (arith, by_name, e))
        | inr (m, e) ↦ (
          ground (arith, by_token, active_ne_revoked),
          (
            m,
            e,
            ground (arith, by_name, e),
            ground (arith, by_name, e),
            ground (arith, by_name, e),
            ground (arith, by_name, e),
          ),
        )
      ]

  -- A revoked probe's token is worth nothing: after `revoke_probe` of a probe, a token that leads
  -- to a row with its name gives no probe.
  pub probe_by_token-revoke_probe :
      (db : Database) (public_id token : String) (now : ℕ) (p : Probe)
      → find (has_token (s.sha token)) db.probes ≡ some p
      → p.public_id ≡ public_id
      → probe_by_token s (revoke_probe db public_id now).0 token ≡ none
  unfolding probe_by_token revoke_probe summary_unless_revoked
  probe_by_token-revoke_probe db public_id token now p found named = ground (
    arith,
    find-update_where (has_token (s.sha token)) (revocable public_id)
        (λ (q : Probe). record q { status = "revoked"; revoked_at = some now }) db.probes
        (λ q. refl),
  )

  count_revoked :
      (public_id : String) (now : ℕ) (probes : List Probe)
      → count_where (revocable public_id) (
          update_where
            (revocable public_id)
            (λ (q : Probe). record q { status = "revoked"; revoked_at = some now })
            probes)
        ≡ 0
  unfolding count_where update_where select
  count_revoked public_id now [] = refl
  count_revoked public_id now (p ∷ ps) = ground (arith, count_revoked public_id now ps)

  -- A revocation takes effect once: a second one of the same probe reports that it changed nothing.
  pub revoke_probe_again :
      (db : Database) (public_id : String) (now later : ℕ)
      → (revoke_probe (revoke_probe db public_id now).0 public_id later).1 ≡ false
  unfolding revoke_probe
  revoke_probe_again db public_id now later = rw (count_revoked public_id now db.probes)
