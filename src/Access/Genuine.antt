-- ===== src/Access/Genuine.antt =====
-- Who is signed in.
use vpn_pulse.Prelude.{
  ℕ, ◌+◌, ◌≤◌, String, ◌||◌, ◌≡◌, ◌≢◌, refl, sym, ap, ◌∙◌, ◌⊎◌, Option, none, some, List, [], ltb,
  ◌==◌, string_eq, arith, Bool-cases, Option-cases, inl, inr,
}
use vpn_pulse.Clock.{seconds}
use vpn_pulse.Store.Sessions.{Identity}
use vpn_pulse.Access.{
  Telegram, SignIn, refused, signed_in, crashed, is_ascii, AuthError, malformed, hash_missing,
  invalid, expired, membership_required, dict_of, value_of, without, data_check_string, field_of,
  admit, check_age, check_hash, check_values, validate_telegram_init_data,
}

abbrev identity_or : Identity → SignIn → Identity
identity_or default (refused e) = default
identity_or default (signed_in id) = id
identity_or default crashed = default

signed_in_ne_refused : (id : Identity) (e : AuthError) → refused e ≢ signed_in id
signed_in_ne_refused id e h = cc

signed_in_ne_crashed : (id : Identity) → crashed ≢ signed_in id
signed_in_ne_crashed id h = cc

module _ (T : Telegram) (max_age now : ℕ) where
  admit_sound :
      (user : ℕ) (role : Option String) (id : Identity)
      → admit T max_age now user role ≡ signed_in id
      → (id.telegram_user_id ≡ user)
        × (role ≡ some id.role)
        × ((id.role ≡ "member") ⊎ (id.role ≡ "admin"))
  unfolding admit
  admit_sound user none id h = cc
  admit_sound user (some role) id h = elim (Bool-cases (role == "member" || role == "admin")) [
    | inl e ↦
        let same = ap (identity_or id) (rw e at h) in
        (
          sym (ap (λ (i : Identity). i.telegram_user_id) same),
          ap (λ (i : Identity). some i.role) same,
          ground (arith, ap (λ (i : Identity). i.role) same),
        )
    | inr e ↦ absurd (signed_in_ne_refused id membership_required (rw e at h))
  ]

  -- The times between which a time of sign-in counts.
  check_age_sound :
      (at user : Option ℕ) (id : Identity)
      → check_age T max_age now at user ≡ signed_in id
      → (t : ℕ) × (at ≡ some t)
        × (seconds t ≤ now + seconds 30)
        × (now ≤ seconds t + max_age)
        × (user ≡ some id.telegram_user_id)
        × (T.role_for id.telegram_user_id ≡ some id.role)
        × ((id.role ≡ "member") ⊎ (id.role ≡ "admin"))
  unfolding check_age
  check_age_sound none user id h = absurd (signed_in_ne_refused id malformed h)
  check_age_sound (some t) none id h = absurd (signed_in_ne_refused id malformed h)
  check_age_sound (some t) (some user) id h =
      elim (Bool-cases (ltb (now + seconds 30) (seconds t) || ltb (seconds t + max_age) now)) [
        | inl e ↦ absurd (signed_in_ne_refused id expired (rw e at h))
        | inr e ↦
            let (same, role, allowed) = admit_sound user (T.role_for user) id (rw e at h) in
            (
              t,
              refl,
              ground (arith, e),
              ground (arith, e),
              ap some (sym same),
              ap T.role_for same ∙ role,
              allowed,
            )
      ]

  check_hash_sound :
      (hash : Option String) (values : List (String × String)) (id : Identity)
      → check_hash T max_age now hash values ≡ signed_in id
      → (hash ≡ some (T.sign (data_check_string values)))
        × (check_age T max_age now
              (field_of T.time_of (value_of "auth_date" values))
              (field_of T.user_id (value_of "user" values))
            ≡ signed_in id)
  unfolding check_hash
  check_hash_sound none values id h = absurd (signed_in_ne_refused id hash_missing h)
  check_hash_sound (some received) values id h = elim (string_eq.dec received "") [
    | yes e ↦ absurd (signed_in_ne_refused id hash_missing (ground (arith, e)))
    | no n ↦ elim (Bool-cases (is_ascii received)) [
      | inr a ↦ absurd (signed_in_ne_crashed id (ground (arith, n, a)))
      | inl a ↦ elim (string_eq.dec received (T.sign (data_check_string values))) [
        | yes e ↦ (ap some e, ground (arith, n, a, e))
        | no m ↦ absurd (signed_in_ne_refused id invalid (ground (arith, n, a, m)))
      ]
    ]
  ]

  -- Whoever is signed in handed over data whose hash is the one that the bot token gives for the
  -- other values, signed in at a time at most half a minute ahead and at most `max_age` ago, and
  -- is the user of the data, to whom the membership gives the role of a member or an admin.
  pub validate_telegram_init_data-signed_in :
      (init_data : String) (id : Identity)
      → validate_telegram_init_data T max_age now init_data ≡ signed_in id
      → (pairs : List (String × String)) × (t : ℕ) × (T.parse_qsl init_data ≡ some pairs)
        × (let values = dict_of [] pairs in
            let signed = without "hash" values in
            (value_of "hash" values ≡ some (T.sign (data_check_string signed)))
            × (field_of T.time_of (value_of "auth_date" signed) ≡ some t)
            × (seconds t ≤ now + seconds 30)
            × (now ≤ seconds t + max_age)
            × (field_of T.user_id (value_of "user" signed) ≡ some id.telegram_user_id)
            × (T.role_for id.telegram_user_id ≡ some id.role)
            × ((id.role ≡ "member") ⊎ (id.role ≡ "admin")))
  unfolding validate_telegram_init_data check_values
  validate_telegram_init_data-signed_in init_data id h =
      elim (Option-cases (T.parse_qsl init_data)) [
        | inl e ↦ absurd (signed_in_ne_refused id malformed (rw e at h))
        | inr (pairs, e) ↦
            let signed = without "hash" (dict_of [] pairs) in
            let (genuine, later) =
              check_hash_sound (value_of "hash" (dict_of [] pairs)) signed id (rw e at h) in
            let (t, at, ahead, old, user, role, allowed) =
              check_age_sound (field_of T.time_of (value_of "auth_date" signed))
                (field_of T.user_id (value_of "user" signed)) id later in
            (pairs, t, e, (genuine, at, ahead, old, user, role, allowed))
      ]
