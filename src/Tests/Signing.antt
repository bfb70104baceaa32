-- ===== src/Tests/Signing.antt =====
-- A member signs in.
use vpn_pulse.Prelude.{string_eq}
use vpn_pulse.Prelude.{ℕ, ◌+◌, ◌≤◌, String, ◌≡◌, refl, ◌⊎◌, Option, some, List, [], ◌∷◌}
use vpn_pulse.Clock.{seconds}
use vpn_pulse.Store.Sessions.{Identity}
use vpn_pulse.Access.{
  Telegram, signed_in, dict_of, value_of, without, field_of, validate_telegram_init_data,
}
use vpn_pulse.Access.Genuine.{validate_telegram_init_data-signed_in}

abbrev pub telegram : Telegram
telegram = record {
  parse_qsl = λ text. some (("auth_date", "1") ∷ ("hash", "signature") ∷ ("user", "7") ∷ []);
  sign = λ text. "signature";
  time_of = λ text. some 1;
  user_id = λ text. some 7;
  role_for = λ user. some "member";
}

abbrev member : Identity
member = record { telegram_user_id = 7; role = "member" }

admitted : validate_telegram_init_data telegram 300000000 2000000 "data" ≡ signed_in member
unfolding validate_telegram_init_data string_eq
admitted = refl

validate_telegram_init_data-signed_in_example :
    (pairs : List (String × String)) × (t : ℕ) × (◌≡◌ {A = Option (List (String × String))}
      (some (("auth_date", "1") ∷ ("hash", "signature") ∷ ("user", "7") ∷ []))
      (some pairs))
    × (let signed = without "hash" (dict_of [] pairs) in
        (value_of "hash" (dict_of [] pairs) ≡ some "signature")
        × (field_of (λ text. some 1) (value_of "auth_date" signed) ≡ some t)
        × (seconds t ≤ 2000000 + seconds 30)
        × (2000000 ≤ seconds t + 300000000)
        × (field_of (λ text. some 7) (value_of "user" signed) ≡ some 7)
        × (◌≡◌ {A = Option String} (some "member") (some "member"))
        × ((◌≡◌ {A = String} "member" "member") ⊎ (◌≡◌ {A = String} "member" "admin")))
validate_telegram_init_data-signed_in_example =
    validate_telegram_init_data-signed_in telegram 300000000 2000000 "data" member admitted
