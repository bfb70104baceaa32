-- ===== src/Doctor/Summary/First.antt =====
-- What the doctor says first, and what of one section: vpnpulse/cli/doctor.py.
use vpn_pulse.Prelude.{
  ℕ, ◌≤◌, String, Bool, true, false, ◌≡◌, refl, sym, Option, none, some, List, [], ◌∷◌, ◌++◌,
  if◌then◌else◌, ◌==◌, string_eq, leb, arith, Bool-cases,
}
use mathlib.Core.Path.{subst}
use vpn_pulse.Prelude.Lists.{All, any, select}
use vpn_pulse.Prelude.Sorting.{sort, IsSorted, by_key-IsOrder, IsOrder, sort-IsSorted, select-sort}
use vpn_pulse.Reading.Cards.{ServerEntry}
use vpn_pulse.Reading.Overview.{Texts}
use vpn_pulse.Doctor.{
  Level, failure, warning, information, Check, is_failure, is_warning, is_finding, DoctorTexts,
  FileStatus,
}
use vpn_pulse.Doctor.Summary.{
  Storage, Surroundings, rank, by_state, result_of, command_of, summary_of, exit_code, local_checks,
  overview_checks, run_doctor, command_doctor,
}

-- The result is the state of the first item, and the next command is its command, if it is a finding.
abbrev pub IsLedBy : Level → Option String → List Check → Type 0
IsLedBy result next [] = (result ≡ information) × (next ≡ none)
IsLedBy result next (c ∷ items) =
    (result ≡ c.state) × (next ≡ (if is_finding c then some c.command else none))

-- Nothing in the list is worse than a level.
abbrev IsAtLeast : Level → List Check → Type 0
IsAtLeast level items = All (λ (c : Check). leb (rank level) (rank c.state) ≡ true) items

no_failure : (items : List Check) → IsAtLeast warning items → any is_failure items ≡ false
unfolding any is_failure rank
no_failure [] a = refl
no_failure (c ∷ items) a = ground (arith, a.0, no_failure items a.1)

no_finding :
    (items : List Check)
    → IsAtLeast information items
    → (any is_failure items ≡ false)
      × (any is_warning items ≡ false)
      × (select is_finding items ≡ [])
unfolding any is_failure is_warning is_finding rank select
no_finding [] a = (refl, refl, refl)
no_finding (c ∷ items) a =
    let rest = no_finding items a.1 in ground (arith, a.0, rest.0, rest.1, rest.2)

first_of_level :
    (check next command : String) (level : Level) (items : List Check)
    → IsAtLeast level items
    → IsLedBy
        (result_of
          (record { check = check; state = level; next = next; command = command } ∷ items))
        (command_of (
          select is_finding
            (record { check = check; state = level; next = next; command = command } ∷ items)))
        (record { check = check; state = level; next = next; command = command } ∷ items)
unfolding result_of select is_finding is_failure is_warning any
first_of_level check next command failure items a = (refl, refl)
first_of_level check next command warning items a = ground (arith, no_failure items a)
first_of_level check next command information items a =
    let rest = no_finding items a in ground (arith, rest.0, rest.1, rest.2)

first_of_sorted :
    (items : List Check)
    → IsSorted by_state items
    → IsLedBy (summary_of items).result (summary_of items).next_command (summary_of items).items
unfolding summary_of result_of any select
first_of_sorted [] s = (refl, refl)
first_of_sorted (c ∷ items) s = first_of_level c.check c.next c.command c.state items s.0

any-select_part :
    (p q : Check → Bool) (items : List Check) → any p (select q items) ≡ true → any p items ≡ true
unfolding any select
any-select_part p q [] h = h
any-select_part p q (c ∷ items) h = ground (arith, h, any-select_part p q items)

exit_code-part :
    (q : Check → Bool) (items : List Check)
    → exit_code (result_of (select q items)) ≤ exit_code (result_of items)
unfolding exit_code result_of
exit_code-part q items = ground (
  arith,
  any-select_part is_failure q items,
  any-select_part is_warning q items,
  Bool-cases (any is_failure items),
  Bool-cases (any is_warning items),
)

module _ (texts : DoctorTexts) (status : String → FileStatus) (place : String → String)
    (words : Texts) (silent_after interval : ℕ) (config : List ServerEntry) where
  is_order : IsOrder by_state
  is_order = by_key-IsOrder (λ (c : Check). rank c.state)

  found : ℕ → Surroundings → Storage → List Check
  found now around storage =
      overview_checks texts status place words silent_after interval config storage now
      ++ local_checks texts status place now around storage

  -- The doctor's result is the state of the first item it lists, which is the worst there is, or that
  -- all is well if it lists none; the next command is that of the first item, if it is a finding. With
  -- a section, this holds of the items of the section.
  pub command_doctor-first :
      (now : ℕ) (around : Surroundings) (storage : Storage) (section : Option String)
      → let s =
          (command_doctor texts status place words silent_after interval config now around storage
            section).1 in
        IsLedBy s.result s.next_command s.items
  unfolding command_doctor run_doctor summary_of found
  command_doctor-first now around storage none =
      first_of_sorted (sort by_state (found now around storage))
        (sort-IsSorted is_order (found now around storage))
  command_doctor-first now around storage (some section) =
      first_of_sorted
        (select (λ (c : Check). c.check == section) (sort by_state (found now around storage)))
        (subst (IsSorted by_state)
          (sym
            (select-sort is_order (λ (c : Check). c.check == section) (found now around storage)))
          (sort-IsSorted is_order
            (select (λ (c : Check). c.check == section) (found now around storage))))

  -- The exit code for one section is at most the one for all of them.
  command_doctor_section :
      (now : ℕ) (around : Surroundings) (storage : Storage) (section : String)
      → (command_doctor texts status place words silent_after interval config now around storage
          (some section)).0
        ≤ (command_doctor texts status place words silent_after interval config now around storage
            none).0
  unfolding command_doctor run_doctor summary_of found
  command_doctor_section now around storage section =
      exit_code-part (λ (c : Check). c.check == section) (sort by_state (found now around storage))
