-- ===== src/Migrations.antt =====
-- vpnpulse/storage/database.py, `apply_migrations`: the SQL files by name, each run once.
pub mod Again
use vpn_pulse.Prelude.{
  ℕ, String, Bool, true, false, Option, none, some, List, [], ◌∷◌, ◌++◌, is_some, if◌then◌else◌,
  ◌==◌, nat_eq, string_eq, ◌≡◌, refl, arith,
}
use vpn_pulse.Prelude.Lists.{All}
use vpn_pulse.Prelude.Texts.{text_leb}
use vpn_pulse.Prelude.Sorting.{sort}

-- A file: its name, `int(path.name.split("_", 1)[0])`, and its text.
pub record File : Type 0 where
  pub name : String
  pub version : ℕ
  pub sql : String

pub record Applied : Type 0 where
  pub version : ℕ
  pub checksum : String

-- The database: what the scripts make of it, and the table `schema_migrations` without the times.
pub record Schema (S : Type 0) : Type 0 where
  pub content : S
  pub migrations : List Applied

pub data Outcome : Type 0 where
  done : Outcome
  -- RuntimeError: the file of a version that was applied is another one now
  checksum_changed : ℕ → Outcome
  -- what SQLite raises
  sql_failed : ℕ → Outcome

-- `applied.get(version)`
unfoldable pub checksum_of : ℕ → List Applied → Option String
checksum_of version [] = none
checksum_of version (a ∷ applied) =
    let rest = checksum_of version applied in if a.version == version then some a.checksum else rest

-- SHA-256; and `executescript`, which commits what it did before it failed.
module _ {S : Type 0} (sha256 : String → String) (execute : String → S → S × Bool) where
  -- The script of a new version and the row for it, which the primary key refuses when an earlier
  -- file of the same run had the version.
  unfoldable pub run_script : File → Schema S → Schema S × Bool
  run_script f schema =
      let (content, fine) = execute f.sql schema.content in
      if fine
      then (if is_some (checksum_of f.version schema.migrations)
          then (record schema { content = content }, false)
          else (
            record {
              content = content;
              migrations =
                  schema.migrations ++ record { version = f.version; checksum = sha256 f.sql } ∷ [];
            },
            true,
          ))
      else (record schema { content = content }, false)

  -- The loop, with the dict `applied`, which is read before it.
  unfoldable pub apply_files : List Applied → List File → Schema S → Outcome × Schema S
  unfolding run_script
  apply_files applied [] schema = (done, schema)
  apply_files applied (f ∷ files) schema = elim (checksum_of f.version applied) [
    | some checksum ↦
        let rest = apply_files applied files schema in
        if checksum == sha256 f.sql then rest else (checksum_changed f.version, schema)
    | none ↦
        let (next, fine) = run_script f schema in
        let rest = apply_files applied files next in
        if fine then rest else (sql_failed f.version, next)
  ]

  unfoldable pub apply_migrations : List File → Schema S → Outcome × Schema S
  unfolding apply_files sort
  apply_migrations files schema =
      apply_files schema.migrations (sort (λ (a b : File). text_leb a.name b.name) files) schema
