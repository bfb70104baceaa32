-- ===== src/Migrations/Again.antt =====
-- Applying the migrations twice: vpnpulse/storage/database.py, `apply_migrations`.
use mathlib.Core.Path.{subst}
use vpn_pulse.Prelude.{
  sym, ◌∙◌, ◌⊎◌, ℕ, String, Bool, true, none, some, List, [], ◌∷◌, ◌++◌, nat_eq, string_eq, ◌≡◌,
  refl, ap, arith, Option-cases, inl, inr,
}
use vpn_pulse.Prelude.Lists.{All}
use vpn_pulse.Prelude.Sorting.{sort}
use vpn_pulse.Prelude.Texts.{text_leb}
use vpn_pulse.Migrations.{
  File, Applied, Schema, Outcome, done, checksum_of, run_script, apply_files, apply_migrations,
}

checksum_of-append :
    (version : ℕ) (checksum : String) (applied more : List Applied)
    → checksum_of version applied ≡ some checksum
    → checksum_of version (applied ++ more) ≡ some checksum
unfolding checksum_of
checksum_of-append version checksum [] more h = cc
checksum_of-append version checksum (a ∷ applied) more h =
    ground (arith, h, checksum_of-append version checksum applied more)

checksum_of-append_new :
    (version : ℕ) (checksum : String) (applied : List Applied)
    → checksum_of version applied ≡ none
    → checksum_of version (applied ++ record { version = version; checksum = checksum } ∷ [])
      ≡ some checksum
unfolding checksum_of
checksum_of-append_new version checksum [] h = ground arith
checksum_of-append_new version checksum (a ∷ applied) h =
    ground (arith, h, checksum_of-append_new version checksum applied)

module _ {S : Type 0} (sha256 : String → String) (execute : String → S → S × Bool) where
  abbrev run : File → Schema S → Schema S × Bool
  run = run_script sha256 execute

  abbrev apply : List Applied → List File → Schema S → Outcome × Schema S
  apply = apply_files sha256 execute

  -- A version keeps its checksum.
  run_script-keep :
      (f : File) (schema : Schema S) (version : ℕ) (checksum : String)
      → checksum_of version schema.migrations ≡ some checksum
      → checksum_of version (run f schema).0.migrations ≡ some checksum
  unfolding run_script
  run_script-keep f schema version checksum h = ground (
    arith,
    h,
    checksum_of-append version checksum schema.migrations
        (record { version = f.version; checksum = sha256 f.sql } ∷ []),
  )

  run_script-new :
      (f : File) (schema : Schema S)
      → (run f schema).1 ≡ true
      → checksum_of f.version (run f schema).0.migrations ≡ some (sha256 f.sql)
  unfolding run_script
  run_script-new f schema h =
      ground (arith, h, checksum_of-append_new f.version (sha256 f.sql) schema.migrations)

  apply_files-keep :
      (applied : List Applied) (files : List File) (schema : Schema S) (version : ℕ)
      (checksum : String)
      → checksum_of version schema.migrations ≡ some checksum
      → checksum_of version (apply applied files schema).1.migrations ≡ some checksum
  unfolding apply_files
  apply_files-keep applied [] schema version checksum h = h
  apply_files-keep applied (f ∷ files) schema version checksum h = ground (
    arith,
    h,
    apply_files-keep applied files schema version checksum h,
    run_script-keep f schema version checksum h,
    apply_files-keep applied files (run f schema).0 version checksum,
  )

  abbrev IsApplied : List Applied → File → Type 0
  IsApplied applied f = checksum_of f.version applied ≡ some (sha256 f.sql)

  apply_files-known :
      (applied : List Applied) (f : File) (files : List File) (schema : Schema S)
      → checksum_of f.version applied ≡ some (sha256 f.sql)
      → apply applied (f ∷ files) schema ≡ apply applied files schema
  unfolding apply_files
  apply_files-known applied f files schema h = ground (arith, h)

  apply_files-new :
      (applied : List Applied) (f : File) (files : List File) (schema : Schema S)
      → checksum_of f.version applied ≡ none
      → (run f schema).1 ≡ true
      → apply applied (f ∷ files) schema ≡ apply applied files (run f schema).0
  unfolding apply_files
  apply_files-new applied f files schema h k = ground (arith, h, k)

  -- A run that ends well knows the first file's checksum, or has run its script.
  apply_files-first :
      (applied : List Applied) (f : File) (files : List File) (schema : Schema S)
      → (apply applied (f ∷ files) schema).0 ≡ done
      → (checksum_of f.version applied ≡ some (sha256 f.sql))
        ⊎ ((checksum_of f.version applied ≡ none) × ((run f schema).1 ≡ true))
  unfolding apply_files
  apply_files-first applied f files schema h = elim (Option-cases (checksum_of f.version applied)) [
    | inr (checksum, e) ↦ inl (ground (arith, h, e))
    | inl e ↦ inr (e, ground (arith, h, e))
  ]

  apply_files-done :
      (applied : List Applied) (files : List File) (schema : Schema S)
      → ((version : ℕ) (checksum : String)
          → checksum_of version applied ≡ some checksum
          → checksum_of version schema.migrations ≡ some checksum)
      → (apply applied files schema).0 ≡ done
      → All (IsApplied (apply applied files schema).1.migrations) files
  apply_files-done applied [] schema known h = tt
  apply_files-done applied (f ∷ files) schema known h =
      let Kept : Outcome × Schema S → Type 0 = λ x. All (IsApplied x.1.migrations) (f ∷ files) in
      elim (apply_files-first applied f files schema h) [
        | inl e ↦
            let step = apply_files-known applied f files schema e in
            subst Kept (sym step) (
              apply_files-keep applied files schema f.version (sha256 f.sql)
                  (known f.version (sha256 f.sql) e),
              apply_files-done applied files schema known
                  (sym (ap (λ (x : Outcome × Schema S). x.0) step) ∙ h),
            )
        | inr (e, fine) ↦
            let step = apply_files-new applied f files schema e fine in
            let next = (run f schema).0 in
            subst Kept (sym step) (
              apply_files-keep applied files next f.version (sha256 f.sql)
                  (run_script-new f schema fine),
              apply_files-done applied files next
                  (λ version checksum k.
                    run_script-keep f schema version checksum (known version checksum k))
                  (sym (ap (λ (x : Outcome × Schema S). x.0) step) ∙ h),
            )
      ]

  apply_files-again :
      (applied : List Applied) (files : List File) (schema : Schema S)
      → All (IsApplied applied) files
      → apply applied files schema ≡ (done, schema)
  unfolding apply_files
  apply_files-again applied [] schema h = refl
  apply_files-again applied (f ∷ files) schema h =
      apply_files-known applied f files schema h.0 ∙ apply_files-again applied files schema h.1

  -- Once the migrations were applied in full, applying the same files again runs no script and
  -- changes nothing: every start of the program may apply them.
  pub apply_migrations_again :
      (files : List File) (schema : Schema S)
      → (apply_migrations sha256 execute files schema).0 ≡ done
      → let schema' = (apply_migrations sha256 execute files schema).1 in
        apply_migrations sha256 execute files schema' ≡ (done, schema')
  unfolding apply_migrations
  apply_migrations_again files schema h =
      let sorted = sort (λ (a b : File). text_leb a.name b.name) files in
      let schema' = (apply schema.migrations sorted schema).1 in
      apply_files-again schema'.migrations sorted schema'
        (apply_files-done schema.migrations sorted schema (λ version checksum k. k) h)
