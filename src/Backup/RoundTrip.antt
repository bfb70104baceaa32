-- ===== src/Backup/RoundTrip.antt =====
-- An archive that `command_backup` made passes `_verify_archive`: vpnpulse/cli/backup.py.
use vpn_pulse.Prelude.{
  ℕ, ◌≤◌, String, Bool, true, false, ◌≡◌, refl, ap, ◌∙◌, some, List, [], ◌∷◌, map, contains, ◌==◌,
  ==-refl, string_eq, nat_eq, arith,
}
use vpn_pulse.Prelude.Lists.{any, all, nonempty, All}
use vpn_pulse.Prelude.Sorting.{sort, any-sort, All-of_insert}
use vpn_pulse.Backup.{
  File, Item, Manifest, regular, verified, Formats, is_unsafe, content_of, is_manifest, last_of,
  parts, expected_of, same_set, item_of, manifest_of, manifest_file, path_leb, archive_of,
  is_intact, check_files, verify_archive,
}
use vpn_pulse.Backup.Contents.{
  has_path, IsDistinct, files_of-map, contents, sort-IsDistinct, select-insert, any_unsafe-map,
  last_of-manifest, any_path-manifest,
}

path_of_item :
    (formats : Formats) (path : String) (files : List File)
    → any (λ (j : Item). j.path == path) (map (item_of formats) files) ≡ any (has_path path) files
unfolding any
path_of_item formats path [] = refl
path_of_item formats path (f ∷ files) = ground (arith, path_of_item formats path files)

expected_of-map :
    (formats : Formats) (files : List File)
    → IsDistinct files
    → expected_of (map (item_of formats) files) ≡ map (item_of formats) files
unfolding expected_of
expected_of-map formats [] d = refl
expected_of-map formats (f ∷ files) d =
    ground (arith, d.0, path_of_item formats f.path files, expected_of-map formats files d.1)

all_weaken :
    (p q : String → Bool) (xs : List String)
    → ((x : String) → p x ≡ true → q x ≡ true)
    → all p xs ≡ true
    → all q xs ≡ true
unfolding all
all_weaken p q [] f h = refl
all_weaken p q (x ∷ xs) f h = ground (arith, h, f x, all_weaken p q xs f)

all-contains : (xs : List String) → all (contains xs) xs ≡ true
unfolding all
all-contains [] = refl
all-contains (x ∷ xs) = ground (
  arith,
  all_weaken (contains xs) (contains (x ∷ xs)) xs (λ y h. ground (arith, h)) (all-contains xs),
)

same_set_refl : (xs : List String) → same_set xs xs ≡ true
unfolding same_set
same_set_refl xs = ground (arith, all-contains xs)

contains-map :
    (formats : Formats) (path : String) (files : List File)
    → contains (map (λ (i : Item). i.path) (map (item_of formats) files)) path
      ≡ any (has_path path) files
unfolding any
contains-map formats path [] = refl
contains-map formats path (f ∷ files) = ground (arith, contains-map formats path files)

paths-map :
    (formats : Formats) (files : List File)
    → map (λ (i : Item). i.path) (map (item_of formats) files) ≡ map (λ (f : File). f.path) files
paths-map formats [] = refl
paths-map formats (f ∷ files) = ap (λ ps. f.path ∷ ps) (paths-map formats files)

intact :
    (formats : Formats) (all_files files : List File)
    → All (λ f. content_of f.path all_files ≡ some f.content) files
    → all (is_intact formats all_files) (map (item_of formats) files) ≡ true
unfolding all
intact formats all_files [] a = refl
intact formats all_files (f ∷ files) a = ground (
  arith,
  a.0,
  ==-refl (formats.size f.content),
  ==-refl (formats.sha f.content),
  intact formats all_files files a.1,
)

last_of-manifest_true : (last_of (parts "MANIFEST.json") == "MANIFEST.json") ≡ true
last_of-manifest_true = rw last_of-manifest (==-refl {A = String} "MANIFEST.json")

nonempty-any :
    (formats : Formats) (p : File → Bool) (files : List File)
    → any p files ≡ true
    → nonempty (map (item_of formats) files) ≡ true
unfolding any
nonempty-any formats p [] h = cc
nonempty-any formats p (f ∷ files) h = refl

module _ (formats : Formats) (known schema_version : ℕ) (staged : List File) where
  open formats use {read, print}

  abbrev sorted : List File
  sorted = sort path_leb staged

  abbrev manifest : Manifest
  manifest = manifest_of formats schema_version sorted

  abbrev archived : List File
  archived = sort path_leb (manifest_file formats manifest ∷ staged)

  archived-IsDistinct : IsDistinct staged → any is_manifest staged ≡ false → IsDistinct archived
  archived-IsDistinct d h =
      sort-IsDistinct path_leb (manifest_file formats manifest ∷ staged)
        (any_path-manifest staged h, d)

  archived-contents :
      IsDistinct staged
      → any is_manifest staged ≡ false
      → All
          (λ f. content_of f.path archived ≡ some f.content)
          (manifest_file formats manifest ∷ sorted)
  unfolding sort
  archived-contents d h =
      All-of_insert path_leb (λ f. content_of f.path archived ≡ some f.content)
        (manifest_file formats manifest) sorted (contents archived (archived-IsDistinct d h))

  check_files-archived :
      IsDistinct staged
      → any is_manifest staged ≡ false
      → any (has_path "data/vpnpulse.sqlite3") staged ≡ true
      → any (has_path "config.yaml") staged ≡ true
      → schema_version ≤ known
      → check_files formats known archived manifest ≡ verified manifest
  unfolding check_files sort
  check_files-archived d h database config new = ground (
    arith,
    new,
    expected_of-map formats sorted (sort-IsDistinct path_leb staged d),
    paths-map formats sorted,
    select-insert is_manifest path_leb (manifest_file formats manifest) sorted last_of-manifest_true
        (any-sort path_leb is_manifest staged ∙ h),
    contains-map formats "data/vpnpulse.sqlite3" sorted,
    any-sort path_leb (has_path "data/vpnpulse.sqlite3") staged ∙ database,
    contains-map formats "config.yaml" sorted,
    any-sort path_leb (has_path "config.yaml") staged ∙ config,
    nonempty-any formats (has_path "config.yaml") sorted,
    same_set_refl (map (λ (f : File). f.path) sorted),
    intact formats archived sorted (archived-contents d h).1,
  )

  safe-archived :
      any (λ f. is_unsafe (regular f)) staged ≡ false
      → any is_unsafe (archive_of formats schema_version staged) ≡ false
  unfolding archive_of any is_unsafe parts nat_eq string_eq
  safe-archived safe =
      any_unsafe-map archived
      ∙ any-sort path_leb (λ f. is_unsafe (regular f)) (manifest_file formats manifest ∷ staged)
      ∙ safe

  -- An archive that is made of a configuration, a database and other files passes its verification,
  -- with the manifest that was written, if no two files have the same path, no path is absolute or has
  -- a "..", no file has the manifest's name, the manifest is read as it was printed and its schema
  -- version is one that the program knows.
  pub verify_archive-archive_of :
      IsDistinct staged
      → any (λ f. is_unsafe (regular f)) staged ≡ false
      → any is_manifest staged ≡ false
      → any (has_path "data/vpnpulse.sqlite3") staged ≡ true
      → any (has_path "config.yaml") staged ≡ true
      → read (print manifest) ≡ some manifest
      → schema_version ≤ known
      → verify_archive formats known (some (archive_of formats schema_version staged))
        ≡ verified manifest
  unfolding verify_archive archive_of
  verify_archive-archive_of d safe h database config round new = ground (
    arith,
    safe-archived safe,
    files_of-map archived,
    (archived-contents d h).0,
    round,
    check_files-archived d h database config new,
  )
