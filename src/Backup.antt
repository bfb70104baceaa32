-- ===== src/Backup.antt =====
-- vpnpulse/cli/backup.py: the manifest and the archive of `command_backup`, and `_verify_archive`.
-- The directories of an archive are left out, and what SQLite, YAML and the command line do.
pub mod Contents
pub mod RoundTrip
use Prim.Native.Char.{code}
use vpn_pulse.Prelude.{
  ℕ, String, Bool, true, false, not, ◌&&◌, ◌||◌, Option, none, some, List, [], ◌∷◌, ◌++◌, map, ltb,
  contains, if◌then◌else◌, ◌==◌, string_eq, nat_eq,
}
use vpn_pulse.Prelude.Lists.{select, any, all, nonempty}
use vpn_pulse.Prelude.Sorting.{sort}
use vpn_pulse.Prelude.Texts.{text_leb}

-- A file, by its path from the directory that holds it, with "/" between the parts.
pub record File : Type 0 where
  pub path : String
  pub content : String

-- An item of the manifest's list of files.
pub record Item : Type 0 where
  pub path : String
  pub sha256 : String
  pub size : ℕ

-- Without the date and the version of the program, which the code only prints. A manifest without a
-- schema version counts as one of version -1, which like 0 is never too new.
pub record Manifest : Type 0 where
  pub schema_version : ℕ
  pub files : List Item

-- A member of an archive: a regular file, or a link.
pub data Member : Type 0 where
  regular : File → Member
  link : String → Member

pub data Verified : Type 0 where
  verified : Manifest → Verified
  -- CliError
  refused : String → Verified

-- SHA-256 and the size of a content, and the manifest as JSON.
pub record Formats : Type 0 where
  pub sha : String → String
  pub size : String → ℕ
  pub print : Manifest → String
  pub read : String → Option Manifest

-- `path.parts`, as far as it is asked for "..".
unfoldable pub parts : String → List String
parts String.[] = "" ∷ []
parts (String.◌∷◌ c t) = add_char (parts t)
  where
    add_char : List String → List String
    add_char [] = []
    add_char (p ∷ ps) = if code c == 47 then "" ∷ p ∷ ps else String.◌∷◌ c p ∷ ps

abbrev pub is_absolute : String → Bool
is_absolute String.[] = false
is_absolute (String.◌∷◌ c t) = code c == 47

unfoldable pub is_unsafe : Member → Bool
unfolding parts
is_unsafe (link name) = true
is_unsafe (regular f) = is_absolute f.path || contains (parts f.path) ".."

unfoldable pub files_of : List Member → List File
files_of [] = []
files_of (regular f ∷ members) = f ∷ files_of members
files_of (link name ∷ members) = files_of members

-- What a file holds after the extraction: the last member of a path counts.
unfoldable pub content_of : String → List File → Option String
content_of path [] = none
content_of path (f ∷ files) = elim (content_of path files) [
  | some content ↦ some content
  | none ↦ if f.path == path then some f.content else none
]

-- `p.name`
unfoldable pub last_of : List String → String
last_of [] = ""
last_of (p ∷ []) = p
last_of (p ∷ q ∷ ps) = last_of (q ∷ ps)

abbrev pub is_manifest : File → Bool
is_manifest f = last_of (parts f.path) == "MANIFEST.json"

-- `sorted` of paths compares their parts.
unfoldable pub parts_leb : List String → List String → Bool
unfolding text_leb
parts_leb [] qs = true
parts_leb (p ∷ ps) [] = false
parts_leb (p ∷ ps) (q ∷ qs) = let rest = parts_leb ps qs in if p == q then rest else text_leb p q

unfoldable pub path_leb : File → File → Bool
unfolding parts_leb parts
path_leb f g = parts_leb (parts f.path) (parts g.path)

-- `{item["path"]: item for item in files}`: the last item of a path counts.
unfoldable pub expected_of : List Item → List Item
unfolding any
expected_of [] = []
expected_of (i ∷ items) =
    let rest = expected_of items in
    if any (λ (j : Item). j.path == i.path) items then rest else i ∷ rest

-- `set(xs) == set(ys)`
unfoldable pub same_set : List String → List String → Bool
unfolding all
same_set xs ys = all (contains ys) xs && all (contains xs) ys

module _ (formats : Formats) where
  open formats use {sha, size, print, read}

  abbrev pub item_of : File → Item
  item_of f = record { path = f.path; sha256 = sha f.content; size = size f.content }

  abbrev pub manifest_of : ℕ → List File → Manifest
  manifest_of schema_version files = record {
    schema_version = schema_version;
    files = map item_of files;
  }

  abbrev pub manifest_file : Manifest → File
  manifest_file m = record { path = "MANIFEST.json"; content = print m }

  -- The files that were staged and the manifest of them, each sorted.
  unfoldable pub archive_of : ℕ → List File → List Member
  unfolding sort path_leb
  archive_of schema_version staged =
      let manifest = manifest_of schema_version (sort path_leb staged) in
      map regular (sort path_leb (manifest_file manifest ∷ staged))

  abbrev pub is_intact : List File → Item → Bool
  is_intact files item = elim (content_of item.path files) [
    | none ↦ false
    | some content ↦ size content == item.size && sha content == item.sha256
  ]

  unfoldable pub check_files : ℕ → List File → Manifest → Verified
  unfolding expected_of same_set content_of all select last_of parts
  check_files known files m =
      let expected = expected_of m.files in
      let paths = map (λ (i : Item). i.path) expected in
      let actual = map (λ (f : File). f.path) (select (λ f. not (is_manifest f)) files) in
      if ltb known m.schema_version
      then refused "newer schema version"
      else if not (nonempty expected)
          || not (contains paths "data/vpnpulse.sqlite3")
          || not (contains paths "config.yaml")
      then refused "manifest incomplete"
      else if not (same_set actual paths)
      then refused "file list does not match"
      else if not (all (is_intact files) expected)
      then refused "checksum mismatch"
      else verified m

  unfoldable pub check_manifest : ℕ → List File → Option Manifest → Verified
  unfolding check_files
  check_manifest known files none = refused "manifest invalid"
  check_manifest known files (some m) = check_files known files m

  unfoldable pub find_manifest : ℕ → List File → Option String → Verified
  unfolding check_manifest
  find_manifest known files none = refused "no MANIFEST.json"
  find_manifest known files (some text) = check_manifest known files (read text)

  -- `_verify_archive`: nothing stands for an archive that cannot be read.
  unfoldable pub verify_archive : ℕ → Option (List Member) → Verified
  unfolding find_manifest files_of any is_unsafe content_of
  verify_archive known none = refused "cannot be read"
  verify_archive known (some members) =
      if any is_unsafe members
      then refused "unsafe path or link"
      else find_manifest known (files_of members) (content_of "MANIFEST.json" (files_of members))
