-- ===== src/Backup/Contents.antt =====
-- What the files of an archive hold, when no two of them have the same path: vpnpulse/cli/backup.py.
use vpn_pulse.Prelude.{
  String, Bool, true, false, not, ◌≡◌, refl, ap, ◌∙◌, none, some, List, [], ◌∷◌, map, ◌==◌,
  string_eq, nat_eq, arith, Bool-cases, inl, inr,
}
use vpn_pulse.Prelude.Lists.{select, any, All, All-weaken}
use vpn_pulse.Prelude.Sorting.{sort, insert, any-sort}
use vpn_pulse.Backup.{File, regular, is_unsafe, files_of, content_of, is_manifest, last_of, parts}

abbrev pub has_path : String → File → Bool
has_path path f = f.path == path

-- No two files have the same path.
abbrev pub IsDistinct : List File → Type 0
IsDistinct [] = Unit
IsDistinct (f ∷ files) = (any (has_path f.path) files ≡ false) × IsDistinct files

pub files_of-map : (files : List File) → files_of (map regular files) ≡ files
unfolding files_of
files_of-map [] = refl
files_of-map (f ∷ files) = ap (λ rest. f ∷ rest) (files_of-map files)

content_of-none :
    (path : String) (files : List File)
    → any (has_path path) files ≡ false
    → content_of path files ≡ none
unfolding content_of any
content_of-none path [] h = refl
content_of-none path (f ∷ files) h = ground (arith, h, content_of-none path files)

content_of-cons :
    (f : File) (files : List File)
    → any (has_path f.path) files ≡ false
    → content_of f.path (f ∷ files) ≡ some f.content
unfolding content_of
content_of-cons f files h = ground (arith, content_of-none f.path files h)

content_of-later :
    (f g : File) (files : List File)
    → content_of g.path files ≡ some g.content
    → content_of g.path (f ∷ files) ≡ some g.content
unfolding content_of
content_of-later f g files h = rw h refl

pub contents :
    (files : List File)
    → IsDistinct files
    → All (λ f. content_of f.path files ≡ some f.content) files
contents [] d = tt
contents (f ∷ files) d = (
  content_of-cons f files d.0,
  All-weaken files (λ g h. content_of-later f g files h) (contents files d.1),
)

any_path-insert :
    (path : String) (le : File → File → Bool) (f : File) (files : List File)
    → (f.path == path) ≡ false
    → any (has_path path) files ≡ false
    → any (has_path path) (insert le f files) ≡ false
unfolding any insert
any_path-insert path le f [] h k = ground (arith, h)
any_path-insert path le f (g ∷ files) h k = ground (arith, h, k, any_path-insert path le f files h)

insert-IsDistinct :
    (le : File → File → Bool) (f : File) (files : List File)
    → any (has_path f.path) files ≡ false
    → IsDistinct files
    → IsDistinct (insert le f files)
unfolding insert any
insert-IsDistinct le f [] h d = (refl, tt)
insert-IsDistinct le f (g ∷ files) h d = elim (Bool-cases (le f g)) [
  | inl e ↦ rw e (h, d)
  | inr e ↦ rw e (
    any_path-insert g.path le f files (ground (arith, h)) d.0,
    insert-IsDistinct le f files (ground (arith, h)) d.1,
  )
]

pub sort-IsDistinct :
    (le : File → File → Bool) (files : List File) → IsDistinct files → IsDistinct (sort le files)
unfolding sort
sort-IsDistinct le [] d = tt
sort-IsDistinct le (f ∷ files) d =
    insert-IsDistinct le f (sort le files) (any-sort le (has_path f.path) files ∙ d.0)
      (sort-IsDistinct le files d.1)

select_none :
    (p : File → Bool) (files : List File)
    → any p files ≡ false
    → select (λ g. not (p g)) files ≡ files
unfolding select any
select_none p [] k = refl
select_none p (g ∷ files) k = ground (arith, k, select_none p files)

select_manifest :
    (p : File → Bool) (f : File) (files : List File)
    → p f ≡ true
    → any p files ≡ false
    → select (λ g. not (p g)) (f ∷ files) ≡ files
unfolding select
select_manifest p f files h k = ground (arith, h, select_none p files k)

pub select-insert :
    (p : File → Bool) (le : File → File → Bool) (f : File) (files : List File)
    → p f ≡ true
    → any p files ≡ false
    → select (λ g. not (p g)) (insert le f files) ≡ files
unfolding select insert any
select-insert p le f [] h k = ground (arith, h)
select-insert p le f (g ∷ files) h k = elim (Bool-cases (le f g)) [
  | inl e ↦ rw e (select_manifest p f (g ∷ files) h k)
  | inr e ↦ rw e (ground (arith, h, k, select-insert p le f files h))
]

pub any_unsafe-map :
    (files : List File) → any is_unsafe (map regular files) ≡ any (λ f. is_unsafe (regular f)) files
unfolding any
any_unsafe-map [] = refl
any_unsafe-map (f ∷ files) = ground (arith, any_unsafe-map files)

pub last_of-manifest : last_of (parts "MANIFEST.json") ≡ "MANIFEST.json"
unfolding last_of parts nat_eq
last_of-manifest = refl

pub any_path-manifest :
    (files : List File)
    → any is_manifest files ≡ false
    → any (has_path "MANIFEST.json") files ≡ false
unfolding any
any_path-manifest [] h = refl
any_path-manifest (f ∷ files) h = ground (arith, h, last_of-manifest, any_path-manifest files)
