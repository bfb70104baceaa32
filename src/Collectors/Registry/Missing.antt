-- ===== src/Collectors/Registry/Missing.antt =====
-- Which servers nobody reads: collectors/registry.py.
use vpn_pulse.Prelude.{
  ℕ, String, Bool, ◌&&◌, ◌||◌, ◌≡◌, refl, Option, none, some, List, [], ◌∷◌, is_some, ◌==◌,
  string_eq, option_eq, arith, inl, inr, Option-cases,
}
use vpn_pulse.Prelude.Lists.{any, select}
use vpn_pulse.Collectors.Registry.{
  Configured, Entry, Built, entry_of, entry_for, has_entry, build_collectors, unreferenced,
}

abbrev pub is_enabled_as : String → Configured → Bool
is_enabled_as id c = c.enabled && c.id == id

entry_for-has_entry :
    (entries : List (String × Entry)) (ref : Option String)
    → entry_of "" entries ≡ none
    → is_some (entry_for entries ref) ≡ has_entry entries ref
unfolding entry_for has_entry
entry_for-has_entry entries none h = refl
entry_for-has_entry entries (some ref) h = ground (arith, h)

module _ (place : String → String) (freshness : ℕ) (entries : List (String × Entry)) where
  -- Every enabled server is read by a collector or reported as one without, if no entry has the empty
  -- name: an id is that of an enabled server exactly when a collector of that id is built, or the
  -- first list of `unreferenced` has it.
  pub unreferenced-build_collectors :
      (servers : List Configured) (id : String)
      → entry_of "" entries ≡ none
      → any (is_enabled_as id) servers ≡ (
          any (λ (b : Built). b.server_id == id) (build_collectors place freshness entries servers)
          || any (λ name. name == id) (unreferenced entries servers).0)
  unfolding any build_collectors unreferenced select
  unreferenced-build_collectors [] id h = refl
  unreferenced-build_collectors (server ∷ servers) id h =
      elim (Option-cases (entry_for entries server.collector_ref)) [
        | inl e ↦ ground (
          arith,
          e,
          entry_for-has_entry entries server.collector_ref h,
          unreferenced-build_collectors servers id h,
        )
        | inr (entry, e) ↦ ground (
          arith,
          e,
          entry_for-has_entry entries server.collector_ref h,
          unreferenced-build_collectors servers id h,
        )
      ]
