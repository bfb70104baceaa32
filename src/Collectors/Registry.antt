-- ===== src/Collectors/Registry.antt =====
-- collectors/registry.py: `build_collectors` and `unreferenced`. Paths are parameters.
pub mod Missing
use vpn_pulse.Prelude.{
  ℕ, String, Bool, true, false, not, ◌&&◌, Option, none, some, List, [], ◌∷◌, map, is_some,
  contains, if◌then◌else◌, ◌==◌, string_eq, option_eq,
}
use vpn_pulse.Prelude.Lists.{select, any}

-- A server of the configuration, with its `collector_ref`.
pub record Configured : Type 0 where
  pub id : String
  pub enabled : Bool
  pub collector_ref : Option String

-- An entry of the map, with the defaults of the code filled in. The schema demands the host and the
-- files, so no entry is an empty dict.
pub record Entry : Type 0 where
  pub host : String
  pub key_file : String
  pub known_hosts_file : String
  pub user : String
  pub port : ℕ
  pub timeout_seconds : ℕ
  pub enabled : Bool

pub record Target : Type 0 where
  pub host : String
  pub key_file : String
  pub known_hosts_file : String
  pub user : String
  pub port : ℕ
  pub timeout_seconds : ℕ

pub record Built : Type 0 where
  pub server_id : String
  pub target : Target
  pub name : String
  pub freshness : ℕ

unfoldable pub entry_of : String → List (String × Entry) → Option Entry
entry_of ref [] = none
entry_of ref ((name, e) ∷ entries) =
    let rest = entry_of ref entries in if name == ref then some e else rest

-- `base_dir / p`, which is `p` where it is absolute.
unfoldable pub target_for : (String → String) → Entry → Target
target_for place e = record {
  host = e.host;
  key_file = place e.key_file;
  known_hosts_file = place e.known_hosts_file;
  user = e.user;
  port = e.port;
  timeout_seconds = e.timeout_seconds;
}

abbrev pub if_enabled : Option Entry → Option Entry
if_enabled none = none
if_enabled (some e) = if e.enabled then some e else none

-- The entry that a server's reference names, where it is enabled; `if ref` is false of the empty text.
unfoldable pub entry_for : List (String × Entry) → Option String → Option Entry
unfolding entry_of
entry_for entries none = none
entry_for entries (some ref) = if ref == "" then none else if_enabled (entry_of ref entries)

abbrev pub ref_or_empty : Option String → String
ref_or_empty none = ""
ref_or_empty (some ref) = ref

abbrev pub with_collector :
    (String → String) → ℕ → Configured → Option Entry → List Built → List Built
with_collector place freshness server none rest = rest
with_collector place freshness server (some e) rest =
    record {
      server_id = server.id;
      target = target_for place e;
      name = ref_or_empty server.collector_ref;
      freshness = freshness;
    }
    ∷ rest

unfoldable pub build_collectors :
    (String → String) → ℕ → List (String × Entry) → List Configured → List Built
unfolding entry_for target_for
build_collectors place freshness entries [] = []
build_collectors place freshness entries (server ∷ servers) =
    let rest = build_collectors place freshness entries servers in
    if server.enabled
    then with_collector place freshness server (entry_for entries server.collector_ref) rest
    else rest

-- `ref in entries and entries[ref].get("enabled", True)`
unfoldable pub has_entry : List (String × Entry) → Option String → Bool
unfolding entry_of
has_entry entries none = false
has_entry entries (some ref) = is_some (if_enabled (entry_of ref entries))

unfoldable pub unreferenced : List (String × Entry) → List Configured → List String × List String
unfolding has_entry select
unreferenced entries servers =
    let refs =
      map (λ (c : Configured). c.collector_ref) (select (λ (c : Configured). c.enabled) servers) in
    (
      map (λ (c : Configured). c.id)
          (select (λ (c : Configured). c.enabled && not (has_entry entries c.collector_ref))
            servers),
      select (λ name. not (contains refs (some name))) (map (λ (name, _). name) entries),
    )
