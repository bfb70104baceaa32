-- ===== src/Store/Retention/Servers.antt =====
-- The servers after `sync_servers`.
use vpn_pulse.Prelude.{
  ℕ, ◌+◌, String, Bool, true, false, not, ◌&&◌, ◌≡◌, refl, ◌∙◌, List, [], ◌∷◌, map, contains, ◌==◌,
  string_eq, arith,
}
use vpn_pulse.Prelude.Lists.{any, any-append}
use vpn_pulse.Prelude.Tables.{update_where, upsert, any-update_where}
use vpn_pulse.Store.Tables.{Server, Database}
use vpn_pulse.Store.Probes.{ServerConfig}
use vpn_pulse.Store.Retention.{sync_server, sync_from, sync_servers}

abbrev pub has_id : String → Server → Bool
has_id k s = s.id == k

abbrev pub is_enabled : String → Server → Bool
is_enabled k s = has_id k s && s.enabled

-- The rows of a server that the configuration does not name are disabled.
none_enabled :
    (ids : List String) (k : String) (now : ℕ) (rows : List Server)
    → contains ids k ≡ false
    → any (is_enabled k) (
        update_where
          (λ s. s.enabled && not (contains ids s.id))
          (λ s. record s { enabled = false; updated_at = now })
          rows)
      ≡ false
unfolding any update_where
none_enabled ids k now [] h = refl
none_enabled ids k now (s ∷ rows) h = ground (arith, none_enabled ids k now rows h)

any-upsert_keep :
    (k : String) (c : Server → Bool) (f : Server → Server) (x : Server) (rows : List Server)
    → ((s : Server) → has_id k (f s) ≡ has_id k s)
    → any (has_id k) rows ≡ true
    → any (has_id k) (upsert c f x rows) ≡ true
unfolding upsert
any-upsert_keep k c f x rows h e =
    ground (arith, any-append (has_id k) rows (x ∷ []), any-update_where c (has_id k) f rows h)

any-sync_from :
    (now order : ℕ) (cs : List ServerConfig) (db : Database) (k : String)
    → any (has_id k) db.servers ≡ true
    → any (has_id k) (sync_from now order cs db).servers ≡ true
unfolding sync_from sync_server
any-sync_from now order [] db k h = h
any-sync_from now order (c ∷ cs) db k h =
    any-sync_from now (order + 1) cs (sync_server now order c db) k
      (any-upsert_keep k (λ s. s.id == c.id) _ _ db.servers (λ s. refl) h)

-- A server that left the configuration is disabled and never deleted: no row of it is enabled
-- after the servers are mirrored, and a server that was in the table is still there.
pub sync_servers-left :
    (now : ℕ) (configured : List ServerConfig) (db : Database) (k : String)
    → (contains (map (λ (c : ServerConfig). c.id) configured) k ≡ false
        → any (is_enabled k) (sync_servers now configured db).servers ≡ false)
      × (any (has_id k) db.servers ≡ true
          → any (has_id k) (sync_servers now configured db).servers ≡ true)
unfolding sync_servers
sync_servers-left now configured db k =
    let ids = map (λ (c : ServerConfig). c.id) configured in
    let rows = (sync_from now 0 configured db).servers in
    (
      none_enabled ids k now rows,
      λ h.
          any-update_where (λ s. s.enabled && not (contains ids s.id)) (has_id k)
            (λ s. record s { enabled = false; updated_at = now }) rows (λ s. refl)
          ∙ any-sync_from now 0 configured db k h,
    )

-- A server that the configuration does not name is disabled once the servers are mirrored: no row
-- of it is enabled.
pub sync_servers-disabled :
    (now : ℕ) (configured : List ServerConfig) (db : Database) (k : String)
    → contains (map (λ (c : ServerConfig). c.id) configured) k ≡ false
    → any (is_enabled k) (sync_servers now configured db).servers ≡ false
sync_servers-disabled now configured db k h = (sync_servers-left now configured db k).0 h

-- Mirroring the configuration deletes no server: one that was in the table is still there.
pub sync_servers-kept :
    (now : ℕ) (configured : List ServerConfig) (db : Database) (k : String)
    → any (has_id k) db.servers ≡ true
    → any (has_id k) (sync_servers now configured db).servers ≡ true
sync_servers-kept now configured db k h = (sync_servers-left now configured db k).1 h
