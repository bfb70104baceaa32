-- ===== src/Collectors/Facts.antt =====
-- collectors/ssh.py: `metrics_from`, the facts that the code makes of an answer.
pub mod Counts
use Prim.Native.Char.{code}
use vpn_pulse.Prelude.{
  ℕ, ◌+◌, ◌-◌, ◌*◌, ◌/◌, String, Bool, true, false, not, ◌&&◌, ◌||◌, Option, none, some, List, [],
  ◌∷◌, ◌++◌, min, ltb, leb, is_some, contains, if◌then◌else◌, ◌==◌, string_eq, option_eq, bool_eq,
  nat_eq,
}
use vpn_pulse.Prelude.Lists.{length, select, nonempty}
use vpn_pulse.Prelude.Tables.{count_where}
use vpn_pulse.Clock.{seconds}
use vpn_pulse.Domain.Models.{Ratio}
use vpn_pulse.Api.Guards.{strip_prefix}
use vpn_pulse.Collectors.Helper.{
  Value, number, Peers, System, Dns, Payload, num, texts_of, text_of, bool_of,
}

-- `ever`: the ages that are integers and not negative, in seconds.
unfoldable pub ever_of : List Value → List ℕ
ever_of [] = []
ever_of (number n ∷ values) =
    let rest = ever_of values in
    if n.is_int && not (n.negative && ltb 0 n.value.num) then n.value.num ∷ rest else rest
ever_of (_ ∷ values) = ever_of values

abbrev pub within : ℕ → List ℕ → ℕ
within age ages = count_where (λ a. leb a age) ages

unfoldable pub youngest : List ℕ → Option ℕ
youngest [] = none
youngest (a ∷ ages) = elim (youngest ages) [ none ↦ some a | some b ↦ some (min a b) ]

-- `int(value)`
abbrev pub whole : Ratio → ℕ
whole r = r.num / r.den

abbrev pub and_both : Option Ratio → Option Ratio → Option ℕ
and_both none b = none
and_both (some a) none = none
and_both (some a) (some b) = some (whole a + whole b)

-- The instant and the bytes of the last answer that counted them.
pub record Counters : Type 0 where
  pub at : ℕ
  pub total : ℕ

unfoldable pub rate : Option Counters → ℕ → ℕ → Option Ratio
rate none at total = none
rate (some previous) at total =
    if leb at previous.at || ltb total previous.total
    then none
    else some (record { num = (total - previous.total) * 8; den = at - previous.at })

abbrev pub rate_of : Option Counters → ℕ → Option ℕ → Option Ratio × Option Counters
rate_of last at none = (none, last)
rate_of last at (some total) = (rate last at total, some (record { at = at; total = total }))

-- `_traffic_mbps` before `round(…, 2)`: bits in a microsecond are megabits in a second.
unfoldable pub traffic_mbps : Option Counters → ℕ → Peers → Option Ratio × Option Counters
unfolding rate
traffic_mbps last at peers =
    rate_of last at (and_both (num none peers.rx_bytes) (num none peers.tx_bytes))

-- `name.split("-generic")[0]`
unfoldable pub kernel_head : String → String
unfolding strip_prefix
kernel_head String.[] = ""
kernel_head (String.◌∷◌ c t) =
    let rest = kernel_head t in
    if is_some (strip_prefix "-generic" (String.◌∷◌ c t)) then "" else String.◌∷◌ c rest

-- A part of the name: its value so far, when it has characters and all are digits.
pub data Part : Type 0 where
  nothing_yet : Part
  digits : ℕ → Part
  other : Part

abbrev pub part_value : Part → ℕ
part_value (digits n) = n
part_value _ = 0

unfoldable pub add_char : ℕ → Part → Part
add_char c nothing_yet = if leb 48 c && leb c 57 then digits (c - 48) else other
add_char c (digits n) = if leb 48 c && leb c 57 then digits (n * 10 + (c - 48)) else other
add_char c other = other

-- The parts between "-" and ".", as numbers, or 0 for a part that is none.
unfoldable pub kernel_parts : Part → String → List ℕ
unfolding add_char
kernel_parts part String.[] = part_value part ∷ []
kernel_parts part (String.◌∷◌ c t) =
    let is_end = code c == 45 || code c == 46 in
    let rest = kernel_parts (if is_end then nothing_yet else add_char (code c) part) t in
    if is_end then part_value part ∷ rest else rest

-- `_kernel_key`
unfoldable pub kernel_key : String → List ℕ
unfolding kernel_head kernel_parts
kernel_key name = kernel_parts nothing_yet (kernel_head name)

-- The order of tuples.
unfoldable pub key_lt : List ℕ → List ℕ → Bool
key_lt [] [] = false
key_lt [] (b ∷ bs) = true
key_lt (a ∷ xs) [] = false
key_lt (a ∷ xs) (b ∷ bs) =
    let rest = key_lt xs bs in if ltb a b then true else if ltb b a then false else rest

-- `max(installed, key=_kernel_key)`: the first of the greatest.
unfoldable pub newest_from : String → List String → String
unfolding kernel_key key_lt
newest_from best [] = best
newest_from best (k ∷ ks) =
    newest_from (if key_lt (kernel_key best) (kernel_key k) then k else best) ks

abbrev pub newest_of : List String → Option String
newest_of [] = none
newest_of (k ∷ ks) = some (newest_from k ks)

unfoldable pub newest_kernel : System → Option String
unfolding newest_from texts_of select
newest_kernel system =
    newest_of (select (λ (t : String). not (t == "")) (texts_of system.kernels_installed))

pub data Severity : Type 0 where
  high medium low : Severity

-- A finding, its code and what its message names; the texts are those of the dictionaries.
pub record Finding : Type 0 where
  pub severity : Severity
  pub code : String

abbrev pub at_least : ℕ → Option Ratio → Bool
at_least percent none = false
at_least percent (some r) = leb (percent * r.den) r.num

abbrev pub finding_if : Bool → Severity → String → List Finding
finding_if c severity code = if c then record { severity = severity; code = code } ∷ [] else []

abbrev pub or_empty : Option String → String
or_empty none = ""
or_empty (some t) = t

-- The running kernel has no module, and a newer one waits for which none was built.
unfoldable pub is_mismatched : System → Option String → Option String → Bool
unfolding texts_of text_of
is_mismatched system none running = false
is_mismatched system (some newest) none = false
is_mismatched system (some newest) (some running) =
    not (or_empty (text_of system.dkms_module) == "")
    && (not (newest == "")
        && (not (running == "")
            && (not (newest == running) && not (contains (texts_of system.dkms_built_for) newest))))

abbrev pub points_elsewhere : Option Dns → Bool
points_elsewhere none = false
points_elsewhere (some dns) = dns.configured && bool_of dns.matches_public_ip == some false

unfoldable pub lost_tuning : Option String → Bool
lost_tuning none = false
lost_tuning (some cc) = not (cc == "") && not (cc == "bbr")

-- `_attention`: at most five findings, so the slice `[:20]` keeps them all.
unfoldable pub attention : System → Bool → Option Dns → List Finding
unfolding is_mismatched lost_tuning newest_kernel num text_of bool_of
attention system engine_ok dns =
    finding_if (is_mismatched system (newest_kernel system) (text_of system.kernel)) high
      "KERNEL_MODULE_MISMATCH"
    ++ finding_if (not engine_ok) high "ENGINE_UNREADABLE"
    ++ finding_if
        (at_least 85 (num (some 100) system.disk_percent)
          || at_least 50 (num (some 100) system.swap_percent))
        medium "DISK_PRESSURE"
    ++ finding_if (points_elsewhere dns) medium "DDNS_MISMATCH"
    ++ finding_if (lost_tuning (text_of system.congestion_control)) low "TUNING_LOST"

pub record Profiles : Type 0 where
  pub issued : Option ℕ
  pub ever_connected : Option ℕ
  pub active_24h : Option ℕ
  pub last_connection_at : Option ℕ

pub record ServiceCheck : Type 0 where
  pub check : String
  pub ok : Option Bool

pub record Facts : Type 0 where
  pub connections : Option ℕ
  pub traffic_mbps : Option Ratio
  pub cpu_percent : Option Ratio
  pub memory_percent : Option Ratio
  pub swap_percent : Option Ratio
  pub profiles : Profiles
  pub service_checks : List ServiceCheck
  pub attention : List Finding
  pub engine_ok : Bool
  pub disk_percent : Option Ratio
  pub kernel_newest_installed : Option String

-- `value if engine_ok else None`
abbrev pub given_if : {A : Type 0} → Bool → Option A → Option A
given_if c value = if c then value else none

abbrev pub before : ℕ → Option ℕ → Option ℕ
before at none = none
before at (some age) = some (at - seconds age)

abbrev pub whole_of : Option Ratio → Option ℕ
whole_of none = none
whole_of (some r) = some (whole r)

abbrev pub dns_checks : Option Dns → List ServiceCheck
dns_checks none = []
dns_checks (some dns) =
    if dns.configured
    then record { check = "dns"; ok = bool_of dns.resolves }
      ∷ record { check = "ddns"; ok = bool_of dns.matches_public_ip }
      ∷ []
    else []

abbrev pub engine_is_ok : Payload → Bool
engine_is_ok p =
    bool_of p.engine_ok == some true && not (contains (texts_of p.errors) "DUMP_FAILED")

-- `metrics_from`, without the names of the components; the counters are what the collector remembers.
unfoldable pub metrics_from :
    ℕ → Option Counters → Peers → System → Payload → ℕ → Facts × Option Counters
unfolding ever_of youngest traffic_mbps attention num bool_of texts_of count_where newest_kernel
metrics_from freshness last peers system payload observed_at =
    let ever = ever_of peers.handshake_ages in
    let engine_ok = engine_is_ok payload in
    let (traffic, counted) = traffic_mbps last observed_at peers in
    (
      record {
        connections = given_if engine_ok (some (within freshness ever));
        traffic_mbps = given_if engine_ok traffic;
        cpu_percent = num (some 100) system.cpu_percent;
        memory_percent = num (some 100) system.memory_percent;
        swap_percent = num (some 100) system.swap_percent;
        profiles = record {
          issued = given_if engine_ok (whole_of (num none peers.count));
          ever_connected = given_if engine_ok (some (length ever));
          active_24h = given_if engine_ok (some (within 86400 ever));
          last_connection_at = before observed_at (youngest ever);
        };
        service_checks =
            record { check = "ssh"; ok = some true }
            ∷ record { check = "engine"; ok = some engine_ok }
            ∷ record { check = "port"; ok = bool_of payload.engine_listening }
            ∷ dns_checks payload.dns;
        attention = attention system engine_ok payload.dns;
        engine_ok = engine_ok;
        disk_percent = num (some 100) system.disk_percent;
        kernel_newest_installed = newest_kernel system;
      },
      (if engine_ok then counted else last),
    )
