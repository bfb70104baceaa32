-- ===== src/Collectors/Helper.antt =====
-- collectors/ssh.py: the call of the helper, and what becomes of a failure.
use vpn_pulse.Prelude.{
  ℕ, ◌*◌, String, Bool, true, false, not, ◌&&◌, ◌||◌, Option, none, some, List, [], ◌∷◌, ltb,
  is_some, if◌then◌else◌, ◌==◌, string_eq, nat_eq,
}
use vpn_pulse.Domain.Models.{Ratio}
use vpn_pulse.Api.Guards.{strip_prefix}

-- A value of the helper's JSON that is no object: a missing key reads as null.
pub record Number : Type 0 where
  pub negative : Bool
  pub value : Ratio
  pub is_int : Bool

pub data Value : Type 0 where
  null : Value
  boolean : Bool → Value
  number : Number → Value
  text : String → Value
  compound : Value

pub record Peers : Type 0 where
  pub handshake_ages : List Value
  pub count : Value
  pub rx_bytes : Value
  pub tx_bytes : Value

pub record System : Type 0 where
  pub cpu_percent : Value
  pub memory_percent : Value
  pub swap_percent : Value
  pub disk_percent : Value
  pub uptime_s : Value
  pub kernel : Value
  pub congestion_control : Value
  pub awg_version : Value
  pub dkms_module : Value
  pub kernels_installed : List Value
  pub dkms_built_for : List Value

pub record Dns : Type 0 where
  pub configured : Bool
  pub resolves : Value
  pub matches_public_ip : Value

-- The answer: an object where the code demands one, and `{}` or `[]` read as absent values.
pub record Payload : Type 0 where
  pub schema : Value
  pub peers : Option Peers
  pub system : Option System
  pub engine_ok : Value
  pub engine_listening : Value
  pub dns : Option Dns
  pub errors : List Value
  pub observed_at : Value
  pub kind : Value

-- What `subprocess.run` comes to. A process that a signal ended has a code that is neither 0 nor 255.
pub data Completed : Type 0 where
  timed_out : Completed
  not_started : Completed
  exited : ℕ → String → String → Completed

pub data HelperAnswer : Type 0 where
  answered : Peers → System → Payload → HelperAnswer
  refused : String → HelperAnswer

-- `needle in t`
unfoldable pub is_in : String → String → Bool
unfolding strip_prefix
is_in needle String.[] = is_some (strip_prefix needle "")
is_in needle (String.◌∷◌ c t) =
    let later = is_in needle t in
    if is_some (strip_prefix needle (String.◌∷◌ c t)) then true else later

-- `stderr` in lower case.
unfoldable pub classify_failure : ℕ → String → String
unfolding is_in
classify_failure returncode stderr =
    if is_in "host key" stderr
      || is_in "remote host identification has changed" stderr
      || is_in "no hostkey" stderr
    then "SSH_HOST_KEY_MISMATCH"
    else if is_in "permission denied" stderr
        || is_in "no supported authentication" stderr
        || is_in "publickey" stderr
    then "SSH_AUTH_FAILED"
    else if returncode == 255
        || is_in "connection timed out" stderr
        || is_in "could not resolve" stderr
        || is_in "connection refused" stderr
        || is_in "network is unreachable" stderr
    then "SSH_UNREACHABLE"
    else "HELPER_FAILED"

-- `value == 1`, which holds of True and of 1.0, too.
unfoldable pub is_one : Value → Bool
is_one (boolean b) = b
is_one (number n) = not n.negative && n.value.num == n.value.den
is_one _ = false

-- HELPER_SCHEMA, and the two objects that an answer must have.
unfoldable pub check_payload : Option Payload → HelperAnswer
unfolding is_one
check_payload none = refused "HELPER_INVALID_ANSWER"
check_payload (some p) = elim p.peers [
  | none ↦ refused "HELPER_INVALID_ANSWER"
  | some peers ↦ elim p.system [
    | none ↦ refused "HELPER_INVALID_ANSWER"
    | some system ↦
        if is_one p.schema then answered peers system p else refused "HELPER_INVALID_ANSWER"
  ]
]

-- `lower` is `str.lower`; `loads` reads the JSON of an object, and nothing else.
unfoldable pub call_helper :
    (String → String) → (String → Option Payload) → Completed → HelperAnswer
unfolding classify_failure check_payload
call_helper lower loads timed_out = refused "SSH_TIMEOUT"
call_helper lower loads not_started = refused "HELPER_FAILED"
call_helper lower loads (exited returncode stdout stderr) =
    if returncode == 0
    then check_payload (loads stdout)
    else refused (classify_failure returncode (lower stderr))

-- `_num` with the lower bound 0.
unfoldable pub num : Option ℕ → Value → Option Ratio
num hi (number n) =
    if n.negative && ltb 0 n.value.num
    then none
    else if above hi n.value
    then none
    else some n.value
  where
    above : Option ℕ → Ratio → Bool
    above none r = false
    above (some m) r = ltb (m * r.den) r.num
num hi _ = none

-- The texts of a list.
unfoldable pub texts_of : List Value → List String
texts_of [] = []
texts_of (text t ∷ values) = t ∷ texts_of values
texts_of (_ ∷ values) = texts_of values

unfoldable pub text_of : Value → Option String
text_of (text t) = some t
text_of _ = none

unfoldable pub bool_of : Value → Option Bool
bool_of (boolean b) = some b
bool_of _ = none
