-- ===== src/Idt/Settings.antt =====
-- NewFromEnv of validator.go: the validator that the environment asks for. Durations are in
-- nanoseconds; the warnings that are logged are left out.
pub mod Laws
pub mod Examples
use ai_agent_go_service.Prelude.{
  ℕ, ◌*◌, String, ◌==◌, Bool, true, false, not, ◌||◌, [], Option, some, none, ltb, if◌then◌else◌,
  Result, ok, err,
}
use Prim.Native.String.{◌++◌ as concat}
use ai_agent_go_service.Prelude.Int.{ℤ, pos, negsuc, mul64}
use ai_agent_go_service.Idt.Validator.{Validator}

-- os.Getenv, strings.TrimSpace, the comparison with "true" by strings.EqualFold, strconv.Atoi, and
-- fmt.Sscanf with the format "%d".
pub record Environment : Type 0 where
  pub get_env : String → String
  pub trim : String → String
  pub is_true : String → Bool
  pub atoi : String → Option ℤ
  pub scan : String → Option ℤ

pub data SettingsError : Type 0 where
  identifiers_required : String → String → SettingsError

abbrev pub second : ℕ
second = 1000000000

abbrev pub max_cache_seconds : ℕ
max_cache_seconds = 3600

capped : Option ℤ → ℕ
capped none = 0
capped (some (negsuc n)) = 0
capped (some (pos n)) = (if ltb max_cache_seconds n then max_cache_seconds else n) * second

positive : ℤ → Option ℤ → ℤ
positive default none = default
positive default (some (negsuc n)) = default
positive default (some (pos n)) = if ltb 0 n then mul64 (pos n) second else default

or_else : String → String → String
or_else default s = if s == "" then default else s

module _ (env : Environment) where
  open env use {get_env, trim, is_true, atoi, scan}

  variable : String → String
  variable name = trim (get_env name)

  pub flag : String → Bool
  unfolding variable
  flag name = is_true (variable name)

  unfoldable pub cache_ttl_from_env : String → ℕ
  unfolding capped
  cache_ttl_from_env raw = if trim raw == "" then 0 else capped (atoi (trim raw))

  timeout_from_env : String → ℤ
  unfolding positive variable
  timeout_from_env name =
      let default = pos (5 * second) in
      if variable name == "" then default else positive default (scan (variable name))

  disabled : Validator
  unfolding flag
  disabled = record {
    enabled = false;
    fail_open = flag "IDT_FAIL_OPEN";
    observe_only = false;
    subject = "";
    agent_id = "";
    function_id = "";
    request_timeout = pos 0;
    cache_ttl = 0;
    cache = [];
  }

  configured : Validator
  unfolding flag variable or_else cache_ttl_from_env timeout_from_env
  configured = record {
    enabled = true;
    fail_open = flag "IDT_FAIL_OPEN";
    observe_only = flag "IDT_OBSERVE_ONLY";
    subject =
        concat (or_else "example.auth" (variable "NATS_IDENTITY_BASE_PATH"))
          (concat "." (or_else "validateToken" (variable "NATS_IDENTITY_VALIDATE_SUBJECT")));
    agent_id = variable "APP_ID";
    function_id = variable "APP_FUNCTION_ID";
    request_timeout = timeout_from_env "IDT_VALIDATE_TIMEOUT_SECONDS";
    cache_ttl = cache_ttl_from_env (get_env "IDT_VALIDATE_CACHE_SECONDS");
    cache = [];
  }

  -- `connected` says whether there is a NATS connection.
  unfoldable pub new_from_env : Bool → Result SettingsError Validator
  unfolding disabled configured flag
  new_from_env connected =
      if not (flag "IDT_VALIDATION") || not connected
      then ok disabled
      else if configured.agent_id == "" || configured.function_id == ""
      then err (identifiers_required configured.agent_id configured.function_id)
      else ok configured
