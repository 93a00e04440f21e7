-- ===== src/Agent/Setup.antt =====
-- factory.go of the agent, and the limits that loop.go reads from the environment: what an agent
-- is built from, and which peers it takes.
pub mod Laws
pub mod Examples
use ai_agent_go_service.Prelude.{
  ℕ, String, ◌==◌, Bool, true, false, not, ◌||◌, List, [], ◌∷◌, Option, some, none, length, eqb,
  if◌then◌else◌, Result, ok, err, ◌>>=◌,
}
use ai_agent_go_service.Prelude.Int.{ℤ, pos, ltb_ℤ, eqb_ℤ}
use Prim.Native.String.{◌++◌ as concat}

abbrev default_max_empty_answer_retries : ℤ
default_max_empty_answer_retries = pos 3

abbrev max_empty_answer_retries_cap : ℤ
max_empty_answer_retries_cap = pos 5

abbrev default_max_tool_retries : ℤ
default_max_tool_retries = pos 3

abbrev max_tool_retries_cap : ℤ
max_tool_retries_cap = pos 10

abbrev default_max_iterations : ℤ
default_max_iterations = pos 15

-- os.Getenv, strings.TrimSpace and strconv.Atoi.
pub record Environment : Type 0 where
  pub getenv : String → String
  pub trim_space : String → String
  pub atoi : String → Option ℤ

pub record Config : Type 0 where
  pub max_iterations : ℤ
  pub system_message_fixed : String
  pub system_message_flexible : String
  pub system_message : String
  pub surface_thoughts : Bool
  pub human_response_timeout_seconds : ℤ

-- The fields of an agentNode that are set when it is built.
pub record Agent : Type 0 where
  pub cfg : Config
  pub max_empty_answer_retries : ℤ
  pub max_tool_retries : ℤ
  pub merged : String

pub data SetupError : Type 0 where
  fixed_message_required bad_max_iterations : SetupError
  one_model_required : ℕ → SetupError
  model_wanted memory_wanted tool_wanted : SetupError
  no_model_port not_overridable : String → SetupError

clamped : ℤ → ℤ → ℤ
clamped n max = if ltb_ℤ n (pos 0) then pos 0 else if ltb_ℤ max n then max else n

-- The flexible part comes first, the fixed one last.
unfoldable pub set_flex : String → Agent → Agent
set_flex flex a = record a {
  merged =
      if flex == ""
      then a.cfg.system_message_fixed
      else concat flex (concat "\n\n" a.cfg.system_message_fixed);
}

-- The legacy field stands in for a missing fixed message.
with_legacy : Config → Config
with_legacy c = record c {
  system_message_fixed =
      if c.system_message_fixed == "" then c.system_message else c.system_message_fixed;
}

with_default : Config → Config
with_default c = record c {
  max_iterations =
      if eqb_ℤ c.max_iterations (pos 0) then default_max_iterations else c.max_iterations;
}

-- Only the flexible field is overridable.
unfoldable pub reconfigure : String → String → Agent → Result SetupError Agent
unfolding set_flex
reconfigure field value a =
    if not (field == "systemMessageFlexible")
    then err (not_overridable field)
    else ok (set_flex value a)

module _ (environment : Environment) where
  open environment use {getenv, trim_space, atoi}

  env_int_clamped : String → ℤ → ℤ → ℤ
  unfolding clamped
  env_int_clamped key def max =
      let raw = trim_space (getenv key) in
      if raw == "" then def else elim (atoi raw) [ none ↦ def | some n ↦ clamped n max ]

  unfoldable pub resolve_max_empty_answer_retries : ℤ
  unfolding env_int_clamped
  resolve_max_empty_answer_retries =
      env_int_clamped "AICHAT_MAX_EMPTY_ANSWER_RETRIES" default_max_empty_answer_retries
        max_empty_answer_retries_cap

  unfoldable pub resolve_max_tool_retries : ℤ
  unfolding env_int_clamped
  resolve_max_tool_retries =
      env_int_clamped "AICHAT_MAX_TOOL_RETRIES" default_max_tool_retries max_tool_retries_cap

  built : Config → Agent
  unfolding set_flex
  built c = set_flex c.system_message_flexible (record {
    cfg = c;
    max_empty_answer_retries = resolve_max_empty_answer_retries;
    max_tool_retries = resolve_max_tool_retries;
    merged = "";
  })

  checked : Config → Result SetupError Agent
  unfolding built
  checked c =
      if ltb_ℤ c.max_iterations (pos 1) || ltb_ℤ (pos 50) c.max_iterations
      then err bad_max_iterations
      else ok (built c)

  -- The factory, after the configuration is decoded.
  unfoldable pub new_agent : Config → Result SetupError Agent
  unfolding with_legacy with_default checked
  new_agent raw =
      let c = with_legacy raw in
      if c.system_message_fixed == "" then err fixed_message_required else checked (with_default c)

-- What Init finds of a peer: the interfaces that its type implements.
pub record Kinds (N : Type 0) : Type 0 where
  pub is_model : N → Bool
  pub is_memory : N → Bool
  pub is_tool : N → Bool

pub record Peers (N : Type 0) : Type 0 where
  pub llm : N
  pub mem : Option N
  pub tools : List N

module _ {N : Type 0} (kinds : Kinds N) where
  open kinds use {is_model, is_memory, is_tool}

  the_model : List N → Result SetupError N
  the_model (n ∷ []) = if is_model n then ok n else err model_wanted
  the_model ns = err (one_model_required (length ns))

  -- Without exactly one peer there is no memory.
  the_memory : List N → Result SetupError (Option N)
  the_memory (n ∷ []) = if is_memory n then ok (some n) else err memory_wanted
  the_memory ns = ok none

  the_tools : List N → Result SetupError (List N)
  the_tools [] = ok []
  the_tools (n ∷ ns) =
      let rest = the_tools ns in if is_tool n then (rest >>= λ ts. ok (n ∷ ts)) else err tool_wanted

  -- The peers at the three ports; the lookup of the model's port may fail.
  unfoldable pub init : Result String (List N) → List N → List N → Result SetupError (Peers N)
  unfolding the_model the_memory the_tools
  init (err e) mems tools = err (no_model_port e)
  init (ok llms) mems tools = the_model llms >>= λ llm. the_memory mems >>= λ mem.
      the_tools tools >>= λ ts. ok (record { llm = llm; mem = mem; tools = ts })
