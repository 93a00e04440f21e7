-- ===== src/Loader/Sensitive/Examples.antt =====
-- A tool whose API key is named by an environment variable.
use ai_agent_go_service.Prelude.{◌==◌, ◌≡◌, refl, true, false}
use ai_agent_go_service.Json.{text, object, Fields, no_fields, field, first, whole, in_field}
use ai_agent_go_service.Loader.Sensitive.{Names, validate_sensitive_fields, is_reference}
use ai_agent_go_service.Loader.Sensitive.Laws.{validate_sensitive_fields-clean}

abbrev names : Names
names = record {
  is_sensitive = λ k. k == "apiKeyEnv";
  has_env_suffix = λ k. k == "apiKeyEnv";
  has_reference = λ s. s == "${KEY}";
  itoa = λ n. "0";
}

abbrev config : Fields
config = field "apiKeyEnv" (text "SERP_KEY") no_fields

abbrev document : Fields
document = field "config" (object config) no_fields

validate_sensitive_fields-clean_example :
    (Names.has_env_suffix names "apiKeyEnv" ≡ true) × (is_reference names (text "SERP_KEY") ≡ false)
unfolding validate_sensitive_fields
validate_sensitive_fields-clean_example =
    validate_sensitive_fields-clean names (object document) config "apiKeyEnv" (text "SERP_KEY")
      refl (in_field first whole) first refl
