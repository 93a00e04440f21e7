-- ===== src/Loader/Env/Examples.antt =====
-- A port with a default.
use ai_agent_go_service.Prelude.{String, ◌==◌, ◌≡◌, refl, false, [], ◌∷◌, some, none, ◌⊎◌}
use mathlib.Core.List.Memᴰ
use ai_agent_go_service.Json.{text, object, Fields, no_fields, field, first, whole, in_field}
use ai_agent_go_service.Loader.Env.{Env, literal, reference, resolve}
use ai_agent_go_service.Loader.Env.Laws.{resolve-clean}

abbrev env : Env
env = record {
  split = λ s. literal "tcp:" ∷ reference "${PORT:80}" "PORT" "80" ∷ [];
  lookup_env = λ v. none;
  itoa = λ n. "0";
}

abbrev document : Fields
document = field "url" (text "tcp:${PORT:80}") no_fields

resolve-clean_example :
    ((val : String) × ((val == "") ≡ false) × (Env.lookup_env env "PORT" ≡ some val))
    ⊎ (("80" == "") ≡ false)
unfolding resolve
resolve-clean_example =
    resolve-clean env (object document) "tcp:${PORT:80}" "${PORT:80}" "PORT" "80" refl
      (in_field first whole) (Memᴰ.tail (Memᴰ.head refl))
