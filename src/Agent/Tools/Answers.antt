-- ===== src/Agent/Tools/Answers.antt =====
-- A tool turn answers every call of the model, and no tool fails without end.
use ai_agent_go_service.Prelude.{
  ℕ, suc, ◌+◌, ◌≤◌, ◌≡◌, refl, sym, ap, ◌∙◌, subst, inl, inr, Bool, true, false, ◌&&◌, String, ◌==◌,
  eq_iff, List, [], ◌∷◌, some, none, ltb, if◌then◌else◌, arith, Bool-cases, Option-cases,
}
use mathlib.Core.List.{Memᴰ}
use mathlib.Core.List.Memᴰ
use ai_agent_go_service.Retry.Types.{Failure}
use ai_agent_go_service.Retry.Classify.{allowed_indices}
use ai_agent_go_service.Agent.Types.{
  ToolPayload, output, no_output, unknown_tool, retry_cap_exceeded, policy_deny, failed,
  ContentBlock, text, image, document, tool_use, tool_result, LlmToolUse,
}
use ai_agent_go_service.Agent.Messages.{is_blank_tool_payload}
use ai_agent_go_service.Agent.Run.{Run, Tool, Settings, Outside}
use ai_agent_go_service.Agent.Tools.{
  Counts, bump, lookup_tool, Called, Step, halted, stepped, Results, halted_by, results, call_tool,
  error_payload, payload_of, surface, failed_call, after_call, known_tool, step_call, after_step,
  run_calls,
}

-- The blocks are results for the calls, in their order.
pub data Answers : List LlmToolUse → List ContentBlock → Type 0 where
  all_answered : Answers [] []
  answered_by :
      (tc : LlmToolUse) (p : ToolPayload) (b : Bool) (tcs : List LlmToolUse)
      (bs : List ContentBlock)
      → Answers tcs bs
      → Answers (tc ∷ tcs) (tool_result tc.id p b ∷ bs)

abbrev pub Bounded : ℕ → Counts → Type 0
Bounded cap counts = (name : String) → counts name ≤ cap + 1

-- What the result of a call says: that the tool ran and failed.
abbrev pub is_failure : ToolPayload → Bool
is_failure (output s) = false
is_failure no_output = false
is_failure (unknown_tool name) = false
is_failure (retry_cap_exceeded name n cap) = false
is_failure (policy_deny e indices n) = true
is_failure (failed e code n) = true

abbrev is_failed_result : ContentBlock → Bool
is_failed_result (tool_result id p b) = is_failure p
is_failed_result (text s) = false
is_failed_result (image m n d) = false
is_failed_result (document m n d) = false
is_failed_result (tool_use id name input) = false

-- 1 for a failure of this tool.
abbrev pub counted_failure : String → LlmToolUse → ContentBlock → ℕ
counted_failure name tc b = if tc.name == name && is_failed_result b then 1 else 0

-- How often a tool failed, by the calls and their results.
pub failures : String → List LlmToolUse → List ContentBlock → ℕ
failures name (tc ∷ tcs) (b ∷ bs) = counted_failure name tc b + failures name tcs bs
failures name _ _ = 0

-- A call of this turn whose tool ran and failed, and ends the turn by that.
pub record Terminated {W : Type 0} (outside : Outside W) (settings : Settings) (recalling : Bool)
    (tcs : List LlmToolUse) (e : Failure) : Type 0 where
  pub tc : LlmToolUse
  pub called : Memᴰ tc tcs
  pub tool : Tool
  pub known : lookup_tool settings.tools tc.name ≡ some tool
  pub terminates : tool.terminates ≡ true
  pub before : Run W
  pub failed_with : (call_tool outside settings recalling tc tool before).0.failure ≡ some e

abbrev pub AnswersWell :
    {W : Type 0} → Outside W → Settings → Bool → List LlmToolUse → Counts → Results W → Type 0
AnswersWell outside settings recalling tcs counts (halted_by e r) =
    Terminated outside settings recalling tcs e
AnswersWell outside settings recalling tcs counts (results counts' blocks r) =
    Answers tcs blocks
    × ((name : String) → counts' name ≡ counts name + failures name tcs blocks)
    × Bounded settings.max_tool_retries counts'

-- Counting one more failure of a tool that may still be called.
Bounded-bump :
    (cap : ℕ) (name : String) (counts : Counts)
    → counts name ≤ cap
    → Bounded cap counts
    → Bounded cap (bump name counts)
unfolding bump
Bounded-bump cap name counts h b other = elim (Bool-cases (name == other)) [
  | inl t ↦
      rw t (subst (λ n. suc (counts n) ≤ cap + 1) ((eq_iff name other).0 t) (omega (arith, h)))
  | inr f ↦ rw f (b other)
]

-- One more failure of this tool, and of no other.
bump-counted_failure :
    (tc : LlmToolUse) (b : ContentBlock) (counts : Counts) (name : String)
    → is_failed_result b ≡ true
    → bump tc.name counts name ≡ counts name + counted_failure name tc b
unfolding bump
bump-counted_failure tc b counts name h = elim (Bool-cases (tc.name == name)) [
  | inl t ↦ rw (t, h) (omega arith)
  | inr f ↦ rw f (omega arith)
]

no_failure :
    (tc : LlmToolUse) (b : ContentBlock) (n : ℕ) (name : String)
    → is_failed_result b ≡ false
    → n ≡ n + counted_failure name tc b
no_failure tc b n name h = elim (Bool-cases (tc.name == name)) [
  | inl t ↦ rw (t, h) (omega arith)
  | inr f ↦ rw f (omega arith)
]

module _ {W : Type 0} (outside : Outside W) (settings : Settings) (recalling : Bool)
    (tc : LlmToolUse) where
  StepWell : Counts → Step W → Type 0
  StepWell counts (halted e r) = Terminated outside settings recalling (tc ∷ []) e
  StepWell counts (stepped counts' block r) =
      (p : ToolPayload) × (b : Bool) × (block ≡ tool_result tc.id p b)
      × ((name : String) → counts' name ≡ counts name + counted_failure name tc block)
      × Bounded settings.max_tool_retries counts'

  is_failure-error :
      (e : Failure) (called : Called)
      → is_failure (error_payload outside settings recalling tc e called) ≡ true
  unfolding error_payload
  is_failure-error e called = elim (Option-cases (allowed_indices e)) [
    | inl n ↦ rw (is_failure, n) refl
    | inr (indices, s) ↦ rw (is_failure, s) refl
  ]

  is_failure-payload :
      (called : Called)
      → called.failure ≡ none
      → is_failure (payload_of outside settings recalling tc called) ≡ false
  unfolding payload_of
  is_failure-payload called n =
      rw n (elim (Bool-cases (is_blank_tool_payload outside.trim called.out)) [
        | inl t ↦ rw (is_failure, t) refl
        | inr f ↦ rw (is_failure, f) refl
      ])

  -- A result that is surfaced without a failure, and one of a failure that is counted.
  quiet-StepWell :
      (counts : Counts) (p : ToolPayload) (b : Bool) (r : Run W)
      → is_failure p ≡ false
      → Bounded settings.max_tool_retries counts
      → StepWell counts (surface outside settings recalling tc counts p b r)
  unfolding surface StepWell
  quiet-StepWell counts p b r h bounded =
      (p, b, refl, (λ name. no_failure tc (tool_result tc.id p b) (counts name) name h), bounded)

  counted-StepWell :
      (counts : Counts) (p : ToolPayload) (b : Bool) (r : Run W)
      → is_failure p ≡ true
      → counts tc.name ≤ settings.max_tool_retries
      → Bounded settings.max_tool_retries counts
      → StepWell counts (surface outside settings recalling tc (bump tc.name counts) p b r)
  unfolding surface StepWell
  counted-StepWell counts p b r h low bounded = (
    p,
    b,
    refl,
    (λ name. bump-counted_failure tc (tool_result tc.id p b) counts name h),
    Bounded-bump _ tc.name counts low bounded,
  )

  after_call-StepWell :
      (counts : Counts) (tool : Tool) (before r : Run W) (called : Called)
      → (call_tool outside settings recalling tc tool before).0 ≡ called
      → lookup_tool settings.tools tc.name ≡ some tool
      → counts tc.name ≤ settings.max_tool_retries
      → Bounded settings.max_tool_retries counts
      → StepWell counts (after_call outside settings recalling tc counts tool called r)
  unfolding after_call failed_call StepWell
  after_call-StepWell counts tool before r called q found low b =
      elim (Option-cases called.failure) [
        | inl n ↦ rw n (
            quiet-StepWell counts _ false r
              (is_failure-payload (record called { failure = none }) refl) b)
        | inr (e, s) ↦ rw s (elim (Bool-cases tool.terminates) [
          | inl t ↦ rw t (record {
            tc = tc;
            called = Memᴰ.head refl;
            tool = tool;
            known = found;
            terminates = t;
            before = before;
            failed_with = ap (λ c. c.failure) q ∙ s;
          })
          | inr f ↦ rw f (
              counted-StepWell counts _ true r
                (is_failure-error e (record called { failure = some e })) low b)
        ])
      ]

  known_tool-StepWell :
      (counts : Counts) (tool : Tool) (r : Run W)
      → lookup_tool settings.tools tc.name ≡ some tool
      → Bounded settings.max_tool_retries counts
      → StepWell counts (known_tool outside settings recalling tc counts tool r)
  unfolding known_tool StepWell surface
  known_tool-StepWell counts tool r found b =
      elim (Bool-cases (ltb settings.max_tool_retries (counts tc.name))) [
        | inl t ↦
            rw (StepWell, t)
              (quiet-StepWell counts
                (retry_cap_exceeded tc.name (counts tc.name) settings.max_tool_retries) true r refl
                b)
        | inr f ↦
            rw (StepWell, f)
              (after_call-StepWell counts tool r _ _ refl found (ground (arith, f)) b)
      ]

  step_call-StepWell :
      (counts : Counts) (r : Run W)
      → Bounded settings.max_tool_retries counts
      → StepWell counts (step_call outside settings recalling tc counts r)
  unfolding step_call StepWell
  step_call-StepWell counts r b = elim (Option-cases (lookup_tool settings.tools tc.name)) [
    | inl n ↦
        rw (StepWell, n)
          (
            _,
            _,
            refl,
            (λ name.
                no_failure tc (tool_result tc.id (unknown_tool tc.name) true) (counts name) name
                  refl),
            b,
          )
    | inr (tool, s) ↦ rw (StepWell, s) (known_tool-StepWell counts tool r s b)
  ]

module _ {W : Type 0} (outside : Outside W) (settings : Settings) (recalling : Bool) where
  Terminated-widens :
      (tcs tcs' : List LlmToolUse) (e : Failure)
      → ((tc : LlmToolUse) → Memᴰ tc tcs → Memᴰ tc tcs')
      → Terminated outside settings recalling tcs e
      → Terminated outside settings recalling tcs' e
  Terminated-widens tcs tcs' e within t = record {
    tc = t.tc;
    called = within t.tc t.called;
    tool = t.tool;
    known = t.known;
    terminates = t.terminates;
    before = t.before;
    failed_with = t.failed_with;
  }

  after_step-AnswersWell :
      (tc : LlmToolUse) (tcs : List LlmToolUse) (before : Counts) (s : Step W)
      (next : Counts → Run W → Results W)
      → StepWell outside settings recalling tc before s
      → ((counts : Counts) (r : Run W)
          → Bounded settings.max_tool_retries counts
          → AnswersWell outside settings recalling tcs counts (next counts r))
      → AnswersWell outside settings recalling
          (tc ∷ tcs)
          before
          (after_step outside settings recalling s next)
  unfolding after_step StepWell failures
  after_step-AnswersWell tc tcs before (halted e r) next h go_on =
      Terminated-widens (tc ∷ []) (tc ∷ tcs) e (λ x m. Memᴰ.append_left tcs m) h
  after_step-AnswersWell tc tcs before (stepped counts block r) next (p, b, q, one, bounded) go_on =
      joined (next counts r) (go_on counts r bounded)
    where
      joined :
          (rs : Results W)
          → AnswersWell outside settings recalling tcs counts rs
          → AnswersWell outside settings recalling (tc ∷ tcs) before (elim rs [
            | halted_by e r' ↦ halted_by e r'
            | results counts' blocks r' ↦ results counts' (block ∷ blocks) r'
          ])
      joined (halted_by e r') k = Terminated-widens tcs (tc ∷ tcs) e (λ x m. Memᴰ.tail m) k
      joined (results counts' blocks r') (k, more, l) = (
        subst (λ x. Answers (tc ∷ tcs) (x ∷ blocks)) (sym q) (answered_by tc p b tcs blocks k),
        (λ name. omega (arith, one name, more name)),
        l,
      )

  -- If no tool has failed more often than the cap allows, plus one, then a tool turn that ends the
  -- whole turn does so by the failure of one of its calls, whose tool is one of those whose failures
  -- do so. Every other tool turn returns one result for each call, in the order of the calls; the
  -- count of each tool grows by exactly the results of this turn that say that it ran and failed, and
  -- still none is above the cap, plus one.
  pub run_calls-AnswersWell :
      (tcs : List LlmToolUse) (counts : Counts) (r : Run W)
      → Bounded settings.max_tool_retries counts
      → AnswersWell outside settings recalling tcs counts
          (run_calls outside settings recalling tcs counts r)
  unfolding run_calls failures
  run_calls-AnswersWell [] counts r b = (all_answered, (λ name. omega arith), b)
  run_calls-AnswersWell (tc ∷ tcs) counts r b =
      after_step-AnswersWell tc tcs counts (step_call outside settings recalling tc counts r)
        (λ counts' r'. run_calls outside settings recalling tcs counts' r')
        (step_call-StepWell outside settings recalling tc counts r b)
        (λ counts' r' b'. run_calls-AnswersWell tcs counts' r' b')
