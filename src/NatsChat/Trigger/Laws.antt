-- ===== src/NatsChat/Trigger/Laws.antt =====
-- What the executor is handed, while tokens are enforced.
use ai_agent_go_service.Prelude.{◌≡◌, String, List, [], ◌∷◌, some}
use ai_agent_go_service.Transport.Protocol.{get_header}
use ai_agent_go_service.Idt.Validator.{Validator}
use ai_agent_go_service.Idt.Validator.Laws.{Kept}
use ai_agent_go_service.NatsChat.Access.{IdtTarget, Asker, current_idt_target}
use ai_agent_go_service.NatsChat.Access.Laws.{Admits}
use ai_agent_go_service.NatsChat.Trigger.{
  ChatTrigger, NatsMessage, TriggerEvent, Effect, emitted, stream_failed, ChatHost, Handled,
  with_validator, header_asker,
}

-- Every event that is handed to the executor satisfies the predicate.
abbrev pub Emits : (TriggerEvent → Type 0) → List Effect → Type 0
Emits P [] = Unit
Emits P (emitted evt ∷ es) = P evt × Emits P es
Emits P (stream_failed code message ∷ es) = Emits P es

-- Who the event says is asking.
abbrev pub asker_of : TriggerEvent → Asker
asker_of evt = record { user = evt.person.user_id; account = evt.person.account_id }

module _ {W : Type 0} (host : ChatHost W) (P : TriggerEvent → Type 0) where
  -- The events satisfy the predicate, and the trigger stays as it is.
  abbrev Passes : ChatTrigger → Handled W → Type 0
  Passes t h = Emits P h.effects × (h.trigger ≡ t)

abbrev target_at : {W : Type 0} → ChatHost W → ChatTrigger → IdtTarget
target_at host t = current_idt_target host.trim t.access

abbrev pub token_of : NatsMessage → String
token_of msg = get_header "X-TRX-IDT" msg.header

module _ {W : Type 0} (host : ChatHost W) (Grants : String → String → String → String → Type 0)
    (t : ChatTrigger) (msg : NatsMessage) (v : Validator) where
  -- The event's user and account are admitted for the request's token.
  abbrev pub IsAdmitted : TriggerEvent → Type 0
  IsAdmitted evt =
      Admits host.identity Grants t.workflow_id v (token_of msg) host.trim t.access
        (header_asker host t msg) (asker_of evt)

  -- The events of a request are admitted, and the trigger keeps a sound validator.
  abbrev pub Guards : Handled W → Type 0
  Guards h =
      Emits IsAdmitted h.effects
      × ((u : Validator) × (with_validator t (some u) ≡ h.trigger) × Kept host.identity Grants v u)
