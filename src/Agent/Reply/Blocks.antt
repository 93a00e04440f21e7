-- ===== src/Agent/Reply/Blocks.antt =====
-- The blocks of an answer that calls tools.
use ai_agent_go_service.Prelude.{◌≡◌, refl, arith, Bool, true, false, String, List, [], ◌∷◌, ◌++◌}
use ai_agent_go_service.Agent.Types.{
  ContentBlock, text, image, document, tool_use, tool_result, Message, LlmEvent, reasoning_delta,
  text_delta, tool_use_stop, message_stop, other_kind,
}
use ai_agent_go_service.Agent.Messages.{is_empty, append_or_extend_text}
use ai_agent_go_service.Agent.Run.{Run, Settings, Outside}
use ai_agent_go_service.Agent.Reply.{Reply, no_reply, ask_model, hear, hear_all, receive}

CallsShow : Reply → Type 0
CallsShow reply = is_empty reply.calls ≡ false → is_empty reply.blocks ≡ false

is_empty-append : {A : Type 0} (xs : List A) (y : A) (ys : List A) → is_empty (xs ++ y ∷ ys) ≡ false
is_empty-append [] y ys = refl
is_empty-append (x ∷ xs) y ys = refl

is_empty-append_or_extend_text :
    (bs : List ContentBlock) (d : String) → is_empty (append_or_extend_text bs d) ≡ false
unfolding append_or_extend_text
is_empty-append_or_extend_text [] d = refl
is_empty-append_or_extend_text (text s ∷ []) d = refl
is_empty-append_or_extend_text (image mt name bytes ∷ []) d = refl
is_empty-append_or_extend_text (document mt name bytes ∷ []) d = refl
is_empty-append_or_extend_text (tool_use id name input ∷ []) d = refl
is_empty-append_or_extend_text (tool_result id payload b ∷ []) d = refl
is_empty-append_or_extend_text (b ∷ c ∷ bs) d = refl

module _ {W : Type 0} (outside : Outside W) (settings : Settings) (recalling : Bool) where
  hear-CallsShow :
      (ev : LlmEvent) (reply : Reply) (r : Run W)
      → CallsShow reply
      → CallsShow (hear outside settings recalling ev reply r).0
  unfolding hear CallsShow
  hear-CallsShow (reasoning_delta d) reply r h = h
  hear-CallsShow (text_delta d) reply r h = λ e. is_empty-append_or_extend_text reply.blocks d
  hear-CallsShow (tool_use_stop tc) reply r h = λ e. is_empty-append reply.blocks _ []
  hear-CallsShow (message_stop s) reply r h = h
  hear-CallsShow other_kind reply r h = h

  hear_all-CallsShow :
      (evs : List LlmEvent) (reply : Reply) (r : Run W)
      → CallsShow reply
      → CallsShow (hear_all outside settings recalling evs reply r).0
  unfolding hear_all
  hear_all-CallsShow [] reply r h = h
  hear_all-CallsShow (ev ∷ evs) reply r h =
      let (reply', r') = hear outside settings recalling ev reply r in
      hear_all-CallsShow evs reply' r' (hear-CallsShow ev reply r h)

  -- An answer with calls has blocks.
  pub blocks-of_calls :
      (msgs : List Message) (r : Run W)
      → let (reply, e, r') = receive outside settings recalling msgs r in
        is_empty reply.calls ≡ false → is_empty reply.blocks ≡ false
  unfolding receive CallsShow
  blocks-of_calls msgs r =
      let (evs, e, r') = ask_model outside settings msgs r in
      hear_all-CallsShow evs no_reply r' (λ h. absurd (never h))
    where
      never : true ≡ false → ⊥
      never h = absurd (ground (arith, h))
