-- ===== src/Agent/Messages/Laws.antt =====
-- What memory and the client see of a message.
use ai_agent_go_service.Prelude.{◌≡◌, refl, ap, List, [], ◌∷◌}
use Prim.Native.String.{◌++◌ as concat}
use ai_agent_go_service.Agent.Types.{
  ContentBlock, text, image, document, tool_use, tool_result, MessageRole, Message,
}
use ai_agent_go_service.Agent.Messages.{text_blocks, text_only_message, text_of, last_text}

pub last_text-nil : (role : MessageRole) → last_text (record { role = role; content = [] }) ≡ ""
unfolding last_text text_of
last_text-nil role = refl

text_of-text_blocks : (bs : List ContentBlock) → text_of (text_blocks bs) ≡ text_of bs
unfolding text_of text_blocks
text_of-text_blocks [] = refl
text_of-text_blocks (text s ∷ bs) = ap (concat s) (text_of-text_blocks bs)
text_of-text_blocks (image mt name bytes ∷ bs) = text_of-text_blocks bs
text_of-text_blocks (document mt name bytes ∷ bs) = text_of-text_blocks bs
text_of-text_blocks (tool_use id name input ∷ bs) = text_of-text_blocks bs
text_of-text_blocks (tool_result id payload b ∷ bs) = text_of-text_blocks bs

-- Dropping the blocks of tools from a message keeps the text that it shows.
pub last_text-text_only_message : (m : Message) → last_text (text_only_message m) ≡ last_text m
unfolding last_text text_only_message
last_text-text_only_message m = text_of-text_blocks m.content
