-- ===== src/Agent/Messages.antt =====
-- The helpers of loop.go on messages: what is sent to the model, and what memory keeps.
pub mod Laws
use ai_agent_go_service.Prelude.{
  ℕ, String, ◌==◌, Bool, true, false, ◌||◌, List, [], ◌∷◌, ◌++◌, Option, some, none, length,
  starts_with, if◌then◌else◌,
}
use Prim.Native.String.{◌++◌ as concat}
use ai_agent_go_service.Engine.Executor.{Attachment}
use ai_agent_go_service.Agent.Types.{
  ContentBlock, text, image, document, tool_use, tool_result, Message,
}

-- strings.Join with a line break
join_lines : List String → String
join_lines [] = ""
join_lines (s ∷ []) = s
join_lines (s ∷ ss) = concat s (concat "\n" (join_lines ss))

text_blocks : List ContentBlock → List ContentBlock
text_blocks [] = []
text_blocks (text s ∷ bs) = text s ∷ text_blocks bs
text_blocks (b ∷ bs) = text_blocks bs

unfoldable pub text_only_message : Message → Message
unfolding text_blocks
text_only_message m = record { role = m.role; content = text_blocks m.content }

-- Prints a byte count.
module _ (itoa : ℕ → String) where
  describe : String → String → String → List ℕ → String
  describe kind name media_type bytes = concat "[" (
      concat kind (
        concat ": " (
          concat (if name == "" then "(unnamed)" else name) (
            concat " ("
              (concat media_type (concat ", " (concat (itoa (length bytes)) " bytes)]")))))))

  pub attachment_ref : ContentBlock → String
  unfolding describe
  attachment_ref (image media_type name bytes) = describe "attached image" name media_type bytes
  attachment_ref (document media_type name bytes) =
      describe "attached document" name media_type bytes
  attachment_ref b = describe "attached" "" "" []

  attachment_refs : List ContentBlock → List String
  unfolding attachment_ref
  attachment_refs [] = []
  attachment_refs (image mt name bytes ∷ bs) =
      attachment_ref (image mt name bytes) ∷ attachment_refs bs
  attachment_refs (document mt name bytes ∷ bs) =
      attachment_ref (document mt name bytes) ∷ attachment_refs bs
  attachment_refs (b ∷ bs) = attachment_refs bs

  with_refs : List String → List ContentBlock → List ContentBlock
  with_refs [] bs = bs
  with_refs (r ∷ rs) bs = text (join_lines (r ∷ rs)) ∷ bs

  unfoldable pub message_for_memory : Message → Message
  unfolding attachment_refs with_refs text_blocks join_lines
  message_for_memory m = record {
    role = m.role;
    content = with_refs (attachment_refs m.content) (text_blocks m.content);
  }

abbrev pub is_empty {ℓ} : {A : Type ℓ} → List A → Bool
is_empty [] = true
is_empty (x ∷ xs) = false

unfoldable pub attachment_block : Attachment → Option ContentBlock
attachment_block a =
    if is_empty a.bytes || a.media_type == ""
    then none
    else if starts_with a.media_type "image/"
    then some (image a.media_type a.filename a.bytes)
    else if a.media_type == "application/pdf"
    then some (document a.media_type a.filename a.bytes)
    else none

text_of : List ContentBlock → String
text_of [] = ""
text_of (text s ∷ bs) = concat s (text_of bs)
text_of (b ∷ bs) = text_of bs

unfoldable pub last_text : Message → String
unfolding text_of
last_text m = text_of m.content

-- The last block grows if it is a text.
unfoldable pub append_or_extend_text : List ContentBlock → String → List ContentBlock
append_or_extend_text [] delta = text delta ∷ []
append_or_extend_text (text s ∷ []) delta = text (concat s delta) ∷ []
append_or_extend_text (b ∷ []) delta = b ∷ text delta ∷ []
append_or_extend_text (b ∷ c ∷ bs) delta = b ∷ append_or_extend_text (c ∷ bs) delta

-- `trim` is strings.TrimSpace.
unfoldable pub is_blank_tool_payload : (String → String) → String → Bool
is_blank_tool_payload trim p = let s = trim p in s == "" || s == "\"\"" || s == "null"

unfoldable pub message_stop_of : String → String
message_stop_of stop = if stop == "" || stop == "tool_use" then "end_turn" else stop

-- The blocks of a request: its attachments, then its text.
attachment_blocks : List Attachment → List ContentBlock
unfolding attachment_block
attachment_blocks [] = []
attachment_blocks (a ∷ as') = elim (attachment_block a) [
  | none ↦ attachment_blocks as'
  | some b ↦ b ∷ attachment_blocks as'
]

unfoldable pub user_blocks : List Attachment → String → List ContentBlock
unfolding attachment_blocks
user_blocks attachments message = attachment_blocks attachments ++ text message ∷ []
