-- ===== src/Agent/Charts/Examples.antt =====
-- An answer with two charts, one of them rendered, and an image with a made-up url.
use ai_agent_go_service.Prelude.{false, List, [], ◌∷◌, none}
use ai_agent_go_service.Agent.Charts.{
  ChartRef, Patterns, between, extract_chart_keys, first_key, correct_image, image_match,
}
use ai_agent_go_service.Agent.Charts.Laws.{Shown, correct_image-Shown}

abbrev patterns : Patterns
patterns = record {
  find_keys = λ s. "key-1" ∷ "key-2" ∷ "key-1" ∷ [];
  find_urls = λ s. [];
  split_images = λ s. between s ∷ [];
  has_backslash = λ s. false;
  unmarshal_text = λ s. none;
  trim = λ s. s;
}

abbrev rendered : List ChartRef
rendered = record { key = "key-2"; url = "chart/key-2.png" } ∷ []

correct_image-Shown_example :
    Shown patterns rendered "![a](x)" "a"
      (first_key (extract_chart_keys patterns "x"))
      (correct_image patterns rendered (image_match "![a](x)" "a" "x"))
correct_image-Shown_example = correct_image-Shown patterns rendered "![a](x)" "a" "x"
