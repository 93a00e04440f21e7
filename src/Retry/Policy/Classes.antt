-- ===== src/Retry/Policy/Classes.antt =====
-- What the texts of `retryOn` select.
use ai_agent_go_service.Prelude.{
  String, ◌≡◌, refl, not, List, [], ◌∷◌, ok, if◌then◌else◌, elem, arith,
}
use ai_agent_go_service.Retry.Types.{Class, stream_emitted, all_classes, class_name, is_class}
use ai_agent_go_service.Retry.Classify.Laws.{class_of_sound}
use ai_agent_go_service.Retry.Policy.{named_classes, parse_classes, retried_by}

all_classes-retried : (c : Class) → retried_by all_classes c ≡ not (is_class c stream_emitted)
unfolding retried_by is_class class_name
all_classes-retried Class.transient = refl
all_classes-retried _ = refl

named_classes-retried :
    (ss : List String) (cs : List Class) (c : Class)
    → named_classes ss ≡ ok cs
    → retried_by cs c ≡ elem (class_name c) ss
unfolding named_classes retried_by is_class
named_classes-retried [] cs c h = ground arith
named_classes-retried (s ∷ ss) [] c h = absurd (ground arith)
named_classes-retried (s ∷ ss) (k ∷ cs) c h =
    ground (arith, class_of_sound s k, named_classes-retried ss cs c)

-- A class is retried exactly if `retryOn` names it, or says "all" and it is not that of a stream
-- that broke off.
pub parse_classes-retried :
    (ss : List String) (cs : List Class) (c : Class)
    → parse_classes ss ≡ ok cs
    → retried_by cs c
      ≡ (if elem "all" ss then not (is_class c stream_emitted) else elem (class_name c) ss)
unfolding parse_classes
parse_classes-retried ss cs c h =
    ground (arith, all_classes-retried c, named_classes-retried ss cs c)
