-- ===== src/UsageObserver/Tests.antt =====
-- A response in two chunks, whose client leaves before its end.
use provider_core.Prelude.{
  ◌≡◌, refl, true, false, Option, none, some, [], ◌∷◌, map, codes, contains, Text-discrete,
  ℕ_discrete,
}
use provider_core.Prelude.Results.{ok}
use provider_core.Sse.{
  Bytes, fresh, push, drain, drain_all, find_frame_end, position_of, frame_data, collect_data,
  split_lines, strip_cr,
}
use provider_core.Sse.Chunks.{feed, concat}
use provider_core.Tracking.Attempt.{first_token_observed, success_terminal_observed, finished}
use provider_core.UsageObserver.Facts.{
  ObservedFrame, responses_event_starts_output, responses_terminal,
}
use provider_core.UsageObserver.{chunk, observe_usage, next_items, observe}
use provider_core.UsageObserver.Once.{endings, ends_last, observe_once}
use provider_core.UsageObserver.Frames.{next_items-concat}

-- Every frame starts output and is a success.
abbrev extractor : Bytes → Option ObservedFrame
extractor frame =
    some
      (record { fields = none; model = none; first_token = true; successful_terminal = some true })

abbrev start_bytes : Bytes
start_bytes = codes "data:h"

abbrev more_bytes : Bytes
more_bytes = codes "i\n\n"

accepted : feed fresh (start_bytes ∷ more_bytes ∷ []) ≡ (fresh, ok (codes "hi" ∷ []))
unfolding feed push drain_all drain find_frame_end position_of frame_data collect_data split_lines
    strip_cr
accepted = refl

told_of_response :
    (observe extractor (chunk start_bytes ∷ chunk more_bytes ∷ [])).told
    ≡ first_token_observed ∷ success_terminal_observed ∷ finished none ∷ []
unfolding observe push drain_all drain find_frame_end position_of frame_data collect_data
    split_lines strip_cr
told_of_response = refl

observe_once_example :
    (endings (observe extractor (chunk start_bytes ∷ chunk more_bytes ∷ [])).told ≡ 1)
    × (ends_last (observe extractor (chunk start_bytes ∷ chunk more_bytes ∷ [])).told ≡ 1)
observe_once_example = observe_once extractor (chunk start_bytes ∷ chunk more_bytes ∷ [])

next_items-concat_example :
    next_items extractor (map chunk (start_bytes ∷ more_bytes ∷ [])) observe_usage
    ≡ next_items extractor (chunk (concat (start_bytes ∷ more_bytes ∷ [])) ∷ []) observe_usage
next_items-concat_example =
    next_items-concat extractor start_bytes (more_bytes ∷ []) (codes "hi" ∷ []) fresh accepted

canceled_terminal :
    responses_terminal (some (codes "response.completed")) (some (codes "failed")) ≡ some false
unfolding responses_terminal contains Text-discrete ℕ_discrete
canceled_terminal = refl

text_delta : responses_event_starts_output (codes "response.output_text.delta") ≡ true
unfolding responses_event_starts_output contains Text-discrete ℕ_discrete
text_delta = refl
