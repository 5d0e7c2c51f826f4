-- ===== src/Claude/Tests.antt =====
-- Tests of the conversion, and concrete runs.
use Prim.Native.String.{String}
use provider_core.Prelude.{
  Option, some, ◌≡◌, refl, none, some, List, [], ◌∷◌, Text-discrete, ℕ_discrete, codes,
}
use provider_core.Claude.Sample.{Json, empty, text, field, get_field, values}
use provider_core.Claude.Blocks.{new_converter, Sent, close_block, start_thinking, start_text}
use provider_core.Claude.Items.{output_item_done, web_search_results}
use provider_core.Claude.Convert.{convert_all}
use provider_core.Claude.Client.{new_client, replay}
use provider_core.Claude.Replay.{client}
use provider_core.Sse.{Bytes}
use provider_core.UsageObserver.{Item, chunk, failure}
use provider_core.Claude.Stream.{Polled, outputs, new_adapter}
use provider_core.Claude.Replay.Stream.{events_of, outputs-IsAccepted}

abbrev event : String → Json → Json
event kind others = field "type" (text kind) others

abbrev thought_then_text : List Json
thought_then_text =
    event "response.created" empty
    ∷ event "response.reasoning_text.delta" (field "delta" (text "hm") empty)
    ∷ event "response.output_text.delta" (field "delta" (text "hi") empty)
    ∷ event "response.output_item.done" (field "item" (event "web_search_call" empty) empty)
    ∷ event "response.output_text.delta" (field "delta" (text "done") empty)
    ∷ []

abbrev sent : Sent values
sent = convert_all values thought_then_text (new_converter (codes "m") (λ name. none))

test_block_index : sent.converter.block_index ≡ 4
unfolding convert_all get_field close_block start_thinking start_text output_item_done
    web_search_results Text-discrete ℕ_discrete
test_block_index = refl

-- A frame of a created response, in two chunks, before the upstream fails.
abbrev items : List Item
items = chunk (codes "data: {\n") ∷ chunk (codes "\n") ∷ failure ∷ []

abbrev parsed : Bytes → Option Json
parsed frame = some (event "response.created" empty)

abbrev polled : Polled values
polled = outputs values parsed items (new_adapter values (codes "m") (λ name. none))

outputs-IsAccepted_example :
    replay values (events_of values polled.output) new_client
    ≡ some (client polled.adapter.converter)
outputs-IsAccepted_example = outputs-IsAccepted values parsed (codes "m") (λ name. none) items
