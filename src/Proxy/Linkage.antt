-- ===== src/Proxy/Linkage.antt =====
-- The observation of response ids in a stream: `observe_response_id`, `take_response_linkage_events`,
-- `find_sse_frame_end` and `sse_lines` of crates/provider-core/src/proxy/service.rs. The JSON of an
-- event is serde_json's, which enters as a parameter.
pub mod Binds
use Prim.Native.String.{String}
use provider_core.Prelude.{
  ℕ, zero, suc, ◌+◌, ◌*◌, Bool, true, false, not, ◌&&◌, ◌||◌, Option, none, some, List, [], ◌∷◌,
  ◌++◌, if◌then◌else◌, ltb, ◌==◌, is_empty, length, take, drop, Text, codes, trim, holds,
  Text-discrete,
}
use provider_core.Prelude.Results.{Result, ok, err}
use provider_core.Router.Bindings.{AccountId}
use provider_core.Router.Accounts.{same_text}
use provider_core.Sse.{Bytes, lf, cr, strip_prefix, cons_first}
use provider_core.Proxy.Errors.{ProviderError}

-- serde_json: `from_slice`, `Value::get` and `Value::as_str`.
pub record EventJson : Type 1 where
  pub Value : Type 0
  pub from_slice : Bytes → Option Value
  pub get_field : Value → String → Option Value
  pub as_str : Value → Option Text

abbrev is_break : ℕ → Bool
is_break c = c == cr || c == lf

abbrev plus : ℕ → Option ℕ → Option ℕ
plus n none = none
plus n (some m) = some (n + m)

-- The loop of `find_sse_frame_end`, from a position on; `at_start` is the test `index == line_start`.
unfoldable pub frame_end_from : Bool → Bytes → Option ℕ
frame_end_from at_start [] = none
frame_end_from at_start (c ∷ []) = if is_break c && at_start then some 1 else none
frame_end_from at_start (c ∷ d ∷ bytes) =
    let in_line = plus 1 (frame_end_from false (d ∷ bytes)) in
    let after_one = plus 1 (frame_end_from true (d ∷ bytes)) in
    let after_two = plus 2 (frame_end_from true bytes) in
    if is_break c
    then (if c == cr && d == lf
        then (if at_start then some 2 else after_two)
        else (if at_start then some 1 else after_one))
    else in_line

abbrev pub find_sse_frame_end : Bytes → Option ℕ
find_sse_frame_end buffer = frame_end_from true buffer

-- The loop of `sse_lines`, with the bytes of the line so far.
unfoldable pub lines_from : Bytes → Bytes → List Bytes
lines_from line [] = if is_empty line then [] else line ∷ []
lines_from line (c ∷ []) = if is_break c then line ∷ [] else (line ++ c ∷ []) ∷ []
lines_from line (c ∷ d ∷ bytes) =
    let in_line = lines_from (line ++ c ∷ []) (d ∷ bytes) in
    let after_one = line ∷ lines_from [] (d ∷ bytes) in
    let after_two = line ∷ lines_from [] bytes in
    if is_break c then (if c == cr && d == lf then after_two else after_one) else in_line

abbrev pub sse_lines : Bytes → List Bytes
sse_lines frame = lines_from [] frame

abbrev or_else_bytes : Option Bytes → Option Bytes → Option Bytes
or_else_bytes none other = other
or_else_bytes (some s) other = some s

abbrev pub created : Text
created = codes "response.created"

abbrev is_terminal : Text → Bool
is_terminal t =
    same_text t (codes "response.completed") || same_text t (codes "response.incomplete")

abbrev is_linkage : Text → Bool
is_linkage t = same_text t created || is_terminal t

-- `map(str::trim).filter(|id| !id.is_empty())`
abbrev trimmed_id : Option Text → Option Text
trimmed_id none = none
trimmed_id (some id) = if is_empty (trim id) then none else some (trim id)

pub record LinkageEvent : Type 0 where
  pub event_type : Text
  pub response_id : Option Text

pub record Taken : Type 0 where
  pub pending : Bytes
  pub events : List LinkageEvent

infixl 5 ◌>>=◌
abbrev ◌>>=◌ {ℓ κ} : {A : Type ℓ} {B : Type κ} → Option A → (A → Option B) → Option B
none >>= f = none
some a >>= f = f a

module _ (json : EventJson) where
  open json use {Value, from_slice, get_field, as_str}

  abbrev response_id_of : Value → Option Text
  response_id_of value =
      trimmed_id (do response ← get_field value "response"; id ← get_field response "id"; as_str id)

  unfoldable pub event_of_line : Bytes → Option LinkageEvent
  event_of_line line = do
    found ← or_else_bytes (strip_prefix (codes "data: ") line) (strip_prefix (codes "data:") line)
    value ← from_slice found
    kind ← get_field value "type"
    event_type ← as_str kind
    if is_linkage event_type
        then some (record { event_type = event_type; response_id = response_id_of value })
        else none

  abbrev event_list : Option LinkageEvent → List LinkageEvent
  event_list none = []
  event_list (some event) = event ∷ []

  unfoldable pub events_of_lines : List Bytes → List LinkageEvent
  events_of_lines [] = []
  events_of_lines (line ∷ lines) = event_list (event_of_line line) ++ events_of_lines lines

  -- The loop of `take_response_linkage_events`: each round shortens the buffer, so its length is
  -- enough fuel.
  unfoldable pub take_events : ℕ → Bytes → Taken
  unfolding frame_end_from lines_from events_of_lines
  take_events zero pending = record { pending = pending; events = [] }
  take_events (suc fuel) pending = elim (find_sse_frame_end pending) [
    | none ↦ record { pending = pending; events = [] }
    | some frame_end ↦
        let rest = take_events fuel (drop frame_end pending) in
        record {
          pending = rest.pending;
          events = events_of_lines (sse_lines (take frame_end pending)) ++ rest.events;
        }
  ]

  unfoldable pub take_response_linkage_events : Bytes → Taken
  unfolding take_events
  take_response_linkage_events pending = take_events (length pending) pending

abbrev pub max_response_linkage_buffer_size : ℕ
max_response_linkage_buffer_size = 64 * 1024

-- The state of the stream, with the response ids that it has bound to its account, oldest first.
pub record Observer : Type 0 where
  pub bind_response_id_at_created : Bool
  pub pending : Bytes
  pub response_id : Option Text
  pub bound : Bool
  pub completed : Bool
  pub linkage_disabled : Bool
  pub bindings : List Text

unfoldable pub observe_response_id : Bool → Observer
observe_response_id at_created = record {
  bind_response_id_at_created = at_created;
  pending = [];
  response_id = none;
  bound = false;
  completed = false;
  linkage_disabled = false;
  bindings = [];
}

-- `router.bind_response_id(…); state.bound = true`
abbrev bind : Text → Observer → Observer
bind id s = record s { bindings = s.bindings ++ id ∷ []; bound = true }

abbrev on_created : Option Text → Observer → Observer
on_created none s = s
on_created (some id) s =
    let seen : Observer = record s { response_id = some id } in
    if s.bind_response_id_at_created && not s.bound then bind id seen else seen

abbrev bind_known : Option Text → Option Text → Observer → Observer
bind_known (some id) known s = bind id s
bind_known none (some id) s = bind id s
bind_known none none s = s

abbrev on_terminal : Option Text → Observer → Observer
on_terminal id s =
    let linked : Observer = if s.bound then s else bind_known id s.response_id s in
    record linked { completed = true }

unfoldable pub on_event : LinkageEvent → Observer → Observer
on_event e s =
    if same_text e.event_type created
    then on_created e.response_id s
    else if is_terminal e.event_type
    then on_terminal e.response_id s
    else s

unfoldable pub on_events : List LinkageEvent → Observer → Observer
on_events [] s = s
on_events (e ∷ events) s = on_events events (on_event e s)

abbrev limit_pending : Observer → Observer
limit_pending s =
    if ltb max_response_linkage_buffer_size (length s.pending)
    then record s { pending = []; linkage_disabled = true }
    else s

unfoldable pub observe_chunk : EventJson → Bytes → Observer → Observer
unfolding take_response_linkage_events on_events
observe_chunk json chunk s =
    if not s.completed && not s.linkage_disabled
    then (let taken = take_response_linkage_events json (s.pending ++ chunk) in
        limit_pending (on_events taken.events (record s { pending = taken.pending })))
    else s

-- One item of the stream, which passes on as it came.
unfoldable pub observe_item : EventJson → Result ProviderError Bytes → Observer → Observer
unfolding observe_chunk
observe_item json (err error) s = s
observe_item json (ok chunk) s = observe_chunk json chunk s

unfoldable pub observe_items : EventJson → List (Result ProviderError Bytes) → Observer → Observer
observe_items json [] s = s
observe_items json (item ∷ items) s = observe_items json items (observe_item json item s)
