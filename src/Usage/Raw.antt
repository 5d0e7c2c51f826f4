-- ===== src/Usage/Raw.antt =====
-- Raw counts before normalization: crates/provider-core/src/usage/raw.rs. The JSON value that
-- the counts are read from is serde_json's, which enters as a parameter.
use Prim.Native.String.{String}
use provider_core.Prelude.{Option, none, some, List, [], ◌∷◌}
use provider_core.Prelude.Int.{ℤ}

pub record RawUsageFields : Type 0 where
  pub input : Option ℤ
  pub cache_read : Option ℤ
  pub cache_write : Option ℤ
  pub output : Option ℤ
  pub reasoning : Option ℤ
  pub input_audio : Option ℤ
  pub output_audio : Option ℤ
  pub image_input : Option ℤ
  pub image_output : Option ℤ
  pub total : Option ℤ

-- serde_json's `Value::get` and `Value::as_i64`.
pub record Json : Type 1 where
  pub Value : Type 0
  pub get : Value → String → Option Value
  pub as_i64 : Value → Option ℤ

module _ (json : Json) where
  open json use {Value, get, as_i64}

  abbrev and_then : {A B : Type 0} → Option A → (A → Option B) → Option B
  and_then none f = none
  and_then (some a) f = f a

  unfoldable pub int_field : Value → String → Option ℤ
  int_field parent key = and_then (get parent key) as_i64

  unfoldable pub nested_int : Value → String → String → Option ℤ
  unfolding int_field
  nested_int parent object key = and_then (get parent object) (λ details. int_field details key)

  abbrev or_else : Option ℤ → Option ℤ → Option ℤ
  or_else none b = b
  or_else (some a) b = some a

  -- The first key that holds an integer, in the order of the list.
  find_key : Value → List String → Option ℤ
  unfolding int_field
  find_key details [] = none
  find_key details (key ∷ keys) = or_else (int_field details key) (find_key details keys)

  unfoldable pub nested_int_any : Value → String → List String → Option ℤ
  unfolding find_key
  nested_int_any parent object keys =
      and_then (get parent object) (λ details. find_key details keys)

  cache_write_keys : List String
  cache_write_keys = "cache_write_tokens" ∷ "cache_creation_tokens" ∷ []

  unfoldable pub from_responses_usage : Value → RawUsageFields
  unfolding nested_int nested_int_any cache_write_keys
  from_responses_usage usage = record {
    input = int_field usage "input_tokens";
    cache_read = nested_int usage "input_tokens_details" "cached_tokens";
    cache_write = nested_int_any usage "input_tokens_details" cache_write_keys;
    output = int_field usage "output_tokens";
    reasoning = nested_int usage "output_tokens_details" "reasoning_tokens";
    input_audio = nested_int usage "input_tokens_details" "audio_tokens";
    output_audio = nested_int usage "output_tokens_details" "audio_tokens";
    image_input = nested_int usage "input_tokens_details" "image_tokens";
    image_output = nested_int usage "output_tokens_details" "image_tokens";
    total = int_field usage "total_tokens";
  }

  unfoldable pub from_chat_completions_usage : Value → RawUsageFields
  unfolding nested_int nested_int_any cache_write_keys
  from_chat_completions_usage usage = record {
    input = int_field usage "prompt_tokens";
    cache_read = nested_int usage "prompt_tokens_details" "cached_tokens";
    cache_write = nested_int_any usage "prompt_tokens_details" cache_write_keys;
    output = int_field usage "completion_tokens";
    reasoning = nested_int usage "completion_tokens_details" "reasoning_tokens";
    input_audio = nested_int usage "prompt_tokens_details" "audio_tokens";
    output_audio = nested_int usage "completion_tokens_details" "audio_tokens";
    image_input = nested_int usage "prompt_tokens_details" "image_tokens";
    image_output = nested_int usage "completion_tokens_details" "image_tokens";
    total = int_field usage "total_tokens";
  }
