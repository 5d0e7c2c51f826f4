-- ===== src/Claude/Sample.antt =====
-- A small JSON for the tests.
use Prim.Native.String.{String}
use provider_core.Prelude.{false, Option, none, some, if◌then◌else◌, Text, codes}
use provider_core.Router.Accounts.{same_text}
use provider_core.Claude.Event.{EventJson}

-- A value that is text, or an object with a field before the others.
pub data Json : Type 0 where
  empty : Json
  text : String → Json
  field : String → Json → Json → Json

unfoldable pub get_field : Json → String → Option Json
get_field empty key = none
get_field (text t) key = none
get_field (field name value others) key =
    let later = get_field others key in
    if same_text (codes name) (codes key) then some value else later

abbrev pub text_of : Json → Option Text
text_of empty = none
text_of (text t) = some (codes t)
text_of (field name value others) = none

abbrev pub values : EventJson
values = record {
  Value = Json;
  get = get_field;
  as_str = text_of;
  as_array = λ v. none;
  as_u64 = λ v. none;
  is_null = λ v. false;
  query_text = λ query. query;
}
