-- ===== src/Client/Tests.antt =====
-- Concrete calls and answers for the theorems on the client.
use vantric.Prelude.{◌≤◌, true, false, Option, some, [], ◌∷◌, ◌≡◌, refl, inl, arith}
use vantric.Prelude.Text.{Text, text, starts, has}
use vantric.Client.Wire.{render, render_part, get, by_fetch, get_method}
use vantric.Client.Encode.{
  encode_uri_component, encode_from, is_high, is_low, escape_unit, is_unescaped, utf8_percent,
  percent,
}
use vantric.Client.Calls.{Call, request_of, answers_for_itself}
use vantric.Client.Calls.Auth.{request_of-starts_auth}
use vantric.Client.Catalog.{get_node, catalog_request}
use vantric.Client.Session.{Response, value, not_json, perform, holds}
use vantric.Client.Session.Announce.{perform-announced, perform-silent}
use vantric.Client.Session.Listeners.{times_called}

-- A JSON value is a text here, and names itself as the error.
abbrev error_of : Text → Option Text
error_of body = some body

abbrev node_call : Call Text
node_call = Call.catalog (get_node (text "pve") (text "n/1"))

abbrev node_path : Text
node_path = text "/nodes/n%2F1?hypervisor=pve"

node_rendered : render (request_of node_call).path ≡ some node_path
unfolding render render_part request_of catalog_request get text encode_uri_component encode_from
    is_high is_low escape_unit is_unescaped has utf8_percent percent
node_rendered = refl

abbrev signed_out : Response Text
signed_out = record {
  status = 401;
  status_text = text "Unauthorized";
  reply = value (text "expired");
}

fetched : (request_of node_call).transport ≡ by_fetch
unfolding request_of catalog_request get
fetched = refl

perform-announced_example :
    (perform error_of (3 ∷ 5 ∷ []) (request_of node_call) (some signed_out)).1
    ≡ elim (answers_for_itself node_call) [ true ↦ [] | false ↦ 3 ∷ 5 ∷ [] ]
perform-announced_example =
    perform-announced error_of (3 ∷ 5 ∷ []) node_call node_path signed_out node_rendered fetched
      refl

abbrev missing : Response Text
missing = record { status = 404; status_text = text "Not Found"; reply = not_json }

perform-silent_example : (perform error_of (3 ∷ []) (request_of node_call) (some missing)).1 ≡ []
perform-silent_example =
    perform-silent error_of (3 ∷ []) (request_of node_call) missing
      (inl (λ e. absurd (omega arith)))

request_of-starts_auth_example : starts (text "/auth/") node_path ≡ answers_for_itself node_call
request_of-starts_auth_example = request_of-starts_auth node_call node_path node_rendered

reads : (request_of node_call).method ≡ get_method
unfolding request_of catalog_request get
reads = refl

five_new : holds 5 (3 ∷ []) ≡ false
unfolding holds
five_new = refl

called_once : times_called 3 (3 ∷ []) ≤ 1
unfolding times_called
called_once = omega arith
