-- ===== src/Api.antt =====
-- web/src/app/Api.js: its requests as values, and what it makes of the answers. The user is what
-- `userManager.get` gives; how a line parses as JSON is a parameter.
pub mod Laws
pub mod Xhr
mod Tests
use Prim.Native.String.{◌++◌}
use ntfy.Base.{
  ℕ, String, Bool, true, false, ◌&&◌, ◌||◌, Option, none, some, List, [], ◌∷◌, leb, eqb, get_or,
  truthy, if◌then◌else◌,
}
use ntfy.Base.Dict.{Object}
use ntfy.Base.Decimal.{to_string}
use ntfy.Model.{Message, User}
use ntfy.Errors.{ErrorBody}
use ntfy.Util.Url.{
  topic_url_json_poll, topic_url_json_poll_with_since, topic_url_auth, web_push_url,
}
use ntfy.Util.Auth.{Base64, maybe_with_auth}
use ntfy.Util.Lines.{Text, fetch_lines}
use ntfy.Account.{Json, text, array, Method, get, post, put, delete, Request, spread}

abbrev poll_url_since : String → String → Option String → String
unfolding topic_url_json_poll topic_url_json_poll_with_since
poll_url_since base_url topic none = topic_url_json_poll base_url topic
poll_url_since base_url topic (some since) = topic_url_json_poll_with_since base_url topic since

unfoldable pub poll_url : String → String → Option String → String
unfolding poll_url_since
poll_url base_url topic since = poll_url_since base_url topic (truthy since)

-- `none`: a line is no JSON; `some none`: what it says has no id, and it is passed over.
abbrev pub LineParser : Type 0
LineParser = Text → Option (Option Message)

abbrev pub and_messages : Option (Option Message) → Option (List Message) → Option (List Message)
and_messages none rest = none
and_messages (some m) none = none
and_messages (some none) (some ms) = some ms
and_messages (some (some m)) (some ms) = some (m ∷ ms)

unfoldable pub messages_of : LineParser → List Text → Option (List Message)
messages_of parse [] = some []
messages_of parse (line ∷ lines) = and_messages (parse line) (messages_of parse lines)

-- The messages of a poll, from the parts of the body; `none`: the promise is rejected.
unfoldable pub poll_messages :
    {Value : Type 0} → LineParser → (Value → Text) → List Value → Option (List Message)
unfolding fetch_lines messages_of
poll_messages parse decode values = messages_of parse (fetch_lines decode values)

unfoldable pub publish : Base64 → Option User → String → String → String → Object Json → Request
unfolding maybe_with_auth spread
publish base64 user base_url topic message options = record {
  method = put;
  url = base_url;
  headers = maybe_with_auth base64 [] user;
  body = some (spread (("topic", text topic) ∷ ("message", text message) ∷ []) options);
}

-- How a request by XHR ends: with success, or with a text for the user.
pub data Outcome : Type 0 where
  pending resolved : Outcome
  rejected : String → Outcome

abbrev error_text : Option ErrorBody → Option String
error_text none = none
error_text (some body) = with_code body.code body.error
  where
    with_message : ℕ → Option String → Option String
    with_message code none = none
    with_message code (some message) = some ("Error " ++ (to_string code ++ (": " ++ message)))

    with_code : Option ℕ → Option String → Option String
    with_code none error = none
    with_code (some code) error = if eqb code 0 then none else with_message code (truthy error)

abbrev pub is_success : ℕ → Bool
is_success status = leb 200 status && leb status 299

-- The listener for "readystatechange"; `body` is the JSON of the response, if it is JSON.
unfoldable pub on_ready_state_change : ℕ → ℕ → Option ErrorBody → Outcome
on_ready_state_change ready_state status body =
    if eqb ready_state 4 && is_success status
    then resolved
    else if eqb ready_state 4
    then rejected (get_or (error_text body) "An error occurred")
    else pending

unfoldable pub topic_auth_request : Base64 → String → String → Option User → Request
unfolding topic_url_auth maybe_with_auth
topic_auth_request base64 base_url topic user = record {
  method = get;
  url = topic_url_auth base_url topic;
  headers = maybe_with_auth base64 [] user;
  body = none;
}

-- What the status of the response says; `none`: an error is thrown.
unfoldable pub topic_auth : ℕ → Option Bool
topic_auth status =
    if is_success status
    then some true
    else if eqb status 401 || eqb status 403
    then some false
    else none

pub record PushSubscription : Type 0 where
  pub endpoint : String
  pub auth : String
  pub p256dh : String

unfoldable pub update_web_push :
    Base64 → Option User → String → PushSubscription → List String → Request
unfolding web_push_url maybe_with_auth
update_web_push base64 user base_url subscription topics = record {
  method = post;
  url = web_push_url base_url;
  headers = maybe_with_auth base64 [] user;
  body = some (
      ("endpoint", text subscription.endpoint)
      ∷ ("auth", text subscription.auth)
      ∷ ("p256dh", text subscription.p256dh)
      ∷ ("topics", array topics)
      ∷ []);
}

unfoldable pub delete_web_push : Base64 → Option User → String → PushSubscription → Request
unfolding web_push_url maybe_with_auth
delete_web_push base64 user base_url subscription = record {
  method = delete;
  url = web_push_url base_url;
  headers = maybe_with_auth base64 [] user;
  body = some (("endpoint", text subscription.endpoint) ∷ []);
}
