-- ===== src/Dialogs/Publish.antt =====
-- web/src/components/PublishDialog.jsx and Messaging.jsx: a message is written and sent, with a file
-- where one is attached. How the browser writes the parameters into the URL is not looked at.
pub mod Laws
pub mod Dragging
pub mod Bar
pub mod Form
pub mod Percentage
mod Tests
use ntfy.Base.{
  ℕ, String, Bool, true, false, not, ◌&&◌, ◌||◌, Option, none, some, List, [], ◌∷◌, ◌++◌, is_some,
  ltb, eqb, get_or, truthy, ◌==◌, if◌then◌else◌,
}
use ntfy.Base.Decimal.{to_string}
use ntfy.Base.Dict.{Object}
use ntfy.Base.Text.{replace_all, join}
use ntfy.Base.Trim.{trim}
use ntfy.Model.{Config, User}
use ntfy.Database.{Dexie}
use ntfy.Errors.{AppError, Result, ok, err}
use ntfy.Util.Auth.{Base64, Headers, maybe_with_auth}
use ntfy.Util.Topic.{valid_topic}
use ntfy.Util.Url.{topic_url, valid_url}
use ntfy.Users
use ntfy.Api.{Outcome, pending, resolved, rejected}
use ntfy.Profile.{Profile}
use ntfy.Account.Sync.{get}
use ntfy.Page.{
  Page, Handler, pure, ◌>>=◌, ◌>>◌, catch, modify, gets, reset_and_redirect, unless_unauthorized,
  call,
}

pub record File : Type 0 where
  pub name : String
  pub size : ℕ

-- What the dialog is filled with.
pub record Draft : Type 0 where
  pub base_url : String
  pub topic : String
  pub message : String
  pub title : String
  pub tags : String
  pub priority : ℕ
  pub click_url : String
  pub attach_url : String
  pub filename : String
  pub email : String
  pub call : String
  pub delay : String
  pub attach_file : Option File
  pub markdown_enabled : Bool
  pub publish_another : Bool

abbrev pub param : String → String → Object String
param name value = if value == "" then [] else (name, value) ∷ []

abbrev pub priority_param : ℕ → Object String
priority_param n = if not (eqb n 0) && not (eqb n 3) then ("priority", to_string n) ∷ [] else []

-- The message is a parameter where the body is a file: `message.replaceAll("\n", "\\n").trim()`.
abbrev pub message_param : Option File → String → Object String
message_param none message = []
message_param (some file) message =
    if trim message == "" then [] else ("message", trim (replace_all "\n" "\\n" message)) ∷ []

abbrev pub markdown_param : Bool → Object String
markdown_param enabled = if enabled then ("markdown", "true") ∷ [] else []

unfoldable pub search_params : Draft → Object String
search_params m =
    param "title" (trim m.title)
    ++ (param "tags" (trim m.tags)
        ++ (priority_param m.priority
            ++ (param "click" (trim m.click_url)
                ++ (param "attach" (trim m.attach_url)
                    ++ (param "filename" (trim m.filename)
                        ++ (param "email" (trim m.email)
                            ++ (param "call" (trim m.call)
                                ++ (param "delay" (trim m.delay)
                                    ++ (message_param m.attach_file m.message
                                        ++ (markdown_param m.markdown_enabled))))))))))

pub data Body : Type 0 where
  file : File → Body
  text : String → Body

abbrev pub body_of : Draft → Body
body_of m = elim m.attach_file [ some f ↦ file f | none ↦ text m.message ]

-- The request of `publishXHR`.
pub record Upload : Type 0 where
  pub url : String
  pub params : Object String
  pub headers : Headers
  pub body : Body

-- The request that is under way, and the text that is shown.
pub record Progress : Type 0 where
  pub active : Bool
  pub status : String

module _ (d : Dexie) (config : Config) (base64 : Base64) where
  unfoldable pub upload : Draft → Page d → Upload
  unfolding topic_url search_params Users.get maybe_with_auth
  upload m p = record {
    url = topic_url m.base_url m.topic;
    params = search_params m;
    headers = maybe_with_auth base64 [] (Users.get d config p.session m.base_url p.db);
    body = body_of m;
  }

-- What is left of the dialog when the request ends; `published` is the text for a success. With true,
-- the dialog closes.
unfoldable pub finish : String → Draft → Progress → Outcome → Progress × Bool
finish published m s pending = (record s { active = true }, false)
finish published m s resolved =
    if not m.publish_another
    then (record s { active = true }, true)
    else (record { active = false; status = published }, false)
finish published m s (rejected e) = (record { active = false; status = e }, false)

pub data LimitError : Type 0 where
  file_and_quota file_too_large quota_reached : LimitError

unfoldable pub limit_error : ℕ → ℕ → ℕ → Option LimitError
limit_error file_size_limit remaining_bytes size =
    let file_size_limit_reached = ltb 0 file_size_limit && ltb file_size_limit size in
    let quota = ltb 0 remaining_bytes && ltb remaining_bytes size in
    if file_size_limit_reached && quota
    then some file_and_quota
    else if file_size_limit_reached
    then some file_too_large
    else if quota
    then some quota_reached
    else none

module _ {d : Dexie} (config : Config) (base64 : Base64) where
  -- `attachFileError` afterwards
  unfoldable pub check_attachment_limits :
      Option LimitError → File → Result Profile → Handler d (Option LimitError)
  unfolding get limit_error unless_unauthorized
  check_attachment_limits before f answer =
      catch
        (do
          account ← get config base64 answer
          pure (
              limit_error (get_or account.attachment_file_size 0)
                account.attachment_total_size_remaining f.size))
        (unless_unauthorized before (λ e. pure none))

unfoldable pub send_button_enabled : Config → String → String → Option LimitError → Bool
unfolding valid_url valid_topic
send_button_enabled config base_url topic attach_file_error =
    valid_url base_url && valid_topic config topic && not (is_some attach_file_error)

unfoldable pub handle_emoji_pick : String → String → String
unfolding trim join
handle_emoji_pick tags emoji =
    if not (trim tags == "") then join ", " (trim tags ∷ emoji ∷ []) else emoji
