-- ===== src/Dialogs/Popup/TestMessage.antt =====
-- `handleSendTestMessage` and `ReserveLimitChip` of web/src/components/SubscriptionPopup.jsx. What is drawn
-- at random, and how the time is written, are arguments.
pub mod Laws
mod Tests
use Prim.Native.String.{◌++◌}
use ntfy.Base.{
  ℕ, ◌+◌, ◌/◌, String, Bool, true, false, ◌&&◌, ◌||◌, Option, none, some, List, [], ◌∷◌,
  get_elem_or, take, ltb, ◌==◌, if◌then◌else◌,
}
use ntfy.Model.{Config, Subscription}
use ntfy.Database.{Dexie}
use ntfy.Errors.{Result}
use ntfy.Util.Auth.{Base64}
use ntfy.Util.Shuffle.{shuffle}
use ntfy.Account.{Request, Json, text, number, array}
use ntfy.Base.Dict.{Object}
use ntfy.Users
use ntfy.Api
use ntfy.Page.{Page, Handler, pure, ◌>>◌, catch}
use ntfy.Dialogs.Popup.{Features}

abbrev pub tags : List String
tags =
    "grinning" ∷ "octopus" ∷ "upside_down_face" ∷ "palm_tree" ∷ "maple_leaf" ∷ "apple" ∷ "skull"
    ∷ "warning" ∷ "jack_o_lantern" ∷ "de-server-1" ∷ "backups" ∷ "cron-script" ∷ "script-error"
    ∷ "phils-automation" ∷ "mouse" ∷ "go-rocks" ∷ "hi-ben" ∷ []

abbrev pub priorities : List ℕ
priorities = 1 ∷ 2 ∷ 3 ∷ 4 ∷ 5 ∷ []

abbrev pub titles : List String
titles =
    "" ∷ "" ∷ "" ∷ "Oh my, another test message?" ∷ "Titles are optional, did you know that?"
    ∷ "ntfy is open source, and will always be free. Cool, right?" ∷ "I don't really like apples"
    ∷ "My favorite TV show is The Wire. You should watch it!"
    ∷ "You can attach files and URLs to messages too" ∷ "You can delay messages up to 3 days" ∷ []

abbrev pub messages : String → List String
messages now =
    ("Hello friend, this is a test notification from ntfy web. It's "
      ++ (now ++ " right now. Is that early or late?"))
    ∷ "So I heard you like ntfy? If that's true, go to GitHub and star it, or to the Play store and rate it. Thanks! Oh yeah, this is a test notification."
    ∷ "It's almost like you want to hear what I have to say. I'm not even a machine. I'm just a sentence that Phil typed on a random Thursday."
    ∷ ("Alright then, it's "
        ++ (now ++ " already. Boy oh boy, where did the time go? I hope you're alright, friend."))
    ∷ "There are nine million bicycles in Beijing That's a fact; It's a thing we can't deny. I wonder if that's true ..."
    ∷ "I'm really excited that you're trying out ntfy. Did you know that there are a few public topics, such as ntfy.sh/stats and ntfy.sh/announcements."
    ∷ "It's interesting to hear what people use ntfy for. I've heard people talk about using it for so many cool things. What do you use it for?"
    ∷ []

-- What is drawn: for each of the four lists, and how many tags there are, from 0 to 4.
pub record Draws : Type 0 where
  pub of_tags : ℕ → ℕ
  pub of_priorities : ℕ → ℕ
  pub of_titles : ℕ → ℕ
  pub of_messages : ℕ → ℕ
  pub tag_count : ℕ

-- shuffle([...])[0], of a list that is not empty
unfoldable pub first_of {ℓ} : {A : Type ℓ} → (ℕ → ℕ) → List A → A → A
unfolding shuffle
first_of pick xs default = get_elem_or (shuffle pick xs) 0 default

unfoldable pub test_tags : Draws → List String
unfolding shuffle
test_tags draws = take draws.tag_count (shuffle draws.of_tags tags)

unfoldable pub test_options : Draws → Object Json
unfolding first_of test_tags
test_options draws =
    ("title", text (first_of draws.of_titles titles ""))
    ∷ ("priority", number (first_of draws.of_priorities priorities 3))
    ∷ ("tags", array (test_tags draws))
    ∷ []

module _ {d : Dexie} (config : Config) (base64 : Base64) (short_date_time : ℕ → String) where
  unfoldable pub test_request : Draws → ℕ → Subscription → Page d → Request
  unfolding Api.publish Users.get first_of test_options
  test_request draws now_millis s p =
      let message =
        first_of draws.of_messages (messages (short_date_time ((now_millis + 500) / 1000))) "" in
      Api.publish base64 (Users.get d config p.session s.base_url p.db) s.base_url s.topic message
        (test_options draws)

  -- Whether the error is shown.
  unfoldable pub handle_send_test_message :
      Draws → ℕ → Subscription → Result (Unit {0}) → Handler d Bool
  unfolding test_request
  handle_send_test_message draws now_millis s answer =
      catch
        ((λ p. (answer, record p { sent = test_request draws now_millis s p ∷ p.sent }))
          >> pure false)
        (λ e. pure true)

pub data Chip : Type 0 where
  limit_reached pro : Chip

-- What `ReserveLimitChip` reads of the account: whether it is an administrator's, how many reservations
-- are left, and how many its tier has.
pub record Allowance : Type 0 where
  pub is_admin : Bool
  pub remaining : ℕ
  pub limit : ℕ

abbrev chip_of : Features → Option Allowance → Option Chip
chip_of features none = if features.enable_payments then some Chip.pro else none
chip_of features (some a) =
    if a.is_admin || ltb 0 a.remaining
    then none
    else if features.enable_payments
    then (if ltb 0 a.limit then some Chip.limit_reached else some Chip.pro)
    else some Chip.limit_reached

unfoldable pub reserve_limit_chip : Features → Option Allowance → Option Chip
reserve_limit_chip features account = chip_of features account
