-- ===== src/Formatting.antt =====
-- web/src/app/notificationUtils.js: how a message looks as a notification. `emojis` is the object that
-- emojisMapped.js builds.
pub mod Laws
mod Tests
use mathlib.Core.List.{[], ◌∷◌}
use Prim.Native.Nat.{ℕ, ◌+◌, ◌*◌}
use Prim.Native.Char.{Char, code}
use Prim.Native.String.{[], ◌∷◌, ◌++◌}
use ntfy.Base.{
  String, Bool, true, false, ◌&&◌, ◌||◌, Option, none, some, List, map, filter, get_or, truthy, leb,
  eqb, ◌==◌, if◌then◌else◌,
}
use ntfy.Base.Dict.{Object, property}
use ntfy.Base.Text.{starts_with, join}
use ntfy.Dexie.{map_option}
use ntfy.Model.{Message, Attachment, Action}

-- The object of emojisMapped.js, with what it inherits.
abbrev pub Emojis : Type 0
Emojis = Object String

abbrev pub add_emoji : Option String → List String → List String
add_emoji none emojis = emojis
add_emoji (some emoji) emojis = emoji ∷ emojis

unfoldable pub emojis_of : Emojis → List String → List String
unfolding property
emojis_of emojis [] = []
emojis_of emojis (tag ∷ tags) = add_emoji (property emojis tag) (emojis_of emojis tags)

unfoldable pub to_emojis : Emojis → Option (List String) → List String
unfolding emojis_of
to_emojis emojis none = []
to_emojis emojis (some tags) = emojis_of emojis tags

-- `${emojiList.join(" ")} ${text}`, if there are emojis
unfoldable pub with_emojis : List String → String → String
unfolding join
with_emojis [] text = text
with_emojis (emoji ∷ emojis) text = join " " (emoji ∷ emojis) ++ (" " ++ text)

-- A title that is not there is written as JavaScript writes it.
abbrev pub title_with : List String → Option String → Option String
unfolding with_emojis
title_with [] title = title
title_with (emoji ∷ emojis) title = some (with_emojis (emoji ∷ emojis) (get_or title "undefined"))

unfoldable pub format_title : Emojis → Message → Option String
unfolding title_with to_emojis
format_title emojis m = title_with (to_emojis emojis m.tags) m.title

abbrev pub title_or : Option String → Emojis → Message → String → String
unfolding format_title
title_or none emojis m fallback = fallback
title_or (some _) emojis m fallback = get_or (format_title emojis m) fallback

unfoldable pub format_title_with_default : Emojis → Message → String → String
unfolding title_or
format_title_with_default emojis m fallback = title_or (truthy m.title) emojis m fallback

abbrev pub message_for : Option String → Emojis → Message → String
unfolding with_emojis to_emojis
message_for none emojis m = with_emojis (to_emojis emojis m.tags) m.message
message_for (some _) emojis m = m.message

unfoldable pub format_message : Emojis → Message → String
unfolding message_for
format_message emojis m = message_for (truthy m.title) emojis m

-- Letters A to Z as small letters.
abbrev lower : Char → ℕ
lower c = let n = code c in if leb b'A' n && leb n b'Z' then n + 32 else n

abbrev same_ignoring_case : String → String → Bool
same_ignoring_case [] [] = true
same_ignoring_case [] (d ∷ t) = false
same_ignoring_case (c ∷ s) [] = false
same_ignoring_case (c ∷ s) (d ∷ t) = eqb (lower c) (lower d) && same_ignoring_case s t

-- A match of /suffix$/i.
abbrev pub ends_with : String → String → Bool
ends_with [] suffix = same_ignoring_case [] suffix
ends_with (c ∷ s) suffix = same_ignoring_case (c ∷ s) suffix || ends_with s suffix

-- name.match(/\.(png|jpe?g|gif|webp)$/i)
abbrev pub has_image_extension : String → Bool
has_image_extension name =
    ends_with name ".png"
    || ends_with name ".jpg"
    || ends_with name ".jpeg"
    || ends_with name ".gif"
    || ends_with name ".webp"

abbrev pub matches : Option String → Bool
matches none = false
matches (some name) = has_image_extension name

abbrev pub is_image_of_type : Option String → Attachment → Bool
is_image_of_type (some type) a = starts_with type "image/"
is_image_of_type none a = matches a.name || matches a.url

unfoldable pub is_image : Option Attachment → Bool
is_image none = false
is_image (some a) = is_image_of_type (truthy a.type) a

pub record Button : Type 0 where
  pub action : String
  pub title : String

-- The title and the options for `showNotification`, less those that are the same for all.
pub record Params : Type 0 where
  pub title : String
  pub body : String
  pub image : Option String
  pub timestamp : ℕ
  pub tag : String
  pub payload : Message × String
  pub actions : Option (List Button)

abbrev pub is_offered : Action → Bool
is_offered a = a.action == "view" || a.action == "http"

abbrev pub button : Action → Button
button a = record { action = a.label; title = a.label }

abbrev pub image_of : Option Attachment → Option String
unfolding is_image
image_of none = none
image_of (some a) = if is_image (some a) then a.url else none

unfoldable pub to_notification_params : Emojis → String → Message → String → String → Params
unfolding format_title_with_default format_message image_of
to_notification_params emojis subscription_id m default_title topic_route = record {
  title = format_title_with_default emojis m default_title;
  body = format_message emojis m;
  image = image_of m.attachment;
  timestamp = m.time * 1000;
  tag = subscription_id;
  payload = (m, topic_route);
  actions = map_option (λ actions. map button (filter is_offered actions)) m.actions;
}
