-- ===== src/Subscriptions/Tests.antt =====
-- The subscription manager over lists of rows.
use ntfy.Base.{◌≡◌, refl, true, false, not, ◌&&◌, none, List, [], ◌∷◌, is_some, if◌then◌else◌}
use ntfy.Dexie.{unless}
use ntfy.Dexie.Laws.{holds_of}
use ntfy.Model.{Config, Message}
use ntfy.Util.Url.{topic_url}
use ntfy.Database.{Db, subscription, notification}
use ntfy.Database.Listed.{listed, empty}
use ntfy.Subscriptions.{
  Options, Remote, add, sync_from_remote, add_remotes, remove_if_stale, remove, add_notification,
}
use ntfy.Subscriptions.Sync.{
  or_else, is_remote, new_from, first_remote, kept, subscription-sync, notification-sync,
}
use ntfy.Subscriptions.Owners.{HasOwners}
use ntfy.Subscriptions.Steps.{here, next, added, received, Reach-HasOwners}

abbrev config : Config
config = record {
  base_url = "https://ntfy.sh";
  app_root = "/";
  enable_web_push = false;
  web_push_public_key = "";
  disallowed_topics = [];
}

abbrev no_options : Options
no_options = record { internal = false; display_name = none; reservation = none }

abbrev hello : Message
hello = record {
  id = "m1";
  time = 7;
  topic = "a";
  title = none;
  message = "hello";
  tags = none;
  priority = none;
  click = none;
  attachment = none;
  actions = none;
}

abbrev with_a : Db listed
with_a = (add listed "https://ntfy.sh" "a" no_options empty).0

abbrev with_hello : Db listed
with_hello = (add_notification listed "https://ntfy.sh/a" hello with_a).0

abbrev only_b : List Remote
only_b = record { base_url = "https://ntfy.sh"; topic = "b"; display_name = none } ∷ []

abbrev synced : Db listed
synced = sync_from_remote listed config only_b none with_hello

sync_replaces :
    (subscription listed synced "https://ntfy.sh/a" ≡ none)
    × (is_some (subscription listed synced "https://ntfy.sh/b") ≡ true)
    × (notification listed synced "m1" ≡ none)
unfolding sync_from_remote add_remotes remove_if_stale remove add add_notification topic_url
sync_replaces = (refl, refl, refl)

subscription-sync_example : subscription listed synced "https://ntfy.sh/a" ≡ (
    if is_remote listed only_b "https://ntfy.sh/a"
    then or_else
        (subscription listed with_hello "https://ntfy.sh/a")
        (new_from config none (first_remote "https://ntfy.sh/a" only_b))
    else kept listed (subscription listed with_hello "https://ntfy.sh/a"))
subscription-sync_example =
    subscription-sync listed config none only_b with_hello "https://ntfy.sh/a"

notification-sync_example :
    notification listed synced "m1"
    ≡ unless
        (λ n.
          not (is_remote listed only_b n.subscription_id)
          && holds_of (λ s. not s.internal) (subscription listed with_hello n.subscription_id))
        (notification listed with_hello "m1")
notification-sync_example = notification-sync listed config none only_b with_hello "m1"

empty-HasOwners : HasOwners listed empty
empty-HasOwners = record { owner = λ k n e. cc }

a_is_there : is_some (subscription listed with_a "https://ntfy.sh/a") ≡ true
unfolding add topic_url
a_is_there = refl

Reach-HasOwners_example : HasOwners listed with_hello
Reach-HasOwners_example = Reach-HasOwners listed empty-HasOwners (
    next (next here (added "https://ntfy.sh" "a" no_options))
      (received "https://ntfy.sh/a" hello a_is_there))
