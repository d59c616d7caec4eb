-- ===== src/Delivery/Tests.antt =====
-- Messages for one subscription, and two subscriptions with the same topic.
use ntfy.Base.{List, String, ◌≡◌, refl, true, false, some, none, [], ◌∷◌, is_some, All, ◌==◌}
use ntfy.Model.{Config, Message, Subscription}
use ntfy.Database.{Db, notification}
use ntfy.Database.Listed.{listed, empty}
use ntfy.Subscriptions.{Options, add, new_subscription, web_push_topics}
use ntfy.Util.Url.{topic_url}
use ntfy.Delivery.{
  Effect, Parser, sync_account, handle_message, handle_internal_message, ws_subscriptions,
  auto_subscribe,
}
use ntfy.Profile.{Profile}
use ntfy.Delivery.SyncTopic.{
  SyncsAccount, listen_to_sync_topic, handle_message-listen_to_sync_topic,
}
use ntfy.Delivery.Messages.{Arrives, handle_message_lem}
use ntfy.Delivery.Coverage.{unserved}
use ntfy.Delivery.WebPush.{WebPush, Answers, listen}

abbrev config : Config
config = record {
  base_url = "https://ntfy.sh";
  app_root = "/";
  enable_web_push = true;
  web_push_public_key = "";
  disallowed_topics = "docs" ∷ [];
}

abbrev hello : Message
hello = record {
  id = "m1";
  time = 7;
  topic = "a";
  title = none;
  message = "hello";
  tags = none;
  priority = none;
  click = none;
  attachment = none;
  actions = none;
}

abbrev opts : Options
opts = record { internal = false; display_name = none; reservation = none }

abbrev home : Subscription
home = new_subscription "https://ntfy.sh" "a" opts

abbrev elsewhere : Subscription
elsewhere = new_subscription "https://example.com" "a" opts

abbrev both : Db listed
both = (add listed "https://example.com" "a" opts (add listed "https://ntfy.sh" "a" opts empty).0).0

abbrev parse : Parser
parse text = some (some text)

sync_message : handle_internal_message parse (record hello { message = "sync" }) ≡ sync_account ∷ []
unfolding handle_internal_message
sync_message = refl

opened_page :
    auto_subscribe config (some []) (some "b") none false false
    ≡ (true, some ("https://ntfy.sh", "b"))
unfolding auto_subscribe
opened_page = refl

handle_message_lem_example :
    let result : Db listed × List Effect =
      handle_message listed parse "https://ntfy.sh/a" hello both in
    (is_some (notification listed both "m1") ≡ true → result ≡ (both, []))
    × (notification listed both "m1" ≡ none
        → Arrives listed "https://ntfy.sh/a" hello both home result)
unfolding add topic_url
handle_message_lem_example =
    handle_message_lem listed parse "https://ntfy.sh/a" hello both home refl refl

unserved_example :
    All
      (λ (s : Subscription). (s.topic == "a") ≡ false)
      (ws_subscriptions
        (some (home ∷ elsewhere ∷ []))
        (some (web_push_topics listed config true true both)))
unfolding add topic_url
unserved_example = unserved listed config both home (home ∷ elsewhere ∷ []) refl refl

abbrev refused : Answers String
refused = record { registered = true; created = some "endpoint"; accepted = false }

abbrev accepted : Answers String
accepted = record { registered = true; created = none; accepted = true }

abbrev web_push_after_refusal : WebPush String
unfolding listen
web_push_after_refusal =
    listen config refused (some ("alerts" ∷ [])) true
      (record { subscription = none; server = []; prev_update = none })

told_later :
    (listen config accepted (some ("alerts" ∷ [])) true web_push_after_refusal).server
    ≡ ("endpoint", "alerts" ∷ []) ∷ []
unfolding listen web_push_after_refusal
told_later = refl

abbrev account : Profile
account = record {
  username = "phil";
  role = "user";
  language = none;
  notification = none;
  subscriptions = none;
  reservations = none;
  sync_topic = some "st_1";
  tier = none;
  interval = none;
  attachment_file_size = none;
  attachment_total_size_remaining = 0;
  reservations_remaining = 0;
}

handle_message-listen_to_sync_topic_example :
    let db' : Db listed = listen_to_sync_topic listed config (some account) empty in
    SyncsAccount listed config parse
      (record hello { message = "sync" })
      (handle_message listed parse
        (topic_url config.base_url "st_1")
        (record hello { message = "sync" })
        db')
      db'
    × (db'.notifications ≡ empty.notifications)
handle_message-listen_to_sync_topic_example =
    handle_message-listen_to_sync_topic listed config account "st_1" parse
      (record hello { message = "sync" }) empty refl (λ s e. cc)
