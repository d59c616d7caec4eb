-- ===== src/Layout/Navigation/Tests.antt =====
-- Subscriptions in the navigation, and the alerts of a browser that was not asked yet.
use ntfy.Base.{◌≡◌, refl, true, false, none, [], ◌∷◌, map}
use ntfy.Base.Sort.{sort}
use ntfy.Base.Order.{text_lt}
use ntfy.Util.Url.{topic_url}
use ntfy.Notifier.{Browser}
use ntfy.Layout.Tests.{external, own, other}
use ntfy.Layout.Navigation.{sorted_subscriptions, handle_subscribe_reset}

abbrev new_browser : Browser
new_browser = record {
  has_notification = true;
  permission = "default";
  has_service_worker = true;
  has_push_manager = true;
  protocol = "https:";
  hostname = "ntfy.sh";
  standalone = none;
}

in_order :
    map (λ s. s.0.id) (sorted_subscriptions ((other, 0) ∷ (external, 3) ∷ (own, 2) ∷ []))
    ≡ "alerts" ∷ "alerts" ∷ "backups" ∷ []
unfolding sorted_subscriptions sort topic_url text_lt
in_order = refl

reset :
    (handle_subscribe_reset (record { subscribe_dialog_key = 1; subscribe_dialog_open = true }))
    ≡ record { subscribe_dialog_key = 2; subscribe_dialog_open = false }
unfolding handle_subscribe_reset
reset = refl
