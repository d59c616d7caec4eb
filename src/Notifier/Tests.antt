-- ===== src/Notifier/Tests.antt =====
-- A browser on the computer that runs the server.
use ntfy.Base.{◌≡◌, refl, true, false, none}
use ntfy.Notifier.{Browser, supported, granted, sound_to_play}

abbrev pub browser : Browser
browser = record {
  has_notification = true;
  permission = "default";
  has_service_worker = true;
  has_push_manager = true;
  protocol = "http:";
  hostname = "127.0.0.1";
  standalone = none;
}

loopback : supported browser ≡ true
unfolding supported
loopback = refl

not_asked : granted browser ≡ false
unfolding granted
not_asked = refl

silent : sound_to_play "none" ≡ none
unfolding sound_to_play
silent = refl
