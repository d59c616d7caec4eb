-- ===== src/Account/Sync/After.antt =====
-- What a sync does, and what it leaves alone.
use ntfy.Base.{String, ◌≡◌, Option, none, some, List, truthy, truthy_number, if◌then◌else◌}
use ntfy.Model.{Config, Subscription}
use ntfy.Database.{Dexie, Db, subscription}
use ntfy.Session.{token, username}
use ntfy.Settings.{sound, min_priority, delete_after}
use ntfy.Settings.Laws.{Readings, readings}
use ntfy.Subscriptions.{Remote}
use ntfy.Subscriptions.Sync.{is_remote, new_from, first_remote, kept}
use ntfy.Subscriptions.Sync
use ntfy.Errors.{unauthorized, Result, ok, err}
use ntfy.Util.Auth.{Base64}
use ntfy.Profile.{Profile, NotificationSettings}
use ntfy.Page.{Page}
use ntfy.Account.Sync.{or_else}
use ntfy.Account.Sync.Laws.{text_or}

module _ {d : Dexie} where
  -- The settings after a sync: each that the account has, and that is neither empty nor 0, is taken over.
  abbrev pub Taken : Option NotificationSettings → Readings d → Readings d
  Taken none r = r
  Taken (some n) r = record r {
    sound = text_or (truthy n.sound) r.sound;
    delete_after = or_else (truthy_number n.delete_after) r.delete_after;
    min_priority = or_else (truthy_number n.min_priority) r.min_priority;
  }

  module _ (config : Config) (account : Profile) where
    -- What is subscribed to after a sync under an id, by what was there.
    abbrev pub subscribed_under : Db d → String → Option (List Remote) → Option Subscription
    subscribed_under db k none = subscription d db k
    subscribed_under db k (some remotes) =
        if is_remote d remotes k
        then Sync.or_else (subscription d db k)
            (new_from config account.reservations (first_remote k remotes))
        else kept d (subscription d db k)

module _ {d : Dexie} (config : Config) (base64 : Base64) (p : Page d) where
  pub record Applied (account : Profile) (p' : Page d) : Type 0 where
    pub displayed : p'.account ≡ some account
    pub language : p'.language ≡ or_else (truthy account.language) p.language
    pub settings : readings d p'.db ≡ Taken account.notification (readings d p.db)
    pub subscribed :
        (k : String)
        → subscription d p'.db k ≡ subscribed_under config account p.db k account.subscriptions
    pub session : p'.session ≡ p.session
    pub redirect : p'.redirect ≡ p.redirect

  -- By the answer of the server: what the sync returns, and the page afterwards.
  abbrev pub After : Result Profile → Result (Option Profile) → Page d → Type 0
  After (ok account) r p' = (r ≡ ok (some account)) × Applied account p'
  After (err unauthorized) r p' =
      (r ≡ ok none)
      × (username p'.session ≡ none)
      × (token p'.session ≡ none)
      × (p'.redirect ≡ some "/login")
      × (p'.db ≡ p.db)
      × (p'.account ≡ p.account)
  After (err _) r p' = (r ≡ ok none) × (p' ≡ record p { sent = p'.sent })
