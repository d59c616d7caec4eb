-- ===== src/Formatting/Laws.antt =====
-- What is displayed of a message.
use ntfy.Base.{
  String, ◌≡◌, refl, ◌∙◌, ap, Bool, Option, none, some, List, [], ◌∷◌, is_some, truthy, get_or,
  arith,
}
use ntfy.Model.{Message}
use ntfy.ServiceWorker.{Desktop, handle_click}
use ntfy.Formatting.{
  Emojis, to_emojis, with_emojis, title_with, format_title, title_or, message_for,
  format_title_with_default, format_message, to_notification_params,
}

-- The title and the body: the emojis of the tags stand before the title, or before the body where
-- there is no title.
abbrev pub texts : Option String → List String → String → String → String × String
texts (some title) emojis body fallback = (with_emojis emojis title, body)
texts none emojis body fallback = (fallback, with_emojis emojis body)

truthy_itself : (o : Option String) (s : String) → truthy o ≡ some s → o ≡ some s
truthy_itself none s e = cc
truthy_itself (some t) s e = ground arith

title_with-some :
    (emojis : List String) (s fallback : String)
    → get_or (title_with emojis (some s)) fallback ≡ with_emojis emojis s
unfolding title_with with_emojis
title_with-some [] s fallback = refl
title_with-some (e ∷ es) s fallback = refl

texts_for :
    (emojis : Emojis) (m : Message) (fallback : String) (o : Option String)
    → truthy m.title ≡ o
    → (title_or o emojis m fallback, message_for o emojis m)
      ≡ texts o (to_emojis emojis m.tags) m.message fallback
unfolding title_or message_for format_title
texts_for emojis m fallback none e = refl
texts_for emojis m fallback (some t) e =
    ap (λ title. (title, m.message))
      (ap (λ o. get_or (title_with (to_emojis emojis m.tags) o) fallback)
          (truthy_itself m.title t e)
        ∙ title_with-some (to_emojis emojis m.tags) t fallback)

-- The emojis are displayed once, in the title if the message has one and in the body if not; the body is the
-- message, and a message without a title gets the default one.
pub texts-to_notification_params :
    (emojis : Emojis) (id : String) (m : Message) (fallback route : String)
    → let p = to_notification_params emojis id m fallback route in
      (p.title, p.body) ≡ texts (truthy m.title) (to_emojis emojis m.tags) m.message fallback
texts-to_notification_params emojis id m fallback route =
    unfold to_notification_params format_title_with_default format_message in
    texts_for emojis m fallback (truthy m.title) refl

abbrev clicked : String → String → Bool → Message → Desktop → String → Bool
clicked root_url route response m k label =
    is_some
      (handle_click root_url response (record { payload = some (m, route); action = some label }) k)
