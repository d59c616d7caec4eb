-- ===== src/Connection/Resume.antt =====
-- A connection asks for the messages after the last one that it handed on.
use Prim.Native.String.{◌++◌}
use ntfy.Base.Text.{join}
use ntfy.Util.Url.{topic_url_ws}
use ntfy.Base.{
  ◌∙◌, ap, ℕ, ◌≡◌, refl, Bool, true, false, Option, none, some, List, [], ◌∷◌, head?, ◌==◌,
  Bool-cases, inl, inr, String,
}
use ntfy.Model.{Message, User}
use ntfy.Util.Auth.{Base64}
use ntfy.Dexie.{map_option}
use ntfy.Connection.{
  Connection, auth_param, Socket, Call, state_changed, notification, World, start, close, ws_url,
}
use ntfy.Connection.Events.{
  Data, on_open, on_message, on_close, received, relevant_and_valid, Step, opened, message, ended,
  fired, closed, Reach, here, next, end_socket, fire,
}

-- The id of the last notification that was handed on.
abbrev pub last_notified : List Call → Option String
last_notified [] = none
last_notified (state_changed _ _ ∷ calls) = last_notified calls
last_notified (notification _ m ∷ _) = some m.id

abbrev pub or_else {ℓ} : {A : Type ℓ} → Option A → Option A → Option A
or_else none b = b
or_else (some a) b = some a

-- `since` is the last notification handed on, or what it was in the beginning.
abbrev pub Follows : Option String → World → Type 0
Follows first w = w.connection.since ≡ or_else (last_notified w.browser.calls) first

on_message-Follows :
    (first : Option String) (w : World) (d : Option Data)
    → Follows first w
    → Follows first (on_message d w)
unfolding on_message
on_message-Follows first w none h = h
on_message-Follows first w (some d) h = elim (Bool-cases (d.event == "open")) [
  | inl e ↦ rw e h
  | inr e ↦ rw e (handed_on (relevant_and_valid d))
]
  where
    handed_on : (m : Option Message) → Follows first (received w m)
    handed_on none = h
    handed_on (some m) = refl

end_socket-Follows :
    (first : Option String) (w : World) (s : ℕ) (clean : Bool)
    → Follows first w
    → Follows first (end_socket s clean w)
unfolding on_close
end_socket-Follows first w s true h = h
end_socket-Follows first w s false h = h

Step-Follows :
    (base64 : Base64) (first : Option String) {w u : World}
    → Step base64 w u
    → Follows first w
    → Follows first u
unfolding on_open start close
Step-Follows base64 first {w} (opened s k c) h = h
Step-Follows base64 first {w} (message s d k c) h = on_message-Follows first w d h
Step-Follows base64 first {w} (ended s clean k) h = end_socket-Follows first w s.id clean h
Step-Follows base64 first {w} (fired t k) h = h
Step-Follows base64 first {w} closed h = h

-- After any events, `since` is the id of the last notification that the listener was given, and before
-- the first one it is what the connection was made with.
pub since-Reach :
    (base64 : Base64) (w : World) {u : World}
    → w.browser.calls ≡ []
    → Reach base64 (start base64 w) u
    → u.connection.since ≡ or_else (last_notified u.browser.calls) w.connection.since
unfolding start
since-Reach base64 w h here = rw h
since-Reach base64 w h (next r s) =
    Step-Follows base64 w.connection.since s (since-Reach base64 w h r)

abbrev pub url_of_first : List Socket → Option String
url_of_first sockets = map_option (λ (s : Socket). s.url) (head? sockets)

-- What follows the address in the URL of a connection that resumes after this id.
abbrev pub resumed : Base64 → String → Option User → String
resumed base64 id none = "?" ++ ("since=" ++ id)
resumed base64 id (some user) =
    "?" ++ (("since=" ++ id) ++ ("&" ++ ("auth=" ++ auth_param base64 user)))

ws_url-resumed :
    (base64 : Base64) (c : Connection) (id : String) (user : Option User)
    → c.since ≡ some id
    → (id == "") ≡ false
    → c.user ≡ user
    → ws_url base64 c ≡ topic_url_ws c.base_url c.topic ++ resumed base64 id user
unfolding ws_url join
ws_url-resumed base64 c id none e given e' = rw (e, e', given) refl
ws_url-resumed base64 c id (some user) e given e' = rw (e, e', given) refl

-- Whatever happens to a connection: if the listener has been given a notification, then the socket that
-- the next retry opens has a URL that asks for what came after the last one, by its id, which is not
-- empty; the user of the connection, if it has one, is sent along.
pub url-fire :
    (base64 : Base64) (w : World) {u : World} (t : ℕ) (id : String)
    → w.browser.calls ≡ []
    → Reach base64 (start base64 w) u
    → last_notified u.browser.calls ≡ some id
    → (id == "") ≡ false
    → url_of_first (fire base64 t u).browser.sockets
      ≡ some (
          topic_url_ws u.connection.base_url u.connection.topic
          ++ resumed base64 id u.connection.user)
unfolding start
url-fire base64 w {u} t id h reached notified given =
    let since : u.connection.since ≡ some id =
      since-Reach base64 w h reached ∙ ap (λ o. or_else o w.connection.since) notified in
    ap some (ws_url-resumed base64 u.connection id u.connection.user since given refl)
