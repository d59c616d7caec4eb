-- ===== src/ServiceWorker/Clicks.antt =====
-- Where a click leads.
use ntfy.Base.{
  ℕ, String, ◌≡◌, refl, subst, sym, ◌⊎◌, inl, inr, Bool, true, ◌&&◌, Option, none, some, List, [],
  ◌∷◌, map, find?, head?, any, eqb, ◌==◌, eq_refl, arith, Bool-cases, truthy,
}
use ntfy.Model.{Message}
use ntfy.ServiceWorker.{
  Window, Desktop, Click, moved, client_at, show_fallback, show_root, show_topic, show_topic_from,
  click_message, click_other, handle_click, handle_data, click_on, click_target,
}

-- Some window with the number `i` shows `url`.
abbrev pub is_showing : ℕ → String → List Window → Bool
is_showing i url ws = any (λ (w : Window). eqb w.id i && w.url == url) ws

-- A window that was there has the focus and shows `url`, or there was no window and one is opened.
abbrev pub Leads : Desktop → String → Desktop → Type 0
Leads k url k' =
    ((k.windows ≡ []) × (k'.opened ≡ url ∷ k.opened))
    ⊎ ((i : ℕ) × (k'.focused ≡ some i)
        × (is_showing i url k'.windows ≡ true)
        × (k'.opened ≡ k.opened))

any_of_find :
    (p : Window → Bool) (ws : List Window) (w : Window)
    → find? p ws ≡ some w
    → any (λ (x : Window). eqb x.id w.id && p x) ws ≡ true
any_of_find p [] w e = cc
any_of_find p (x ∷ ws) w e = elim (Bool-cases (p x)) [
  | inl h ↦ ground (arith, h, e)
  | inr h ↦ let rest = any_of_find p ws w (ground arith) in ground arith
]

is_showing-moved :
    (p : Window → Bool) (i : ℕ) (url : String) (ws : List Window)
    → any (λ (x : Window). eqb x.id i && p x) ws ≡ true
    → is_showing i url (map (moved i url) ws) ≡ true
is_showing-moved p i url [] e = e
is_showing-moved p i url (x ∷ ws) e = elim (Bool-cases (eqb x.id i)) [
  | inl h ↦ rw (h, h, eq_refl url) refl
  | inr h ↦ let rest = is_showing-moved p i url ws (ground arith) in ground arith
]

any_of_head :
    (ws : List Window) (w : Window)
    → head? ws ≡ some w
    → any (λ (x : Window). eqb x.id w.id && true) ws ≡ true
any_of_head [] w e = cc
any_of_head (x ∷ ws) w e = ground (arith, e)

no_head : (ws : List Window) → head? ws ≡ none → ws ≡ []
no_head [] e = refl
no_head (x ∷ ws) e = cc

module _ (k : Desktop) where
  fallback-Leads :
      (url : String) (o : Option Window) → head? k.windows ≡ o → Leads k url (show_fallback o url k)
  fallback-Leads url none e = inl (no_head k.windows e, refl)
  fallback-Leads url (some w) e =
      let there = any_of_head k.windows w e in
      inr (w.id, refl, is_showing-moved (λ x. true) w.id url k.windows there, refl)

  root-Leads :
      (root_url : String) (o : Option Window)
      → client_at root_url k ≡ o
      → Leads k root_url (show_root o (head? k.windows) root_url k)
  root-Leads root_url none e = fallback-Leads root_url (head? k.windows) refl
  root-Leads root_url (some w) e = inr (w.id, refl, any_of_find _ k.windows w e, refl)

  topic_from-Leads :
      (root_url url : String) (o : Option Window)
      → client_at root_url k ≡ o
      → Leads k url (show_topic_from o (head? k.windows) url k)
  topic_from-Leads root_url url none e = fallback-Leads url (head? k.windows) refl
  topic_from-Leads root_url url (some w) e =
      let there = any_of_find _ k.windows w e in
      inr (w.id, refl, is_showing-moved (λ x. x.url == root_url) w.id url k.windows there, refl)

  topic-Leads :
      (root_url url : String) (o : Option Window)
      → client_at url k ≡ o
      → Leads k url (show_topic o (client_at root_url k) (head? k.windows) url k)
  topic-Leads root_url url none e = topic_from-Leads root_url url (client_at root_url k) refl
  topic-Leads root_url url (some w) e = inr (w.id, refl, any_of_find _ k.windows w e, refl)

abbrev pub LeadsTo : Option String → String → Desktop → Desktop → Type 0
LeadsTo none topic_route k k' = Leads k topic_route k'
LeadsTo (some url) topic_route k k' = k'.opened ≡ url ∷ k.opened

-- Where a click on a notification without an action leads: to the app, to the URL of the message, or to
-- its topic.
abbrev pub IsLed : String → Option (Message × String) → Desktop → Desktop → Type 0
IsLed root_url none k k' = Leads k root_url k'
IsLed root_url (some (m, topic_route)) k k' = LeadsTo (truthy m.click) topic_route k k'

target-LeadsTo :
    (root_url : String) (o : Option String) (topic_route : String) (k : Desktop)
    → ((click_target root_url o topic_route k).closed ≡ true)
      × LeadsTo o topic_route k (click_target root_url o topic_route k)
unfolding click_target click_message
target-LeadsTo root_url none topic_route k =
    (refl, topic-Leads k root_url topic_route (client_at topic_route k) refl)
target-LeadsTo root_url (some url) topic_route k = (refl, refl)

abbrev IsDone : String → Option (Message × String) → Desktop → Option Desktop → Type 0
IsDone root_url payload k o =
    (k' : Desktop) × (o ≡ some k') × (k'.closed ≡ true) × IsLed root_url payload k k'

data-IsDone :
    (root_url : String) (response : Bool) (payload : Option (Message × String)) (k : Desktop)
    → IsDone root_url payload k (handle_data root_url response payload none k)
unfolding handle_data click_on click_other
data-IsDone root_url response none k =
    (_, refl, refl, root-Leads k root_url (client_at root_url k) refl)
data-IsDone root_url response (some (m, topic_route)) k =
    let (closed, leads) = target-LeadsTo root_url (truthy m.click) topic_route k in
    (_, refl, closed, leads)

-- A click that is not on an action closes the notification and fails never. It leads to the topic of the
-- message, unless the message has a URL to open; the notification that is about no message leads to the
-- app. A window of the app that is there is used, and none is opened besides.
pub handle_click_leads :
    (root_url : String) (response : Bool) (c : Click) (k : Desktop)
    → truthy c.action ≡ none
    → (k' : Desktop) × (handle_click root_url response c k ≡ some k')
      × (k'.closed ≡ true)
      × IsLed root_url c.payload k k'
unfolding handle_click
handle_click_leads root_url response c k e =
    subst (λ o. IsDone root_url c.payload k (handle_data root_url response c.payload o k)) (sym e)
      (data-IsDone root_url response c.payload k)
