-- ===== src/Delivery/Coverage.antt =====
-- Which subscriptions have a WebSocket.
use ntfy.Base.Perm.{any-perm}
use ntfy.Base.{
  String, ◌≡◌, refl, ◌∙◌, ap, Bool, true, false, not, ◌&&◌, ◌||◌, some, List, [], ◌∷◌, map, filter,
  any, contains, All, eqb, ◌==◌, eq_refl, eq_iff, arith, Bool-cases, inl, inr,
}
use ntfy.Dexie.Laws.{any_row, holds_of}
use ntfy.Model.{Config, Subscription}
use ntfy.Database.{Dexie, Db, subscription}
use ntfy.Subscriptions.{web_push_topics}
use ntfy.Delivery.{ws_subscriptions}

-- What makes the server push a subscription's messages.
abbrev pub is_pushed : Config → Subscription → Bool
is_pushed config s = s.base_url == config.base_url && eqb s.muted_until 0 && not s.internal

contains-topics :
    (t : String) (ss : List Subscription)
    → contains (map (λ (s : Subscription). s.topic) ss) t ≡ any (λ s. s.topic == t) ss
contains-topics t [] = refl
contains-topics t (s ∷ ss) = ap (s.topic == t ||◌) (contains-topics t ss)

any-filter {ℓ} :
    {A : Type ℓ} (p q : A → Bool) (xs : List A) → any p (filter q xs) ≡ any (λ x. p x && q x) xs
any-filter p q [] = refl
any-filter p q (x ∷ xs) = ground (arith, any-filter p q xs)

any_mono {ℓ} :
    {A : Type ℓ} (p q : A → Bool) (xs : List A)
    → ((x : A) → q x ≡ true → p x ≡ true)
    → any q xs ≡ true
    → any p xs ≡ true
any_mono p q [] h e = e
any_mono p q (x ∷ xs) h e = elim (Bool-cases (q x)) [
  | inl e' ↦ let e'' = h x e' in ground arith
  | inr e' ↦ let e'' = any_mono p q xs h (ground arith) in ground arith
]

module _ (d : Dexie) where
  open d use {subscriptions as S}

  -- A subscription whose messages are pushed is among the topics that are sent to the server, where web
  -- push is possible and enabled.
  contains-web_push_topics :
      (config : Config) (db : Db d) (h : Subscription)
      → subscription d db h.id ≡ some h
      → is_pushed config h ≡ true
      → contains (web_push_topics d config true true db) h.topic ≡ true
  unfolding web_push_topics
  contains-web_push_topics config db h e p =
      contains-topics h.topic
        (filter (λ s. not s.internal) (S.where_array db.subscriptions of_server))
      ∙ any-filter same _ (S.where_array db.subscriptions of_server)
      ∙ any-perm _ (S.where_array-perm db.subscriptions of_server)
      ∙ any-filter _ of_server (S.to_array db.subscriptions)
      ∙ any_mono (λ s. (same s && not s.internal) && of_server s)
          (λ s. (same s && is_pushed config s) && s.id == h.id) (S.to_array db.subscriptions)
          (λ s q. ground arith)
          (any_row S db.subscriptions (λ s. same s && is_pushed config s) h.id
            ∙ ap (holds_of (λ s. same s && is_pushed config s)) e
            ∙ ground (arith, eq_refl h.topic))
    where
      same : Subscription → Bool
      same s = s.topic == h.topic

      of_server : Subscription → Bool
      of_server s = s.base_url == config.base_url && eqb s.muted_until 0

  -- While web push is possible and enabled, a pushed subscription of the app's own server keeps every
  -- subscription with the same topic, on whatever server, from having a WebSocket.
  pub unserved :
      (config : Config) (db : Db d) (h : Subscription) (subscriptions : List Subscription)
      → subscription d db h.id ≡ some h
      → is_pushed config h ≡ true
      → All
          (λ (s : Subscription). (s.topic == h.topic) ≡ false)
          (ws_subscriptions (some subscriptions) (some (web_push_topics d config true true db)))
  unfolding ws_subscriptions
  unserved config db h subscriptions e p =
      without_topic (web_push_topics d config true true db)
        (contains-web_push_topics config db h e p) subscriptions
    where
      without_topic :
          (topics : List String)
          → contains topics h.topic ≡ true
          → (ss : List Subscription)
          → All
              (λ (s : Subscription). (s.topic == h.topic) ≡ false)
              (filter (λ (s : Subscription). not (contains topics s.topic)) ss)
      without_topic topics c [] = tt
      without_topic topics c (s ∷ ss) = elim (Bool-cases (contains topics s.topic)) [
        | inl e' ↦ rw e' (without_topic topics c ss)
        | inr e' ↦ rw e' (differs s e', without_topic topics c ss)
      ]
        where
          differs :
              (s : Subscription) → contains topics s.topic ≡ false → (s.topic == h.topic) ≡ false
          differs s e' = ground (arith, eq_iff s.topic h.topic)
