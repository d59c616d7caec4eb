-- ===== src/Users/Laws.antt =====
-- Which user a server has.
use ntfy.Base.{
  String, ◌≡◌, refl, ◌∙◌, ap, true, false, not, ◌&&◌, Option, none, some, List, [], ◌∷◌, any,
  filter, head?, All, is_some, ◌==◌, eq_iff, if◌then◌else◌, arith, Bool-cases, inl, inr, ◌⊎◌,
}
use ntfy.Dexie.{Table}
use ntfy.Dexie.Laws.{any_row, holds_of}
use ntfy.Model.{Config, User}
use ntfy.Database.{Dexie, Db}
use ntfy.Session.{Session, session_of}
use ntfy.Users.{user_for, local_user, is_local, unshift, all, get, save, delete}

first_with_key :
    {Row : Type 0} {key : Row → String} (T : Table key) (t : T.Rows) (k : String) (xs : List Row)
    → All (λ r. T.get t (key r) ≡ some r) xs
    → head? (filter (λ r. key r == k) xs)
      ≡ (if any (λ r. true && key r == k) xs then T.get t k else none)
first_with_key T t k [] _ = refl
first_with_key {key = key} T t k (x ∷ xs) (g, gs) = elim (Bool-cases (key x == k)) [
  | inl e ↦ let same : key x ≡ k = ground (arith, eq_iff (key x) k) in rw (e, ← same, g) refl
  | inr e ↦ rw e (first_with_key T t k xs gs)
]

if_some : (o : Option User) → (if holds_of (λ u. true) o then o else none) ≡ o
if_some none = refl
if_some (some u) = refl

module _ (d : Dexie) (config : Config) (session : Session) where
  open d use {users as U}

  stored_user :
      (b : String) (db : Db d)
      → head? (filter (λ (u : User). u.base_url == b) (U.to_array db.users)) ≡ U.get db.users b
  stored_user b db =
      first_with_key U db.users b (U.to_array db.users) (U.get_of_row db.users)
      ∙ rw (any_row U db.users (λ _. true) b) (if_some (U.get db.users b))

  head_for :
      (o : Option (String × String)) (b : String) (db : Db d)
      → head? (
          filter
            (λ (u : User). u.base_url == b)
            (unshift (user_for config o) (U.to_array db.users)))
        ≡ (if is_some o && b == config.base_url then user_for config o else U.get db.users b)
  head_for none b db = stored_user b db
  head_for (some (username, token)) b db = elim (Bool-cases (config.base_url == b)) [
    | inl e ↦
        let same : (b == config.base_url) ≡ true =
          ground (arith, eq_iff config.base_url b, eq_iff b config.base_url) in
        rw (e, same) refl
    | inr e ↦
        let other : (b == config.base_url) ≡ false =
          ground (arith, eq_iff config.base_url b, eq_iff b config.base_url) in
        rw (e, other) (stored_user b db)
  ]

  -- The first user of a server in the list of all users, whom the connections use, is the one that is used
  -- for single requests to the server.
  pub head-all :
      (b : String) (db : Db d)
      → head? (filter (λ (u : User). u.base_url == b) (all d config session db))
        ≡ get d config session b db
  unfolding all get local_user is_local
  head-all b db = head_for (session_of session) b db

  -- Saving a user changes the user of its server, and deleting one removes it, but for the one who is
  -- logged in; the users of all other servers stay.
  pub get-save :
      (u : User) (b b' : String) (db : Db d)
      → (get d config session b (save d config session u db) ≡ (
          if u.base_url == b && not (is_local config session b)
          then some u
          else get d config session b db))
        × (get d config session b (delete d config session b' db) ≡ (
            if b' == b && not (is_local config session b) then none else get d config session b db))
  get-save u b b' db = (saved (Bool-cases (u.base_url == b)), deleted (Bool-cases (b' == b)))
    where
      saved :
          ((u.base_url == b) ≡ true) ⊎ ((u.base_url == b) ≡ false)
          → get d config session b (save d config session u db) ≡ (
              if u.base_url == b && not (is_local config session b)
              then some u
              else get d config session b db)
      saved (inl e) =
          let same : u.base_url ≡ b = ground (arith, eq_iff u.base_url b) in
          let as_local = ap (is_local config session) same in
          unfold get save in ground (arith, e, as_local, U.get-put db.users u b)
      saved (inr e) = unfold get save in ground (arith, e, U.get-put db.users u b)

      deleted :
          ((b' == b) ≡ true) ⊎ ((b' == b) ≡ false)
          → get d config session b (delete d config session b' db) ≡ (
              if b' == b && not (is_local config session b)
              then none
              else get d config session b db)
      deleted (inl e) =
          let same : b' ≡ b = ground (arith, eq_iff b' b) in
          let as_local = ap (is_local config session) same in
          unfold get delete in ground (arith, e, as_local, U.get-delete db.users b' b)
      deleted (inr e) = unfold get delete in ground (arith, e, U.get-delete db.users b' b)
