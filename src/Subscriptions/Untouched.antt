-- ===== src/Subscriptions/Untouched.antt =====
-- `syncFromRemote` does not change the settings.
use mathlib.Core.List.{foldl}
use ntfy.Base.{String, ◌≡◌, refl, ◌∙◌, List, [], ◌∷◌, Option, arith, Bool-cases, inl, inr}
use ntfy.Model.{Config, Subscription, Reservation}
use ntfy.Database.{Dexie, Db}
use ntfy.Subscriptions.{
  Options, Remote, remote_options, add, remove, add_remotes, is_stale, remove_if_stale,
  sync_from_remote,
}

module _ (d : Dexie) where
  prefs-add :
      (base_url topic : String) (opts : Options) (db : Db d)
      → (add d base_url topic opts db).0.prefs ≡ db.prefs
  unfolding add
  prefs-add base_url topic opts db = ground arith

  prefs-add_remotes :
      (config : Config) (reservations : Option (List Reservation)) (remotes : List Remote)
      (db : Db d)
      → (add_remotes d config reservations remotes db).0.prefs ≡ db.prefs
  unfolding add_remotes
  prefs-add_remotes config reservations [] db = refl
  prefs-add_remotes config reservations (r ∷ remotes) db =
      prefs-add_remotes config reservations remotes _
      ∙ prefs-add r.base_url r.topic (remote_options config reservations r) db

  prefs-removals :
      (ids : List String) (locals : List Subscription) (db : Db d)
      → (foldl (remove_if_stale d ids) db locals).prefs ≡ db.prefs
  prefs-removals ids [] db = refl
  prefs-removals ids (s ∷ locals) db =
      prefs-removals ids locals (remove_if_stale d ids db s)
      ∙ elim (Bool-cases (is_stale d ids s)) [
        | inl e ↦ unfold remove_if_stale remove in rw e refl
        | inr e ↦ unfold remove_if_stale remove in rw e refl
      ]

  pub prefs-sync :
      (config : Config) (reservations : Option (List Reservation)) (remotes : List Remote)
      (db : Db d)
      → (sync_from_remote d config remotes reservations db).prefs ≡ db.prefs
  unfolding sync_from_remote
  prefs-sync config reservations remotes db =
      let (db', ids) = add_remotes d config reservations remotes db in
      prefs-removals ids (d.subscriptions.to_array db'.subscriptions) db'
      ∙ prefs-add_remotes config reservations remotes db
