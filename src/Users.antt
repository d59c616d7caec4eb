-- ===== src/Users.antt =====
-- web/src/app/UserManager.js: the users of other servers are in the database, the user of the app's own
-- server is the one that is logged in.
pub mod Laws
mod Tests
use ntfy.Base.{String, Bool, ◌&&◌, Option, none, some, List, [], ◌∷◌, is_some, ◌==◌, if◌then◌else◌}
use ntfy.Model.{Config, User}
use ntfy.Database.{Dexie, Db}
use ntfy.Session.{Session, session_of}

abbrev pub user_for : Config → Option (String × String) → Option User
user_for config none = none
user_for config (some (username, token)) = some (record {
  base_url = config.base_url;
  username = username;
  password = none;
  token = some token;
})

unfoldable pub local_user : Config → Session → Option User
local_user config session = user_for config (session_of session)

-- Where the user is the one that is logged in.
unfoldable pub is_local : Config → Session → String → Bool
is_local config session base_url = is_some (session_of session) && base_url == config.base_url

abbrev pub unshift : Option User → List User → List User
unshift none users = users
unshift (some u) users = u ∷ users

module _ (d : Dexie) (config : Config) (session : Session) where
  open d use {users as U}

  unfoldable pub all : Db d → List User
  unfolding local_user
  all db = unshift (local_user config session) (U.to_array db.users)

  unfoldable pub get : String → Db d → Option User
  unfolding is_local local_user
  get base_url db =
      if is_local config session base_url
      then local_user config session
      else U.get db.users base_url

  unfoldable pub save : User → Db d → Db d
  unfolding is_local
  save u db =
      if is_local config session u.base_url then db else record db { users = U.put db.users u }

  unfoldable pub delete : String → Db d → Db d
  unfolding is_local
  delete base_url db =
      if is_local config session base_url
      then db
      else record db { users = U.delete db.users base_url }
