-- ===== src/Session.antt =====
-- web/src/app/Session.js: the session in the local storage of the page, and its replica in IndexedDB,
-- from which the service worker reads.
pub mod Replica
mod Tests
use ntfy.Base.{
  List, [], ◌∷◌, String, ◌≡◌, refl, sym, ◌∙◌, ap, ◌≢◌, Bool, true, false, Option, none, some,
  truthy, is_some, arith, Option-cases, inl, inr,
}

pub record Stored : Type 0 where
  pub user : Option String
  pub token : Option String

pub record Session : Type 0 where
  pub local : Stored
  pub replica : Stored

abbrev pub nothing : Stored
nothing = record { user = none; token = none }

abbrev pub username : Session → Option String
username s = s.local.user

abbrev pub token : Session → Option String
token s = s.local.token

abbrev pub both : Option String → Option String → Option (String × String)
both none t = none
both (some u) none = none
both (some u) (some t) = some (u, t)

-- `exists()`, with the name and the token that are there then.
unfoldable pub session_of : Session → Option (String × String)
session_of s = both (truthy (username s)) (truthy (token s))

abbrev pub replicated : Option (String × String) → Session → Session
replicated none s = s
replicated (some (u, t)) s = record s { replica = record { user = some u; token = some t } }

-- The two halves of `store`: IndexedDB is written first, and the local storage after the wait for it.
unfoldable pub store_replica : String → String → Session → Session
store_replica u t s = record s { replica = record { user = some u; token = some t } }

unfoldable pub store_local : String → String → Session → Session
store_local u t s = record s { local = record { user = some u; token = some t } }

-- `store`, where nothing intervenes and IndexedDB accepts the write. If it does not, the promise is
-- rejected and the local storage is not written.
unfoldable pub store : String → String → Session → Session
unfolding store_replica store_local
store u t s = store_local u t (store_replica u t s)

-- The two halves of `resetAndRedirect`, without the redirect.
unfoldable pub delete_replica : Session → Session
delete_replica s = record s { replica = nothing }

unfoldable pub remove_local : Session → Session
remove_local s = record s { local = nothing }

-- `resetAndRedirect`, where nothing intervenes and IndexedDB can be deleted.
unfoldable pub reset : Session → Session
unfolding delete_replica remove_local
reset s = remove_local (delete_replica s)

abbrev pub username_async : Session → Option String
username_async s = s.replica.user

-- What the page and IndexedDB do, one at a time. The constructor does not wait for its write, so that the
-- name and the token that it has read are written at any later time, or not at all where IndexedDB
-- refuses the write; a login and a logout can end between their halves.
pub data Event : Type 0 where
  loads written refused : Event
  stores_replica stores_local : String → String → Event
  deletes_replica removes_local : Event

-- The session, and what the constructor has asked IndexedDB to write.
pub record Browser : Type 0 where
  pub session : Session
  pub asked : Option (String × String)

unfoldable pub step : Event → Browser → Browser
unfolding session_of store_replica store_local delete_replica remove_local
step loads b = record b { asked = session_of b.session }
step written b = record { session = replicated b.asked b.session; asked = none }
step refused b = record b { asked = none }
step (stores_replica u t) b = record b { session = store_replica u t b.session }
step (stores_local u t) b = record b { session = store_local u t b.session }
step deletes_replica b = record b { session = delete_replica b.session }
step removes_local b = record b { session = remove_local b.session }

unfoldable pub run : List Event → Browser → Browser
unfolding step
run [] b = b
run (e ∷ events) b = run events (step e b)
