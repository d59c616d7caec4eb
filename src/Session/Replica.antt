-- ===== src/Session/Replica.antt =====
-- When the replica of the session has what the local storage has.
use ntfy.Base.{String, ◌≡◌, refl, sym, ◌∙◌, Option, none, some, [], ◌∷◌, arith}
use ntfy.Session.{Session, session_of, replicated, store, reset, loads, written, Browser, step, run}

abbrev pub Agrees : Session → Type 0
Agrees s =
    (u t : String)
    → session_of s ≡ some (u, t)
    → (s.replica.user ≡ some u) × (s.replica.token ≡ some t)

-- After a load whose write IndexedDB has accepted, whatever was left in the browser: where there is a
-- session, the replica has its name and its token.
pub written-loads : (b : Browser) → Agrees (run (loads ∷ written ∷ []) b).session
unfolding run step
written-loads b u t e = from_load (session_of b.session) refl e
  where
    from_load :
        (o : Option (String × String))
        → session_of b.session ≡ o
        → session_of (replicated o b.session) ≡ some (u, t)
        → ((replicated o b.session).replica.user ≡ some u)
          × ((replicated o b.session).replica.token ≡ some t)
    from_load none e' e = cc
    from_load (some (u', t')) e' e =
        let same : some (u', t') ≡ some (u, t) = sym e' ∙ (unfold session_of in e) in
        (ground (arith, same), ground (arith, same))

-- And after a login that has ended; so it is after a logout, as there is no session then.
pub store-Agrees : (u t : String) (s : Session) → Agrees (store u t s)
unfolding store session_of
store-Agrees u t s u' t' e = ground arith

pub reset-Agrees : (s : Session) → Agrees (reset s)
unfolding reset session_of
reset-Agrees s u t e = cc
