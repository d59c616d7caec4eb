-- ===== src/Session/Tests.antt =====
-- A session that an older version left, a login, and a write that IndexedDB refuses.
use ntfy.Base.{◌≡◌, refl, some, none, [], ◌∷◌}
use ntfy.Session.{
  nothing, Browser, loads, written, refused, step, run, store, reset, session_of, username_async,
}

abbrev left_over : Browser
left_over = record {
  session = record {
    local = record { user = some "phil"; token = some "tk_1" };
    replica = nothing;
  };
  asked = none;
}

copied : username_async (run (loads ∷ written ∷ []) left_over).session ≡ some "phil"
unfolding run step session_of
copied = refl

not_copied : username_async (run (loads ∷ refused ∷ []) left_over).session ≡ none
unfolding run step session_of
not_copied = refl

forgotten : session_of (reset (store "ben" "tk_2" left_over.session)) ≡ none
unfolding reset store session_of
forgotten = refl
