-- ===== src/Dialogs/Entry/Tests.antt =====
-- A signup whose login is answered with a token.
use ntfy.Base.{◌≡◌, refl, some}
use ntfy.Session.{session_of}
use ntfy.Errors.{ok}
use ntfy.Page.Samples.{config, plain, page}
use ntfy.Dialogs.Entry.{signup_submit}

signed_up :
    session_of (signup_submit config plain "ben" "pw" (ok tt) (ok (some "tk_2")) page).1.session
    ≡ some ("ben", "tk_2")
unfolding session_of signup_submit
signed_up = refl
