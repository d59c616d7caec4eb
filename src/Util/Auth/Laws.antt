-- ===== src/Util/Auth/Laws.antt =====
-- Which credentials a request carries.
use ntfy.Base.{
  String, ◌≡◌, Option, none, some, arith, ◌==◌, if◌then◌else◌, truthy, inl, inr, Option-cases,
}
use ntfy.Base.Dict.{property, property-assign}
use ntfy.Model.{User}
use ntfy.Util.Auth.{
  Base64, Headers, bearer_auth, with_bearer_auth, basic_auth, with_basic_auth, maybe_with_auth,
}

abbrev authorization_of : Base64 → Option String → User → Option String → Option String
authorization_of base64 (some password) u token = some (basic_auth base64 u.username password)
authorization_of base64 none u (some token) = some (bearer_auth token)
authorization_of base64 none u none = none

-- The value of `Authorization` that a user's credentials give: the password, if there is one, and
-- else the token.
abbrev pub authorization : Base64 → User → Option String
authorization base64 u = authorization_of base64 (truthy u.password) u (truthy u.token)

abbrev pub else_keep {ℓ} : {A : Type ℓ} → Option A → Option A → Option A
else_keep none old = old
else_keep (some a) old = some a

-- A request's `Authorization` is the user's, where he has a password or a token, and stays what it
-- was where he has none; no other header changes.
pub property-maybe_with_auth :
    (base64 : Base64) (headers : Headers) (u : User) (name : String)
    → property (maybe_with_auth base64 headers (some u)) name ≡ (
        if "Authorization" == name
        then else_keep (authorization base64 u) (property headers name)
        else property headers name)
unfolding maybe_with_auth with_basic_auth with_bearer_auth
property-maybe_with_auth base64 headers u name = elim (Option-cases (truthy u.password)) [
  | inl e ↦ elim (Option-cases (truthy u.token)) [
    | inl e' ↦ rw (maybe_with_auth, e, e') (ground arith)
    | inr (token, e') ↦
        rw (maybe_with_auth, e, e')
          (property-assign headers "Authorization" name (bearer_auth token))
  ]
  | inr (password, e) ↦ rw (maybe_with_auth, e) (property-assign headers "Authorization" name _)
]
