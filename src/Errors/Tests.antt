-- ===== src/Errors/Tests.antt =====
-- Responses of the server and the errors that they throw.
use ntfy.Base.{◌≡◌, refl, none, some}
use ntfy.Errors.{ErrorBody, Response, other, throw_app_error}

abbrev reserved : ErrorBody
reserved = record { code = some 40902; error = some "conflict" }

abbrev conflict : Response
conflict = record { status = 409; error_body = some reserved }

abbrev not_json : Response
not_json = record { status = 502; error_body = none }

no_code : throw_app_error not_json ≡ other "Unexpected response 502"
unfolding throw_app_error
no_code = refl
