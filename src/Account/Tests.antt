-- ===== src/Account/Tests.antt =====
-- One request of each kind.
use ntfy.Base.{◌≡◌, refl, some, [], ◌∷◌}
use ntfy.Account.{text, number}
use ntfy.Account.Calls.{Context, create_token}

abbrev context : Context
context = record {
  base_url = "https://ntfy.sh";
  token = some "tk_1";
  base64 = record { encode = λ s. s; encode_uri = λ s. s };
}

expiring_token :
    (create_token context 90500 "phone" 3600).body
    ≡ some (("label", text "phone") ∷ ("expires", number 3690) ∷ [])
unfolding create_token
expiring_token = refl
