-- ===== src/Util/Tests.antt =====
-- The functions of web/src/app/utils.js on texts of the app.
use ntfy.Base.{◌≡◌, refl, none, some, ◌%◌}
use ntfy.Base.Int.{pos, negsuc}
use ntfy.Base.Text.{utf16, replace_all}
use ntfy.Model.{User}
use ntfy.Util.Url.{short_url, topic_url_ws}
use ntfy.Util.Hash.{hash_code, signed, word}
use ntfy.Util.Hash.Laws.{hash_code-eq-polynomial, polynomial}
use ntfy.Util.Auth.{Base64}

short_url_removes_schemes : short_url "https://ntfy.sh/http://a" ≡ "ntfy.sh/a"
unfolding short_url
short_url_removes_schemes = refl

topic_url_ws_plain : topic_url_ws "http://localhost:80" "t" ≡ "ws://localhost:80/t/ws"
unfolding topic_url_ws replace_all
topic_url_ws_plain = refl

hash_of_hello : hash_code "Hello, World!" ≡ pos 1498789909
unfolding hash_code
hash_of_hello = refl

hash_of_the_least : hash_code "polygenelubricants" ≡ negsuc 2147483647
unfolding hash_code
hash_of_the_least = refl

hash_code-eq-polynomial_example :
    hash_code "https://ntfy.sh/a" ≡ signed (polynomial 0 (utf16 "https://ntfy.sh/a") % word)
hash_code-eq-polynomial_example = hash_code-eq-polynomial "https://ntfy.sh/a"

abbrev plain : Base64
plain = record { encode = λ s. s; encode_uri = λ s. s }

abbrev phil : User
phil = record {
  base_url = "https://ntfy.sh";
  username = "phil";
  password = some "secret";
  token = none;
}
