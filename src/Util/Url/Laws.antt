-- ===== src/Util/Url/Laws.antt =====
-- What shortening and expanding do to a URL.
use Prim.Native.String.{◌++◌}
use text.Mathlib.TextLemmas.{append_assoc}
use ntfy.Base.{String, ◌≡◌, refl, All}
use ntfy.Base.Text.{append-eq-prepend, Lacks, replace_all, replace_from_of_Lacks}
use ntfy.Util.Url.{short_url, expand_url, expand_secure_url, topic_url, topic_url_ws}

-- Shortening either expansion of a URL is the same as shortening the URL.
pub short_url-expand_url : (url : String) → All (λ u. short_url u ≡ short_url url) (expand_url url)
unfolding short_url expand_url
short_url-expand_url url =
    (rw (append-eq-prepend "https://" url) refl, (rw (append-eq-prepend "http://" url) refl, tt))

replace_all-secure :
    (s : String)
    → Lacks "https://" s
    → Lacks "http://" s
    → replace_all "http://" "ws://" (replace_all "https://" "wss://" ("https://" ++ s))
      ≡ "wss://" ++ s
unfolding replace_all
replace_all-secure s h k =
    rw
      (
        append-eq-prepend "https://" s,
        replace_from_of_Lacks "https://" "wss://" s h,
        append-eq-prepend "wss://" s,
        replace_from_of_Lacks "http://" "ws://" s k,
      )
      refl

-- The WebSocket of a server that is reached by https is a secure one, where neither the host nor the
-- topic holds a scheme.
pub topic_url_ws-secure :
    (host topic : String)
    → Lacks "https://" (topic_url host topic ++ "/ws")
    → Lacks "http://" (topic_url host topic ++ "/ws")
    → topic_url_ws (expand_secure_url host) topic ≡ "wss://" ++ (topic_url host topic ++ "/ws")
unfolding topic_url_ws topic_url expand_secure_url
topic_url_ws-secure host topic h k =
    rw
      (
        append_assoc "https://" host ("/" ++ topic),
        append_assoc "https://" (host ++ ("/" ++ topic)) "/ws",
      )
      (replace_all-secure (topic_url host topic ++ "/ws") h k)
