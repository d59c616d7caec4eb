-- ===== src/Connection/Reopen.antt =====
-- A closed connection that comes back: the handler of the socket's end is not taken off by `close()`.
use ntfy.Base.{◌+◌, ◌*◌, ◌≡◌, refl, false, some, []}
use ntfy.Util.Auth.{Base64}
use ntfy.Connection.{Timer, World, close, start, retry_seconds, ws_url}
use ntfy.Connection.Events.{on_close, end_socket, fire, Reach, here, next, ended, fired}
use ntfy.Connection.Single.{Live, closing_all-single}
use ntfy.Connection.Resume.{url_of_first}

-- When the end of a socket that `close()` closed is not clean, as it is when the socket was still
-- connecting, events can follow by which the closed connection has a socket again, opened at the URL
-- of the connection.
pub reopens-close :
    (base64 : Base64) (w : World)
    → Live w
    → (u : World) × Reach base64 (close w) u
      × (u.connection.ws ≡ some (w.browser.fresh + 1))
      × (url_of_first u.browser.sockets ≡ some (ws_url base64 w.connection))
unfolding close on_close start ws_url
reopens-close base64 w (x, p, q, r) =
    let (y, p', c) = closing_all-single w.connection.ws x r in
    let dead = end_socket y.id false (close w) in
    let timer : Timer = record {
      id = w.browser.fresh;
      millis = retry_seconds w.connection.retry_count * 1000;
    } in
    (
      fire base64 timer.id dead,
      next (next here (ended y false ([], [], rw (p, p')))) (fired timer ([], _, refl)),
      refl,
      refl,
    )
