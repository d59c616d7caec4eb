-- ===== src/Connection/Single.antt =====
-- A connection never has two sockets, and `close()` finds what there is to stop.
use ntfy.Base.{
  ℕ, ◌+◌, ◌*◌, ◌≤◌, ◌≡◌, refl, ◌⊎◌, inl, inr, Bool, true, false, Option, none, some, List, [], ◌∷◌,
  arith, length, All, ◌==◌, Bool-cases,
}
use ntfy.Model.{Message}
use ntfy.Util.Auth.{Base64}
use ntfy.Connection.{
  Socket, Timer, World, start, close, retry_seconds, ws_url, closing_all, cleared, start_closing,
}
use ntfy.Connection.Events.{
  Data, on_open, on_message, on_close, relevant_and_valid, received, Holds, Step, opened, message,
  ended, fired, closed, Reach, here, next, end_socket, fire,
}

-- One timer, which `retryTimeout` names.
abbrev pub Waiting : World → Type 0
Waiting w =
    (t : Timer) × (w.browser.sockets ≡ [])
    × (w.browser.timers ≡ t ∷ [])
    × (w.connection.retry_timeout ≡ some t.id)

-- One socket, which `ws` names if it is not closing.
abbrev pub Live : World → Type 0
Live w =
    (s : Socket) × (w.browser.sockets ≡ s ∷ [])
    × (w.browser.timers ≡ [])
    × ((s.closing ≡ true) ⊎ (w.connection.ws ≡ some s.id))

abbrev pub Idle : World → Type 0
Idle w = (w.browser.sockets ≡ []) × (w.browser.timers ≡ [])

pub data IsSingle (w : World) : Type 0 where
  idle : Idle w → IsSingle w
  live : Live w → IsSingle w
  waiting : Waiting w → IsSingle w

Holds-single : {A : Type 0} {x y : A} (xs : List A) → Holds x xs → xs ≡ y ∷ [] → x ≡ y
Holds-single xs ([], after, e) h = ground arith
Holds-single xs (b ∷ [], after, e) h = ground arith
Holds-single xs (b ∷ c ∷ before, after, e) h = ground arith

not-Holds-nil : {A : Type 0} {x : A} (xs : List A) → Holds x xs → xs ≡ [] → ⊥
not-Holds-nil xs ([], after, e) h = ground arith
not-Holds-nil xs (b ∷ before, after, e) h = ground arith

on_open-IsSingle : (w : World) → IsSingle w → IsSingle (on_open w)
unfolding on_open
on_open-IsSingle w (idle h) = idle h
on_open-IsSingle w (live h) = live h
on_open-IsSingle w (waiting h) = waiting h

received-IsSingle : (w : World) (m : Option Message) → IsSingle w → IsSingle (received w m)
received-IsSingle w none h = h
received-IsSingle w (some m) (idle h) = idle h
received-IsSingle w (some m) (live h) = live h
received-IsSingle w (some m) (waiting h) = waiting h

on_message-IsSingle : (w : World) (d : Option Data) → IsSingle w → IsSingle (on_message d w)
unfolding on_message
on_message-IsSingle w none h = h
on_message-IsSingle w (some d) h = elim (Bool-cases (d.event == "open")) [
  | inl e ↦ rw e h
  | inr e ↦ rw e (received-IsSingle w (relevant_and_valid d) h)
]

end_socket-IsSingle :
    (w : World) (s : Socket) (clean : Bool)
    → Holds s w.browser.sockets
    → IsSingle w
    → IsSingle (end_socket s.id clean w)
unfolding on_close
end_socket-IsSingle w s clean k (idle (p, q)) = absurd (not-Holds-nil w.browser.sockets k p)
end_socket-IsSingle w s clean k (waiting (t, p, q, r)) =
    absurd (not-Holds-nil w.browser.sockets k p)
end_socket-IsSingle w s true k (live (x, p, q, r)) =
    let same = Holds-single w.browser.sockets k p in idle (rw (p, same) (ground arith), q)
end_socket-IsSingle w s false k (live (x, p, q, r)) =
    let same = Holds-single w.browser.sockets k p in
    let timer : Timer = record {
      id = w.browser.fresh;
      millis = retry_seconds w.connection.retry_count * 1000;
    } in
    waiting (timer, rw (p, same) (ground arith), rw q refl, refl)

fire-IsSingle :
    (base64 : Base64) (w : World) (t : Timer)
    → Holds t w.browser.timers
    → IsSingle w
    → IsSingle (fire base64 t.id w)
unfolding start
fire-IsSingle base64 w t k (idle (p, q)) = absurd (not-Holds-nil w.browser.timers k q)
fire-IsSingle base64 w t k (live (x, p, q, r)) = absurd (not-Holds-nil w.browser.timers k q)
fire-IsSingle base64 w t k (waiting (x, p, q, r)) =
    let same = Holds-single w.browser.timers k q in
    let socket : Socket = record {
      id = w.browser.fresh;
      url = ws_url base64 w.connection;
      closing = false;
    } in
    live (socket, rw p refl, rw (q, same) (ground arith), inr refl)

-- What `close()` leaves: no timer, and no socket that is not closing.
abbrev pub Quiet : World → Type 0
Quiet w = (w.browser.timers ≡ []) × All (λ (s : Socket). s.closing ≡ true) w.browser.sockets

closing_all-nil : (ws : Option ℕ) → closing_all ws [] ≡ []
closing_all-nil none = refl
closing_all-nil (some s) = refl

cleared-nil : (t : Option ℕ) → cleared t [] ≡ []
cleared-nil none = refl
cleared-nil (some s) = refl

-- A socket that `ws` names, or that is closing already, is closing in the end.
pub closing_all-single :
    (ws : Option ℕ) (x : Socket)
    → (x.closing ≡ true) ⊎ (ws ≡ some x.id)
    → (y : Socket) × (closing_all ws (x ∷ []) ≡ y ∷ []) × (y.closing ≡ true)
closing_all-single none x (inl e) = (x, refl, e)
closing_all-single none x (inr e) = cc
closing_all-single (some s) x h = (start_closing s x, refl, ground arith)

abbrev pub IsStopped : World → Type 0
IsStopped w = IsSingle w × Quiet w

close-IsStopped : (w : World) → IsSingle w → IsStopped (close w)
unfolding close
close-IsStopped w (idle (p, q)) =
    let p' = closing_all-nil w.connection.ws in
    let q' = cleared-nil w.connection.retry_timeout in
    (idle (rw (p, p'), rw (q, q')), (rw (q, q'), rw (p, p') tt))
close-IsStopped w (live (x, p, q, r)) =
    let (y, p', c) = closing_all-single w.connection.ws x r in
    let q' = cleared-nil w.connection.retry_timeout in
    (live (y, rw (p, p'), rw (q, q'), inl c), (rw (q, q'), rw (p, p') (c, tt)))
close-IsStopped w (waiting (t, p, q, r)) =
    let p' = closing_all-nil w.connection.ws in
    let q' : cleared w.connection.retry_timeout w.browser.timers ≡ [] = rw (q, r) (ground arith) in
    (idle (rw (p, p'), q'), (q', rw (p, p') tt))

Step-IsSingle : (base64 : Base64) {w u : World} → Step base64 w u → IsSingle w → IsSingle u
Step-IsSingle base64 {w} (opened s k c) h = on_open-IsSingle w h
Step-IsSingle base64 {w} (message s d k c) h = on_message-IsSingle w d h
Step-IsSingle base64 {w} (ended s clean k) h = end_socket-IsSingle w s clean k h
Step-IsSingle base64 {w} (fired t k) h = fire-IsSingle base64 w t k h
Step-IsSingle base64 {w} closed h = (close-IsStopped w h).0

Reach-IsSingle : (base64 : Base64) {w u : World} → IsSingle w → Reach base64 w u → IsSingle u
Reach-IsSingle base64 h here = h
Reach-IsSingle base64 h (next r s) = Step-IsSingle base64 s (Reach-IsSingle base64 h r)

start-IsSingle : (base64 : Base64) (w : World) → Idle w → IsSingle (start base64 w)
unfolding start
start-IsSingle base64 w (p, q) =
    let socket : Socket = record {
      id = w.browser.fresh;
      url = ws_url base64 w.connection;
      closing = false;
    } in
    live (socket, rw p refl, q, inr refl)

IsSingle-le : (w : World) → IsSingle w → length w.browser.sockets + length w.browser.timers ≤ 1
IsSingle-le w (idle (p, q)) = rw (p, q) (omega arith)
IsSingle-le w (live (x, p, q, r)) = rw (p, q) (omega arith)
IsSingle-le w (waiting (t, p, q, r)) = rw (p, q) (omega arith)

-- Started where nothing is open or pending, a connection has, after any events, at most one socket or
-- one pending retry, and never both.
pub sockets_timers-le :
    (base64 : Base64) (w : World) {u : World}
    → Idle w
    → Reach base64 (start base64 w) u
    → length u.browser.sockets + length u.browser.timers ≤ 1
sockets_timers-le base64 w {u} h r =
    IsSingle-le u (Reach-IsSingle base64 (start-IsSingle base64 w h) r)

-- Whenever `close()` is called, it leaves no retry pending and no socket that is not closing.
pub close-Quiet :
    (base64 : Base64) (w : World) {u : World}
    → Idle w
    → Reach base64 (start base64 w) u
    → Quiet (close u)
close-Quiet base64 w {u} h r =
    (close-IsStopped u (Reach-IsSingle base64 (start-IsSingle base64 w h) r)).1
