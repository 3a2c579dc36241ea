-- ===== src/Callback/Samples.antt =====
-- A callback to a listed host.
use calligraphy.Base.{◌≡◌, refl, [], ◌∷◌, ◌++◌, some, ok, same_bytes}
use calligraphy.Callback.{
  Payload, Callback, Request, Response, Libraries, handle, request_of, http, timeout_of,
}
use calligraphy.Callback.Routing.{Allowed, handle-Allowed}

abbrev target : Payload
target = record { url = http ++ (b'h' ∷ []); body = []; event = []; timeout_ms = 0 }

abbrev gone : Response
gone = record { status = 410; snippet = [] }

abbrev lib : Libraries
lib = record {
  unmarshal = λ b. ok target;
  host_of = λ url. ok (b'h' ∷ []);
  equal_fold = same_bytes;
  sign = λ secret ts body. [];
  send = λ req. ok gone;
  text = λ c. [];
}

abbrev listed : Callback
listed = record { secret = b's' ∷ []; allowed_hosts = (b'h' ∷ []) ∷ [] }

abbrev sent : Request
sent = request_of lib listed "j1" 1 100 target

sends : (handle lib listed "j1" 1 100 []).0 ≡ some sent
unfolding handle same_bytes
sends = refl

handle-Allowed_example : Allowed lib listed sent
handle-Allowed_example = handle-Allowed lib listed "j1" 1 100 [] sent sends

-- A timeoutMs of 10 ^ 13 wraps to a negative timeout: the delivery is cancelled at once.
timeout_wraps : timeout_of 10000000000000 ≡ 10000000000000000000
unfolding timeout_of
timeout_wraps = refl
