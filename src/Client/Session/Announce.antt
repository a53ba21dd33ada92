-- ===== src/Client/Session/Announce.antt =====
-- When a request of frontend/src/api/client.ts announces that the session has ended.
use vantric.Prelude.{◌≤◌, ◌≡◌, Bool, true, false, Option, some, [], ◌⊎◌, ◌↔◌, arith, ◌≢◌}
use vantric.Prelude.Text.{Text, text, starts}
use vantric.Client.Wire.{Request, render, by_fetch, by_xhr}
use vantric.Client.Calls.{Call, request_of, answers_for_itself}
use vantric.Client.Calls.Auth.{request_of-starts_auth}
use vantric.Client.Session.{Listeners, Response, returned, is_ok, request, perform, value}

module _ {J : Type 0} (error_of : J → Option Text) where
  -- A promise of `request` is resolved with a value exactly when the status is from 200 to 299 and
  -- not 204, and the body is that value.
  pub request-returned_iff :
      (listeners : Listeners) (path : Text) (res : Response J) (body : J)
      → ((request error_of listeners path res).0 ≡ returned body)
        ↔ ((200 ≤ res.status) × (res.status ≤ 299) × (res.status ≢ 204) × (res.reply ≡ value body))
  unfolding request is_ok
  request-returned_iff listeners path res body = ground arith

  request-announced :
      (listeners : Listeners) (path : Text) (res : Response J)
      → res.status ≡ 401
      → (b : Bool) → starts (text "/auth/") path ≡ b
      → (request error_of listeners path res).1 ≡ elim b [ true ↦ [] | false ↦ listeners ]
  unfolding request is_ok
  request-announced listeners path res h b e = ground arith

  -- A call of `api` by `fetch` whose answer is a 401 calls every listener, in order, and each
  -- once, unless it is one of the five that answer for themselves, which call none.
  pub perform-announced :
      (listeners : Listeners) (c : Call J) (path : Text) (res : Response J)
      → render (request_of c).path ≡ some path
      → (request_of c).transport ≡ by_fetch
      → res.status ≡ 401
      → (perform error_of listeners (request_of c) (some res)).1
        ≡ elim (answers_for_itself c) [ true ↦ [] | false ↦ listeners ]
  unfolding perform
  perform-announced listeners c path res rendered fetched h = ground (
    arith,
    request-announced listeners path res h (answers_for_itself c)
        (request_of-starts_auth c path rendered),
  )

  -- An answer that is no 401, or that answers an upload by XMLHttpRequest, calls no listener.
  pub perform-silent :
      (listeners : Listeners) (req : Request J) (res : Response J)
      → (res.status ≢ 401) ⊎ (req.transport ≡ by_xhr)
      → (perform error_of listeners req (some res)).1 ≡ []
  unfolding perform request is_ok
  perform-silent listeners req res h = ground arith
