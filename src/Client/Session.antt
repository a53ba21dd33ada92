-- ===== src/Client/Session.antt =====
-- `request` of frontend/src/api/client.ts, the upload streams, and the listeners that are told when
-- the session has ended.
pub mod Announce
pub mod Listeners
pub mod Rejected
use vantric.Prelude.{
  ℕ, Bool, true, false, not, ◌&&◌, Option, none, some, List, [], ◌∷◌, ◌++◌, leb, ◌==◌,
  if◌then◌else◌, filter_by, any_of,
}
use vantric.Prelude.Text.{Text, text, starts}
use vantric.Client.Wire.{Request, render, by_fetch, by_xhr}

-- A listener stands for itself by a number: the set holds each once, in the order of arrival.
abbrev pub Listeners : Type 0
Listeners = List ℕ

unfoldable pub holds : ℕ → Listeners → Bool
holds listener listeners = any_of (λ l. l == listener) listeners

-- `unauthorizedListeners.add(listener)`
unfoldable pub on_unauthorized : ℕ → Listeners → Listeners
unfolding holds
on_unauthorized listener listeners =
    if holds listener listeners then listeners else listeners ++ listener ∷ []

-- The function that `onUnauthorized` returns: `unauthorizedListeners.delete(listener)`
unfoldable pub forget : ℕ → Listeners → Listeners
forget listener listeners = filter_by (λ l. not (l == listener)) listeners

-- What the server sends back as a body: no JSON, or a value.
pub data Reply (J : Type 0) : Type 0 where
  not_json : Reply J
  value : J → Reply J

pub record Response (J : Type 0) : Type 0 where
  pub status : ℕ
  pub status_text : Text
  pub reply : Reply J

-- How the promise ends: resolved with a value, with nothing, or rejected with an error; `malformed`
-- is a body of a success that is no JSON, `unsent` a path that could not be written down, and
-- `unreachable` a failure of the network.
pub data Outcome (J : Type 0) : Type 0 where
  returned : J → Outcome J
  nothing : Outcome J
  unauthorized : Text → Outcome J
  failed : Text → Outcome J
  malformed : Outcome J
  unsent : Outcome J
  unreachable : Outcome J

-- `res.ok`, and the test of the upload streams
unfoldable pub is_ok : ℕ → Bool
is_ok status = leb 200 status && leb status 299

-- `error_of` reads the field `error` of a JSON value: none where it has no such text.
module _ {J : Type 0} (error_of : J → Option Text) where
  -- The status text, unless the body names an error that is not empty
  unfoldable pub message : Response J → Text
  message res = elim res.reply [
    | not_json ↦ res.status_text
    | value body ↦ elim (error_of body) [
      | none ↦ res.status_text
      | some [] ↦ res.status_text
      | some (c ∷ s) ↦ c ∷ s
    ]
  ]

  abbrev pub unpack : Reply J → Outcome J
  unpack not_json = malformed
  unpack (value body) = returned body

  -- The promise of `request` for a path, and the listeners that it calls
  unfoldable pub request : Listeners → Text → Response J → Outcome J × List ℕ
  unfolding is_ok message text
  request listeners path res =
      if not (is_ok res.status)
      then if res.status == 401
        then (
          unauthorized (message res),
          if not (starts (text "/auth/") path) then listeners else [],
        )
        else (failed (message res), [])
      else if res.status == 204
      then (nothing, [])
      else (unpack res.reply, [])

  abbrev upload_reply : Reply J → Outcome J
  upload_reply not_json = nothing
  upload_reply (value body) = returned body

  -- `body?.error ?? xhr.statusText`: an empty error is kept.
  unfoldable pub upload_message : Response J → Text
  upload_message res = elim res.reply [
    | not_json ↦ res.status_text
    | value body ↦ elim (error_of body) [ none ↦ res.status_text | some s ↦ s ]
  ]

  -- The promise of `uploadStream` and of `uploadInstallerStream`; null is resolved as it is.
  unfoldable pub upload_outcome : Response J → Outcome J
  unfolding is_ok upload_message
  upload_outcome res =
      if is_ok res.status then upload_reply res.reply else failed (upload_message res)

  -- A call from its request to the end of its promise; none is a network that did not answer.
  unfoldable pub perform : Listeners → Request J → Option (Response J) → Outcome J × List ℕ
  unfolding request upload_outcome
  perform listeners req answer = elim (render req.path) [
    | none ↦ (unsent, [])
    | some path ↦ elim answer [
      | none ↦ (unreachable, [])
      | some res ↦ elim req.transport [
        | by_fetch ↦ request listeners path res
        | by_xhr ↦ (upload_outcome res, [])
      ]
    ]
  ]
