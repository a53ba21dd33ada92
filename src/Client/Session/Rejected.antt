-- ===== src/Client/Session/Rejected.antt =====
-- How a request of frontend/src/api/client.ts is rejected, and what the error says.
use vantric.Prelude.{◌≡◌, ℕ, Option, none, some, [], ◌⊎◌, ◌≢◌}
use vantric.Prelude.Text.{Text}
use vantric.Client.Session.{Response, Reply, not_json, value}

module _ {J : Type 0} (error_of : J → Option Text) where
  -- The body of an answer names an error that is not empty, or it names none.
  abbrev Names : Response J → Text → Type 0
  Names res m = (body : J) × (res.reply ≡ value body) × (error_of body ≡ some m) × (m ≢ [])

  abbrev NamesNone : Response J → Type 0
  NamesNone res =
      (res.reply ≡ not_json)
      ⊎ ((body : J) × (res.reply ≡ value body)
          × ((error_of body ≡ none) ⊎ (error_of body ≡ some [])))

  -- What a rejection says: the error that the body names, or else the status text
  abbrev pub Says : Response J → Text → Type 0
  Says res m = Names res m ⊎ (NamesNone res × (res.status_text ≡ m))

  abbrev answer : ℕ → Text → Reply J → Response J
  answer status status_text reply = record {
    status = status;
    status_text = status_text;
    reply = reply;
  }
