-- ===== src/Client/Queries.antt =====
-- The query strings of frontend/src/api/client.ts: `aiQuery`, and those of `listAudit`,
-- `listObjects` and the uploads.
pub mod Dropped
use vantric.Prelude.{ℕ, zero, suc, Option, none, some, List, [], ◌∷◌, if◌then◌else◌}
use vantric.Prelude.Text.{Text, text, join, show, same}
use vantric.Client.Wire.{Template, Part, query, lit, File, FormValue, blob, word}

-- `params.set(name, value)`
unfoldable pub set : Text → Text → List (Text × Text) → List (Text × Text)
unfolding same
set name value [] = (name, value) ∷ []
set name value ((n, v) ∷ pairs) =
    if same name n then (name, value) ∷ pairs else (n, v) ∷ set name value pairs

-- `if (value) params.set(name, value)`
abbrev pub set_text : Text → Option Text → List (Text × Text) → List (Text × Text)
set_text name none pairs = pairs
set_text name (some []) pairs = pairs
set_text name (some (c ∷ s)) pairs = set name (c ∷ s) pairs

-- `if (n) params.set(name, String(n))`
abbrev pub set_number : Text → Option ℕ → List (Text × Text) → List (Text × Text)
set_number name none pairs = pairs
set_number name (some zero) pairs = pairs
set_number name (some (suc n)) pairs = set name (show (suc n)) pairs

-- `if (items?.length) params.set(name, items.join(','))`
abbrev pub set_list : Text → Option (List Text) → List (Text × Text) → List (Text × Text)
set_list name none pairs = pairs
set_list name (some []) pairs = pairs
set_list name (some (s ∷ items)) pairs = set name (join (b',' ∷ []) (s ∷ items)) pairs

pub record AiRequestQuery : Type 0 where
  pub limit : Option ℕ
  pub offset : Option ℕ
  pub sort_by : Option Text
  pub order : Option Text
  pub providers : Option (List Text)
  pub models : Option (List Text)
  pub callers : Option (List Text)
  pub status : Option Text
  pub search : Option Text
  pub since : Option Text
  pub until : Option Text

unfoldable pub ai_query : AiRequestQuery → List (Text × Text)
unfolding text set
ai_query q =
    let paged = set_number (text "offset") q.offset (set_number (text "limit") q.limit []) in
    let sorted = set_text (text "order") q.order (set_text (text "sortBy") q.sort_by paged) in
    let narrowed =
      set_list (text "callers") q.callers
        (set_list (text "models") q.models (set_list (text "providers") q.providers sorted)) in
    let worded = set_text (text "search") q.search (set_text (text "status") q.status narrowed) in
    set_text (text "until") q.until (set_text (text "since") q.since worded)

pub record AuditQuery : Type 0 where
  pub actor : Option Text
  pub resource : Option Text
  pub limit : Option ℕ

unfoldable pub audit_query : AuditQuery → List (Text × Text)
unfolding text set
audit_query params =
    set_number (text "limit") params.limit
      (set_text (text "resource") params.resource (set_text (text "actor") params.actor []))

-- `suffix ? `?${suffix}` : ''`: the string of no parameters is empty, that of some is not.
unfoldable pub audit_suffix : AuditQuery → Template
unfolding audit_query
audit_suffix params = elim (audit_query params) [ [] ↦ [] | p ∷ ps ↦ lit "?" ∷ query (p ∷ ps) ∷ [] ]

pub record ObjectQuery : Type 0 where
  pub prefix : Option Text
  pub delimiter : Option Text
  pub token : Option Text
  pub limit : Option ℕ

-- An empty delimiter is sent, since it flattens the listing.
abbrev set_given : Text → Option Text → List (Text × Text) → List (Text × Text)
set_given name none pairs = pairs
set_given name (some s) pairs = set name s pairs

unfoldable pub object_query : Text → ObjectQuery → List (Text × Text)
unfolding text set
object_query provider_id opts =
    let provider = (text "provider", provider_id) ∷ [] in
    let listed =
      set_given (text "delimiter") opts.delimiter (set_text (text "prefix") opts.prefix provider) in
    set_number (text "limit") opts.limit (set_text (text "token") opts.token listed)

pub record UploadTarget : Type 0 where
  pub node : Text
  pub storage : Text
  pub filename : Text

-- `...params` in the query of `uploadStream`
abbrev pub upload_fields : UploadTarget → List (Text × Text)
upload_fields params =
    (text "node", params.node)
    ∷ (text "storage", params.storage)
    ∷ (text "filename", params.filename)
    ∷ []

-- The form of `uploadToInstance`: an empty destination is left out.
unfoldable pub sftp_form : File → Text → List (Text × FormValue)
unfolding text
sftp_form file [] = (text "file", blob file) ∷ []
sftp_form file (c ∷ dest) = (text "file", blob file) ∷ (text "path", word (c ∷ dest)) ∷ []

pub data GuestKind : Type 0 where
  instances containers : GuestKind

-- `${kind}`
abbrev pub guest : GuestKind → Part
guest instances = lit "instances"
guest containers = lit "containers"
