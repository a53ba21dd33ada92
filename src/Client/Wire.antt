-- ===== src/Client/Wire.antt =====
-- The requests of frontend/src/api/client.ts: a path is kept as the pieces of its template literal,
-- so that what the caller names and what the source writes can be told apart.
use vantric.Prelude.{ℕ, Bool, Option, none, some, List, [], ◌∷◌, ◌++◌, String}
use vantric.Prelude.Text.{Text, text, join, show}
use vantric.Client.Encode.{encode_uri_component, form_encode}

pub data Method : Type 0 where
  get_method post put delete : Method

-- A piece of a template literal: the source's own words, a value put in as it is, a value through
-- `encodeURIComponent`, a number, or a URLSearchParams.
pub data Part : Type 0 where
  words : Text → Part
  raw : Text → Part
  enc : Text → Part
  num : ℕ → Part
  query : List (Text × Text) → Part

abbrev pub Template : Type 0
Template = List Part

abbrev pub lit : String → Part
lit s = words (text s)

-- `${given ? with : without}`: an absent or empty text is not truthy.
abbrev pub if_given : Option Text → (Text → Template) → Template → Template
if_given none there absent = absent
if_given (some []) there absent = absent
if_given (some (c ∷ s)) there absent = there (c ∷ s)

-- A parameter's default.
abbrev pub or_else : {A : Type 0} → Option A → A → A
or_else none fallback = fallback
or_else (some given) fallback = given

abbrev pub search_pair : Text × Text → Text
search_pair (name, value) = form_encode name ++ b'=' ∷ form_encode value

abbrev pub search_pairs : List (Text × Text) → List Text
search_pairs [] = []
search_pairs (p ∷ ps) = search_pair p ∷ search_pairs ps

-- `URLSearchParams.toString()`
unfoldable pub search_string : List (Text × Text) → Text
search_string pairs = join (b'&' ∷ []) (search_pairs pairs)

-- One piece as text; `encodeURIComponent` throws on a lone surrogate.
unfoldable pub render_part : Part → Option Text
unfolding search_string
render_part (words s) = some s
render_part (raw s) = some s
render_part (enc s) = encode_uri_component s
render_part (num n) = some (show n)
render_part (query pairs) = some (search_string pairs)

unfoldable pub render : Template → Option Text
unfolding render_part
render [] = some []
render (p ∷ ps) = elim (render_part p) [
  | none ↦ none
  | some s ↦ elim (render ps) [ none ↦ none | some rest ↦ some (s ++ rest) ]
]

-- The JSON that the client builds: a body that the caller hands over whole is of a type `J` of its
-- own.
pub data Json (J : Type 0) : Type 0 where
  given : J → Json J
  string : Text → Json J
  number : ℕ → Json J
  flag : Bool → Json J
  strings : List Text → Json J
  numbers : List ℕ → Json J

pub record File : Type 0 where
  pub name : Text
  pub content : List ℕ

pub data FormValue : Type 0 where
  blob : File → FormValue
  word : Text → FormValue

pub data Body (J : Type 0) : Type 0 where
  no_body : Body J
  json : Json J → Body J
  object : List (Text × Json J) → Body J
  bytes : File → Body J
  form : List (Text × FormValue) → Body J

-- Whether the request goes by `fetch`, in `request`, or by XMLHttpRequest, in the upload streams.
pub data Transport : Type 0 where
  by_fetch by_xhr : Transport

pub record Request (J : Type 0) : Type 0 where
  pub transport : Transport
  pub method : Method
  pub path : Template
  -- the Content-Type that the call names itself
  pub named_type : Option Text
  pub body : Body J

-- The four ways in which the table makes a request.
module _ {J : Type 0} where
  unfoldable pub get : Template → Request J
  get t = record {
    transport = by_fetch;
    method = get_method;
    path = t;
    named_type = none;
    body = no_body;
  }

  unfoldable pub send : Method → Template → Body J → Request J
  send m t b = record { transport = by_fetch; method = m; path = t; named_type = none; body = b }

  unfoldable pub send_octets : Method → Template → Body J → Request J
  unfolding text
  send_octets m t b = record {
    transport = by_fetch;
    method = m;
    path = t;
    named_type = some (text "application/octet-stream");
    body = b;
  }

  -- `uploadStream` and `uploadInstallerStream`
  unfoldable pub upload : Template → File → Request J
  unfolding text
  upload t f = record {
    transport = by_xhr;
    method = post;
    path = t;
    named_type = some (text "application/octet-stream");
    body = bytes f;
  }

  -- The Content-Type that `request` sends: its own, unless the call names one, and none for a form,
  -- which carries its boundary.
  unfoldable pub content_type : Request J → Option Text
  unfolding text
  content_type r = elim r.named_type [
    | some t ↦ some t
    | none ↦ elim r.body [
      | form parts ↦ none
      | no_body ↦ some (text "application/json")
      | json j ↦ some (text "application/json")
      | object fields ↦ some (text "application/json")
      | bytes f ↦ some (text "application/json")
    ]
  ]
