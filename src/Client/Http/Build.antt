-- ===== src/Client/Http/Build.antt =====
-- client/http-client/src/transport.rs: `HttpTransportClientBuilder::build`.
pub mod Lookup
pub mod Headers
use jsonrpseex.Prelude.{
  ℕ, String, Option, none, some, List, [], ◌∷◌, ◌++◌, codes, String-discrete, ite, Bool, not,
  if◌then◌else◌,
}
use jsonrpseex.Types.Result.{Result, ok, err, ◌>>=◌}
use jsonrpseex.Client.Http.{TransportError, url}

-- url, http and base64. The name of a header is in lower case, and a map of headers is turned into
-- a list that has a name only at the first value of each header.
pub record Urls : Type 1 where
  pub Url : Type 0
  pub HeaderValue : Type 0
  pub Headers : Type 0
  -- An error is given as its text.
  pub parse : List ℕ → Result (List ℕ) Url
  pub host_str : Url → Option (List ℕ)
  pub scheme : Url → String
  pub password : Url → Option (List ℕ)
  pub username : Url → List ℕ
  pub without_fragment : Url → Url
  -- `set_password(None)` and `set_username("")`
  pub without_password : Url → Url
  pub without_username : Url → Url
  pub as_str : Url → List ℕ
  pub base64 : List ℕ → List ℕ
  pub from_static : String → HeaderValue
  pub header_value : List ℕ → Option HeaderValue
  pub no_headers : Headers
  pub insert : String → HeaderValue → Headers → Headers
  pub contains_key : String → Headers → Bool
  pub into_iter : Headers → List (Option String × HeaderValue)

-- Which connector hyper's client has.
pub data HttpBackend : Type 0 where
  http https : HttpBackend

module _ (us : Urls) (E : Type 0) where
  abbrev Built : Type 0 → Type 0
  Built = Result (TransportError E)

  pub record Builder : Type 0 where
    pub max_request_size : ℕ
    pub max_response_size : ℕ
    pub headers : us.Headers

  -- `HttpTransportClient`, with the backend that its service is put around.
  pub record Client : Type 0 where
    pub target : List ℕ
    pub backend : HttpBackend
    pub max_request_size : ℕ
    pub max_response_size : ℕ
    pub headers : us.Headers

  parsed : Result (List ℕ) us.Url → Built us.Url
  parsed (ok u) = ok u
  parsed (err e) = err (url (codes "Invalid URL: " ++ e))

  with_host : us.Url → Option (List ℕ) → Built us.Url
  with_host u none = err (url (codes "Invalid host"))
  with_host u (some host) = ok (us.without_fragment u)

  backend_of : String → Built HttpBackend
  backend_of scheme = ite (String-discrete scheme "http") (ok http) (
      ite (String-discrete scheme "https") (ok https)
        (err (url (codes "URL scheme not supported, expects 'http' or 'https'"))))

  unfoldable pub insert_all : List (Option String × us.HeaderValue) → us.Headers → us.Headers
  insert_all [] headers = headers
  insert_all ((some key, value) ∷ rest) headers = insert_all rest (us.insert key value headers)
  insert_all ((none, value) ∷ rest) headers = insert_all rest headers

  unfoldable pub cached_headers : Builder → us.Headers
  unfolding insert_all
  cached_headers b = insert_all (us.into_iter b.headers) (
      us.insert "accept" (us.from_static "application/json")
        (us.insert "content-type" (us.from_static "application/json") us.no_headers))

  with_basic : us.Headers → Option us.HeaderValue → Built us.Headers
  with_basic headers none = err (url (codes "Header value `authorization basic user:pwd` invalid"))
  with_basic headers (some value) = ok (us.insert "authorization" value headers)

  unfoldable pub basic_of : us.Url → List ℕ → Option us.HeaderValue
  basic_of u pwd =
      us.header_value (codes "Basic " ++ us.base64 (us.username u ++ (codes ":" ++ pwd)))

  unfoldable pub authorized : us.Url → us.Headers → Option (List ℕ) → Built us.Headers
  unfolding with_basic basic_of
  authorized u headers none = ok headers
  authorized u headers (some pwd) =
      if not (us.contains_key "authorization" headers)
      then with_basic headers (basic_of u pwd)
      else ok headers

  -- `build`
  unfoldable pub build : Builder → List ℕ → Built Client
  unfolding parsed with_host backend_of cached_headers authorized
  build b target = do
    u ← parsed (us.parse target)
    u ← with_host u (us.host_str u)
    backend ← backend_of (us.scheme u)
    headers ← authorized u (cached_headers b) (us.password u)
    ok (record {
      target = us.as_str (us.without_username (us.without_password u));
      backend = backend;
      max_request_size = b.max_request_size;
      max_response_size = b.max_response_size;
      headers = headers;
    })
