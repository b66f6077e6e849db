-- ===== src/Tests/Requests.antt =====
-- Requests to the server: internal/api, internal/middleware.
use sufirmart.Base.{
  if◌then◌else◌, hash_failed, ◌∷◌, ◌≡◌, ◌≢◌, refl, ℕ, suc, Bool, true, false, ◌&&◌, Option, none,
  some, List, [], ◌∷◌, Str, str_eq, bytes, has_prefix, lookup, ok, if◌then◌else◌,
}
use sufirmart.Store.Table.{select}
use sufirmart.Account.Ledger.{IsLedger}
use sufirmart.Users.{Secrets, live_row}
use sufirmart.Api.Space.{trim_space}
use sufirmart.Api.Reply.{http_error}
use sufirmart.Access.{trim_prefix}
use sufirmart.Server.{Stream, Request, Site, Handler, Library, http_error_with, written}
use sufirmart.Server.Middleware.{
  contains, authorized, logging_middleware, gzip_middleware, log_entry,
}
use sufirmart.Server.Endpoints.{balance_endpoint}
use sufirmart.Server.Adapter.{
  Route, chosen, nth_route, routes, mart_api, wrapped, wrap_all, group, use_all, middlewares_for,
  or_internal_error,
}
use sufirmart.Server.Init.{Outside, serve}
use sufirmart.Server.Keeps.{all_routes}
use sufirmart.Server.Safety.{serve-IsLedger}
use sufirmart.Server.Guards.{serve_unauthorized}
use sufirmart.Server.Gzip.{whole, IsGzip, client_reads, gzip_transparent, bad_gzip_outcome}
use sufirmart.Server.Logging.{LastWrite, logged_response}
use sufirmart.Tests.Sample.{calm, calm-IsUp, ann, world, world-IsLedger}

-- The first route of the method and the path.
abbrev pub first_match : ℕ → List (Str × Str) → Str → Str → Option ℕ
first_match n [] method path = none
first_match n ((m, p) ∷ rest) method path =
    let later = first_match (suc n) rest method path in
    if str_eq m method && str_eq p path then some n else later

-- A coding that puts a byte in front.
abbrev pub unpack : Str → Bool → Option Stream
unpack [] broken = none
unpack (c ∷ s) broken = some (record { text = s; broken = broken })

abbrev pub lib : Library
lib = record {
  gzip_reader = λ s. unpack s.text s.broken;
  gzip_writer = λ taken ss. (b'z' ∷ []) ∷ ss;
  decode_withdraw = λ s. none;
  decode_credentials = λ s. none;
  encode_body = λ b. bytes "{}";
  status_text_of = λ n. bytes "status";
  clock = λ n. n;
  route = first_match 0;
  unrouted = λ method path. http_error_with 404 (bytes "404 page not found");
}

abbrev pub secrets : Secrets
secrets = record {
  generate_from_password = λ n password cost. ok password;
  compare_hash_and_password =
      λ hash password. if str_eq password hash then none else some hash_failed;
  read = λ n length. ok (b'r' ∷ []);
  uuid_v7 = λ n. ok ann;
}

abbrev pub container : Outside
container = record { env = calm; secrets = secrets; lib = lib }

abbrev pub site : Site
site = record { world = world; pool = none; log = [] }

abbrev pub asking : Request
asking = record {
  method = bytes "GET";
  path = bytes "/api/user/balance";
  authorization = bytes "Bearer nonsense";
  content_type = [];
  accept_encoding = bytes "deflate, gzip";
  content_encoding = [];
  body = whole [];
}

serve-IsLedger_example : IsLedger (serve container asking site).1.world.db
serve-IsLedger_example = serve-IsLedger container asking site world-IsLedger

abbrev pub balance_route : Route
balance_route = record {
  method = bytes "GET";
  pattern = bytes "/api/user/balance";
  handler =
      authorized lib calm
        (logging_middleware lib (gzip_middleware lib (balance_endpoint lib calm)));
}

pub asking-chosen :
    chosen lib (all_routes container) (bytes "GET") (bytes "/api/user/balance") ≡ some balance_route
unfolding chosen nth_route routes mart_api wrapped wrap_all group use_all middlewares_for
    or_internal_error lookup str_eq
asking-chosen = refl

pub no_session :
    live_row (trim_space (trim_prefix (bytes "Bearer ") asking.authorization)) 0 world.db ≡ none
unfolding select
no_session = refl

pub not_login : bytes "/api/user/balance" ≢ bytes "/api/user/login"
not_login = cc

pub not_register : bytes "/api/user/balance" ≢ bytes "/api/user/register"
not_register = cc

serve_unauthorized_example :
    ((serve container asking site).0 ≡ written lib (http_error 401) none)
    × ((serve container asking site).1.world.db ≡ world.db)
    × ((serve container asking site).1.pool ≡ none)
    × ((serve container asking site).1.log ≡ [])
serve_unauthorized_example =
    serve_unauthorized container asking site balance_route calm-IsUp (λ _. no_session) asking-chosen
      not_login not_register

-- A handler that answers with the body that it was sent.
abbrev echo : Handler
echo user req s = (
  record { status = 200; gzip_encoded = false; authorization = none; writes = req.body.text ∷ [] },
  s,
)

lib-IsGzip : IsGzip lib
lib-IsGzip ss = refl

abbrev packed : Request
packed = record asking { content_encoding = bytes "gzip"; body = whole (bytes "zhello") }

gzip_transparent_example :
    ((gzip_middleware lib echo none packed site).0.status ≡ 200)
    × ((gzip_middleware lib echo none packed site).1 ≡ site)
    × (client_reads lib (gzip_middleware lib echo none packed site).0
        ≡ some (whole (bytes "hello")))
unfolding contains has_prefix
gzip_transparent_example =
    gzip_transparent lib echo none packed site (bytes "hello" ∷ []) lib-IsGzip refl refl refl

abbrev spoiled : Request
spoiled = record asking { content_encoding = bytes "gzip"; body = whole [] }

bad_gzip_outcome_example : gzip_middleware lib echo none spoiled site ≡ (
  record {
    status = 500;
    gzip_encoded = true;
    authorization = none;
    writes = bytes "failed to read gzip body\n" ∷ bytes "z" ∷ [];
  },
  site,
)
unfolding contains has_prefix
bad_gzip_outcome_example = bad_gzip_outcome lib echo none spoiled site refl refl

logged_response_example :
    ((logging_middleware lib echo none packed site).0 ≡ (echo none packed site).0)
    × ((logging_middleware lib echo none packed site).1.log
        ≡ log_entry lib packed (echo none packed site).0 ∷ [])
    × ((log_entry lib packed (echo none packed site).0).response_size ≡ 6)
    × LastWrite
        (echo none packed site).0.writes
        (log_entry lib packed (echo none packed site).0).response_body
logged_response_example = logged_response lib echo none packed site
