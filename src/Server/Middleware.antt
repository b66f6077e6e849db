-- ===== src/Server/Middleware.antt =====
-- internal/middleware: compression, the log of requests, and authorization.
use sufirmart.Base.{
  inl, inr, ◌⊎◌, ℕ, suc, Bool, true, false, ◌||◌, Option, none, some, List, [], ◌∷◌, ◌++◌, Str,
  bytes, has_prefix, Result, ok, err, if◌then◌else◌,
}
use sufirmart.Store.Statement.{Env}
use sufirmart.Api.Reply.{Response, http_error}
use sufirmart.Access.{auth_middleware}
use sufirmart.Server.{
  Stream, Request, Sent, LogEntry, Site, Handler, Middleware, Library, body_allowed,
  http_error_with, written,
}

-- strings.Contains
unfoldable pub contains : Str → Str → Bool
contains [] part = has_prefix [] part
contains (c ∷ s) part = has_prefix (c ∷ s) part || contains s part

module _ (lib : Library) where
  -- What the compressing writer, closed at the end, makes of what is written to it.
  unfoldable pub compressed : Sent → Sent
  compressed s = record s {
    gzip_encoded = true;
    writes = lib.gzip_writer (body_allowed s.status) s.writes;
  }

  unfoldable pub encode : Bool → Sent × Site → Sent × Site
  unfolding compressed
  encode false r = r
  encode true (s, site) = (compressed s, site)

  -- The error for a body that is no gzip goes to the plain writer, and the compressing one is closed
  -- all the same.
  unfoldable pub refuse_body : Bool → Sent
  unfolding http_error_with
  refuse_body false = http_error_with 500 (bytes "failed to read gzip body")
  refuse_body true =
      let plain = http_error_with 500 (bytes "failed to read gzip body") in
      record plain { gzip_encoded = true; writes = plain.writes ++ lib.gzip_writer true [] }

  unfoldable pub decode_with :
      Bool → Handler → Option Str → Request → Site → Option Stream → Sent × Site
  unfolding encode refuse_body
  decode_with accepts next user req site none = (refuse_body accepts, site)
  decode_with accepts next user req site (some body) =
      encode accepts (next user (record req { body = body }) site)

  -- NewGzipMiddleware
  unfoldable pub gzip_middleware : Middleware
  unfolding contains decode_with
  gzip_middleware next user req site =
      let accepts = contains req.accept_encoding (bytes "gzip") in
      if contains req.content_encoding (bytes "gzip")
      then decode_with accepts next user req site (lib.gzip_reader req.body)
      else encode accepts (next user req site)

  -- The decorator's body is that of the last Write, its size that of all that were taken.
  unfoldable pub last_write : List Str → Str
  last_write [] = []
  last_write (s ∷ []) = s
  last_write (s ∷ t ∷ ss) = last_write (t ∷ ss)

  unfoldable pub total_size : List Str → ℕ
  total_size [] = 0
  total_size ([] ∷ ss) = total_size ss
  total_size ((c ∷ s) ∷ ss) = suc (total_size (s ∷ ss))

  unfoldable pub log_entry : Request → Sent → LogEntry
  unfolding last_write total_size
  log_entry req s = record {
    request = req;
    status = s.status;
    gzip_encoded = s.gzip_encoded;
    authorization = s.authorization;
    response_body = last_write s.writes;
    response_size = if body_allowed s.status then total_size s.writes else 0;
  }

  -- NewLoggingMiddleware
  unfoldable pub logging_middleware : Middleware
  unfolding log_entry
  logging_middleware next user req site =
      let (s, site') = next user req site in (s, record site' { log = log_entry req s ∷ site'.log })

  -- What is done with the end of the check; it never ends with an error.
  unfoldable pub let_pass : Handler → Request → Site → Result (Response ⊎ Str) → Sent × Site
  unfolding written
  let_pass next req site (ok (inl reply)) = (written lib reply none, site)
  let_pass next req site (ok (inr uid)) = next (some uid) req site
  let_pass next req site (err e) = (written lib (http_error 500) none, site)

  -- NewAuthMiddleware
  unfoldable pub authorized : Env → Middleware
  unfolding let_pass
  authorized env next user req site =
      let (r, w) = auth_middleware env req.authorization site.world in
      let_pass next req (record site { world = w }) r
