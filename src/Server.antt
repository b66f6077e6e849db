-- ===== src/Server.antt =====
-- What a request meets between the network and a handler: internal/api, internal/middleware and
-- internal/api/handler/factory.go.
pub mod Middleware
pub mod Endpoints
pub mod Adapter
pub mod Init
pub mod Keeps
pub mod Safety
pub mod Guards
pub mod System
pub mod Rounds
pub mod Once
pub mod Progress
pub mod Balance
pub mod Gzip
pub mod Logging
use sufirmart.Base.{
  ℕ, ◌+◌, Bool, true, false, not, ◌&&◌, ◌||◌, Option, none, some, List, [], ◌∷◌, ◌++◌, Str,
  has_prefix, leb, ◌==◌, if◌then◌else◌,
}
use sufirmart.Store.Statement.{World}
use sufirmart.Tools.WorkerPool.{Pool}
use sufirmart.Processor.Queue.{Queued}
use sufirmart.Api.Reply.{
  Response, Body, empty_body, status_text, balance_body, orders_body, withdrawals_body,
}
use sufirmart.Api.{WithdrawRequest}
use sufirmart.Access.{UserCredentials}

-- The bytes that can be read from a body, and whether reading then ends in an error.
pub record Stream : Type 0 where
  pub text : Str
  pub broken : Bool

-- What the code reads of a request; a header that is missing is empty.
pub record Request : Type 0 where
  pub method : Str
  pub path : Str
  pub authorization : Str
  pub content_type : Str
  pub accept_encoding : Str
  pub content_encoding : Str
  pub body : Stream

-- What is written to a ResponseWriter: the status, the headers Content-Encoding and Authorization,
-- and the calls of Write.
pub record Sent : Type 0 where
  pub status : ℕ
  pub gzip_encoded : Bool
  pub authorization : Option Str
  pub writes : List Str

-- A line of the log of requests.
pub record LogEntry : Type 0 where
  pub request : Request
  pub status : ℕ
  pub gzip_encoded : Bool
  pub authorization : Option Str
  pub response_body : Str
  pub response_size : ℕ

-- What the handlers share: the database, the worker pool, which may be nil, and the log of requests,
-- the last one first.
pub record Site : Type 0 where
  pub world : World
  pub pool : Option (Pool Queued)
  pub log : List LogEntry

-- An http.Handler, on the user in the request's context.
abbrev pub Handler : Type 0
Handler = Option Str → Request → Site → Sent × Site

-- MiddlewareFunc
abbrev pub Middleware : Type 0
Middleware = Handler → Handler

-- What libraries give: gzip.NewReader, where `none` is its error; the writes of a gzip.Writer until
-- it is closed, by whether they are taken; the JSON decoders and the encoder; http.StatusText; the
-- clock, by the number of outside calls made so far; which of the registered patterns chi chooses for
-- a method and a path, and what it answers where it chooses none.
pub record Library : Type 0 where
  pub gzip_reader : Stream → Option Stream
  pub gzip_writer : Bool → List Str → List Str
  pub decode_withdraw : Stream → Option WithdrawRequest
  pub decode_credentials : Stream → Option UserCredentials
  pub encode_body : Body → Str
  pub status_text_of : ℕ → Str
  pub clock : ℕ → ℕ
  pub route : List (Str × Str) → Str → Str → Option ℕ
  pub unrouted : Str → Str → Sent

-- Whether net/http lets a response of this status have a body.
abbrev pub body_allowed : ℕ → Bool
body_allowed status =
    not ((leb 100 status && leb status 199) || ((status == 204) || (status == 304)))

abbrev pub concat : List Str → Str
concat [] = []
concat (s ∷ ss) = s ++ concat ss

-- The bytes of the body that reach the client.
abbrev pub received : Sent → Str
received s = if body_allowed s.status then concat s.writes else []

-- http.Error
unfoldable pub http_error_with : ℕ → Str → Sent
http_error_with status text = record {
  status = status;
  gzip_encoded = false;
  authorization = none;
  writes = (text ++ 10 ∷ []) ∷ [];
}

module _ (lib : Library) where
  unfoldable pub body_writes : ℕ → Body → List Str
  body_writes status empty_body = []
  body_writes status status_text = (lib.status_text_of status ++ 10 ∷ []) ∷ []
  body_writes status (balance_body current withdrawn) =
      lib.encode_body (balance_body current withdrawn) ∷ []
  body_writes status (orders_body orders) = lib.encode_body (orders_body orders) ∷ []
  body_writes status (withdrawals_body items) = lib.encode_body (withdrawals_body items) ∷ []

  -- What a handler's answer writes.
  unfoldable pub written : Response → Option Str → Sent
  unfolding body_writes
  written reply authorization = record {
    status = reply.status;
    gzip_encoded = false;
    authorization = authorization;
    writes = body_writes reply.status reply.body;
  }
