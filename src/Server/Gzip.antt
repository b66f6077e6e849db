-- ===== src/Server/Gzip.antt =====
-- What internal/middleware/gzip.go changes for a client and for a handler.
use sufirmart.Base.{
  inl, inr, ◌≡◌, refl, ap, ◌∙◌, Bool, true, false, Bool-cases, Option, none, some, List, [], ◌∷◌,
  ◌++◌, Str, bytes, if◌then◌else◌,
}
use sufirmart.Server.{
  Stream, Request, Sent, Site, Handler, Library, body_allowed, concat, received, http_error_with,
}
use sufirmart.Server.Middleware.{
  contains, compressed, encode, refuse_body, decode_with, gzip_middleware,
}

-- A body that is read to its end.
abbrev pub whole : Str → Stream
whole text = record { text = text; broken = false }

-- What a gzip.Writer has written when it is closed, a gzip.Reader gives back.
abbrev pub IsGzip : Library → Type 0
IsGzip lib =
    (ss : List Str)
    → lib.gzip_reader (whole (concat (lib.gzip_writer true ss))) ≡ some (whole (concat ss))

-- What a client sends as the body, by whether it names gzip as the encoding.
abbrev pub sent_body : Library → Bool → List Str → Stream
sent_body lib true ss = whole (concat (lib.gzip_writer true ss))
sent_body lib false ss = whole (concat ss)

-- What a client reads of a response, by whether it is said to be encoded.
abbrev pub client_reads : Library → Sent → Option Stream
client_reads lib s =
    if s.gzip_encoded then lib.gzip_reader (whole (received s)) else some (whole (received s))

module _ (lib : Library) (next : Handler) (user : Option Str) (req : Request) (site : Site) where
  -- The call of the handler with the body as it was before the client encoded it.
  abbrev pub plain_call : List Str → Sent × Site
  plain_call ss = next user (record req { body = whole (concat ss) }) site

  encode-reads :
      (accepts : Bool) (r : Sent × Site)
      → IsGzip lib
      → r.0.gzip_encoded ≡ false
      → body_allowed r.0.status ≡ true
      → ((encode lib accepts r).0.status ≡ r.0.status)
        × ((encode lib accepts r).1 ≡ r.1)
        × (client_reads lib (encode lib accepts r).0 ≡ some (whole (received r.0)))
  unfolding encode compressed
  encode-reads false r g plain allowed = (refl, refl, rw plain refl)
  encode-reads true r g plain allowed = (refl, refl, rw (allowed) (g r.0.writes))

  -- A call with a body as the headers say it is.
  as_plain_call :
      (ss : List Str)
      → IsGzip lib
      → req.body ≡ sent_body lib (contains req.content_encoding (bytes "gzip")) ss
      → gzip_middleware lib next user req site
        ≡ encode lib (contains req.accept_encoding (bytes "gzip")) (plain_call ss)
  unfolding gzip_middleware decode_with
  as_plain_call ss g sent = elim (Bool-cases (contains req.content_encoding (bytes "gzip"))) [
    | inl coded ↦
        let read : lib.gzip_reader req.body ≡ some (whole (concat ss)) =
          ap lib.gzip_reader (rw coded at sent) ∙ g ss in
        rw (coded, gzip_middleware, read) refl
    | inr clear ↦
        let body : req.body ≡ whole (concat ss) = rw clear at sent in
        rw (clear, gzip_middleware)
          (λ i.
            encode lib (contains req.accept_encoding (bytes "gzip"))
              (next user (record req { body = body i }) site))
  ]

  -- Compression is seen by no handler and loses nothing for a client: whatever the two headers say,
  -- if the body is encoded as Content-Encoding says, the state, the status and what the client reads
  -- are those of the handler called with the plain body. The conditions: the library's reader undoes
  -- its writer, the handler itself names no encoding, and its status allows a body.
  pub gzip_transparent :
      (ss : List Str)
      → IsGzip lib
      → req.body ≡ sent_body lib (contains req.content_encoding (bytes "gzip")) ss
      → (plain_call ss).0.gzip_encoded ≡ false
      → body_allowed (plain_call ss).0.status ≡ true
      → ((gzip_middleware lib next user req site).0.status ≡ (plain_call ss).0.status)
        × ((gzip_middleware lib next user req site).1 ≡ (plain_call ss).1)
        × (client_reads lib (gzip_middleware lib next user req site).0
            ≡ some (whole (received (plain_call ss).0)))
  gzip_transparent ss g sent plain allowed =
      rw (as_plain_call ss g sent)
        (encode-reads (contains req.accept_encoding (bytes "gzip")) (plain_call ss) g plain allowed)

  -- A body that is said to be gzip and is not: the handler is not called and the state stays as it
  -- is. The answer is 500 with a plain text; where the client accepts gzip, the answer is declared to
  -- be gzip all the same, and an empty gzip follows the text.
  pub bad_gzip_outcome :
      contains req.content_encoding (bytes "gzip") ≡ true
      → lib.gzip_reader req.body ≡ none
      → gzip_middleware lib next user req site ≡ (
        record {
          status = 500;
          gzip_encoded = contains req.accept_encoding (bytes "gzip");
          authorization = none;
          writes =
              (bytes "failed to read gzip body" ++ 10 ∷ [])
              ∷ (if contains req.accept_encoding (bytes "gzip")
                  then lib.gzip_writer true []
                  else []);
        },
        site,
      )
  unfolding gzip_middleware decode_with refuse_body http_error_with
  bad_gzip_outcome coded bad = elim (Bool-cases (contains req.accept_encoding (bytes "gzip"))) [
    | inl accepts ↦ rw (coded, gzip_middleware, bad, accepts) refl
    | inr not_accepted ↦ rw (coded, gzip_middleware, bad, not_accepted) refl
  ]
