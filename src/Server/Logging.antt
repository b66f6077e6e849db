-- ===== src/Server/Logging.antt =====
-- What internal/middleware/logging.go logs of a response.
use sufirmart.Base.{
  ◌≡◌, refl, ap, sym, ◌∙◌, ◌++◌, ℕ, suc, Bool, true, false, List, [], ◌∷◌, Str, if◌then◌else◌,
  Option,
}
use sufirmart.Server.{Request, Site, Handler, Library, body_allowed, concat, received}
use sufirmart.Server.Middleware.{last_write, total_size, log_entry, logging_middleware}

-- len(s)
abbrev pub count_bytes : Str → ℕ
count_bytes [] = 0
count_bytes (c ∷ s) = suc (count_bytes s)

-- The last of what was written, which is empty where nothing was.
pub data LastWrite : List Str → Str → Type 0 where
  nothing : LastWrite [] []
  last : (before : List Str) (s : Str) (ss : List Str) → ss ≡ before ++ s ∷ [] → LastWrite ss s

module _ (lib : Library) where
  last_write-LastWrite : (ss : List Str) → LastWrite ss (last_write lib ss)
  unfolding last_write
  last_write-LastWrite [] = nothing
  last_write-LastWrite (s ∷ []) = last [] s (s ∷ []) refl
  last_write-LastWrite (s ∷ t ∷ ss) =
      longer (t ∷ ss) (last_write lib (t ∷ ss)) refl (last_write-LastWrite (t ∷ ss))
    where
      longer :
          (ts : List Str) (body : Str)
          → ts ≡ t ∷ ss
          → LastWrite ts body
          → LastWrite (s ∷ t ∷ ss) body
      longer [] [] e nothing = cc
      longer ts body e (last before b us f) =
          last (s ∷ before) b (s ∷ t ∷ ss) (ap (λ xs. s ∷ xs) (sym e ∙ f))

  total_size-concat : (ss : List Str) → total_size lib ss ≡ count_bytes (concat ss)
  unfolding total_size
  total_size-concat [] = refl
  total_size-concat ([] ∷ ss) = total_size-concat ss
  total_size-concat ((c ∷ s) ∷ ss) = ap suc (total_size-concat (s ∷ ss))

  -- Each request that reaches the middleware adds one line to the log, after the lines that serving
  -- it has added. Its size is the number of bytes that the client gets, its body is what was written
  -- last, or empty where nothing was written, and the answer itself is not changed.
  pub logged_response :
      (next : Handler) (user : Option Str) (req : Request) (site : Site)
      → let answer = next user req site in
        let logged = logging_middleware lib next user req site in
        (logged.0 ≡ answer.0)
        × (logged.1.log ≡ log_entry lib req answer.0 ∷ answer.1.log)
        × ((log_entry lib req answer.0).response_size ≡ count_bytes (received answer.0))
        × LastWrite answer.0.writes (log_entry lib req answer.0).response_body
  unfolding logging_middleware log_entry
  logged_response next user req site = (
    refl,
    refl,
    size (body_allowed (next user req site).0.status) (next user req site).0.writes,
    last_write-LastWrite (next user req site).0.writes,
  )
    where
      size :
          (allowed : Bool) (ss : List Str)
          → (if allowed then total_size lib ss else 0)
            ≡ count_bytes (if allowed then concat ss else [])
      size true ss = total_size-concat ss
      size false ss = refl
