-- ===== src/Sources/Http.antt =====
-- sources/http.py: the retries of a request, and the cap on its body.
pub mod Retries
use alvis.Base.{
  String, ◌<>◌, ℕ, zero, suc, ◌+◌, Bool, true, false, not, ◌||◌, Option, none, some, List, [], ◌∷◌,
  ◌++◌,
}
use alvis.Base.{leb, ltb, eqb, if◌then◌else◌, length}
use alvis.Errors.{Error, source_error, Result, ok, err}

-- What an attempt meets: a connection that fails, or a response with a body that comes in parts.
pub data Reply : Type 0 where
  failed : String → Reply
  responded : ℕ → List (List ℕ) → Reply

-- What `request` is given, but for what it only hands on to the transport.
pub record Request : Type 0 where
  pub method_url : String
  pub max_retries : ℕ
  pub max_bytes : Option ℕ
  pub ok_status : List ℕ

-- `status in RETRYABLE_STATUS`
unfoldable pub retryable : ℕ → Bool
retryable status =
    eqb status 429 || eqb status 500 || eqb status 502 || eqb status 503 || eqb status 504

abbrev pub member : ℕ → List ℕ → Bool
member n [] = false
member n (m ∷ ms) = eqb n m || member n ms

abbrev pub whole_body : List (List ℕ) → List ℕ
whole_body [] = []
whole_body (part ∷ parts) = part ++ whole_body parts

-- The decimal digits of a number, for the messages.
module _ (show : ℕ → String) where
  shown : Option ℕ → String
  shown none = "None"
  shown (some n) = show n

  pub too_large : Request → Error
  unfolding shown
  too_large r = source_error (r.method_url <> " exceeds max_bytes=" <> shown r.max_bytes)

  -- The loop of `_read_capped` over the parts of the body, with what has been read.
  read_parts : Request → ℕ → List ℕ → List (List ℕ) → Result (List ℕ)
  unfolding too_large
  read_parts r cap body [] = ok body
  read_parts r cap body (part ∷ parts) =
      let rest = read_parts r cap (body ++ part) parts in
      if ltb cap (length (body ++ part)) then err (too_large r) else rest

  read_within : Request → Option ℕ → List (List ℕ) → Result (List ℕ)
  unfolding read_parts
  read_within r none parts = ok (whole_body parts)
  read_within r (some cap) parts = read_parts r cap [] parts

  -- `_read_capped`
  unfoldable pub read_capped : Request → List (List ℕ) → Result (List ℕ)
  unfolding read_within
  read_capped r parts = read_within r r.max_bytes parts

  -- Whether an attempt is worth another one.
  unfoldable pub transient : Reply → Bool
  unfolding retryable
  transient (failed message) = true
  transient (responded status parts) = retryable status

  -- The error of the last attempt, if it is transient.
  unfoldable pub give_up : Request → Reply → Error
  give_up r (failed message) =
      source_error
        (r.method_url <> " failed after " <> show r.max_retries <> " retries: " <> message)
  give_up r (responded status parts) = source_error (
      r.method_url
      <> " returned HTTP "
      <> show status
      <> " after "
      <> show r.max_retries
      <> " retries")

  -- What becomes of a reply that is not transient.
  unfoldable pub settle : Request → Reply → Result (List ℕ)
  unfolding read_capped
  settle r (failed message) = err (source_error message)
  settle r (responded status parts) =
      if not (member status r.ok_status)
      then err (source_error (r.method_url <> " returned HTTP " <> show status))
      else read_capped r parts

  -- The loop over the attempts, of which so many are left; and how many have been made. The waits
  -- between them are not modelled.
  unfoldable pub attempts : Request → (ℕ → Reply) → ℕ → ℕ → Result (List ℕ) × ℕ
  unfolding transient give_up settle
  attempts r send attempt zero = (ok [], attempt)
  attempts r send attempt (suc left) =
      let rest = attempts r send (suc attempt) left in
      if transient (send attempt)
      then (if leb r.max_retries attempt
          then (err (give_up r (send attempt)), suc attempt)
          else rest)
      else (settle r (send attempt), suc attempt)

  -- `request` of the raw body, for a transport that answers each attempt.
  unfoldable pub request : Request → (ℕ → Reply) → Result (List ℕ) × ℕ
  unfolding attempts
  request r send = attempts r send 0 (suc r.max_retries)
