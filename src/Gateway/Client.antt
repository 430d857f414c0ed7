-- ===== src/Gateway/Client.antt =====
-- gateway/src/gw_client.c: the attempts of one call. What libcurl and the memory do in one transfer is an
-- argument; the texts of errors are left out.
pub mod Attempts
use axioma_oracle.Prelude.{
  ℕ, zero, suc, ◌+◌, ◌-◌, ◌*◌, ◌^◌, ◌%◌, Bool, true, false, ◌&&◌, ◌||◌, not, [], ◌∷◌, ◌++◌, List,
  Option, none, some, Bytes, codes, length, take, drop, same, leb, ltb, ◌==◌, if◌then◌else◌,
}
use axioma_oracle.Prelude.Int.{ℤ, pos, negsuc}
use axioma_oracle.Gateway.Wal.{strtol}
use axioma_oracle.Gateway.Serve.{Outcome, ok, http_fail, timeout, transport, overcap}

-- `body_t`; `buf` is `buf[0..len)`.
pub record Body : Type 0 where
  pub buf : Bytes
  pub over : Bool

-- `on_body`: whether it takes the piece, and the body. `grown` tells whether `realloc` succeeds.
unfoldable pub on_body : ℕ → Body → Bytes → Bool → Bool × Body
on_body cap b piece grown =
    if ltb cap (length b.buf + length piece)
    then (false, record b { over = true })
    else if not grown
    then (false, b)
    else (true, record b { buf = b.buf ++ piece })

unfoldable pub after_piece : (Body → Body) → Bool × Body → Body
after_piece more (true, b) = more b
after_piece more (false, b) = b

-- The pieces of a response; libcurl stops at one that is not taken.
unfoldable pub receive : ℕ → Body → List (Bytes × Bool) → Body
unfolding on_body after_piece
receive cap b [] = b
receive cap b ((piece, grown) ∷ pieces) =
    after_piece (λ b'. receive cap b' pieces) (on_body cap b piece grown)

-- A letter in lower case, as `strncasecmp` compares it.
unfoldable pub lower : Bytes → Bytes
lower [] = []
lower (c ∷ s) = (if leb b'A' c && leb c b'Z' then c + 32 else c) ∷ lower s

-- The number of seconds, from 1 to 3600.
unfoldable pub retry_seconds : ℕ → ℤ → ℕ
retry_seconds old (pos v) = if ltb 0 v && leb v 3600 then v else old
retry_seconds old (negsuc v) = old

unfoldable pub on_header : ℕ → Bytes → ℕ
unfolding lower retry_seconds strtol
on_header old line =
    let seconds = retry_seconds old (strtol (drop 12 line)) in
    if ltb 12 (length line) && same (lower (take 12 line)) (codes "retry-after:")
    then seconds
    else old

unfoldable pub read_headers : ℕ → List Bytes → ℕ
unfolding on_header
read_headers old [] = old
read_headers old (line ∷ lines) = read_headers (on_header old line) lines

-- The milliseconds of `backoff_sleep`; `jitter` is what `rand` gives.
unfoldable pub backoff_ms : ℕ → ℕ → ℕ → ℕ
backoff_ms attempt retry_after_s jitter =
    let ms =
      if ltb 0 retry_after_s
      then retry_after_s * 1000
      else 1000 * 2 ^ (attempt - 1) + jitter % 500 in
    if ltb 60000 ms then 60000 else ms

-- `CURLcode`, as far as the code tells values apart.
pub data CurlCode : Type 0 where
  performed timed_out write_error other_error : CurlCode

-- One transfer: whether the handle and the headers could be made, whether the protocols could be restricted, the
-- headers and pieces that come in, how it ends and with what status.
pub record Transfer : Type 0 where
  pub handle : Bool
  pub headers : Bool
  pub restricted : Bool
  pub lines : List Bytes
  pub pieces : List (Bytes × Bool)
  pub rc : CurlCode
  pub status : ℕ
  pub jitter : ℕ

-- `gwc_result_t`; `body` is `body[0..body_len)`, and empty for NULL.
pub record CallResult : Type 0 where
  pub outcome : Outcome
  pub http_status : ℕ
  pub attempts : ℕ
  pub body : Bytes

-- How one attempt ends: the call returns -1, or a result, or it sleeps and goes on.
pub data Attempt : Type 0 where
  no_memory : Attempt
  result : CallResult → Attempt
  again : ℕ → Attempt

abbrev ended_with : Outcome → ℕ → ℕ → Bytes → Attempt
ended_with outcome status attempt body =
    result (record { outcome = outcome; http_status = status; attempts = attempt; body = body })

-- `status == 429 || (status >= 500 && status < 600)`
unfoldable pub retryable : ℕ → Bool
retryable status = status == 429 || (leb 500 status && ltb status 600)

unfoldable pub after_status : ℕ → ℕ → Transfer → Bytes → Attempt
unfolding retryable backoff_ms read_headers
after_status max_attempts attempt t buf =
    if t.status == 200
    then ended_with ok t.status attempt buf
    else if retryable t.status && ltb attempt max_attempts
    then again (backoff_ms attempt (read_headers 0 t.lines) t.jitter)
    else ended_with http_fail t.status attempt buf

unfoldable pub after_perform : ℕ → ℕ → Transfer → Body → CurlCode → Attempt
unfolding after_status
after_perform max_attempts attempt t b timed_out = ended_with timeout t.status attempt []
after_perform max_attempts attempt t b write_error =
    ended_with (if b.over then overcap else transport) t.status attempt []
after_perform max_attempts attempt t b other_error = ended_with transport t.status attempt []
after_perform max_attempts attempt t b performed = after_status max_attempts attempt t b.buf

-- One turn of the loop; `status` is that of the attempt before.
unfoldable pub attempt_once : ℕ → ℕ → ℕ → ℕ → Transfer → Attempt
unfolding after_perform receive
attempt_once cap max_attempts status attempt t =
    if not t.handle || not t.headers
    then no_memory
    else if not t.restricted
    then ended_with transport status attempt []
    else after_perform max_attempts attempt t
        (receive cap (record { buf = []; over = false }) t.pieces) t.rc

unfoldable pub after_attempt :
    (ℕ → Option CallResult × List ℕ) → ℕ → Attempt → Option CallResult × List ℕ
after_attempt more status no_memory = (none, [])
after_attempt more status (result r) = (some r, [])
after_attempt more status (again ms) = let rest = more status in (rest.0, ms ∷ rest.1)

-- The loop, with the number of attempts that are left; none is -1, and the list has the sleeps.
unfoldable pub call_loop : ℕ → ℕ → (ℕ → Transfer) → ℕ → ℕ → ℕ → Option CallResult × List ℕ
unfolding attempt_once after_attempt
call_loop cap max_attempts transfers zero attempt status = (
  some (record { outcome = http_fail; http_status = status; attempts = attempt - 1; body = [] }),
  [],
)
call_loop cap max_attempts transfers (suc left) attempt status =
    after_attempt (λ s. call_loop cap max_attempts transfers left (suc attempt) s)
      (transfers attempt).status (attempt_once cap max_attempts status attempt (transfers attempt))

unfoldable pub gwc_call : ℕ → ℕ → (ℕ → Transfer) → Option CallResult × List ℕ
unfolding call_loop
gwc_call cap max_attempts transfers = call_loop cap max_attempts transfers max_attempts 1 0
