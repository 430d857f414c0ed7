-- ===== src/Gateway/Client/Attempts.antt =====
-- The bounds of one call of the oracle (gateway/src/gw_client.c).
use axioma_oracle.Prelude.{
  ℕ, zero, suc, ◌+◌, ◌-◌, ◌*◌, ◌^◌, ◌%◌, ◌≤◌, ◌<◌, ◌≡◌, ◌⊎◌, inl, inr, refl, Bool, true, false,
  ◌&&◌, ◌||◌, not, [], ◌∷◌, List, Option, none, some, Bytes, length, length-append, ltb, ◌==◌,
  if◌then◌else◌, arith, Bool-cases,
}
use axioma_oracle.Gateway.Serve.{ok, http_fail, timeout, transport, overcap}
use axioma_oracle.Gateway.Client.{
  Body, on_body, after_piece, receive, backoff_ms, CurlCode, performed, timed_out, write_error,
  other_error, Transfer, CallResult, Attempt, no_memory, result, again, retryable, after_status,
  after_perform, attempt_once, after_attempt, call_loop, gwc_call, read_headers,
}

on_body-bound :
    (cap : ℕ) (b : Body) (piece : Bytes) (grown : Bool)
    → length b.buf ≤ cap
    → length (on_body cap b piece grown).1.buf ≤ cap
unfolding on_body
on_body-bound cap b piece grown h = elim (Bool-cases (ltb cap (length b.buf + length piece))) [
  | inl over ↦ rw over h
  | inr fits ↦ elim (Bool-cases (not grown)) [
    | inl lost ↦ rw (fits, lost) h
    | inr kept ↦ rw (fits, kept, length-append b.buf piece) (ground arith)
  ]
]

length-after_piece :
    (cap : ℕ) (more : Body → Body) (p : Bool × Body)
    → length p.1.buf ≤ cap
    → ((b : Body) → length b.buf ≤ cap → length (more b).buf ≤ cap)
    → length (after_piece more p).buf ≤ cap
unfolding after_piece
length-after_piece cap more (true, b) h k = k b h
length-after_piece cap more (false, b) h k = h

-- A body stays within the cap.
length-receive :
    (cap : ℕ) (b : Body) (pieces : List (Bytes × Bool))
    → length b.buf ≤ cap
    → length (receive cap b pieces).buf ≤ cap
unfolding receive
length-receive cap b [] h = h
length-receive cap b ((piece, grown) ∷ pieces) h =
    length-after_piece cap (λ b'. receive cap b' pieces) (on_body cap b piece grown)
      (on_body-bound cap b piece grown h) (λ b' k. length-receive cap b' pieces k)

capped : (ms : ℕ) → (if ltb 60000 ms then 60000 else ms) ≤ 60000
capped ms = ground arith

backoff_ms-bound : (attempt seconds jitter : ℕ) → backoff_ms attempt seconds jitter ≤ 60000
unfolding backoff_ms
backoff_ms-bound attempt seconds jitter =
    capped (if ltb 0 seconds then seconds * 1000 else 1000 * 2 ^ (attempt - 1) + jitter % 500)

-- No memory for the handle or for the headers of the transfer.
abbrev pub IsLost : Transfer → Type 0
IsLost t = (not t.handle || not t.headers) ≡ true

-- What one attempt can be: an attempt that is followed by another was answered with a status that asks for it.
abbrev Good : ℕ → ℕ → ℕ → Transfer → Attempt → Type 0
Good cap max_attempts attempt t no_memory = IsLost t
Good cap max_attempts attempt t (result r) =
    (r.attempts ≡ attempt) × ((¬ r.outcome ≡ ok) ⊎ ((length r.body ≤ cap) × (r.http_status ≡ 200)))
Good cap max_attempts attempt t (again ms) =
    (attempt < max_attempts) × (retryable t.status ≡ true) × (ms ≤ 60000)

transport-ok : ¬ transport ≡ ok
transport-ok e = ground arith

overcap-ok : ¬ overcap ≡ ok
overcap-ok e = ground arith

timeout-ok : ¬ timeout ≡ ok
timeout-ok e = ground arith

http_fail-ok : ¬ http_fail ≡ ok
http_fail-ok e = ground arith

both : (a b : Bool) → (a && b) ≡ true → (a ≡ true) × (b ≡ true)
both a b e = (ground arith, ground arith)

after_status-Good :
    (cap max_attempts attempt : ℕ) (t : Transfer) (buf : Bytes)
    → length buf ≤ cap
    → Good cap max_attempts attempt t (after_status max_attempts attempt t buf)
unfolding after_status
after_status-Good cap m attempt t buf h = elim (Bool-cases (t.status == 200)) [
  | inl good ↦ rw good (refl, inr (h, ground arith))
  | inr bad ↦ elim (Bool-cases (retryable t.status && ltb attempt m)) [
    | inl more ↦
        let two = both (retryable t.status) (ltb attempt m) more in
        rw (bad, more)
          (ground arith, two.0, backoff_ms-bound attempt (read_headers 0 t.lines) t.jitter)
    | inr stop ↦ rw (bad, stop) (refl, inl http_fail-ok)
  ]
]

after_perform-Good :
    (cap max_attempts attempt : ℕ) (t : Transfer) (b : Body) (rc : CurlCode)
    → length b.buf ≤ cap
    → Good cap max_attempts attempt t (after_perform max_attempts attempt t b rc)
unfolding after_perform
after_perform-Good cap m attempt t b timed_out h = (refl, inl timeout-ok)
after_perform-Good cap m attempt t b write_error h = elim (Bool-cases b.over) [
  | inl over ↦ rw over (refl, inl overcap-ok)
  | inr other ↦ rw other (refl, inl transport-ok)
]
after_perform-Good cap m attempt t b other_error h = (refl, inl transport-ok)
after_perform-Good cap m attempt t b performed h = after_status-Good cap m attempt t b.buf h

abbrev empty_body : Body
empty_body = record { buf = []; over = false }

attempt_once-Good :
    (cap max_attempts status attempt : ℕ) (t : Transfer)
    → Good cap max_attempts attempt t (attempt_once cap max_attempts status attempt t)
unfolding attempt_once
attempt_once-Good cap m status attempt t = elim (Bool-cases (not t.handle || not t.headers)) [
  | inl none_left ↦ rw none_left none_left
  | inr made ↦ elim (Bool-cases (not t.restricted)) [
    | inl wide ↦ rw (made, wide) (refl, inl transport-ok)
    | inr closed ↦
        rw (made, closed)
          (after_perform-Good cap m attempt t (receive cap empty_body t.pieces) t.rc
            (length-receive cap empty_body t.pieces (ground arith)))
  ]
]

-- The way from one attempt to another: each is followed by a sleep, after a status that asks for it.
pub data Retried (transfers : ℕ → Transfer) : ℕ → List ℕ → ℕ → Type 0 where
  last : {attempt : ℕ} → Retried transfers attempt [] attempt
  retry :
      {attempt ms end : ℕ} {sleeps : List ℕ}
      → retryable (transfers attempt).status ≡ true
      → ms ≤ 60000
      → Retried transfers (suc attempt) sleeps end
      → Retried transfers attempt (ms ∷ sleeps) end

-- What the loop gives from an attempt on.
abbrev pub Ends : ℕ → ℕ → (ℕ → Transfer) → ℕ → Option CallResult × List ℕ → Type 0
Ends cap max_attempts transfers attempt (none, sleeps) =
    (k : ℕ) × (k ≤ max_attempts) × IsLost (transfers k)
Ends cap max_attempts transfers attempt (some r, sleeps) =
    (r.attempts ≤ max_attempts)
    × Retried transfers attempt sleeps r.attempts
    × ((¬ r.outcome ≡ ok) ⊎ ((length r.body ≤ cap) × (r.http_status ≡ 200)))

longer :
    (cap max_attempts : ℕ) (transfers : ℕ → Transfer) (attempt ms : ℕ)
    (out : Option CallResult × List ℕ)
    → retryable (transfers attempt).status ≡ true
    → ms ≤ 60000
    → Ends cap max_attempts transfers (suc attempt) out
    → Ends cap max_attempts transfers attempt (out.0, ms ∷ out.1)
longer cap m transfers attempt ms (none, sleeps) asked short ends = ends
longer cap m transfers attempt ms (some r, sleeps) asked short ends =
    (ends.0, retry asked short ends.1, ends.2)

after_attempt-Ends :
    (cap max_attempts : ℕ) (transfers : ℕ → Transfer) (attempt : ℕ)
    (more : ℕ → Option CallResult × List ℕ) (a : Attempt)
    → attempt ≤ max_attempts
    → Good cap max_attempts attempt (transfers attempt) a
    → (attempt < max_attempts
        → Ends cap max_attempts transfers (suc attempt) (more (transfers attempt).status))
    → Ends cap max_attempts transfers attempt (after_attempt more (transfers attempt).status a)
unfolding after_attempt
after_attempt-Ends cap m transfers attempt more no_memory h good go = (attempt, h, good)
after_attempt-Ends cap m transfers attempt more (result r) h good go =
    (rw good.0 h, rw good.0 last, good.1)
after_attempt-Ends cap m transfers attempt more (again ms) h good go =
    longer cap m transfers attempt ms (more (transfers attempt).status) good.1 good.2 (go good.0)

call_loop-Ends :
    (cap max_attempts : ℕ) (transfers : ℕ → Transfer) (left attempt status : ℕ)
    → attempt + left ≡ max_attempts
    → Ends cap max_attempts transfers attempt
        (call_loop cap max_attempts transfers (suc left) attempt status)
unfolding call_loop
call_loop-Ends cap m transfers zero attempt status e =
    after_attempt-Ends cap m transfers attempt (λ s. call_loop cap m transfers zero (suc attempt) s)
      (attempt_once cap m status attempt (transfers attempt)) (omega arith)
      (attempt_once-Good cap m status attempt (transfers attempt)) (λ less. absurd (omega arith))
call_loop-Ends cap m transfers (suc left) attempt status e =
    after_attempt-Ends cap m transfers attempt
      (λ s. call_loop cap m transfers (suc left) (suc attempt) s)
      (attempt_once cap m status attempt (transfers attempt)) (omega arith)
      (attempt_once-Good cap m status attempt (transfers attempt))
      (λ less.
        call_loop-Ends cap m transfers left (suc attempt) (transfers attempt).status (omega arith))

-- With at least one attempt allowed, a call fails only when the memory does not suffice for the transfer of some
-- attempt. Otherwise it gives a result after at most `max_attempts` attempts, where between two of them it sleeps for
-- at most a minute, and makes another only when the status of the last one was 429 or 5xx. A result that says that
-- the transfer succeeded has the status 200 and a body within the cap.
pub gwc_call-Ends :
    (cap max_attempts : ℕ) (transfers : ℕ → Transfer)
    → 0 < max_attempts
    → Ends cap max_attempts transfers 1 (gwc_call cap max_attempts transfers)
unfolding gwc_call
gwc_call-Ends cap zero transfers some_left = absurd (omega arith)
gwc_call-Ends cap (suc m) transfers some_left =
    call_loop-Ends cap (suc m) transfers m 1 0 (omega arith)
