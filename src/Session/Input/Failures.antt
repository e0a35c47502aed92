-- ===== src/Session/Input/Failures.antt =====
-- How failures of session/rdp_session_input.cpp are counted and logged.
use harmony_windows_bridge.Session.Input
use harmony_windows_bridge.Base.{
  ℕ, ◌+◌, ◌-◌, ◌/◌, ◌%◌, ◌^◌, ◌<◌, ◌≡◌, refl, ◌≢◌, ◌⊎◌, Bool, true, false, ◌||◌, Option, none, List,
  [], ◌∷◌, arith, String, ltb, leb, ◌==◌, if◌then◌else◌, length,
}
use harmony_windows_bridge.Session.Input.{
  build_ohos_pointer_viewport, enqueue_in, SurfaceSnapshot, PointerViewport, on_queue,
  FreerdpRuntimeApi, Answer, enqueue_by, RdpSessionInput, enqueue_local_pointer, ensure_queue,
  log_input_failure,
}
use harmony_windows_bridge.Base.Word.{u32}
use harmony_windows_bridge.Input.Events.{LocalPointerEvent}

-- The lines in the log after a number of failures.
abbrev pub logged_after : ℕ → ℕ
logged_after n = if leb n 5 then n else 5 + (n - 1) / 100

logged_after-suc :
    (n : ℕ)
    → logged_after (n + 1)
      ≡ (if ltb n 5 || n % 100 == 0 then logged_after n + 1 else logged_after n)
logged_after-suc n = ground arith

module _ {Q : Type 0} where
  -- The call succeeded and left the count and the log as they were, or it failed and was counted.
  abbrev pub Counted : RdpSessionInput Q → RdpSessionInput Q × Bool × String → Type 0
  Counted s r =
      ((r.1 ≡ true)
        × (r.0.input_failure_log_count ≡ s.input_failure_log_count)
        × (r.0.logged ≡ s.logged))
      ⊎ ((r.1 ≡ false) × (r.0.input_failure_log_count ≡ u32 (s.input_failure_log_count + 1)))

  -- A queue is there and nothing else has changed, or a failure has been counted.
  abbrev Ensured : RdpSessionInput Q → RdpSessionInput Q × Option String → Type 0
  Ensured s r =
      ((r.1 ≡ none)
        × (r.0.queue ≢ none)
        × (r.0.input_failure_log_count ≡ s.input_failure_log_count)
        × (r.0.logged ≡ s.logged))
      ⊎ ((r.1 ≢ none) × (r.0.input_failure_log_count ≡ u32 (s.input_failure_log_count + 1)))

  ensure_queue-Ensured :
      (api : FreerdpRuntimeApi Q) (has_log : Bool) (s : RdpSessionInput Q)
      → Ensured s (ensure_queue api has_log s)
  unfolding ensure_queue log_input_failure
  ensure_queue-Ensured api has_log s = ground arith

  on_queue-Counted :
      (f : Q → Answer Q) (has_log : Bool) (s : RdpSessionInput Q)
      (r : RdpSessionInput Q × Option String)
      → Ensured s r
      → Counted s (on_queue f has_log r)
  unfolding log_input_failure
  on_queue-Counted f has_log s r e = ground arith

  -- Whatever function of the queue it calls, an Enqueue function that answers false has counted one failure,
  -- whatever the reason, and one that answers true leaves the count and the log as they were.
  pub enqueue_by-Counted :
      (f : Q → Answer Q) (api : FreerdpRuntimeApi Q) (has_log : Bool) (s : RdpSessionInput Q)
      → Counted s (enqueue_by f api has_log s)
  unfolding enqueue_by
  enqueue_by-Counted f api has_log s =
      on_queue-Counted f has_log s _ (ensure_queue-Ensured api has_log s)

  enqueue_in-Counted :
      (api : FreerdpRuntimeApi Q) (has_log : Bool) (p : LocalPointerEvent) (v : PointerViewport)
      (s : RdpSessionInput Q) (r : RdpSessionInput Q × Option String)
      → Ensured s r
      → Counted s (enqueue_in api has_log p v r)
  unfolding log_input_failure
  enqueue_in-Counted api has_log p v s r e = ground arith

  -- EnqueueLocalPointer counts one failure where it answers false, whatever the reason, and leaves the count
  -- and the log as they were where it answers true.
  pub enqueue_local_pointer-Counted :
      (api : FreerdpRuntimeApi Q) (has_log : Bool) (p : LocalPointerEvent)
      (surface : SurfaceSnapshot) (desktop_width desktop_height : ℕ) (s : RdpSessionInput Q)
      → Counted s (enqueue_local_pointer api has_log p surface desktop_width desktop_height s)
  unfolding enqueue_local_pointer log_input_failure
  enqueue_local_pointer-Counted api has_log p surface desktop_width desktop_height s = ground (
    arith,
    enqueue_in-Counted api has_log p
        (build_ohos_pointer_viewport surface desktop_width desktop_height) s _
        (ensure_queue-Ensured api has_log s),
  )

  -- Failures in a row, from a new input.
  unfoldable pub fail_all : List String → RdpSessionInput Q → RdpSessionInput Q
  fail_all [] s = s
  fail_all (message ∷ rest) s = fail_all rest (log_input_failure message true s)

  fail_all-from :
      (n k : ℕ) (messages : List String) (s : RdpSessionInput Q)
      → n + length messages ≡ k
      → k < 2 ^ 32
      → s.input_failure_log_count ≡ n
      → length s.logged ≡ logged_after n
      → length (fail_all messages s).logged ≡ logged_after k
  unfolding fail_all log_input_failure
  fail_all-from n k [] s e h c l = let same : n ≡ k = omega arith in rw (← same) l
  fail_all-from n k (message ∷ rest) s e h c l =
      fail_all-from (n + 1) k rest (log_input_failure message true s) (omega arith) h (omega arith)
        (ground (arith, logged_after-suc n))

-- Fewer than 2 ^ 32 failures in a row on a new input leave five lines in the log, or one for each if they
-- are fewer, and one more for every further hundred.
pub fail_all-logged :
    (Q : Type 0) (messages : List String)
    → length messages < 2 ^ 32
    → length (fail_all messages (Input.new {Q = Q})).logged ≡ logged_after (length messages)
unfolding Input.new
fail_all-logged Q messages h =
    fail_all-from 0 (length messages) messages (Input.new {Q = Q}) (omega arith) h refl refl
