-- ===== src/Display/Coordinator/Timeouts.antt =====
-- When the worker times a target out: never early, never late, and once for each target.
use harmony_windows_bridge.Base.{
  ℕ, ◌+◌, ◌^◌, ◌≤◌, ◌<◌, ◌≡◌, refl, ◌≢◌, ◌⊎◌, inl, inr, false, List, [], ◌∷◌, arith, length,
}
use harmony_windows_bridge.Display.Coordinator.{waiting_for_target, fallback, sent_timeout_after}
use harmony_windows_bridge.Display.Coordinator.Worker.{
  Place, awaiting, timing, calling, done, Machine, start, worker, Event, works, step, run,
}
use harmony_windows_bridge.Display.Coordinator.Invariant.{Inv, run-Inv, Below}

-- The worker times a target out only while that target is awaited and its deadline has passed; it
-- leaves the target and its generation, which is the one that it calls back with.
worker_fires :
    (m : Machine) (p : Place)
    → m.place ≡ p
    → Inv m
    → m.core.state ≢ fallback
    → (worker m).core.state ≡ fallback
    → (m.core.state ≡ waiting_for_target)
      × (m.core.deadline ≤ m.now)
      × ((worker m).place
          ≡ calling m.core.target_generation
              (sent_timeout_after m.core.sent_timeout)
              m.core.timeout_callback)
unfolding worker
worker_fires m awaiting e v n f = ground arith
worker_fires m (timing g d) e v n f = ground arith
worker_fires m (calling g r k) e v n f = ground arith
worker_fires m done e v n f = ground arith

-- In any run of fewer than 2 ^ 64 steps, whatever the other threads do in between: if the worker now
-- makes the coordinator fall back, a target is awaited, its deadline has passed, and the worker is
-- about to call back with that target's generation.
pub timeout_is_due :
    (timeout : ℕ) (es : List Event) (m : Machine)
    → length es < 2 ^ 64
    → run (start timeout) es ≡ m
    → m.core.state ≢ fallback
    → (step m works).core.state ≡ fallback
    → (m.core.state ≡ waiting_for_target)
      × (m.core.deadline ≤ m.now)
      × ((step m works).place
          ≡ calling m.core.target_generation
              (sent_timeout_after m.core.sent_timeout)
              m.core.timeout_callback)
unfolding step
timeout_is_due timeout es m h e n f =
    worker_fires m m.place refl (rw e at (run-Inv timeout es h)) n f

-- In any run of fewer than 2 ^ 64 steps the timeout callback gets strictly rising generations, none
-- above the present one: it runs once at most for each target.
pub calls-Below :
    (timeout : ℕ) (es : List Event)
    → length es < 2 ^ 64
    → Below ((run (start timeout) es).core.target_generation + 1) (run (start timeout) es).calls
calls-Below timeout es h = (run-Inv timeout es h).past

abbrev Due : Machine → Type 0
Due m = (m.core.stopping ≡ false) × (m.core.state ≡ waiting_for_target) × (m.core.deadline ≤ m.now)

fires_from_timing :
    (m : Machine)
    → m.place ≡ timing m.core.target_generation m.core.deadline
    → Due m
    → ((worker m).core.state ≡ fallback)
      × ((worker m).place
          ≡ calling m.core.target_generation
              (sent_timeout_after m.core.sent_timeout)
              m.core.timeout_callback)
unfolding worker
fires_from_timing m e d = ground arith

starts_timing :
    (m : Machine)
    → m.place ≡ awaiting
    → Due m
    → ((worker m).place ≡ timing m.core.target_generation m.core.deadline)
      × ((worker m).core ≡ m.core)
      × ((worker m).now ≡ m.now)
unfolding worker
starts_timing m e d = ground arith

-- From any other place the worker first comes back to the top of its loop.
comes_back :
    (m : Machine) (p : Place)
    → m.place ≡ p
    → Inv m
    → Due m
    → (m.place ≡ timing m.core.target_generation m.core.deadline)
      ⊎ (m.place ≡ awaiting)
      ⊎ (((worker m).place ≡ awaiting) × ((worker m).core ≡ m.core) × ((worker m).now ≡ m.now))
unfolding worker
comes_back m awaiting e v d = inr (inl e)
comes_back m (timing g t) e v d = ground arith
comes_back m (calling g r f) e v d = ground arith
comes_back m done e v d = ground arith

stays_fallback :
    (m : Machine) (p : Place)
    → m.place ≡ p
    → m.core.state ≡ fallback
    → (worker m).core.state ≡ fallback
unfolding worker
stays_fallback m awaiting e f = ground arith
stays_fallback m (timing g t) e f = ground arith
stays_fallback m (calling g r k) e f = ground arith
stays_fallback m done e f = ground arith

Due-moves : (m n : Machine) → n.core ≡ m.core → n.now ≡ m.now → Due m → Due n
Due-moves m n c t d = rw (c, t) d

fires_from_awaiting :
    (m : Machine) → m.place ≡ awaiting → Due m → (worker (worker m)).core.state ≡ fallback
fires_from_awaiting m e d =
    let (p, c, t) = starts_timing m e d in
    (fires_from_timing (worker m) (rw (c, p)) (Due-moves m (worker m) c t d)).0

-- In any run of fewer than 2 ^ 64 steps: once the deadline of an awaited target has passed, and the
-- coordinator is not stopping, three turns of the worker make it fall back.
pub timeout_happens :
    (timeout : ℕ) (es : List Event) (m : Machine)
    → length es < 2 ^ 64
    → run (start timeout) es ≡ m
    → m.core.stopping ≡ false
    → m.core.state ≡ waiting_for_target
    → m.core.deadline ≤ m.now
    → (run m (works ∷ works ∷ works ∷ [])).core.state ≡ fallback
unfolding run step
timeout_happens timeout es m h e s w d =
    elim (comes_back m m.place refl (rw e at (run-Inv timeout es h)) (s, w, d)) [
      | inl t ↦
          stays_fallback _ (worker (worker m)).place refl
            (stays_fallback _ (worker m).place refl (fires_from_timing m t (s, w, d)).0)
      | inr (inl a) ↦
          stays_fallback _ (worker (worker m)).place refl (fires_from_awaiting m a (s, w, d))
      | inr (inr (p, c, t)) ↦
          fires_from_awaiting (worker m) p (Due-moves m (worker m) c t (s, w, d))
    ]
