-- ===== src/Display/Coordinator/Invariant.antt =====
-- What holds of a coordinator and its worker between any two steps.
use harmony_windows_bridge.Base.{
  ℕ, ◌+◌, ◌^◌, ◌≤◌, ◌<◌, ◌≡◌, refl, ◌≢◌, ◌⊎◌, inl, inr, true, Option, none, some, List, [], ◌∷◌,
  arith, String, length,
}
use harmony_windows_bridge.Display.Types.{DisplayResizeResult}
use harmony_windows_bridge.Display.Coordinator.{
  Coordinator, Reason, waiting_for_target, new, stop, reset, apply_result, should_queue_frame,
  set_timeout_callback,
}
use harmony_windows_bridge.Display.Coordinator.Worker.{
  Place, awaiting, timing, calling, done, Machine, start, worker, Event, resets, applies, frames,
  stops, waits, works, step, run, sets_callback,
}

-- Generations fall along the list of calls, newest first, and stay under the bound.
abbrev pub Below : ℕ → List (ℕ × Reason) → Type 0
Below n [] = Unit {0}
Below n ((generation, reason) ∷ cs) = (generation < n) × Below generation cs

Below-mono : {m n : ℕ} (cs : List (ℕ × Reason)) → m ≤ n → Below m cs → Below n cs
Below-mono [] h b = tt
Below-mono ((g, r) ∷ cs) h b = (omega arith, b.1)

-- What the worker's place says of the coordinator.
abbrev pub Fits : Coordinator → List (ℕ × Reason) → Place → Type 0
Fits c calls awaiting = Unit {0}
Fits c calls done = Unit {0}
Fits c calls (timing generation deadline) =
    (generation ≤ c.target_generation)
    × (generation ≡ c.target_generation → deadline ≡ c.deadline)
    × Below generation calls
Fits c calls (calling generation reason callback) =
    (generation ≤ c.target_generation)
    × (generation ≡ c.target_generation → c.state ≢ waiting_for_target)
    × Below generation calls

pub record Inv (m : Machine) : Type 0 where
  pub past : Below (m.core.target_generation + 1) m.calls
  pub fresh : m.core.state ≡ waiting_for_target → Below m.core.target_generation m.calls
  pub fits : Fits m.core m.calls m.place
  pub ended : m.place ≡ done → m.core.stopping ≡ true

start-Inv : (timeout : ℕ) → Inv (start timeout)
unfolding start
start-Inv timeout = ground arith

-- An operation of another thread keeps the invariant if it keeps target and deadline, or raises the
-- generation.
abbrev Keeps : Coordinator → Coordinator → Type 0
Keeps c c' =
    (c.stopping ≡ true → c'.stopping ≡ true)
    × (((c'.target_generation ≡ c.target_generation)
          × (c'.deadline ≡ c.deadline)
          × (c'.state ≡ waiting_for_target → c.state ≡ waiting_for_target))
        ⊎ (c.target_generation < c'.target_generation))

Fits-Keeps :
    (c c' : Coordinator) (calls : List (ℕ × Reason)) (p : Place)
    → Keeps c c'
    → Fits c calls p
    → Fits c' calls p
Fits-Keeps c c' calls awaiting k f = tt
Fits-Keeps c c' calls done k f = tt
Fits-Keeps c c' calls (timing g d) k f = ground arith
Fits-Keeps c c' calls (calling g r x) k f = ground arith

Keeps-Inv :
    (m : Machine) (c' : Coordinator) → Keeps m.core c' → Inv m → Inv (record m { core = c' })
Keeps-Inv m c' k v = record {
  past = elim k.1 [ inl e ↦ rw e.0 v.past | inr h ↦ Below-mono m.calls (omega arith) v.past ];
  fresh = elim k.1 [
    | inl e ↦ λ w. rw e.0 (v.fresh (e.2 w))
    | inr h ↦ λ w. Below-mono m.calls (omega arith) v.past
  ];
  fits = Fits-Keeps m.core c' m.calls m.place k v.fits;
  ended = λ e. k.0 (v.ended e);
}

worker-Inv : (m : Machine) (p : Place) → m.place ≡ p → Inv m → Inv (worker m)
unfolding worker
worker-Inv m awaiting e v = ground arith
worker-Inv m (timing g d) e v = ground arith
worker-Inv m (calling g r none) e v = ground arith
worker-Inv m (calling g r (some f)) e v = ground arith
worker-Inv m done e v = ground arith

reset-Keeps :
    (reason : String) (c : Coordinator)
    → c.target_generation + 1 < 2 ^ 64
    → Keeps c (reset reason c)
unfolding reset
reset-Keeps reason c h = (λ e. e, inr (omega arith))

set_timeout_callback-Keeps : (f : Option ℕ) (c : Coordinator) → Keeps c (set_timeout_callback f c)
unfolding set_timeout_callback
set_timeout_callback-Keeps f c = (λ e. e, inl (refl, refl, λ e. e))

stop-Keeps : (c : Coordinator) → c.target_generation + 1 < 2 ^ 64 → Keeps c (stop c)
unfolding stop
stop-Keeps c h = (λ e. refl, inr (omega arith))

apply_result-Keeps :
    (now : ℕ) (r : DisplayResizeResult) (reason : String) (c : Coordinator)
    → c.target_generation + 1 < 2 ^ 64
    → Keeps c (apply_result now r reason c)
unfolding apply_result
apply_result-Keeps now r reason c h = ground arith

should_queue_frame-Keeps :
    (w h : ℕ) (label : String) (c : Coordinator) → Keeps c (should_queue_frame w h label c).0
unfolding should_queue_frame
should_queue_frame-Keeps w h label c = ground arith

step-Inv :
    (m : Machine) (e : Event) → m.core.target_generation + 1 < 2 ^ 64 → Inv m → Inv (step m e)
unfolding step
step-Inv m (sets_callback f) h v = Keeps-Inv m _ (set_timeout_callback-Keeps f m.core) v
step-Inv m (resets reason) h v = Keeps-Inv m _ (reset-Keeps reason m.core h) v
step-Inv m (applies r reason) h v = Keeps-Inv m _ (apply_result-Keeps m.now r reason m.core h) v
step-Inv m (frames width height label) h v =
    Keeps-Inv m _ (should_queue_frame-Keeps width height label m.core) v
step-Inv m stops h v = Keeps-Inv m _ (stop-Keeps m.core h) v
step-Inv m (waits ms) h v = record {
  past = v.past;
  fresh = v.fresh;
  fits = v.fits;
  ended = v.ended;
}
step-Inv m works h v = worker-Inv m m.place refl v

-- One step raises the generation by one at most.
worker-generation :
    (m : Machine) (p : Place)
    → m.place ≡ p
    → (worker m).core.target_generation ≡ m.core.target_generation
unfolding worker
worker-generation m awaiting e = ground arith
worker-generation m (timing g d) e = ground arith
worker-generation m (calling g r f) e = ground arith
worker-generation m done e = ground arith

step-generation :
    (m : Machine) (e : Event) → (step m e).core.target_generation ≤ m.core.target_generation + 1
unfolding step
step-generation m (sets_callback f) = unfold set_timeout_callback in omega arith
step-generation m (resets reason) = unfold reset in omega arith
step-generation m (applies r reason) = unfold apply_result in ground arith
step-generation m (frames width height label) = unfold should_queue_frame in ground arith
step-generation m stops = unfold stop in omega arith
step-generation m (waits ms) = omega arith
step-generation m works = omega (arith, worker-generation m m.place refl)

run_from-Inv :
    (m : Machine) (es : List Event)
    → m.core.target_generation + length es < 2 ^ 64
    → Inv m
    → Inv (run m es)
unfolding run
run_from-Inv m [] h v = v
run_from-Inv m (e ∷ es) h v =
    run_from-Inv (step m e) es (omega (arith, step-generation m e)) (step-Inv m e (omega arith) v)

pub run-Inv : (timeout : ℕ) (es : List Event) → length es < 2 ^ 64 → Inv (run (start timeout) es)
run-Inv timeout es h = run_from-Inv (start timeout) es h' (start-Inv timeout)
  where
    h' : (start timeout).core.target_generation + length es < 2 ^ 64
    h' = unfold start new in omega arith
