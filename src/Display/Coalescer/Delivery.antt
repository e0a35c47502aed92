-- ===== src/Display/Coalescer/Delivery.antt =====
-- How often the callback runs, and that a request left alone is delivered.
use harmony_windows_bridge.Base.{
  ℕ, suc, ◌+◌, ◌≤◌, ◌<◌, ◌≡◌, refl, ◌⊎◌, inl, inr, Bool, true, false, ◌&&◌, none, some, List, [],
  ◌∷◌, arith, if◌then◌else◌, length,
}
use harmony_windows_bridge.Display.Types.{DisplayResizeRequest}
use harmony_windows_bridge.Display.Coalescer.{
  Coalescer, Place, Machine, Event, step, run, stop, set_callback, schedule, flush, cancel,
  awaiting, delaying, calling, done, worker, sets_callback, schedules, flushes, cancels, stops,
  waits, works,
}

abbrev pub taken : Place → ℕ
taken (calling request callback) = 1
taken _ = 0

abbrev pub waiting : Coalescer → ℕ
waiting c = if c.pending then 1 else 0

-- The requests handed in by `Schedule` and `Flush`.
abbrev pub handed_in : List Event → ℕ
handed_in [] = 0
handed_in (schedules request ∷ es) = suc (handed_in es)
handed_in (flushes request ∷ es) = suc (handed_in es)
handed_in (_ ∷ es) = handed_in es

worker_count :
    (m : Machine) (p : Place)
    → m.place ≡ p
    → length (worker m).delivered + waiting (worker m).core + taken (worker m).place
      ≤ length m.delivered + waiting m.core + taken m.place
unfolding worker
worker_count m awaiting e = ground arith
worker_count m (delaying g d) e = ground arith
worker_count m (calling r none) e = ground arith
worker_count m (calling r (some f)) e = ground arith
worker_count m done e = ground arith

step_count :
    (m : Machine) (e : Event)
    → length (step m e).delivered + waiting (step m e).core + taken (step m e).place
      ≤ length m.delivered + waiting m.core + taken m.place + handed_in (e ∷ [])
unfolding step set_callback schedule flush cancel stop
step_count m (sets_callback callback) = omega arith
step_count m (schedules request) = ground arith
step_count m (flushes request) = ground arith
step_count m cancels = ground arith
step_count m stops = ground arith
step_count m (waits ms) = omega arith
step_count m works = omega (arith, worker_count m m.place refl)

handed_in-cons :
    (e : Event) (es : List Event) → handed_in (e ∷ es) ≡ handed_in (e ∷ []) + handed_in es
handed_in-cons (schedules request) es = omega arith
handed_in-cons (flushes request) es = omega arith
handed_in-cons _ es = omega arith

-- In any run the callback has run, at most, once for each request that came in by `Schedule` or
-- `Flush`, those on their way not counted twice: a request still pending and one that the worker has
-- taken are not delivered yet.
pub run_count :
    (m : Machine) (es : List Event)
    → length (run m es).delivered + waiting (run m es).core + taken (run m es).place
      ≤ length m.delivered + waiting m.core + taken m.place + handed_in es
unfolding run
run_count m [] = omega arith
run_count m (e ∷ es) = omega (arith, run_count (step m e) es, step_count m e, handed_in-cons e es)

-- Time passes and the worker wakes up, early or not, and nothing else happens.
abbrev pub is_quiet : Event → Bool
is_quiet (waits ms) = true
is_quiet works = true
is_quiet _ = false

abbrev pub all_quiet : List Event → Bool
all_quiet [] = true
all_quiet (e ∷ es) = is_quiet e && all_quiet es

abbrev pub waited : List Event → ℕ
waited [] = 0
waited (waits ms ∷ es) = ms + waited es
waited (_ ∷ es) = waited es

-- The way of `request` from the delay that ends at `deadline` into the list of the delivered ones.
abbrev Delays : DisplayResizeRequest → ℕ → List DisplayResizeRequest → ℕ → Machine → Type 0
Delays request callback delivered deadline m =
    (m.place ≡ delaying m.core.generation deadline)
    × (m.core.stopping ≡ false)
    × (m.core.pending ≡ true)
    × (m.core.request ≡ request)
    × (m.core.callback ≡ some callback)
    × (m.delivered ≡ delivered)

abbrev Calls : DisplayResizeRequest → ℕ → List DisplayResizeRequest → Machine → Type 0
Calls request callback delivered m =
    (m.place ≡ calling request (some callback))
    × (m.core.stopping ≡ false)
    × (m.core.pending ≡ false)
    × (m.delivered ≡ delivered)

abbrev HasCalled : DisplayResizeRequest → List DisplayResizeRequest → Machine → Type 0
HasCalled request delivered m =
    (m.place ≡ awaiting)
    × (m.core.stopping ≡ false)
    × (m.core.pending ≡ false)
    × (m.delivered ≡ request ∷ delivered)

module _ (r : DisplayResizeRequest) (f : ℕ) (ds : List DisplayResizeRequest) (t : ℕ) where
  abbrev Passing : Machine → Type 0
  Passing m = Delays r f ds t m ⊎ (Calls r f ds m ⊎ HasCalled r ds m)

  works-Delays :
      (m : Machine)
      → Delays r f ds t m
      → ((m.now < t) × Delays r f ds t (worker m)) ⊎ Calls r f ds (worker m)
  unfolding worker
  works-Delays m (p, s, w, q, c, d) = ground arith

  works-Calls : (m : Machine) → Calls r f ds m → HasCalled r ds (worker m)
  unfolding worker
  works-Calls m (p, s, w, d) = ground arith

  works-HasCalled : (m : Machine) → HasCalled r ds m → HasCalled r ds (worker m)
  unfolding worker
  works-HasCalled m (p, s, w, d) = ground arith

  -- A turn of the worker, or a while without one.
  quiet-Passing : (m : Machine) (e : Event) → is_quiet e ≡ true → Passing m → Passing (step m e)
  unfolding step
  quiet-Passing m (waits ms) q h = h
  quiet-Passing m works q (inl h) = elim (works-Delays m h) [
    | inl h' ↦ inl h'.1
    | inr h' ↦ inr (inl h')
  ]
  quiet-Passing m works q (inr (inl h)) = inr (inr (works-Calls m h))
  quiet-Passing m works q (inr (inr h)) = inr (inr (works-HasCalled m h))
  quiet-Passing m (sets_callback callback) q h = ground arith
  quiet-Passing m (schedules request) q h = ground arith
  quiet-Passing m (flushes request) q h = ground arith
  quiet-Passing m cancels q h = ground arith
  quiet-Passing m stops q h = ground arith

  quiet_run-Passing :
      (es : List Event) (m : Machine) → all_quiet es ≡ true → Passing m → Passing (run m es)
  unfolding run
  quiet_run-Passing [] m q h = h
  quiet_run-Passing (e ∷ es) m q h =
      quiet_run-Passing es (step m e) (ground arith) (quiet-Passing m e (ground arith) h)

  -- When the delay is over, two turns of the worker deliver the request.
  late-HasCalled : (m : Machine) → t ≤ m.now → Passing m → HasCalled r ds (worker (worker m))
  late-HasCalled m l (inl h) = elim (works-Delays m h) [
    | inl h' ↦ absurd (omega (arith, h'.0, l))
    | inr h' ↦ works-Calls (worker m) h'
  ]
  late-HasCalled m l (inr (inl h)) = works-HasCalled (worker m) (works-Calls m h)
  late-HasCalled m l (inr (inr h)) = works-HasCalled (worker m) (works-HasCalled m h)

worker-now : (m : Machine) → (worker m).now ≡ m.now
unfolding worker
worker-now m = ground arith

quiet_run-now :
    (es : List Event) (m : Machine) → all_quiet es ≡ true → (run m es).now ≡ m.now + waited es
unfolding run step
quiet_run-now [] m q = omega arith
quiet_run-now (waits ms ∷ es) m q =
    omega (arith, quiet_run-now es (record m { now = m.now + ms }) q)
quiet_run-now (works ∷ es) m q = omega (arith, quiet_run-now es (worker m) q, worker-now m)
quiet_run-now (sets_callback callback ∷ es) m q = ground arith
quiet_run-now (schedules request ∷ es) m q = ground arith
quiet_run-now (flushes request ∷ es) m q = ground arith
quiet_run-now (cancels ∷ es) m q = ground arith
quiet_run-now (stops ∷ es) m q = ground arith

begins-Delays :
    (m : Machine) (callback : ℕ)
    → m.place ≡ awaiting
    → m.core.stopping ≡ false
    → m.core.pending ≡ true
    → m.core.callback ≡ some callback
    → Delays m.core.request callback m.delivered (m.now + m.core.delay) (worker m)
unfolding worker
begins-Delays m callback p s w c = ground arith

-- Let a request be pending and a callback be set when the worker begins its delay, and let nobody call in
-- for that long, however often the worker wakes up meanwhile. Then two more turns of the worker deliver the
-- request, once, and it is no longer pending.
pub quiet_request_is_delivered :
    (m : Machine) (callback : ℕ) (es : List Event)
    → m.place ≡ awaiting
    → m.core.stopping ≡ false
    → m.core.pending ≡ true
    → m.core.callback ≡ some callback
    → all_quiet es ≡ true
    → m.core.delay ≤ waited es
    → let m' = worker (worker (run (worker m) es)) in
      (m'.delivered ≡ m.core.request ∷ m.delivered) × (m'.core.pending ≡ false)
quiet_request_is_delivered m callback es p s w c q l =
    let begun = begins-Delays m callback p s w c in
    let over = quiet_run-now es (worker m) q in
    let called =
      late-HasCalled m.core.request callback m.delivered (m.now + m.core.delay) (run (worker m) es)
        (omega (arith, over, worker-now m, l))
        (quiet_run-Passing m.core.request callback m.delivered (m.now + m.core.delay) es (worker m)
          q (inl begun)) in
    (called.3, called.2)
