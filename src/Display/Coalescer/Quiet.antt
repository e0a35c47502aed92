-- ===== src/Display/Coalescer/Quiet.antt =====
-- What the worker delivers: the newest request, once the delay has passed with no call in between.
use harmony_windows_bridge.Base.{
  ℕ, ◌+◌, ◌^◌, ◌≤◌, ◌<◌, ◌≡◌, refl, ◌∙◌, true, Option, none, some, List, [], ◌∷◌, arith, length,
}
use mathlib.Core.Path.{subst}
use harmony_windows_bridge.Display.Types.{DisplayResizeRequest}
use harmony_windows_bridge.Display.Coalescer.{
  Coalescer, Place, Machine, Event, step, run, start, awaiting, delaying, calling, done, worker,
  schedules, flushes, cancels, stops, waits, stop, set_callback, schedule, flush, cancel,
  sets_callback, works, new,
}

-- The request of the last `Schedule`, if no `Flush`, `Cancel` or end came after it.
abbrev pub latest : Option DisplayResizeRequest → List Event → Option DisplayResizeRequest
latest o [] = o
latest o (schedules request ∷ es) = latest (some request) es
latest o (flushes request ∷ es) = latest none es
latest o (cancels ∷ es) = latest none es
latest o (stops ∷ es) = latest none es
latest o (_ ∷ es) = latest o es

-- When the last `Schedule`, `Flush`, `Cancel` or end was, from a clock and such a time.
abbrev pub changed_at : ℕ → ℕ → List Event → ℕ
changed_at now t [] = t
changed_at now t (schedules request ∷ es) = changed_at now now es
changed_at now t (flushes request ∷ es) = changed_at now now es
changed_at now t (cancels ∷ es) = changed_at now now es
changed_at now t (stops ∷ es) = changed_at now now es
changed_at now t (waits ms ∷ es) = changed_at (now + ms) t es
changed_at now t (_ ∷ es) = changed_at now t es

abbrev Timed : Coalescer → ℕ → Place → Type 0
Timed c t (delaying generation deadline) =
    (generation ≤ c.generation) × (generation ≡ c.generation → t + c.delay ≤ deadline)
Timed c t _ = Unit {0}

record Inv (m : Machine) (o : Option DisplayResizeRequest) (t : ℕ) : Type 0 where
  newest : m.core.pending ≡ true → o ≡ some m.core.request
  past : t ≤ m.now
  timed : Timed m.core t m.place

Timed-later :
    (c c' : Coalescer) (t t' : ℕ) (p : Place)
    → c.generation < c'.generation
    → Timed c t p
    → Timed c' t' p
Timed-later c c' t t' awaiting h f = tt
Timed-later c c' t t' (delaying g d) h f = (omega arith, λ e. absurd (omega arith))
Timed-later c c' t t' (calling r f) h x = tt
Timed-later c c' t t' done h f = tt

worker-Inv :
    (m : Machine) (p : Place) (o : Option DisplayResizeRequest) (t : ℕ)
    → m.place ≡ p
    → Inv m o t
    → Inv (worker m) o t
unfolding worker
worker-Inv m awaiting o t e v = ground arith
worker-Inv m (delaying g d) o t e v = ground arith
worker-Inv m (calling r f) o t e v = ground arith
worker-Inv m done o t e v = ground arith

worker-core :
    (m : Machine) (p : Place)
    → m.place ≡ p
    → ((worker m).core.generation ≡ m.core.generation)
      × ((worker m).core.delay ≡ m.core.delay)
      × ((worker m).now ≡ m.now)
unfolding worker
worker-core m awaiting e = ground arith
worker-core m (delaying g d) e = ground arith
worker-core m (calling r f) e = ground arith
worker-core m done e = ground arith

-- What the worker takes from the hand.
worker_takes :
    (m : Machine) (p : Place) (r : DisplayResizeRequest) (f : Option ℕ)
    → m.place ≡ p
    → (worker m).place ≡ calling r f
    → (m.core.pending ≡ true)
      × (r ≡ m.core.request)
      × (d : ℕ) × (m.place ≡ delaying m.core.generation d)
      × (d ≤ m.now)
unfolding worker
worker_takes m awaiting r f e h = ground arith
worker_takes m (delaying g d) r f e h = (ground arith, ground arith, d, ground arith, ground arith)
worker_takes m (calling r' f') r f e h = ground arith
worker_takes m done r f e h = ground arith

-- A call that raises the generation starts a new quiet time.
change-Inv :
    (m : Machine) (c : Coalescer) (delivered : List DisplayResizeRequest)
    (o o' : Option DisplayResizeRequest) (t : ℕ)
    → m.core.generation < c.generation
    → (c.pending ≡ true → o' ≡ some c.request)
    → Inv m o t
    → Inv (record m { core = c; delivered = delivered }) o' m.now
change-Inv m c delivered o o' t h n v = record {
  newest = n;
  past = omega arith;
  timed = Timed-later m.core c t m.now m.place h v.timed;
}

taken_facts :
    (m : Machine) (r : DisplayResizeRequest) (f : Option ℕ) (o : Option DisplayResizeRequest)
    (t delay : ℕ)
    → Inv m o t
    → m.core.delay ≡ delay
    → (worker m).place ≡ calling r f
    → (o ≡ some r) × (t + delay ≤ m.now)
taken_facts m r f o t delay v e h = ground (arith, worker_takes m m.place r f)

run-Inv :
    (m : Machine) (es : List Event) (o : Option DisplayResizeRequest) (t : ℕ)
    → m.core.generation + length es < 2 ^ 64
    → Inv m o t
    → Inv (run m es) (latest o es) (changed_at m.now t es)
unfolding run step schedule flush cancel stop set_callback
run-Inv m [] o t h v = v
run-Inv m (sets_callback f ∷ es) o t h v =
    run-Inv (step m (sets_callback f)) es o t (omega arith)
      (record { newest = v.newest; past = v.past; timed = retimed m.place v.timed })
  where
    retimed : (p : Place) → Timed m.core t p → Timed (set_callback f m.core) t p
    retimed awaiting x = x
    retimed (delaying g d) x = x
    retimed (calling r g) x = x
    retimed done x = x
run-Inv m (schedules r ∷ es) o t h v =
    run-Inv (step m (schedules r)) es (some r) m.now (omega arith)
      (change-Inv m (schedule r m.core) m.delivered o (some r) t (omega arith) (λ e. refl) v)
run-Inv m (flushes r ∷ es) o t h v =
    run-Inv (step m (flushes r)) es none m.now (omega arith)
      (change-Inv m (flush r m.core) _ o none t (omega arith) (λ e. cc) v)
run-Inv m (cancels ∷ es) o t h v =
    run-Inv (step m cancels) es none m.now (omega arith)
      (change-Inv m (cancel m.core) m.delivered o none t (omega arith) (λ e. cc) v)
run-Inv m (stops ∷ es) o t h v =
    run-Inv (step m stops) es none m.now (omega arith)
      (change-Inv m (stop m.core) m.delivered o none t (omega arith) (λ e. cc) v)
run-Inv m (waits ms ∷ es) o t h v =
    run-Inv (step m (waits ms)) es o t (omega arith)
      (record { newest = v.newest; past = omega arith; timed = v.timed })
run-Inv m (works ∷ es) o t h v =
    subst (λ n. Inv (run (worker m) es) (latest o es) (changed_at n t es))
      (worker-core m m.place refl).2
      (run-Inv (worker m) es o t (omega (arith, worker-core m m.place refl))
        (worker-Inv m m.place o t refl v))

start-Inv : (delay : ℕ) → Inv (start delay) none 0
unfolding start
start-Inv delay = ground arith

run-delay : (m : Machine) (es : List Event) → (run m es).core.delay ≡ m.core.delay
unfolding run step schedule flush cancel stop set_callback
run-delay m [] = refl
run-delay m (sets_callback f ∷ es) = run-delay (step m (sets_callback f)) es
run-delay m (schedules r ∷ es) = run-delay (step m (schedules r)) es
run-delay m (flushes r ∷ es) = run-delay (step m (flushes r)) es
run-delay m (cancels ∷ es) = run-delay (step m cancels) es
run-delay m (stops ∷ es) = run-delay (step m stops) es
run-delay m (waits ms ∷ es) = run-delay (step m (waits ms)) es
run-delay m (works ∷ es) = run-delay (worker m) es ∙ (worker-core m m.place refl).1

run-start-Inv :
    (delay : ℕ) (es : List Event)
    → length es < 2 ^ 64
    → Inv (run (start delay) es) (latest none es) (changed_at 0 0 es)
unfolding start new
run-start-Inv delay es h = run-Inv (start delay) es none 0 (omega arith) (start-Inv delay)

run-start-delay : (delay : ℕ) (es : List Event) → (run (start delay) es).core.delay ≡ delay
unfolding start new
run-start-delay delay es = run-delay (start delay) es

-- In any run of fewer than 2 ^ 64 steps: what the worker takes to deliver is the request of the last
-- `Schedule`, with no `Flush`, `Cancel` or end after it, and the whole delay has passed since then.
pub taken_is_latest :
    (delay : ℕ) (es : List Event) (m : Machine) (r : DisplayResizeRequest) (f : Option ℕ)
    → length es < 2 ^ 64
    → run (start delay) es ≡ m
    → (step m works).place ≡ calling r f
    → (latest none es ≡ some r) × (changed_at 0 0 es + delay ≤ m.now)
unfolding step
taken_is_latest delay es m r f h e c =
    taken_facts m r f (latest none es) (changed_at 0 0 es) delay
      (rw e at (run-start-Inv delay es h)) (rw e at (run-start-delay delay es)) c
