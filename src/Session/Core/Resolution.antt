-- ===== src/Session/Core/Resolution.antt =====
-- WaitForAutoInitialResolution of session/rdp_session_core.cpp writes a resolution that
-- common/string_utils.cpp reads.
use harmony_windows_bridge.Base.{
  ℕ, ◌^◌, ◌≤◌, ◌<◌, ◌≡◌, ◌≢◌, inl, inr, true, false, some, ◌++◌, arith, leb, Bool-cases,
}
use harmony_windows_bridge.Text.{bytes, parse_resolution, to_string}
use harmony_windows_bridge.Text.RoundTrip.{parse_resolution-to_string}
use harmony_windows_bridge.Session.Core.{Core, chooses}
use harmony_windows_bridge.Session.Core.Worker.{World, is_large, wait}

module _ {Q : Type 0} where
  chosen :
      (w : World) (s : Core Q)
      → w.surface.width < 2 ^ 32
      → w.surface.height < 2 ^ 32
      → is_large w.surface ≡ true
      → parse_resolution (to_string w.surface.width ++ (bytes "x" ++ to_string w.surface.height))
        ≡ some (w.surface.width, w.surface.height)
  chosen w s a b e =
      parse_resolution-to_string w.surface.width w.surface.height (ground (arith, e)) a
        (ground (arith, e)) b

  stopped :
      (w : World) (elapsed : ℕ) (s : Core Q)
      → s.running ≡ false
      → (wait w elapsed s).phase ≢ chooses
  unfolding wait
  stopped w elapsed s r = rw r (λ h. ground (arith, h))

  too_small :
      (w : World) (elapsed : ℕ) (s : Core Q)
      → s.running ≡ true
      → is_large w.surface ≡ false
      → (wait w elapsed s).phase ≢ chooses
  unfolding wait
  too_small w elapsed s r e = elim (Bool-cases (leb 3000 elapsed)) [
    | inl l ↦ rw (r, e, l) (λ h. ground (arith, h))
    | inr l ↦ rw (r, e, l) (λ h. ground (arith, h))
  ]

  -- When the wait for the first resolution has found a surface, the resolution that it leaves is parsed to
  -- the size of that surface, which is at least 320 by 240.
  pub wait-parse_resolution :
      (w : World) (elapsed : ℕ) (s : Core Q)
      → w.surface.width < 2 ^ 32
      → w.surface.height < 2 ^ 32
      → (wait w elapsed s).phase ≡ chooses
      → (parse_resolution (wait w elapsed s).params.resolution
          ≡ some (w.surface.width, w.surface.height))
        × (w.surface.ready ≡ true)
        × (320 ≤ w.surface.width)
        × (240 ≤ w.surface.height)
  unfolding wait
  wait-parse_resolution w elapsed s a b h = elim (Bool-cases s.running) [
    | inr r ↦ absurd (stopped w elapsed s r h)
    | inl r ↦ elim (Bool-cases (is_large w.surface)) [
      | inl e ↦
          rw (r, e) (chosen w s a b e, ground (arith, e), ground (arith, e), ground (arith, e))
      | inr e ↦ absurd (too_small w elapsed s r e h)
    ]
  ]
