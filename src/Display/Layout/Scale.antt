-- ===== src/Display/Layout/Scale.antt =====
-- The scale factor that is chosen for a display.
use harmony_windows_bridge.Base.{ℕ, ◌≤◌, List, [], ◌∷◌, arith, ltb, if◌then◌else◌, All}
use harmony_windows_bridge.Display.Layout.{supported, distance, nearest, desktop_scale_factor}

nearest-best :
    (requested best : ℕ) (rest : List ℕ)
    → distance (nearest requested best rest) requested ≤ distance best requested
unfolding nearest
nearest-best requested best [] = ground arith
nearest-best requested best (s ∷ rest) =
    ground (arith, nearest-best requested s rest, nearest-best requested best rest)

nearest-rest :
    (requested best : ℕ) (rest : List ℕ)
    → All (λ s. distance (nearest requested best rest) requested ≤ distance s requested) rest
unfolding nearest
nearest-rest requested best [] = tt
nearest-rest requested best (s ∷ rest) = (
  ground (arith, nearest-best requested s rest, nearest-best requested best rest),
  nearest-rest requested (if ltb (distance s requested) (distance best requested) then s else best)
      rest,
)

nearest-member :
    (requested best : ℕ) (rest : List ℕ)
    → (100 ≤ best) × (best ≤ 500)
    → All (λ s. (100 ≤ s) × (s ≤ 500)) rest
    → (100 ≤ nearest requested best rest) × (nearest requested best rest ≤ 500)
unfolding nearest
nearest-member requested best [] b r = b
nearest-member requested best (s ∷ rest) b r =
    nearest-member requested
      (if ltb (distance s requested) (distance best requested) then s else best) rest (ground arith)
      r.1

-- The scale factor lies between 100 and 500, and none of the factors supported is nearer to the scale of the
-- display.
pub desktop_scale_factor_lem :
    (requested : ℕ)
    → (100 ≤ desktop_scale_factor requested)
      × (desktop_scale_factor requested ≤ 500)
      × All
          (λ s. distance (desktop_scale_factor requested) requested ≤ distance s requested)
          (100 ∷ supported)
unfolding desktop_scale_factor
desktop_scale_factor_lem requested =
    let (a, b) = nearest-member requested 100 supported (omega arith, omega arith) (omega arith) in
    (a, b, (nearest-best requested 100 supported, nearest-rest requested 100 supported))
