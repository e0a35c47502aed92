-- ===== src/Surface/Geometry/Fit.antt =====
-- The content fits the target, is centred and keeps the shape of the remote desktop.
use harmony_windows_bridge.Base.{
  ℕ, ◌+◌, ◌*◌, ◌/◌, ◌^◌, ◌≤◌, ◌<◌, max, ◌≡◌, refl, ◌⊎◌, inl, inr, true, arith, leb, if◌then◌else◌,
  Bool-cases,
}
use native.Mathlib.Nat.{le_refl}
use harmony_windows_bridge.Surface.Geometry.{
  RemoteContentGeometry, place, is_one_to_one, scaled_size, fit_remote_content_into_target,
  unplaced,
}

-- The content lies within the target, in its middle to the pixel.
pub record IsCentred (g : RemoteContentGeometry) : Type 0 where
  pub within_width : 2 * g.content_x + g.content_width ≤ g.target_width
  pub within_height : 2 * g.content_y + g.content_height ≤ g.target_height
  pub middle_width : g.target_width ≤ 2 * g.content_x + g.content_width + 1
  pub middle_height : g.target_height ≤ 2 * g.content_y + g.content_height + 1

place-IsCentred :
    (g : RemoteContentGeometry) (width height : ℕ)
    → width ≤ g.target_width
    → height ≤ g.target_height
    → IsCentred (place g width height)
place-IsCentred g width height w h = omega arith

pub mul-lt_u64 : (a b : ℕ) → a < 2 ^ 32 → b < 2 ^ 32 → a * b < 2 ^ 64
mul-lt_u64 a b p q = grind arith

div-le : (a b c : ℕ) → 0 < c → a ≤ b * c → a / c ≤ b
div-le a b c p h = grind arith

div-bounds : (a c : ℕ) → 0 < c → (a / c * c ≤ a) × (a < (a / c + 1) * c)
div-bounds a c p = grind arith

-- The sizes without the machine's casts: with 32-bit arguments nothing wraps.
abbrev exact_size : ℕ → ℕ → ℕ → ℕ → ℕ × ℕ
exact_size tw th sw sh =
    if is_one_to_one tw th sw sh
    then (sw, sh)
    else if leb (tw * sh) (th * sw)
    then (tw, max 1 (tw * sh / sw))
    else (max 1 (th * sw / sh), th)

scaled_size-exact :
    (tw th sw sh : ℕ)
    → tw < 2 ^ 32
    → th < 2 ^ 32
    → sw < 2 ^ 32
    → sh < 2 ^ 32
    → 0 < sw
    → 0 < sh
    → scaled_size tw th sw sh ≡ exact_size tw th sw sh
unfolding scaled_size
scaled_size-exact tw th sw sh a b c d p q = ground (
  arith,
  mul-lt_u64 tw sh a d,
  mul-lt_u64 th sw b c,
  div-le (tw * sh) th sw p,
  div-le (th * sw) tw sh q,
)

-- `side` is the largest whole number in the proportion `whole` to `unit`, or 1 where that is 0.
abbrev pub IsProportional : ℕ → ℕ → ℕ → Type 0
IsProportional side unit whole =
    ((side * unit ≤ whole) × (whole < (side + 1) * unit)) ⊎ ((side ≡ 1) × (whole < unit))

proportional : (whole unit : ℕ) → 0 < unit → IsProportional (max 1 (whole / unit)) unit whole
proportional whole unit p = ground (arith, div-bounds whole unit p, div-pos whole unit p)
  where
    div-pos : (a c : ℕ) → 0 < c → a / c ≡ 0 → a < c
    div-pos a c p e = grind (arith, div-bounds a c p)

-- A content of the remote size, or one that fills one pair of the target's edges and is scaled alike.
abbrev pub KeepsShape : ℕ → ℕ → ℕ → ℕ → ℕ → ℕ → Type 0
KeepsShape tw th sw sh width height =
    ((width ≡ sw) × (height ≡ sh))
    ⊎ ((width ≡ tw) × IsProportional height sw (tw * sh))
    ⊎ ((height ≡ th) × IsProportional width sh (th * sw))

one_to_one-le : (tw th sw sh : ℕ) → is_one_to_one tw th sw sh ≡ true → (sw ≤ tw) × (sh ≤ th)
unfolding is_one_to_one
one_to_one-le tw th sw sh h = ground arith

exact_size-shape :
    (tw th sw sh : ℕ)
    → 0 < tw
    → 0 < th
    → 0 < sw
    → 0 < sh
    → let (width, height) = exact_size tw th sw sh in
      KeepsShape tw th sw sh width height
      × (0 < width)
      × (0 < height)
      × (width ≤ tw)
      × (height ≤ th)
exact_size-shape tw th sw sh a b p q = elim (Bool-cases (is_one_to_one tw th sw sh)) [
  | inl e ↦
      rw e
        (inl (refl, refl), p, q, (one_to_one-le tw th sw sh e).0, (one_to_one-le tw th sw sh e).1)
  | inr e ↦ elim (Bool-cases (leb (tw * sh) (th * sw))) [
    | inl w ↦
        rw (e, w)
          (
            inr (inl (refl, proportional (tw * sh) sw p)),
            a,
            omega arith,
            le_refl tw,
            ground (arith, div-le (tw * sh) th sw p),
          )
    | inr w ↦
        rw (e, w)
          (
            inr (inr (refl, proportional (th * sw) sh q)),
            omega arith,
            b,
            ground (arith, div-le (th * sw) tw sh q),
            le_refl th,
          )
  ]
]

fit_from :
    (tw th sw sh : ℕ)
    → 0 < tw
    → 0 < th
    → 0 < sw
    → 0 < sh
    → (size : ℕ × ℕ) → scaled_size tw th sw sh ≡ size
    → size.0 ≤ tw
    → size.1 ≤ th
    → fit_remote_content_into_target tw th sw sh ≡ place (unplaced tw th sw sh) size.0 size.1
unfolding fit_remote_content_into_target
fit_from tw th sw sh a b c d size e w h = ground arith

-- A target and a remote desktop that are not empty give a geometry that is valid and lies within the
-- target, in its middle to the pixel. The content has the remote size, or fills the target's width or
-- height and has its other side in proportion, rounded down, but at least 1.
pub fit_remote_content_into_target_lem :
    (tw th sw sh : ℕ)
    → 0 < tw
    → tw < 2 ^ 32
    → 0 < th
    → th < 2 ^ 32
    → 0 < sw
    → sw < 2 ^ 32
    → 0 < sh
    → sh < 2 ^ 32
    → let g = fit_remote_content_into_target tw th sw sh in
      (g.valid ≡ true) × IsCentred g × KeepsShape tw th sw sh g.content_width g.content_height
fit_remote_content_into_target_lem tw th sw sh a a' b b' c c' d d' =
    let (shape, w, h, w', h') = exact_size-shape tw th sw sh a b c d in
    let e : scaled_size tw th sw sh ≡ exact_size tw th sw sh =
      scaled_size-exact tw th sw sh a' b' c' d' c d in
    rw (fit_from tw th sw sh a b c d (exact_size tw th sw sh) e w' h')
      (ground arith, place-IsCentred (unplaced tw th sw sh) _ _ w' h', shape)

-- The content is not empty.
pub fit-positive :
    (tw th sw sh : ℕ)
    → 0 < tw
    → tw < 2 ^ 32
    → 0 < th
    → th < 2 ^ 32
    → 0 < sw
    → sw < 2 ^ 32
    → 0 < sh
    → sh < 2 ^ 32
    → let g = fit_remote_content_into_target tw th sw sh in
      (0 < g.content_width) × (0 < g.content_height)
fit-positive tw th sw sh a a' b b' c c' d d' =
    let (shape, w, h, w', h') = exact_size-shape tw th sw sh a b c d in
    let e : scaled_size tw th sw sh ≡ exact_size tw th sw sh =
      scaled_size-exact tw th sw sh a' b' c' d' c d in
    rw (fit_from tw th sw sh a b c d (exact_size tw th sw sh) e w' h') (w, h)
