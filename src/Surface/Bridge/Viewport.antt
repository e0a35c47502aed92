-- ===== src/Surface/Bridge/Viewport.antt =====
-- The viewport that surface/surface_bridge.cpp publishes, and what session/rdp_session_input.cpp makes of it.
use harmony_windows_bridge.Surface.Bridge.{
  render_native, area_side, SurfacePaintResult, failed_paint, ComponentSize, Renderers,
  SurfaceBridge, empty_viewport, clear_viewport, clear_native_window_config, register,
  on_surface_created, on_surface_changed, resolve_native_surface_size, on_surface_layout,
  on_surface_destroyed, release_render_target, render_rgba_frame_cpu, render_error, render_in,
  render_unless, render_rgba_frame,
}
use harmony_windows_bridge.Base.{
  ℕ, ◌*◌, ◌^◌, ◌≤◌, ◌<◌, ◌≡◌, refl, ap, ◌⊎◌, inl, inr, Bool, true, false, ◌&&◌, ◌||◌, Option, none,
  some, List, [], ◌∷◌, arith, String, ◌==◌, if◌then◌else◌, Bool-cases, All,
}
use harmony_windows_bridge.Base.Int.{ℤ, pos, ltb_ℤ, int32_of}
use harmony_windows_bridge.Surface.Types.{RgbaFrame, RenderViewport}
use harmony_windows_bridge.Surface.Geometry
use harmony_windows_bridge.Surface.Geometry.Fit.{fit-positive}
use harmony_windows_bridge.Surface.Geometry.Published.{
  resolve_remote_content_geometry_lem, fits_within,
}
use harmony_windows_bridge.Surface.Copy
use harmony_windows_bridge.Surface.Copy.Border.{LiesIn}
use harmony_windows_bridge.Base.Word.{u32}

-- A call of the surface bridge, with what its parameters answer.
pub data BridgeCall : Type 0 where
  registers : ℕ → Bool → String → BridgeCall
  creates : (component window : ℕ) → String → ComponentSize → BridgeCall
  changes : (component window : ℕ) → String → ComponentSize → BridgeCall
  lays_out : (width height : ℕ) → ComponentSize → BridgeCall
  destroys : ℕ → String → BridgeCall
  releases : BridgeCall
  renders : RgbaFrame → BridgeCall

-- The arguments of type uint32_t are numbers of 32 bits.
abbrev pub HasWords : BridgeCall → Type 0
HasWords (lays_out width height size) = (width < 2 ^ 32) × (height < 2 ^ 32)
HasWords (renders frame) = (frame.width < 2 ^ 32) × (frame.height < 2 ^ 32)
HasWords _ = Unit

fit-LiesIn :
    (tw th sw sh : ℕ)
    → tw < 2 ^ 32
    → th < 2 ^ 32
    → sw < 2 ^ 32
    → sh < 2 ^ 32
    → (0 < tw) × (0 < th) × (0 < sw) × (0 < sh)
    → let v = Copy.fit_frame_into_target tw th sw sh in
      LiesIn tw th v × (0 < v.width) × (0 < v.height)
unfolding Copy.fit_frame_into_target
fit-LiesIn tw th sw sh a b c d (p, q, u, v) =
    let within = fits_within tw th sw sh in
    let full = fit-positive tw th sw sh p a q b u c v d in ((within.0, within.1), full.0, full.1)

area_side-le : (handle : ℤ) (target : ℕ) → area_side handle target ≤ target
area_side-le handle target = ground arith

-- What `Render` gives for an area within the surface.
painted-LiesIn :
    {N : Type 0} (width height area_width area_height : ℕ) (frame : RgbaFrame)
    → (width < 2 ^ 32) × (height < 2 ^ 32)
    → (0 < frame.width) × (frame.width < 2 ^ 32) × (0 < frame.height) × (frame.height < 2 ^ 32)
    → area_width ≤ width
    → area_height ≤ height
    → (n : N) (result : SurfacePaintResult)
    → let v = Copy.fit_frame_into_target area_width area_height frame.width frame.height in
      let out : N × SurfacePaintResult × RenderViewport =
        if area_width == 0 || area_height == 0
        then (n, failed_paint "NativeWindow buffer geometry is invalid", empty_viewport)
        else if v.width == 0 || v.height == 0
        then (n, failed_paint "render viewport is invalid", empty_viewport)
        else (n, result, v) in
      out.1.ok ≡ true → LiesIn width height out.2 × (0 < out.2.width) × (0 < out.2.height)
painted-LiesIn width height aw ah frame (bw, bh) (f0, f1, f2, f3) lw lh n result e =
    let v = Copy.fit_frame_into_target aw ah frame.width frame.height in
    elim (Bool-cases (aw == 0 || ah == 0)) [
      | inl p ↦ absurd (ground (arith, rw p at e))
      | inr p ↦
          let l =
            fit-LiesIn aw ah frame.width frame.height (omega arith) (omega arith) f1 f3
              (ground (arith, p), ground (arith, p), f0, f2) in
          let full : (v.width == 0 || v.height == 0) ≡ false = ground (arith, l) in
          rw (p, full) ((omega (arith, l, lw), omega (arith, l, lh)), l.1, l.2)
    ]

module _ {G N : Type 0} where
  unfoldable pub bridge_call : Renderers G N → BridgeCall → SurfaceBridge G N → SurfaceBridge G N
  unfolding register on_surface_created on_surface_changed on_surface_layout on_surface_destroyed
      release_render_target render_rgba_frame
  bridge_call r (registers component ok id) s = register component ok id s
  bridge_call r (creates component window id size) s =
      on_surface_created r component window id size s
  bridge_call r (changes component window id size) s =
      on_surface_changed r component window id size s
  bridge_call r (lays_out width height size) s = (on_surface_layout r width height size s).0
  bridge_call r (destroys component id) s = on_surface_destroyed r component id s
  bridge_call r releases s = release_render_target r s
  bridge_call r (renders frame) s = (render_rgba_frame r frame s).0

  unfoldable pub bridge_calls :
      Renderers G N → List BridgeCall → SurfaceBridge G N → SurfaceBridge G N
  unfolding bridge_call
  bridge_calls r [] s = s
  bridge_calls r (c ∷ cs) s = bridge_calls r cs (bridge_call r c s)

  -- The viewport shows a frame, not empty, within the surface.
  abbrev pub Shows : SurfaceBridge G N → Type 0
  Shows s =
      LiesIn s.width s.height s.viewport
      × (0 < s.viewport.width)
      × (0 < s.viewport.height)
      × (0 < s.viewport_remote_width)
      × (s.viewport_remote_width < 2 ^ 32)
      × (0 < s.viewport_remote_height)
      × (s.viewport_remote_height < 2 ^ 32)

  abbrev pub Publishes : SurfaceBridge G N → Type 0
  Publishes s =
      ((s.width < 2 ^ 32) × (s.height < 2 ^ 32)) × ((s.viewport ≡ empty_viewport) ⊎ Shows s)

  module _ (r : Renderers G N) where
    -- A frame that the painter has painted lies within the surface and is not empty.
    render_native-LiesIn :
        (window width height : ℕ) (frame : RgbaFrame) (n : N)
        → (width < 2 ^ 32) × (height < 2 ^ 32)
        → (0 < frame.width) × (frame.width < 2 ^ 32) × (0 < frame.height) × (frame.height < 2 ^ 32)
        → (render_native r window width height frame n).1.ok ≡ true
        → let v = (render_native r window width height frame n).2 in
          LiesIn width height v × (0 < v.width) × (0 < v.height)
    unfolding render_native
    render_native-LiesIn window width height frame n b f e =
        let handle = (r.cpu_paint window width height frame n).2 in
        let handle' = (r.cpu_paint window width height frame n).3 in
        painted-LiesIn width height (area_side handle width) (area_side handle' height) frame b f
          (area_side-le handle width) (area_side-le handle' height)
          (r.cpu_paint window width height frame n).0 (r.cpu_paint window width height frame n).1 e

    render_cpu-Publishes :
        (frame : RgbaFrame) (s : SurfaceBridge G N)
        → (0 < frame.width) × (frame.width < 2 ^ 32) × (0 < frame.height) × (frame.height < 2 ^ 32)
        → Publishes s
        → Publishes (render_rgba_frame_cpu r frame s).0
    unfolding render_rgba_frame_cpu
    render_cpu-Publishes frame s f i =
        elim (Bool-cases (render_native r s.window s.width s.height frame s.native_painter).1.ok) [
          | inl e ↦
              let l =
                render_native-LiesIn s.window s.width s.height frame s.native_painter i.0 f e in
              rw e (i.0, inr (l.0, l.1, l.2, f.0, f.1, f.2, f.3))
          | inr e ↦ rw e i
        ]

    render_in-Publishes :
        (frame : RgbaFrame) (v : RenderViewport) (s : SurfaceBridge G N)
        → (0 < frame.width) × (frame.width < 2 ^ 32) × (0 < frame.height) × (frame.height < 2 ^ 32)
        → LiesIn s.width s.height v × (0 < v.width) × (0 < v.height)
        → Publishes s
        → Publishes (render_in r frame v s).0
    unfolding render_in
    render_in-Publishes frame v s f l i =
        let tight = int32_of (u32 (frame.width * 4)) in
        let stride = if ltb_ℤ (pos 0) frame.stride_bytes then frame.stride_bytes else tight in
        let drawn = r.gpu_render s.window s.width s.height frame stride v s.gpu in
        let full : (v.width == 0 || v.height == 0) ≡ false = ground (arith, l) in
        elim (Bool-cases drawn.1) [
          | inl e ↦ rw (full, e) (i.0, inr (l.0, l.1, l.2, f.0, f.1, f.2, f.3))
          | inr e ↦ rw (full, e) (render_cpu-Publishes frame (record s { gpu = drawn.0 }) f i)
        ]

    target-bounds :
        (size : ComponentSize) (width height : ℕ) (s : SurfaceBridge G N)
        → width < 2 ^ 32
        → height < 2 ^ 32
        → let target = resolve_native_surface_size size width height s in
          (target.0 < 2 ^ 32) × (target.1 < 2 ^ 32)
    unfolding resolve_native_surface_size
    target-bounds size width height s a b = ground arith

    layout-Publishes :
        (width height : ℕ) (size : ComponentSize) (s : SurfaceBridge G N)
        → (width < 2 ^ 32) × (height < 2 ^ 32)
        → Publishes s
        → Publishes (on_surface_layout r width height size s).0
    unfolding on_surface_layout clear_viewport clear_native_window_config
    layout-Publishes width height size s w i =
        let target = resolve_native_surface_size size width height s in
        elim (Bool-cases (width == 0 || height == 0)) [
          | inl e ↦ rw e i
          | inr e ↦ elim (Bool-cases (s.width == target.0 && s.height == target.1)) [
            | inl f ↦ rw (e, f) i
            | inr f ↦ rw (e, f) (target-bounds size width height s w.0 w.1, inl refl)
          ]
        ]

    no_error :
        (frame : RgbaFrame) (s : SurfaceBridge G N)
        → render_error frame s ≡ none
        → (0 < s.width) × (0 < s.height) × (0 < frame.width) × (0 < frame.height)
    no_error frame s e = ground (arith, e)

    renders-Publishes :
        (frame : RgbaFrame) (s : SurfaceBridge G N) (failure : Option String)
        → render_error frame s ≡ failure
        → (frame.width < 2 ^ 32) × (frame.height < 2 ^ 32)
        → Publishes s
        → Publishes (render_unless r frame s failure).0
    renders-Publishes frame s (some message) e w i = i
    renders-Publishes frame s none e w i =
        let full = no_error frame s e in
        render_in-Publishes frame
          (Copy.fit_frame_into_target s.width s.height frame.width frame.height) s
          (full.2, w.0, full.3, w.1)
          (fit-LiesIn s.width s.height frame.width frame.height i.0.0 i.0.1 w.0 w.1 full) i

    bridge_call-Publishes :
        (c : BridgeCall) (s : SurfaceBridge G N)
        → HasWords c
        → Publishes s
        → Publishes (bridge_call r c s)
    unfolding bridge_call render_rgba_frame resolve_native_surface_size clear_viewport
        clear_native_window_config
    bridge_call-Publishes (registers component ok id) s w i = i
    bridge_call-Publishes (creates component window id size) s w i =
        ((omega arith, omega arith), inl refl)
    bridge_call-Publishes (changes component window id size) s w i =
        ((omega arith, omega arith), inl refl)
    bridge_call-Publishes (lays_out width height size) s w i =
        layout-Publishes width height size s w i
    bridge_call-Publishes (destroys component id) s w i = ((omega arith, omega arith), inl refl)
    bridge_call-Publishes releases s w i = i
    bridge_call-Publishes (renders frame) s w i = renders-Publishes frame s _ refl w i

    bridge_calls-Publishes :
        (cs : List BridgeCall) (s : SurfaceBridge G N)
        → All (λ c. HasWords c) cs
        → Publishes s
        → Publishes (bridge_calls r cs s)
    unfolding bridge_calls
    bridge_calls-Publishes [] s w i = i
    bridge_calls-Publishes (c ∷ cs) s w i =
        bridge_calls-Publishes cs (bridge_call r c s) w.1 (bridge_call-Publishes c s w.0 i)

    used :
        (t : SurfaceBridge G N)
        → Publishes t
        → 0 < t.viewport.width
        → let v = t.viewport in
          let g =
            Geometry.resolve_remote_content_geometry t.width t.height t.viewport_remote_width
              t.viewport_remote_height v.x v.y v.width v.height t.viewport_remote_width
              t.viewport_remote_height in
          LiesIn t.width t.height v
          × (g.published ≡ true)
          × (g.content_x ≡ v.x)
          × (g.content_y ≡ v.y)
          × (g.content_width ≡ v.width)
          × (g.content_height ≡ v.height)
    used t ((a, b), inl e) h =
        let none : t.viewport.width ≡ 0 = ap (λ v. v.width) e in absurd (omega (arith, none, h))
    used t ((a, b), inr (l, vw, vh, rw0, rw1, rh0, rh1)) h =
        let v = t.viewport in
        let lem =
          resolve_remote_content_geometry_lem t.width t.height t.viewport_remote_width
            t.viewport_remote_height v.x v.y v.width v.height t.viewport_remote_width
            t.viewport_remote_height a b rw1 rh1 (omega (arith, a, l)) (omega (arith, b, l))
            (omega (arith, a, l)) (omega (arith, b, l)) in
        let published =
          lem.0.1 (
            omega (arith, l, vw),
            omega (arith, l, vh),
            rw0,
            rh0,
            (vw, vh, refl, refl, l.0, l.1),
          ) in
        let same = lem.1 published in (l, published, same.0, same.1, same.2, same.3)

    -- After any calls a viewport that is published lies within the surface, and a pointer is mapped with
    -- exactly that viewport while the desktop has the size of the frame that was painted, whatever the
    -- window and the renderers answer and whatever size the buffers of the window have.
    pub painted_is_used :
        (cs : List BridgeCall) (s : SurfaceBridge G N)
        → All (λ c. HasWords c) cs
        → Publishes s
        → 0 < (bridge_calls r cs s).viewport.width
        → let t = bridge_calls r cs s in
          let v = t.viewport in
          let g =
            Geometry.resolve_remote_content_geometry t.width t.height t.viewport_remote_width
              t.viewport_remote_height v.x v.y v.width v.height t.viewport_remote_width
              t.viewport_remote_height in
          LiesIn t.width t.height v
          × (g.published ≡ true)
          × (g.content_x ≡ v.x)
          × (g.content_y ≡ v.y)
          × (g.content_width ≡ v.width)
          × (g.content_height ≡ v.height)
    painted_is_used cs s w i h = used (bridge_calls r cs s) (bridge_calls-Publishes cs s w i) h
