-- ===== src/Surface/Bridge.antt =====
-- surface/surface_bridge.cpp: the surface that the session paints on. Pointers are numbers, 0 for null. The
-- XComponent and the two renderers are parameters: what the component's size is and which id it has at a
-- call, and what a renderer does. The texts of OnSurfaceLayout and the logs are left out.
pub mod Viewport
use harmony_windows_bridge.Base.{
  ℕ, ◌+◌, ◌*◌, min, Bool, true, false, not, ◌&&◌, ◌||◌, Option, none, some, String, ltb, ◌==◌,
  if◌then◌else◌,
}
use harmony_windows_bridge.Base.Int.{ℤ, pos_part, pos, ltb_ℤ, int32_of}
use harmony_windows_bridge.Base.Word.{u32, u64, u32_max}
use harmony_windows_bridge.Surface.Types.{RgbaFrame, RenderViewport}
use harmony_windows_bridge.Surface.Copy

-- OH_NativeXComponent_GetXComponentSize: whether it succeeded, and two 64-bit numbers, 0 where it failed.
pub record ComponentSize : Type 0 where
  pub ok : Bool
  pub width : ℕ
  pub height : ℕ

pub record SurfacePaintResult : Type 0 where
  pub ok : Bool
  pub partial : Bool
  pub message : String

abbrev pub failed_paint : String → SurfacePaintResult
failed_paint message = record { ok = false; partial = false; message = message }

-- GpuRgbaRenderer and NativeWindowRgbaPainter, with their states `G` and `N`. Of the painter, what comes of its
-- calls to the window and of its copying is a parameter: its result, and the width and height that the
-- handle of its buffer has.
pub record Renderers (G N : Type 0) : Type 0 where
  pub gpu_render :
      (window width height : ℕ) → RgbaFrame → ℤ → RenderViewport → G → G × Bool × SurfacePaintResult
  pub gpu_destroy : G → G
  pub cpu_paint : (window width height : ℕ) → RgbaFrame → N → N × SurfacePaintResult × ℤ × ℤ
  pub cpu_destroy : N → N

pub record SurfaceBridge (G N : Type 0) : Type 0 where
  pub component : ℕ
  pub window : ℕ
  pub registered : Bool
  pub ready : Bool
  pub id : String
  pub width : ℕ
  pub height : ℕ
  pub viewport : RenderViewport
  pub viewport_remote_width : ℕ
  pub viewport_remote_height : ℕ
  pub created_count : ℕ
  pub changed_count : ℕ
  pub destroyed_count : ℕ
  pub paint_count : ℕ
  pub gpu : G
  pub native_painter : N
  pub last_paint_message : String

abbrev pub empty_viewport : RenderViewport
empty_viewport = record { x = 0; y = 0; width = 0; height = 0 }

-- What DecoderSurface gives: the window, its width and its height.
abbrev pub DecoderSurfaceTarget : Type 0
DecoderSurfaceTarget = ℕ × ℕ × ℕ

abbrev pub int32_max : ℕ
int32_max = 2147483647

-- `min(target, handle > 0 ? handle : target)`.
abbrev pub area_side : ℤ → ℕ → ℕ
area_side handle target = if ltb_ℤ (pos 0) handle then min target (pos_part handle) else target

module _ {G N : Type 0} where
  unfoldable pub clear_viewport : SurfaceBridge G N → SurfaceBridge G N
  clear_viewport s = record s {
    viewport = empty_viewport;
    viewport_remote_width = 0;
    viewport_remote_height = 0;
  }

  unfoldable pub clear_native_window_config : Renderers G N → SurfaceBridge G N → SurfaceBridge G N
  clear_native_window_config r s = record s {
    gpu = r.gpu_destroy s.gpu;
    native_painter = r.cpu_destroy s.native_painter;
  }

  abbrev pub cleared : Renderers G N → SurfaceBridge G N → SurfaceBridge G N
  cleared r s = clear_viewport (clear_native_window_config r s)

  unfoldable pub register : ℕ → Bool → String → SurfaceBridge G N → SurfaceBridge G N
  register component ok id s = record s {
    component = component;
    registered = ok;
    id = if component == 0 then "" else id;
  }

  unfoldable pub on_surface_created :
      Renderers G N
      → (component window : ℕ) → String
      → ComponentSize
      → SurfaceBridge G N
      → SurfaceBridge G N
  unfolding clear_viewport clear_native_window_config
  on_surface_created r component window id size s = cleared r (record s {
    component = component;
    window = window;
    registered = true;
    ready = not (window == 0);
    id = id;
    width = u32 size.width;
    height = u32 size.height;
    created_count = u32 (s.created_count + 1);
  })

  unfoldable pub on_surface_changed :
      Renderers G N
      → (component window : ℕ) → String
      → ComponentSize
      → SurfaceBridge G N
      → SurfaceBridge G N
  unfolding clear_viewport clear_native_window_config
  on_surface_changed r component window id size s = cleared r (record s {
    component = component;
    window = window;
    ready = not (window == 0);
    id = id;
    width = u32 size.width;
    height = u32 size.height;
    changed_count = u32 (s.changed_count + 1);
  })

  -- The size of the component where it is known, and whether it is.
  unfoldable pub resolve_native_surface_size :
      ComponentSize → (width height : ℕ) → SurfaceBridge G N → ℕ × ℕ × Bool
  resolve_native_surface_size size width height s =
      if (s.component == 0 || s.window == 0)
        || (not size.ok || (size.width == 0 || size.height == 0))
      then (width, height, false)
      else (min size.width u32_max, min size.height u32_max, true)

  unfoldable pub on_surface_layout :
      Renderers G N
      → (width height : ℕ) → ComponentSize
      → SurfaceBridge G N
      → SurfaceBridge G N × Bool
  unfolding resolve_native_surface_size clear_viewport clear_native_window_config
  on_surface_layout r width height size s =
      let target = resolve_native_surface_size size width height s in
      if width == 0 || height == 0
      then (s, false)
      else if s.width == target.0 && s.height == target.1
      then (s, false)
      else (
        cleared r (record s {
          width = target.0;
          height = target.1;
          changed_count = u32 (s.changed_count + 1);
        }),
        true,
      )

  unfoldable pub on_surface_destroyed :
      Renderers G N → ℕ → String → SurfaceBridge G N → SurfaceBridge G N
  unfolding clear_viewport clear_native_window_config
  on_surface_destroyed r component id s = cleared r (record s {
    component = component;
    window = 0;
    ready = false;
    id = id;
    width = 0;
    height = 0;
    destroyed_count = u32 (s.destroyed_count + 1);
  })

  unfoldable pub release_render_target : Renderers G N → SurfaceBridge G N → SurfaceBridge G N
  unfolding clear_native_window_config
  release_render_target r s = clear_native_window_config r s

  -- `none` where the surface is not ready.
  unfoldable pub decoder_surface : SurfaceBridge G N → Option DecoderSurfaceTarget
  decoder_surface s =
      if not s.ready || (s.window == 0 || (s.width == 0 || s.height == 0))
      then none
      else some (s.window, s.width, s.height)

  -- The viewport and the size of the frame that were painted.
  abbrev pub painted : RgbaFrame → RenderViewport → SurfaceBridge G N → SurfaceBridge G N
  painted frame v s = record s {
    paint_count = u32 (s.paint_count + 1);
    viewport = v;
    viewport_remote_width = frame.width;
    viewport_remote_height = frame.height;
  }

  abbrev pub told : SurfacePaintResult → SurfaceBridge G N → SurfaceBridge G N × SurfacePaintResult
  told result s = (record s { last_paint_message = result.message }, result)

  -- `Render`, past the tests that the bridge makes too: where in the buffer it paints.
  unfoldable pub render_native :
      Renderers G N
      → (window width height : ℕ) → RgbaFrame
      → N
      → N × SurfacePaintResult × RenderViewport
  render_native r window width height frame n =
      let (n', result, handle_width, handle_height) = r.cpu_paint window width height frame n in
      let area_width = area_side handle_width width in
      let area_height = area_side handle_height height in
      let v = Copy.fit_frame_into_target area_width area_height frame.width frame.height in
      if area_width == 0 || area_height == 0
      then (n', failed_paint "NativeWindow buffer geometry is invalid", empty_viewport)
      else if v.width == 0 || v.height == 0
      then (n', failed_paint "render viewport is invalid", empty_viewport)
      else (n', result, v)

  unfoldable pub render_rgba_frame_cpu :
      Renderers G N → RgbaFrame → SurfaceBridge G N → SurfaceBridge G N × SurfacePaintResult
  unfolding render_native
  render_rgba_frame_cpu r frame s =
      let (n, result, v) = render_native r s.window s.width s.height frame s.native_painter in
      let s' : SurfaceBridge G N = record s { native_painter = n } in
      told result (if result.ok then painted frame v s' else s')

  -- The tests before a renderer is called: the message of the one that fails.
  abbrev pub render_error : RgbaFrame → SurfaceBridge G N → Option String
  render_error frame s =
      let tight = int32_of (u32 (frame.width * 4)) in
      let stride = if ltb_ℤ (pos 0) frame.stride_bytes then frame.stride_bytes else tight in
      if not s.ready || (s.window == 0 || (s.width == 0 || s.height == 0))
      then some "XComponent surface is not ready for render"
      else if frame.address == 0 || (frame.width == 0 || frame.height == 0)
      then some "RGBA frame is empty"
      else if ltb_ℤ stride tight
      then some "RGBA frame stride is invalid"
      else if ltb int32_max s.width || ltb int32_max s.height
      then some "NativeWindow target geometry exceeds int32 range"
      else none

  -- The renderer on the graphics processor, and the painter where it fails.
  unfoldable pub render_in :
      Renderers G N
      → RgbaFrame
      → RenderViewport
      → SurfaceBridge G N
      → SurfaceBridge G N × SurfacePaintResult
  unfolding render_rgba_frame_cpu
  render_in r frame v s =
      let tight = int32_of (u32 (frame.width * 4)) in
      let stride = if ltb_ℤ (pos 0) frame.stride_bytes then frame.stride_bytes else tight in
      let (g, ok, result) = r.gpu_render s.window s.width s.height frame stride v s.gpu in
      let s' : SurfaceBridge G N = record s { gpu = g } in
      if v.width == 0 || v.height == 0
      then told (failed_paint "render viewport is invalid") s
      else if ok
      then told result (painted frame v s')
      else render_rgba_frame_cpu r frame s'

  abbrev pub render_unless :
      Renderers G N
      → RgbaFrame
      → SurfaceBridge G N
      → Option String
      → SurfaceBridge G N × SurfacePaintResult
  render_unless r frame s (some message) = told (failed_paint message) s
  render_unless r frame s none =
      render_in r frame (Copy.fit_frame_into_target s.width s.height frame.width frame.height) s

  unfoldable pub render_rgba_frame :
      Renderers G N → RgbaFrame → SurfaceBridge G N → SurfaceBridge G N × SurfacePaintResult
  unfolding render_in Copy.fit_frame_into_target
  render_rgba_frame r frame s = render_unless r frame s (render_error frame s)
