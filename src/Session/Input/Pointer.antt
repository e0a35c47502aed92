-- ===== src/Session/Input/Pointer.antt =====
-- What reaches the pointer queue of session/rdp_session_input.cpp.
use harmony_windows_bridge.Base.{ℕ, ◌+◌, ◌^◌, ◌≤◌, ◌<◌, ◌≡◌, Bool, true, arith}
use harmony_windows_bridge.Session.Input.{
  ohos_event, RdpSessionInput, FreerdpRuntimeApi, enqueue_by, enqueue_local_pointer,
  build_ohos_pointer_viewport, SurfaceSnapshot, PointerViewport,
}
use harmony_windows_bridge.Surface.Geometry.Published.{
  resolve-positive, resolve_remote_content_geometry_lem,
}
use harmony_windows_bridge.Input.Events.{LocalPointerEvent}

-- The rectangle for the remote desktop is not empty and lies in the surface.
abbrev pub FitsSurface : PointerViewport → Type 0
FitsSurface v =
    (0 < v.viewport_width)
    × (0 < v.viewport_height)
    × (v.viewport_x + v.viewport_width ≤ v.surface_width)
    × (v.viewport_y + v.viewport_height ≤ v.surface_height)

-- The sizes are 32-bit.
abbrev pub IsMachine : SurfaceSnapshot → Type 0
IsMachine s =
    (s.width < 2 ^ 32)
    × (s.height < 2 ^ 32)
    × (s.viewport_x < 2 ^ 32)
    × (s.viewport_y < 2 ^ 32)
    × (s.viewport_width < 2 ^ 32)
    × (s.viewport_height < 2 ^ 32)

viewport-FitsSurface :
    (surface : SurfaceSnapshot) (desktop_width desktop_height : ℕ)
    → IsMachine surface
    → desktop_width < 2 ^ 32
    → desktop_height < 2 ^ 32
    → 0 < surface.width
    → 0 < surface.height
    → 0 < desktop_width
    → 0 < desktop_height
    → FitsSurface (build_ohos_pointer_viewport surface desktop_width desktop_height)
unfolding build_ohos_pointer_viewport
viewport-FitsSurface s dw dh (a, b, c, d, e, f) p q w h v u =
    let bounds =
      resolve_remote_content_geometry_lem s.width s.height dw dh s.viewport_x s.viewport_y
        s.viewport_width s.viewport_height s.viewport_remote_width s.viewport_remote_height a b p q
        c d e f in
    let positive =
      resolve-positive s.width s.height dw dh s.viewport_x s.viewport_y s.viewport_width
        s.viewport_height s.viewport_remote_width s.viewport_remote_height w a h b v p u q c d e
        f in
    (positive.0, positive.1, bounds.3, bounds.4)

-- For a surface that is ready and a desktop, neither of them empty and both with 32-bit sizes: the rectangle
-- for the remote desktop is not empty and lies in the surface, and the call is that of the queue's own
-- function on the event in this rectangle, so that the test for an empty rectangle rejects nothing.
pub enqueue_local_pointer_lem :
    {Q : Type 0} (api : FreerdpRuntimeApi Q) (has_log : Bool) (p : LocalPointerEvent)
    (surface : SurfaceSnapshot) (dw dh : ℕ) (s : RdpSessionInput Q)
    → IsMachine surface
    → dw < 2 ^ 32
    → dh < 2 ^ 32
    → surface.ready ≡ true
    → 0 < surface.width
    → 0 < surface.height
    → 0 < dw
    → 0 < dh
    → let v = build_ohos_pointer_viewport surface dw dh in
      FitsSurface v
      × (enqueue_local_pointer api has_log p surface dw dh s
          ≡ enqueue_by (api.enqueue_pointer v (ohos_event api has_log p)) api has_log s)
unfolding enqueue_local_pointer enqueue_by
enqueue_local_pointer_lem api has_log p surface dw dh s m a b r w h u v =
    let fits = viewport-FitsSurface surface dw dh m a b w h u v in (fits, ground arith)
