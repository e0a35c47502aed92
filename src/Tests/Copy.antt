-- ===== src/Tests/Copy.antt =====
-- A frame of two by two pixels in a buffer of four by two, and a surface that is painted.
use harmony_windows_bridge.Base.{
  ℕ, ◌+◌, ◌*◌, ◌<◌, ◌≡◌, refl, ◌⊎◌, inl, true, false, ◌&&◌, List, [], ◌∷◌, arith, if◌then◌else◌,
}
use harmony_windows_bridge.Surface.Types.{RgbaFrame, RenderViewport}
use harmony_windows_bridge.Surface.Geometry
use harmony_windows_bridge.Surface.Copy.{
  Memory, rgba_8888, bgra_8888, Pixel, fill_native_letterbox, copy_scaled_rgba_to_native,
}
use harmony_windows_bridge.Surface.Copy.Stride.{
  BufferHandle, is_positive, resolve_row_bytes, HoldsRows, resolve_row_bytes-HoldsRows,
}
use harmony_windows_bridge.Surface.Bridge.{SurfaceBridge, failed_paint, Renderers, empty_viewport}
use harmony_windows_bridge.Surface.Bridge.Viewport.{
  BridgeCall, registers, creates, renders, bridge_calls, painted_is_used,
}
use harmony_windows_bridge.Surface.Copy.Pixels.{channel, byte_at}
use harmony_windows_bridge.Surface.Copy.Border.{painted_frame, LiesIn}
use harmony_windows_bridge.Base.Int.{pos_part, pos}
use harmony_windows_bridge.Surface.Copy.Rows.{is_between}
use harmony_windows_bridge.Surface.Dirty.{no_dirty}
use harmony_windows_bridge.Surface.Copy.Image.{copy_scaled-byte_at, scaled}

-- The byte at each offset is its number plus 100.
abbrev numbered : Memory
numbered n = n + 100

abbrev blank : Memory
blank n = 0

abbrev black : Pixel
black = record { red = 0; green = 0; blue = 0; alpha = 255 }

abbrev middle : RenderViewport
middle = record { x = 1; y = 0; width = 2; height = 2 }

abbrev frame_painted : Memory
frame_painted =
    copy_scaled_rgba_to_native bgra_8888 16 numbered 8 2 2 middle
      (fill_native_letterbox bgra_8888 16 4 2 middle black blank)

-- The first byte of the second pixel is the blue of the first pixel of the frame.
shows_blue : frame_painted 4 ≡ 102
unfolding copy_scaled_rgba_to_native fill_native_letterbox
shows_blue = refl

shows_border : frame_painted 3 ≡ 255
unfolding copy_scaled_rgba_to_native fill_native_letterbox
shows_border = refl

painted_frame_example : byte_at 16 2 1 0 frame_painted ≡ (
    if is_between 1 0 2 && is_between 2 1 2
    then scaled bgra_8888 numbered 8 2 0 2 2 middle 1
    else channel bgra_8888 black 0)
painted_frame_example =
    painted_frame bgra_8888 16 numbered 8 2 2 4 2 middle black blank 2 1 0 (omega arith)
      (omega arith) (omega arith) (omega arith) (omega arith, omega arith) (omega arith)
      (omega arith) (omega arith)

copy_scaled-byte_at_example :
    byte_at 16 2 1 0 (copy_scaled_rgba_to_native rgba_8888 16 numbered 8 2 2 middle blank) ≡ (
      if is_between 1 0 2 && is_between 2 1 2
      then scaled rgba_8888 numbered 8 2 0 2 2 middle 1
      else byte_at 16 2 1 0 blank)
copy_scaled-byte_at_example =
    copy_scaled-byte_at rgba_8888 16 numbered 8 2 1 0 (omega arith) (omega arith) 2 2 middle blank
      (omega arith) (omega arith) (omega arith) (omega arith)

-- 1280 pixels of stride are given as pixels, not bytes.
abbrev buffer : BufferHandle
buffer = record { width = pos 1280; stride = pos 1280; size = pos 4096000 }

resolves_pixels : resolve_row_bytes buffer 1280 800 ≡ pos 5120
unfolding resolve_row_bytes
resolves_pixels = refl

resolve_row_bytes-HoldsRows_example :
    ((row_bytes : ℕ) × (resolve_row_bytes buffer 1280 800 ≡ pos row_bytes)
      × HoldsRows buffer 1280 800 row_bytes)
    ⊎ ((resolve_row_bytes buffer 1280 800 ≡ pos 0)
        × (is_positive buffer.size ≡ true)
        × (pos_part buffer.size < 1280 * 4 * 800))
resolve_row_bytes-HoldsRows_example =
    resolve_row_bytes-HoldsRows buffer 1280 800 (omega arith) (omega arith) (omega arith)
      (omega arith)

-- A painter whose buffer is narrower than the surface, and no renderer on the graphics processor.
abbrev filling : Renderers ℕ ℕ
filling = record {
  gpu_render = λ window width height frame stride v g. (g, false, failed_paint "no GLES");
  gpu_destroy = λ g. 0;
  cpu_paint = λ window width height frame n.
      (n + 1, record { ok = true; partial = false; message = "painted" }, pos 1000, pos 900);
  cpu_destroy = λ n. 0;
}

abbrev no_surface : SurfaceBridge ℕ ℕ
no_surface = record {
  component = 0;
  window = 0;
  registered = false;
  ready = false;
  id = "";
  width = 0;
  height = 0;
  viewport = empty_viewport;
  viewport_remote_width = 0;
  viewport_remote_height = 0;
  created_count = 0;
  changed_count = 0;
  destroyed_count = 0;
  paint_count = 0;
  gpu = 0;
  native_painter = 0;
  last_paint_message = "";
}

abbrev desktop_frame : RgbaFrame
desktop_frame = record {
  address = 4096;
  width = 1280;
  height = 800;
  stride_bytes = pos 5120;
  label = "desktop";
  dirty = no_dirty;
  sequence = 1;
  dirty_sequence_start = 1;
}

abbrev session_calls : List BridgeCall
session_calls =
    registers 7 true "surface"
    ∷ creates 7 9 "surface" (record { ok = true; width = 1280; height = 800 })
    ∷ renders desktop_frame
    ∷ []

painted_is_used_example :
    let t = bridge_calls filling session_calls no_surface in
    let v = t.viewport in
    let g =
      Geometry.resolve_remote_content_geometry t.width t.height t.viewport_remote_width
        t.viewport_remote_height v.x v.y v.width v.height t.viewport_remote_width
        t.viewport_remote_height in
    LiesIn t.width t.height v
    × (g.published ≡ true)
    × (g.content_x ≡ v.x)
    × (g.content_y ≡ v.y)
    × (g.content_width ≡ v.width)
    × (g.content_height ≡ v.height)
unfolding bridge_calls Geometry.scaled_size
painted_is_used_example =
    painted_is_used filling session_calls no_surface (tt, (tt, ((omega arith, omega arith), tt)))
      ((omega arith, omega arith), inl refl) (omega arith)
