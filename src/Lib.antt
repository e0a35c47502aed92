-- ===== src/Lib.antt =====
-- Verification library of the native bridge of the HarmonyOS remote desktop client: the core logic of
-- harmony/app/common/src/main/cpp/ that decides what is shown, when a resize is asked for, and what the
-- local input sends. All paths below are relative to that directory.
--
-- The parts and how they interact. The size of the surface goes through the request coalescer to the
-- channel layer; what comes of a request goes to the resize coordinator and to the display settings. A
-- frame of the remote desktop passes the coordinator, is queued in the latest-frame renderer, and is
-- painted by the window painter, in the rectangle that the content geometry gives. Mouse, pen and touch
-- events become pointer events, which the session input puts into the queue of the FreeRDP library in
-- terms of the same rectangle. The session core starts and ends all this: its worker tries the graphics
-- modes one after the other, and its guards decide which input reaches the session input. What is painted
-- on the surface of the surface bridge is the frame, scaled into the rectangle, with a border around it.
--
--   Base                shared names, Boolean tests, machine words, integers, lists
--   Display/Types       session/rdp_display_resize_types.h
--   Display/Coordinator session/rdp_display_resize_coordinator.{h,cpp}: RdpDisplayResizeCoordinator. One
--                       function for each method (`begin_sent` is BeginSent, and so on); Worker is
--                       WorkerMain, one step for each stretch of its code under the mutex
--   Display/Coalescer   session/rdp_display_request_coalescer.{h,cpp}, in the same way
--   Display/Settings    session/session_display_settings.{h,cpp}; a call takes the time at which it is made
--   Display/Layout      session/rdp_display_layout_monitor.{h,cpp}
--   Surface/Types       RgbaFrame of common/bridge_types.h, RenderViewport of surface/gpu_rgba_renderer.h
--   Surface/Dirty       MergeDirtyStats of common/frame_utils.cpp, CaptureGdiDirtyStats and the helpers of
--                       freerdp/freerdp_gdi_bridge.cpp
--   Surface/Geometry    surface/remote_content_geometry.{h,cpp}
--   Surface/Painter     surface/native_window_rgba_painter.cpp: Destroy, CanUsePartialDirty and
--                       RecordBufferFrame, the damage history
--   Surface/Copy        surface/native_rgba_copy.cpp, byte by byte
--   Surface/Bridge      surface/surface_bridge.cpp: SurfaceBridge::Impl, and where in a buffer
--                       NativeWindowRgbaPainter::Render paints
--   Surface/Renderer    surface/latest_frame_renderer.cpp: Start, Stop, DropPending, Enqueue, Snapshot; in
--                       Worker, WorkerLoop as a step relation
--   Input/Events        the events of common/bridge_types.h and SendNativePointer of
--                       input/xcomponent_input_registration.cpp
--   Input/Touch         input/xcomponent_touch_policy.cpp (taps and pans), DispatchNativeGestureActions of
--                       input/xcomponent_touch_gesture.cpp; in Binding, Handle and Cancel of
--                       input/xcomponent_native_gesture.cpp
--   Input/Mouse         input/xcomponent_mouse.cpp
--   Input/Pen           input/xcomponent_pen.cpp
--   Input/Release       ReleaseAllXComponentInput of input/xcomponent_input_registration.cpp
--   Input/Focus         the focus events of input/xcomponent_key.cpp, ResetXComponentInputBridge of
--                       input/xcomponent_input_registration.cpp
--   Input/Ime           input/remote_ime_client.cpp
--   Input/TextPointer   input/remote_pointer_text_detector.cpp: a touch asks for the keyboard; its threads
--                       wake up in any order
--   Input/TextPolicy    input/remote_pointer_text_policy.cpp: the shape of a text pointer
--   Session/Input       session/rdp_session_input.{h,cpp}
--   Session/Graphics    freerdp/graphics_config.cpp
--   Session/Core        session/rdp_session_core.cpp: RdpSession::Impl; in Worker, WorkerMain with its two
--                       waiting loops, one step at a time, and the results of RunFreerdpSession and
--                       the states that its adapter announces; in Sends,
--                       the functions that send input; in Run, all of these in any order
--   Text                common/string_utils.cpp: the parsers, trimming and lower case
--   Tests               runs at concrete inputs
--
-- How the code is modelled. A class is a record of its fields, a method a function on it, an out parameter
-- or a return value a further component of the result. Unsigned integers are native numbers with the wrap-around
-- written out (`u32`, `u64`). A thread that waits on a condition variable is a place in its code
-- with a step from one wait to the next, and the other threads' calls come in between, in any order. Time
-- is a number that only grows. A callback is a number that names it, and what it is called with is
-- recorded. What the platform or the FreeRDP library answers is a parameter, which may depend on all that
-- went before; nothing is supposed of it but where a theorem says so. Floating-point coordinates are
-- values of any type, which the modelled code only stores, compares and rounds. Every loop is a recursion
-- on a list or a number, and the session core's worker is a step function whose runs are lists of steps.
-- Only the printing of a number runs on fuel: twenty digits, enough for 64 bits. The theorems on threads
-- hold for runs of fewer than 2 ^ 63 or 2 ^ 64 steps, in which no 64-bit generation or counter can wrap.
--
-- What is not modelled: the GPU compositors and the hardware decoders (calls of vendor interfaces);
-- loading the FreeRDP library, running its session and its channels; what the session core passes on to
-- the channels, the pen events among it, and its diagnostic lines; the path helpers of
-- common/string_utils.cpp; the buffer calls of NativeWindowRgbaPainter::Render, whose results are
-- parameters of the surface bridge; the tests of video frames in session/freerdp_session_runner.cpp, which
-- decide when its adapter announces a state and are events here; the texts written to the log elsewhere;
-- the bindings to ArkTS; key events of the surface; the scroll policies, which divide floating-point
-- offsets; and the server side under entry/src/main/cpp/xrdp.
pub mod Base
pub mod Display
pub mod Surface
pub mod Input
pub mod Session
pub mod Text
mod Tests
