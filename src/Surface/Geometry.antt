-- ===== src/Surface/Geometry.antt =====
-- surface/remote_content_geometry.{h,cpp}: where the remote desktop lies on the surface. Widths are
-- uint32_t and products uint64_t; the casts to 32 bits are written out.
pub mod Fit
pub mod Published
use harmony_windows_bridge.Base.{
  ℕ, ◌+◌, ◌-◌, ◌*◌, ◌/◌, min, max, Bool, true, false, not, ◌&&◌, ◌||◌, ltb, leb, ◌==◌,
  if◌then◌else◌,
}
use harmony_windows_bridge.Base.Word.{u32, u64}

abbrev pub one_to_one_tolerance_px : ℕ
one_to_one_tolerance_px = 16

pub record RemoteContentGeometry : Type 0 where
  pub valid : Bool
  pub published : Bool
  pub target_width : ℕ
  pub target_height : ℕ
  pub content_x : ℕ
  pub content_y : ℕ
  pub content_width : ℕ
  pub content_height : ℕ
  pub remote_width : ℕ
  pub remote_height : ℕ

unfoldable pub dimension_delta : ℕ → ℕ → ℕ
dimension_delta left right = if ltb right left then left - right else right - left

unfoldable pub is_published_rect_valid : ℕ → ℕ → ℕ → ℕ → ℕ → ℕ → ℕ → ℕ → ℕ → ℕ → Bool
is_published_rect_valid target_width target_height remote_width remote_height x y width height
      published_remote_width published_remote_height =
    if width == 0
      || (height == 0
          || (not (published_remote_width == remote_width)
              || (not (published_remote_height == remote_height)
                  || (leb target_width x || leb target_height y))))
    then false
    else leb (u64 (x + width)) target_width && leb (u64 (y + height)) target_height

-- The geometry before the content is placed.
abbrev pub unplaced : ℕ → ℕ → ℕ → ℕ → RemoteContentGeometry
unplaced target_width target_height remote_width remote_height = record {
  valid = false;
  published = false;
  target_width = target_width;
  target_height = target_height;
  content_x = 0;
  content_y = 0;
  content_width = 0;
  content_height = 0;
  remote_width = remote_width;
  remote_height = remote_height;
}

-- The remote desktop is shown pixel by pixel.
unfoldable pub is_one_to_one : ℕ → ℕ → ℕ → ℕ → Bool
unfolding dimension_delta
is_one_to_one target_width target_height remote_width remote_height =
    leb remote_width target_width
    && (leb remote_height target_height
        && (leb (dimension_delta target_width remote_width) one_to_one_tolerance_px
            && leb (dimension_delta target_height remote_height) one_to_one_tolerance_px))

-- The size of the content, before it is cut to the target.
unfoldable pub scaled_size : ℕ → ℕ → ℕ → ℕ → ℕ × ℕ
unfolding is_one_to_one
scaled_size target_width target_height remote_width remote_height =
    let target_by_remote_height = u64 (target_width * remote_height) in
    let target_height_by_remote_width = u64 (target_height * remote_width) in
    if is_one_to_one target_width target_height remote_width remote_height
    then (remote_width, remote_height)
    else if leb target_by_remote_height target_height_by_remote_width
    then (target_width, u32 (max 1 (target_by_remote_height / remote_width)))
    else (u32 (max 1 (target_height_by_remote_width / remote_height)), target_height)

-- The content in the middle of the target.
abbrev pub place : RemoteContentGeometry → ℕ → ℕ → RemoteContentGeometry
place g width height = record g {
  content_width = width;
  content_height = height;
  content_x = (g.target_width - width) / 2;
  content_y = (g.target_height - height) / 2;
  valid = not (width == 0) && not (height == 0);
}

unfoldable pub fit_remote_content_into_target : ℕ → ℕ → ℕ → ℕ → RemoteContentGeometry
fit_remote_content_into_target target_width target_height remote_width remote_height =
    if target_width == 0 || (target_height == 0 || (remote_width == 0 || remote_height == 0))
    then unplaced target_width target_height remote_width remote_height
    else let (width, height) = scaled_size target_width target_height remote_width remote_height in
      place (unplaced target_width target_height remote_width remote_height)
        (min width target_width) (min height target_height)

unfoldable pub resolve_remote_content_geometry :
    ℕ → ℕ → ℕ → ℕ → ℕ → ℕ → ℕ → ℕ → ℕ → ℕ → RemoteContentGeometry
resolve_remote_content_geometry target_width target_height remote_width remote_height published_x
      published_y published_width published_height published_remote_width published_remote_height =
    let g = fit_remote_content_into_target target_width target_height remote_width remote_height in
    if not g.valid
      || not (
          is_published_rect_valid target_width target_height remote_width remote_height published_x
            published_y published_width published_height published_remote_width
            published_remote_height)
    then g
    else record g {
      published = true;
      content_x = published_x;
      content_y = published_y;
      content_width = published_width;
      content_height = published_height;
    }

unfoldable pub is_point_inside_remote_content : RemoteContentGeometry → ℕ → ℕ → Bool
is_point_inside_remote_content g x y =
    if not g.valid
    then false
    else leb g.content_x x
      && (leb g.content_y y
          && (ltb x (u64 (g.content_x + g.content_width))
              && ltb y (u64 (g.content_y + g.content_height))))
