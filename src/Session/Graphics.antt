-- ===== src/Session/Graphics.antt =====
-- freerdp/graphics_config.cpp: the graphics modes of a session. The helpers of the FreeRDP library are
-- parameters, as is whether the runtime could be loaded; a missing symbol is `none`. The texts that they
-- are passed are lists of bytes.
use harmony_windows_bridge.Base.{
  ℕ, ◌≡◌, refl, sym, ◌∙◌, ◌≢◌, ◌↔◌, inl, inr, Bool, true, false, not, ◌&&◌, Option, none, some,
  List, [], ◌∷◌, ◌++◌, arith, if◌then◌else◌, Bool-cases, Option-cases,
}
use harmony_windows_bridge.Text.{bytes, eq_bytes, trim_ascii}

pub record RdpSessionRunResult : Type 0 where
  pub available : Bool
  pub connected : Bool
  pub cancelled : Bool
  pub failed : Bool
  pub message : List ℕ

pub record GraphicsPipelineConfig : Type 0 where
  pub valid : Bool
  pub enabled : Bool
  pub h264 : Bool
  pub avc444_gpu_compositor : Bool
  pub mode : List ℕ

-- FREERDP_OHOS_GRAPHICS_CONFIG: `invalid_mode` is FREERDP_OHOS_GRAPHICS_MODE_INVALID, no name a null pointer.
pub record NativeConfig : Type 0 where
  pub invalid_mode : Bool
  pub enabled : Bool
  pub h264 : Bool
  pub mode_name : Option (List ℕ)

-- `should_retry_fallback` takes whether the session failed, whether it was connected, the mode, the
-- number of the attempt, how many there are, and the message.
pub record GraphicsHelpers : Type 0 where
  pub loaded : Bool
  pub config_from_mode : Option (List ℕ → NativeConfig)
  pub fallback_modes : Option (List ℕ → List (Option (List ℕ)))
  pub should_retry_fallback : Option (Bool → Bool → List ℕ → ℕ → ℕ → List ℕ → Bool)

unfoldable pub invalid_graphics_config : List ℕ → GraphicsPipelineConfig
invalid_graphics_config mode = record {
  valid = false;
  enabled = false;
  h264 = false;
  avc444_gpu_compositor = false;
  mode = mode;
}

abbrev pub or_gdi : Option (List ℕ) → List ℕ
or_gdi none = bytes "gdi"
or_gdi (some name) = name

unfoldable pub from_native_graphics_config : NativeConfig → List ℕ → GraphicsPipelineConfig
unfolding trim_ascii
from_native_graphics_config native requested_mode = record {
  valid = not native.invalid_mode;
  enabled = native.enabled;
  h264 = native.h264;
  avc444_gpu_compositor = native.enabled && native.h264;
  mode =
      if not native.invalid_mode
      then or_gdi native.mode_name
      else if eq_bytes (trim_ascii requested_mode) []
      then bytes "missing"
      else bytes "invalid";
}

unfoldable pub parse_graphics_pipeline_config : GraphicsHelpers → List ℕ → GraphicsPipelineConfig
unfolding invalid_graphics_config from_native_graphics_config
parse_graphics_pipeline_config api graphics_mode =
    if not api.loaded
    then invalid_graphics_config (bytes "runtime-unavailable")
    else elim api.config_from_mode [
      | none ↦ invalid_graphics_config (bytes "helper-missing")
      | some f ↦ from_native_graphics_config (f graphics_mode) graphics_mode
    ]

abbrev pub validation_error_of : GraphicsPipelineConfig → List ℕ → List ℕ
validation_error_of config graphics_mode =
    if config.valid
    then []
    else if eq_bytes config.mode (bytes "runtime-unavailable")
    then bytes "FreeRDP runtime is unavailable for OHOS graphics mode parsing"
    else if eq_bytes config.mode (bytes "helper-missing")
    then bytes "FreeRDP OHOS graphics helper symbols are not loaded"
    else if eq_bytes (trim_ascii graphics_mode) []
    then bytes "graphicsMode is required; FreeRDP OHOS graphics helper owns supported values"
    else bytes "unsupported graphicsMode '"
      ++ graphics_mode
      ++ bytes "' from FreeRDP OHOS graphics helper"

unfoldable pub graphics_mode_validation_error : GraphicsHelpers → List ℕ → List ℕ
unfolding parse_graphics_pipeline_config trim_ascii
graphics_mode_validation_error api graphics_mode =
    validation_error_of (parse_graphics_pipeline_config api graphics_mode) graphics_mode

-- The names that are not null or empty.
unfoldable pub named : List (Option (List ℕ)) → List (List ℕ)
named [] = []
named (none ∷ modes) = named modes
named (some [] ∷ modes) = named modes
named (some (c ∷ cs) ∷ modes) = (c ∷ cs) ∷ named modes

unfoldable pub build_graphics_fallback_modes : GraphicsHelpers → List ℕ → List (List ℕ)
unfolding named
build_graphics_fallback_modes api graphics_mode =
    if not api.loaded
    then []
    else elim api.fallback_modes [ none ↦ [] | some f ↦ named (f graphics_mode) ]

unfoldable pub should_retry_graphics_fallback :
    GraphicsHelpers → RdpSessionRunResult → Bool → List ℕ → ℕ → ℕ → Bool
should_retry_graphics_fallback api session attempt_connected failed_mode attempt count =
    if not api.loaded then false else elim api.should_retry_fallback [
      | none ↦ false
      | some f ↦ f session.failed attempt_connected failed_mode attempt count session.message
    ]

-- The texts of the two branches that call the mode invalid.
refused :
    (native : NativeConfig) (mode : List ℕ)
    → native.invalid_mode ≡ true
    → validation_error_of (from_native_graphics_config native mode) mode ≢ []
unfolding from_native_graphics_config
refused native mode e = elim (Bool-cases (eq_bytes (trim_ascii mode) [])) [
  | inl w ↦ rw (e, w) (λ h. ground (arith, h))
  | inr w ↦ rw (e, w) (λ h. ground (arith, h))
]

accepted :
    (native : NativeConfig) (mode : List ℕ)
    → native.invalid_mode ≡ false
    → validation_error_of (from_native_graphics_config native mode) mode ≡ []
unfolding from_native_graphics_config
accepted native mode e = rw e refl

error-unloaded :
    (api : GraphicsHelpers) (mode : List ℕ)
    → api.loaded ≡ false
    → graphics_mode_validation_error api mode ≢ []
unfolding graphics_mode_validation_error
error-unloaded api mode e = rw e (λ h. ground (arith, h))

error-missing :
    (api : GraphicsHelpers) (mode : List ℕ)
    → api.loaded ≡ true
    → api.config_from_mode ≡ none
    → graphics_mode_validation_error api mode ≢ []
unfolding graphics_mode_validation_error
error-missing api mode e n = rw (e, n) (λ h. ground (arith, h))

error-helper :
    (api : GraphicsHelpers) (mode : List ℕ) (f : List ℕ → NativeConfig)
    → api.loaded ≡ true
    → api.config_from_mode ≡ some f
    → graphics_mode_validation_error api mode
      ≡ validation_error_of (from_native_graphics_config (f mode) mode) mode
unfolding graphics_mode_validation_error
error-helper api mode f e r = rw (e, r) refl

-- A mode passes the check of `Connect` exactly if the runtime and its helper are there and the helper
-- does not call the mode invalid.
pub graphics_mode_validation_error_iff :
    (api : GraphicsHelpers) (graphics_mode : List ℕ)
    → (graphics_mode_validation_error api graphics_mode ≡ []) ↔ (
        (api.loaded ≡ true)
        × ((f : List ℕ → NativeConfig) × (api.config_from_mode ≡ some f)
            × ((f graphics_mode).invalid_mode ≡ false)))
graphics_mode_validation_error_iff api mode = (
  (λ h. elim (Bool-cases api.loaded) [
    | inr e ↦ absurd (error-unloaded api mode e h)
    | inl e ↦ elim (Option-cases api.config_from_mode) [
      | inl n ↦ absurd (error-missing api mode e n h)
      | inr (f, r) ↦ elim (Bool-cases (f mode).invalid_mode) [
        | inl w ↦ absurd (refused (f mode) mode w (sym (error-helper api mode f e r) ∙ h))
        | inr w ↦ (e, (f, r, w))
      ]
    ]
  ]),
  (λ p. let (e, (f, r, w)) = p in error-helper api mode f e r ∙ accepted (f mode) mode w),
)
