-- ===== src/Tests/Text.antt =====
-- Texts of common/string_utils.cpp.
use harmony_windows_bridge.Base.{◌≡◌, refl, true, none, some, ◌++◌, arith}
use harmony_windows_bridge.Text.{
  bytes, parse_uint32, parse_port, parse_resolution, is_auto_resolution, to_string,
}
use harmony_windows_bridge.Text.RoundTrip.{parse_resolution-to_string}

reads_port : parse_port (bytes "3389") ≡ some 3389
unfolding parse_port
reads_port = refl

-- `strtoul` skips spaces and takes a sign.
reads_space_and_sign : parse_uint32 (bytes " +42") ≡ some 42
unfolding parse_uint32
reads_space_and_sign = refl

refuses_rest : parse_uint32 (bytes "42 ") ≡ none
unfolding parse_uint32
refuses_rest = refl

-- A minus sign is taken too: the negated value is small again.
reads_negative : parse_uint32 (bytes "-18446744073709551615") ≡ some 1
unfolding parse_uint32
reads_negative = refl

refuses_large : parse_uint32 (bytes "4294967296") ≡ none
unfolding parse_uint32
refuses_large = refl

reads_resolution : parse_resolution (bytes "1920X1080") ≡ some (1920, 1080)
unfolding parse_resolution
reads_resolution = refl

refuses_small : parse_resolution (bytes "319x1080") ≡ none
unfolding parse_resolution
refuses_small = refl

window_is_auto : is_auto_resolution (bytes " Window ") ≡ true
unfolding is_auto_resolution
window_is_auto = refl

parse_resolution-to_string_example :
    parse_resolution (to_string 1920 ++ (bytes "x" ++ to_string 1080)) ≡ some (1920, 1080)
parse_resolution-to_string_example =
    parse_resolution-to_string 1920 1080 (omega arith) (omega arith) (omega arith) (omega arith)
