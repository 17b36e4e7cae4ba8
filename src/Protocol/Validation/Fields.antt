-- ===== src/Protocol/Validation/Fields.antt =====
-- ValidationResult and ProfileLimits of include/ht2mp/protocol/validation.hpp, and the tests of single
-- fields of src/protocol/validation.cpp.
use ht2mp.Prelude.{
  ℕ, Bool, true, false, not, ◌&&◌, ◌||◌, List, [], ◌++◌, any, all, ltb, leb, ◌==◌, length,
}
use ht2mp.Prelude.Text.{text}
use ht2mp.Protocol.Float.{is_finite32, is_finite64, abs32, le32, le64, le_i32}
use ht2mp.Protocol.Types.{Vec3, Quat, DisconnectReason, server_shutdown, max_profile_id_bytes}
use ht2mp.Protocol.Utf8.{is_valid_utf8}

pub data ValidationCode : Type 0 where
  invalid_utf8 invalid_length invalid_flag non_finite out_of_bounds : ValidationCode
  invalid_quaternion invalid_vehicle_type invalid_paint_variant : ValidationCode
  invalid_identifier too_many_players : ValidationCode

-- ValidationResult: `valid` is the code `ok`, whose detail is empty.
pub data Validation : Type 0 where
  valid : Validation
  invalid : ValidationCode → List ℕ → Validation

-- `if (!a) return fail(...)`, then the rest of the function.
infixl 5 ◌>>◌
abbrev pub ◌>>◌ : Validation → Validation → Validation
valid >> k = k
invalid c d >> k = invalid c d

-- `fail` if the test is true.
abbrev pub fail_if : Bool → ValidationCode → List ℕ → Validation
fail_if true c d = invalid c d
fail_if false c d = valid

abbrev pub is_ok : Validation → Bool
is_ok valid = true
is_ok (invalid c d) = false

pub record ProfileLimits : Type 0 where
  pub min_coordinate : ℕ
  pub max_coordinate : ℕ
  pub max_linear_speed : ℕ
  pub max_angular_speed : ℕ
  pub min_location_id : ℕ
  pub max_location_id : ℕ
  pub max_road_distance : ℕ
  pub max_vehicle_type : ℕ
  pub allowed_vehicle_types : List ℕ

-- `ProfileLimits{}`: coordinates within 2.0e6, speeds of 500 and 100, locations from -1 to
-- 10,000,000, a road distance of 1.0e7, vehicle types up to 4095.
abbrev pub default_limits : ProfileLimits
default_limits = record {
  min_coordinate = 0xc13e_8480_0000_0000;
  max_coordinate = 0x413e_8480_0000_0000;
  max_linear_speed = 0x43fa_0000;
  max_angular_speed = 0x42c8_0000;
  min_location_id = 0xffff_ffff;
  max_location_id = 10_000_000;
  max_road_distance = 0x4163_12d0_0000_0000;
  max_vehicle_type = 4095;
  allowed_vehicle_types = [];
}

abbrev pub paint_variant_count : ℕ
paint_variant_count = 4

unfoldable pub finite_vec3d : Vec3 → Bool
finite_vec3d v = is_finite64 v.x && (is_finite64 v.y && is_finite64 v.z)

unfoldable pub finite_vec3f : Vec3 → Bool
finite_vec3f v = is_finite32 v.x && (is_finite32 v.y && is_finite32 v.z)

unfoldable pub finite_quat : Quat → Bool
finite_quat q = is_finite32 q.x && (is_finite32 q.y && (is_finite32 q.z && is_finite32 q.w))

unfoldable pub inside : ℕ → ℕ → ℕ → Bool
inside value minimum maximum = le64 minimum value && le64 value maximum

unfoldable pub magnitude_components : Vec3 → ℕ → Bool
magnitude_components v maximum =
    le32 (abs32 v.x) maximum && (le32 (abs32 v.y) maximum && le32 (abs32 v.z) maximum)

unfoldable pub valid_location_id : ℕ → ProfileLimits → Bool
valid_location_id value limits =
    le_i32 limits.min_location_id value && le_i32 value limits.max_location_id

unfoldable pub valid_reason : DisconnectReason → Bool
valid_reason value = leb value server_shutdown

unfoldable pub is_control : ℕ → Bool
is_control byte = ltb byte 0x20 || byte == 0x7f

unfoldable pub validate_name : List ℕ → ℕ → List ℕ → Bool → Validation
validate_name value maximum field empty_ok =
    fail_if ((not empty_ok && length value == 0) || ltb maximum (length value)) invalid_length
      (field ++ text " has an invalid byte length")
    >> fail_if (not (is_valid_utf8 value)) invalid_utf8 (field ++ text " is not valid UTF-8")
    >> fail_if (any is_control value) invalid_utf8 (field ++ text " contains a control character")

unfoldable pub allowed_in_profile : ℕ → Bool
allowed_in_profile c =
    (leb b'a' c && leb c b'z')
    || ((leb b'0' c && leb c b'9') || (c == b'-' || (c == b'_' || c == b'.')))

unfoldable pub validate_profile : List ℕ → Validation
validate_profile value =
    validate_name value max_profile_id_bytes (text "profile_id") false
    >> fail_if (not (all allowed_in_profile value)) invalid_utf8
        (text "profile_id contains an unsupported character")

unfoldable pub validate_vehicle : ℕ → ProfileLimits → Validation
validate_vehicle value limits =
    fail_if (ltb limits.max_vehicle_type value) invalid_vehicle_type
      (text "vehicle_type exceeds profile bounds")
    >> fail_if
        (not (length limits.allowed_vehicle_types == 0)
          && not (any (λ allowed. allowed == value) limits.allowed_vehicle_types))
        invalid_vehicle_type (text "vehicle_type is not in the profile allowlist")

unfoldable pub validate_paint : ℕ → Validation
validate_paint value =
    fail_if (leb paint_variant_count value) invalid_paint_variant
      (text "paint_variant must be in range 0..3")
