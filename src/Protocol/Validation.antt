-- ===== src/Protocol/Validation.antt =====
-- src/protocol/validation.cpp and include/ht2mp/protocol/validation.hpp.
pub mod Fields
pub mod Messages
pub use ht2mp.Protocol.Validation.Fields.{
  ValidationCode, Validation, ◌>>◌, fail_if, is_ok, ProfileLimits, default_limits,
  paint_variant_count, invalid_utf8, invalid_length, invalid_flag, non_finite, out_of_bounds,
  invalid_quaternion, invalid_vehicle_type, invalid_paint_variant, invalid_identifier,
  too_many_players, valid, invalid,
}
unfoldable pub use ht2mp.Protocol.Validation.Fields.{
  finite_vec3d, finite_vec3f, finite_quat, inside, magnitude_components, valid_location_id,
  valid_reason, is_control, validate_name, allowed_in_profile, validate_profile, validate_vehicle,
  validate_paint,
}
unfoldable pub use ht2mp.Protocol.Validation.Messages.{
  validate_hello, validate_welcome, validate_peer, validate_left, validate_disconnect, norm_squared,
  not_normalized, validate_state, validate_players, validate_snapshot, validate,
}
