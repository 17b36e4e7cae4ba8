-- ===== src/Protocol/Validation/Messages.antt =====
-- The overloads of validate of src/protocol/validation.cpp, one for each kind of message.
use Prim.Native.Nat.{bit_and}
use ht2mp.Prelude.{ℕ, Bool, true, false, not, ◌||◌, List, [], ◌∷◌, ltb, ◌==◌, length}
use ht2mp.Prelude.Text.{text}
use ht2mp.Protocol.Float.{is_finite64, abs64, lt64, Arithmetic}
use ht2mp.Protocol.Replication.{valid_vehicle_state, valid_environment}
use ht2mp.Protocol.Types.{
  Quat, PlayerState, ClientHello, ServerWelcome, PeerDescription, PeerLeft, Disconnect,
  WorldSnapshot, Message, max_display_name_bytes, max_disconnect_text_bytes, max_players_limit,
  max_snapshot_players,
}
use ht2mp.Protocol.Validation.Fields.{
  Validation, ◌>>◌, fail_if, ProfileLimits, finite_vec3d, finite_vec3f, finite_quat, inside,
  magnitude_components, valid_location_id, valid_reason, validate_name, validate_profile,
  validate_vehicle, validate_paint, invalid_flag, non_finite, out_of_bounds, invalid_quaternion,
  invalid_identifier, too_many_players, valid,
}

unfoldable pub validate_hello : ClientHello → ProfileLimits → Validation
validate_hello hello limits =
    fail_if (hello.incarnation_id == 0) invalid_identifier (text "incarnation_id must be non-zero")
    >> validate_profile hello.profile_id
    >> validate_name hello.display_name max_display_name_bytes (text "display_name") false
    >> validate_vehicle hello.vehicle_type limits
    >> validate_paint hello.paint_variant

unfoldable pub validate_welcome : ServerWelcome → Validation
validate_welcome m =
    fail_if
      (m.session_id == 0
        || (m.player_id == 0
            || (m.max_players == 0
                || (ltb max_players_limit m.max_players
                    || (m.state_hz == 0 || ltb 40 m.state_hz)))))
      invalid_identifier (text "server welcome contains invalid limits or IDs")
    >> validate_profile m.profile_id

unfoldable pub validate_peer : PeerDescription → ProfileLimits → Validation
validate_peer m limits =
    fail_if (m.player_id == 0 || m.incarnation_id == 0) invalid_identifier
      (text "peer identifiers must be non-zero")
    >> validate_name m.display_name max_display_name_bytes (text "display_name") false
    >> validate_vehicle m.vehicle_type limits
    >> validate_paint m.paint_variant

unfoldable pub validate_left : PeerLeft → Validation
validate_left m =
    fail_if (m.player_id == 0 || (m.incarnation_id == 0 || not (valid_reason m.reason)))
      invalid_identifier (text "peer-left contains invalid IDs or reason")

unfoldable pub validate_disconnect : Disconnect → Validation
validate_disconnect m =
    fail_if (not (valid_reason m.reason)) invalid_identifier
      (text "disconnect contains an invalid reason")
    >> validate_name m.detail max_disconnect_text_bytes (text "disconnect detail") true

module _ (fp : Arithmetic) where
  open fp use {widen, add, subtract, multiply}

  unfoldable pub norm_squared : Quat → ℕ
  norm_squared q =
      add
        (add (add (multiply (widen q.x) (widen q.x)) (multiply (widen q.y) (widen q.y)))
          (multiply (widen q.z) (widen q.z)))
        (multiply (widen q.w) (widen q.w))

  -- std::abs(norm_squared - 1.0) > 0.05
  unfoldable pub not_normalized : Quat → Bool
  not_normalized q =
      lt64 0x3fa9_9999_9999_999a (abs64 (subtract (norm_squared q) 0x3ff0_0000_0000_0000))

  unfoldable pub validate_state : PlayerState → ProfileLimits → Validation
  validate_state s limits =
      fail_if (s.session_id == 0 || (s.player_id == 0 || s.incarnation_id == 0)) invalid_identifier
        (text "player state identifiers must be non-zero")
      >> fail_if (not (bit_and s.flags 0xf8 == 0)) invalid_flag
          (text "player state contains unknown flags")
      >> fail_if
          (not (finite_vec3d s.position)
            || (not (finite_quat s.orientation)
                || (not (finite_vec3f s.linear_velocity)
                    || (not (finite_vec3f s.angular_velocity)
                        || not (is_finite64 s.location.road_distance)))))
          non_finite (text "player state contains NaN or infinity")
      >> fail_if
          (not (inside s.position.x limits.min_coordinate limits.max_coordinate)
            || (not (inside s.position.y limits.min_coordinate limits.max_coordinate)
                || not (inside s.position.z limits.min_coordinate limits.max_coordinate)))
          out_of_bounds (text "position exceeds profile bounds")
      >> fail_if
          (not (magnitude_components s.linear_velocity limits.max_linear_speed)
            || not (magnitude_components s.angular_velocity limits.max_angular_speed))
          out_of_bounds (text "velocity exceeds profile bounds")
      >> fail_if (not_normalized s.orientation) invalid_quaternion
          (text "orientation is not normalized")
      >> fail_if
          (not (valid_location_id s.location.room_id limits)
            || (not (valid_location_id s.location.road_id limits)
                || (not (valid_location_id s.location.node_id limits)
                    || (not (valid_location_id s.location.road_segment_vector_id limits)
                        || (not (valid_location_id s.location.road_segment_id limits)
                            || lt64 limits.max_road_distance (abs64 s.location.road_distance))))))
          out_of_bounds (text "world location exceeds profile bounds")
      >> fail_if (not (valid_vehicle_state s.vehicle)) out_of_bounds
          (text "invalid vehicle condition or lamp selector")
      >> validate_vehicle s.vehicle_type limits
      >> validate_paint s.paint_variant

  unfoldable pub validate_players : List PlayerState → ProfileLimits → Validation
  validate_players [] limits = valid
  validate_players (s ∷ players) limits = validate_state s limits >> validate_players players limits

  unfoldable pub validate_snapshot : WorldSnapshot → ProfileLimits → Validation
  validate_snapshot m limits =
      fail_if (ltb max_snapshot_players (length m.players)) too_many_players
        (text "snapshot exceeds per-packet player limit")
      >> fail_if (not (valid_environment m.environment)) out_of_bounds
          (text "invalid server environment")
      >> validate_players m.players limits

  unfoldable pub validate : Message → ProfileLimits → Validation
  validate (Message.client_hello m) limits = validate_hello m limits
  validate (Message.server_welcome m) limits = validate_welcome m
  validate (Message.peer_joined m) limits = validate_peer m limits
  validate (Message.peer_left m) limits = validate_left m
  validate (Message.spawn_metadata m) limits = validate_peer m limits
  validate (Message.ping m) limits = valid
  validate (Message.pong m) limits = valid
  validate (Message.disconnect m) limits = validate_disconnect m
  validate (Message.player_state s) limits = validate_state s limits
  validate (Message.world_snapshot m) limits = validate_snapshot m limits
