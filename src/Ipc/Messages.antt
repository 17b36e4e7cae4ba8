-- ===== src/Ipc/Messages.antt =====
-- The payloads of src/ipc/codec.cpp, one pair of functions for each kind of frame.
pub mod Sample
pub mod Fits
pub mod Carry
pub mod CarrySample
pub mod Returns
pub mod RoundTrip
use ht2mp.Prelude.{
  ℕ, ◌+◌, ◌-◌, Bool, true, false, not, ◌&&◌, ◌||◌, Option, none, some, List, [], ◌∷◌, ◌++◌, ltb,
  leb, ◌==◌, if◌then◌else◌, length, replicate, any,
}
use ht2mp.Protocol.Reader.{Reader, ◌>>=◌, pure}
use ht2mp.Protocol.Replication.{valid_environment}
use ht2mp.Ipc.Types.{
  FrameType, frame_code, BridgeHello, BridgeReady, BridgeStatus, SetObserverMode, EnterSafeMode,
  SpawnRemote, DespawnRemote, Environment, mode_observer, mode_safe, background_tick_stalled,
  internal_error, nonce_size, profile_id_capacity,
}
use ht2mp.Ipc.Payload.{
  CodecError, buffer_too_small, truncated, trailing_bytes, invalid_value, Coded, ok, failed,
  PayloadWriter, Put, put_u8, put_u16, put_u32, put_u64, put_f32, put_f64, put_bytes, all_of,
  get_u8, get_u16, get_u32, get_u64, get_f32, get_f64, get_bytes,
}
use ht2mp.Ipc.Frame.{encode_frame}

unfoldable pub value_in_range : ℕ → ℕ → ℕ → Bool
value_in_range value first last = leb first value && leb value last

-- A std::array of zeros that the writer has written the front of.
unfoldable pub padded : ℕ → PayloadWriter → List ℕ
padded size w = w.bytes ++ replicate (size - length w.bytes) 0

-- An encoder: an array of `size` bytes, what it puts there, and finish_payload.
unfoldable pub encode_payload : FrameType → ℕ → Put → ℕ → Coded (List ℕ)
encode_payload type size put output_size = elim (put (record { capacity = size; bytes = [] })) [
  | none ↦ failed buffer_too_small
  | some w ↦ encode_frame (frame_code type) 0 (padded size w) output_size
]

module _ {ℓ} {A : Type ℓ} where
  -- A decoder: what it does with a read that failed, or with the value and the bytes that are left.
  unfoldable pub finish_read : Option (A × List ℕ) → (A → List ℕ → Coded A) → Coded A
  finish_read none next = failed truncated
  finish_read (some (a, rest)) next = next a rest

  unfoldable pub no_more : A → List ℕ → Coded A
  no_more a rest = if length rest == 0 then ok a else failed trailing_bytes

unfoldable pub write_bridge_hello : BridgeHello → Put
write_bridge_hello m =
    all_of
      (put_u32 m.abi_version ∷ put_u64 m.run_id ∷ put_bytes m.nonce ∷ put_bytes m.profile_id ∷ [])

unfoldable pub encode_bridge_hello : BridgeHello → ℕ → Coded (List ℕ)
encode_bridge_hello m = encode_payload FrameType.bridge_hello 60 (write_bridge_hello m)

unfoldable pub read_bridge_hello : Reader BridgeHello
read_bridge_hello = do
  abi_version ← get_u32
  run_id ← get_u64
  nonce ← get_bytes nonce_size
  profile_id ← get_bytes profile_id_capacity
  pure (record {
    abi_version = abi_version;
    run_id = run_id;
    nonce = nonce;
    profile_id = profile_id;
  })

unfoldable pub decode_bridge_hello : List ℕ → Coded BridgeHello
decode_bridge_hello payload = finish_read (read_bridge_hello payload) no_more

unfoldable pub write_bridge_ready : BridgeReady → Put
write_bridge_ready m = all_of (put_u32 m.result ∷ put_u32 m.mode ∷ put_u32 m.capabilities ∷ [])

unfoldable pub encode_bridge_ready : BridgeReady → ℕ → Coded (List ℕ)
encode_bridge_ready m = encode_payload FrameType.bridge_ready 12 (write_bridge_ready m)

unfoldable pub read_bridge_ready : Reader BridgeReady
read_bridge_ready = do
  result ← get_u32
  mode ← get_u32
  capabilities ← get_u32
  pure (record { result = result; mode = mode; capabilities = capabilities })

unfoldable pub decode_bridge_ready : List ℕ → Coded BridgeReady
decode_bridge_ready payload = finish_read (read_bridge_ready payload) λ m rest.
    if not (value_in_range m.result 0 internal_error)
      || not (value_in_range m.mode mode_observer mode_safe)
    then failed invalid_value
    else no_more m rest

unfoldable pub write_bridge_status : BridgeStatus → Put
write_bridge_status m = all_of (put_u32 m.code ∷ put_u32 m.mode ∷ put_bytes m.detail ∷ [])

unfoldable pub encode_bridge_status : BridgeStatus → ℕ → Coded (List ℕ)
encode_bridge_status m = encode_payload FrameType.bridge_status 168 (write_bridge_status m)

unfoldable pub read_bridge_status : Reader BridgeStatus
read_bridge_status = do
  code ← get_u32
  mode ← get_u32
  detail ← get_bytes 160
  pure (record { code = code; mode = mode; detail = detail })

unfoldable pub decode_bridge_status : List ℕ → Coded BridgeStatus
decode_bridge_status payload = finish_read (read_bridge_status payload) λ m rest.
    if not (value_in_range m.code 0 background_tick_stalled)
      || not (value_in_range m.mode mode_observer mode_safe)
    then failed invalid_value
    else no_more m rest

unfoldable pub encode_set_observer_mode : SetObserverMode → ℕ → Coded (List ℕ)
encode_set_observer_mode m =
    encode_frame (frame_code FrameType.set_observer_mode) 0 ((if m.enabled == 0 then 0 else 1) ∷ [])

unfoldable pub decode_set_observer_mode : List ℕ → Coded SetObserverMode
decode_set_observer_mode [] = failed truncated
decode_set_observer_mode (value ∷ []) =
    if ltb 1 value
    then failed invalid_value
    else ok (record { enabled = if value == 0 then 0 else 1 })
decode_set_observer_mode (value ∷ next ∷ payload) = failed trailing_bytes

unfoldable pub write_enter_safe_mode : EnterSafeMode → Put
write_enter_safe_mode m = all_of (put_u32 m.reason ∷ [])

unfoldable pub encode_enter_safe_mode : EnterSafeMode → ℕ → Coded (List ℕ)
encode_enter_safe_mode m = encode_payload FrameType.enter_safe_mode 4 (write_enter_safe_mode m)

unfoldable pub read_enter_safe_mode : Reader EnterSafeMode
read_enter_safe_mode = do reason ← get_u32; pure (record { reason = reason })

unfoldable pub decode_enter_safe_mode : List ℕ → Coded EnterSafeMode
decode_enter_safe_mode payload = finish_read (read_enter_safe_mode payload) no_more

unfoldable pub write_spawn_remote : SpawnRemote → Put
write_spawn_remote m = all_of (
    put_u64 m.player_id
    ∷ put_u64 m.incarnation_id
    ∷ put_u16 m.vehicle_type
    ∷ put_u8 m.paint_variant
    ∷ put_bytes m.display_name
    ∷ [])

unfoldable pub encode_spawn_remote : SpawnRemote → ℕ → Coded (List ℕ)
encode_spawn_remote m = encode_payload FrameType.spawn_remote 52 (write_spawn_remote m)

unfoldable pub read_spawn_remote : Reader SpawnRemote
read_spawn_remote = do
  player_id ← get_u64
  incarnation_id ← get_u64
  vehicle_type ← get_u16
  paint_variant ← get_u8
  display_name ← get_bytes 33
  pure (record {
    player_id = player_id;
    incarnation_id = incarnation_id;
    vehicle_type = vehicle_type;
    paint_variant = paint_variant;
    display_name = display_name;
  })

-- std::find of the terminator.
unfoldable pub is_terminated : List ℕ → Bool
is_terminated = any (λ c. c == 0)

unfoldable pub decode_spawn_remote : List ℕ → Coded SpawnRemote
decode_spawn_remote payload = finish_read (read_spawn_remote payload) λ m rest.
    if not (length rest == 0)
    then failed trailing_bytes
    else if not (is_terminated m.display_name)
    then failed invalid_value
    else ok m

unfoldable pub write_despawn_remote : DespawnRemote → Put
write_despawn_remote m = all_of (put_u64 m.player_id ∷ put_u64 m.incarnation_id ∷ [])

unfoldable pub encode_despawn_remote : DespawnRemote → ℕ → Coded (List ℕ)
encode_despawn_remote m = encode_payload FrameType.despawn_remote 16 (write_despawn_remote m)

unfoldable pub read_despawn_remote : Reader DespawnRemote
read_despawn_remote = do
  player_id ← get_u64
  incarnation_id ← get_u64
  pure (record { player_id = player_id; incarnation_id = incarnation_id })

unfoldable pub decode_despawn_remote : List ℕ → Coded DespawnRemote
decode_despawn_remote payload = finish_read (read_despawn_remote payload) no_more

unfoldable pub write_environment : Environment → Put
write_environment m =
    let e = m.state in
    all_of (
      put_u64 m.server_time_ms
      ∷ put_u64 m.receive_time_us
      ∷ put_u64 e.session_id
      ∷ put_f64 e.day_hours
      ∷ put_f64 e.weather_phase
      ∷ put_f64 e.variation_phase
      ∷ put_f32 e.day_duration_s
      ∷ put_f32 e.weather_duration_s
      ∷ put_f32 e.weather_bias
      ∷ put_u8 e.weather_preset
      ∷ [])

unfoldable pub encode_environment : Environment → ℕ → Coded (List ℕ)
encode_environment m output_size =
    if not (valid_environment m.state)
    then failed invalid_value
    else encode_payload FrameType.environment 61 (write_environment m) output_size

unfoldable pub read_environment : Reader Environment
read_environment = do
  server_time_ms ← get_u64
  receive_time_us ← get_u64
  session_id ← get_u64
  day_hours ← get_f64
  weather_phase ← get_f64
  variation_phase ← get_f64
  day_duration_s ← get_f32
  weather_duration_s ← get_f32
  weather_bias ← get_f32
  weather_preset ← get_u8
  pure (record {
    server_time_ms = server_time_ms;
    receive_time_us = receive_time_us;
    state = record {
      session_id = session_id;
      day_hours = day_hours;
      weather_phase = weather_phase;
      variation_phase = variation_phase;
      day_duration_s = day_duration_s;
      weather_duration_s = weather_duration_s;
      weather_bias = weather_bias;
      weather_preset = weather_preset;
    };
  })

unfoldable pub decode_environment : List ℕ → Coded Environment
decode_environment payload = finish_read (read_environment payload) λ m rest.
    if not (length rest == 0)
    then failed trailing_bytes
    else if valid_environment m.state
    then ok m
    else failed invalid_value
