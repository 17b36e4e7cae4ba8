-- ===== src/Ipc/Messages/Carry.antt =====
-- Each payload holds its message: what the writer puts, the reader takes back.
use ht2mp.Prelude.{arith}
use ht2mp.Protocol.Ranges.{IsU32}
use ht2mp.Ipc.Types.{
  BridgeHello, BridgeReady, BridgeStatus, EnterSafeMode, Environment, SpawnRemote, DespawnRemote,
}
use ht2mp.Ipc.Messages.{
  write_bridge_hello, read_bridge_hello, write_bridge_ready, read_bridge_ready, write_bridge_status,
  read_bridge_status, write_enter_safe_mode, read_enter_safe_mode, write_spawn_remote,
  read_spawn_remote, write_despawn_remote, read_despawn_remote, write_environment, read_environment,
}
use ht2mp.Ipc.Messages.Fits.{
  BridgeHelloFits, BridgeReadyFits, BridgeStatusFits, SpawnRemoteFits, DespawnRemoteFits,
  EnvironmentMessageFits,
}
use ht2mp.Ipc.Payload.Fields.{
  Carries, Carries-done, Carries-bind, u8-Carries, u16-Carries, u32-Carries, u64-Carries,
  f32-Carries, f64-Carries, bytes-Carries,
}

pub bridge_hello-Carries :
    (m : BridgeHello) → BridgeHelloFits m → Carries (write_bridge_hello m) read_bridge_hello 60 m
unfolding write_bridge_hello read_bridge_hello
bridge_hello-Carries m h = Carries-bind _ _ (u32-Carries _ h.abi_version) (
    Carries-bind _ _ (u64-Carries _ h.run_id) (
      Carries-bind _ _ (bytes-Carries 16 _ h.nonce)
        (Carries-bind _ _ (bytes-Carries 32 _ h.profile_id) (Carries-done _))))

pub bridge_ready-Carries :
    (m : BridgeReady) → BridgeReadyFits m → Carries (write_bridge_ready m) read_bridge_ready 12 m
unfolding write_bridge_ready read_bridge_ready
bridge_ready-Carries m h = Carries-bind _ _ (u32-Carries _ (omega (arith, h.result))) (
    Carries-bind _ _ (u32-Carries _ (omega (arith, h.mode_high)))
      (Carries-bind _ _ (u32-Carries _ h.capabilities) (Carries-done _)))

pub bridge_status-Carries :
    (m : BridgeStatus)
    → BridgeStatusFits m
    → Carries (write_bridge_status m) read_bridge_status 168 m
unfolding write_bridge_status read_bridge_status
bridge_status-Carries m h = Carries-bind _ _ (u32-Carries _ (omega (arith, h.code))) (
    Carries-bind _ _ (u32-Carries _ (omega (arith, h.mode_high)))
      (Carries-bind _ _ (bytes-Carries 160 _ h.detail) (Carries-done _)))

pub enter_safe_mode-Carries :
    (m : EnterSafeMode)
    → IsU32 m.reason
    → Carries (write_enter_safe_mode m) read_enter_safe_mode 4 m
unfolding write_enter_safe_mode read_enter_safe_mode
enter_safe_mode-Carries m h = Carries-bind _ _ (u32-Carries _ h) (Carries-done _)

pub spawn_remote-Carries :
    (m : SpawnRemote) → SpawnRemoteFits m → Carries (write_spawn_remote m) read_spawn_remote 52 m
unfolding write_spawn_remote read_spawn_remote
spawn_remote-Carries m h = Carries-bind _ _ (u64-Carries _ h.player_id) (
    Carries-bind _ _ (u64-Carries _ h.incarnation_id) (
      Carries-bind _ _ (u16-Carries _ h.vehicle_type) (
        Carries-bind _ _ (u8-Carries _ h.paint_variant)
          (Carries-bind _ _ (bytes-Carries 33 _ h.display_name) (Carries-done _)))))

pub despawn_remote-Carries :
    (m : DespawnRemote)
    → DespawnRemoteFits m
    → Carries (write_despawn_remote m) read_despawn_remote 16 m
unfolding write_despawn_remote read_despawn_remote
despawn_remote-Carries m h =
    Carries-bind _ _ (u64-Carries _ h.player_id)
      (Carries-bind _ _ (u64-Carries _ h.incarnation_id) (Carries-done _))

pub environment-Carries :
    (m : Environment)
    → EnvironmentMessageFits m
    → Carries (write_environment m) read_environment 61 m
unfolding write_environment read_environment
environment-Carries m h = Carries-bind _ _ (u64-Carries _ h.server_time_ms) (
    Carries-bind _ _ (u64-Carries _ h.receive_time_us) (
      Carries-bind _ _ (u64-Carries _ h.state.session_id) (
        Carries-bind _ _ (f64-Carries _ h.state.day_hours) (
          Carries-bind _ _ (f64-Carries _ h.state.weather_phase) (
            Carries-bind _ _ (f64-Carries _ h.state.variation_phase) (
              Carries-bind _ _ (f32-Carries _ h.state.day_duration_s) (
                Carries-bind _ _ (f32-Carries _ h.state.weather_duration_s) (
                  Carries-bind _ _ (f32-Carries _ h.state.weather_bias) (
                    Carries-bind _ _ (u8-Carries _ h.state.weather_preset) (Carries-done _))))))))))
