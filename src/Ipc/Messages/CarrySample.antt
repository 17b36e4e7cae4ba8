-- ===== src/Ipc/Messages/CarrySample.antt =====
-- A player sample's payload holds its message: what the writer puts, the reader takes back.
use ht2mp.Prelude.{ℕ, ◌≤◌, ◌≡◌, ap, ◌∙◌, subst, arith, true, if◌then◌else◌, ◌==◌}
use ht2mp.Protocol.Ranges.{VehicleFits, LocationFits}
use ht2mp.Protocol.Types.{VehicleState, WorldLocation}
use ht2mp.Protocol.Writer.{horn_flags}
use ht2mp.Protocol.Replication.{valid_vehicle_state}
use ht2mp.Protocol.Wire.Structs.{reread, reread-eq, horn_byte}
use ht2mp.Ipc.Types.{PlayerSample}
use ht2mp.Ipc.Messages.Fits.{PlayerSampleFits}
use ht2mp.Ipc.Payload.Fields.{
  Carries, Carries-done, Carries-bind, Carries-ensure, Carries-require, u8-Carries, u16-Carries,
  u32-Carries, u64-Carries, i32-Carries, f64-Carries, u8s-Carries, f32s-Carries, f64s-Carries,
}
use ht2mp.Ipc.Messages.Sample.{
  write_vehicle, read_vehicle, write_location, read_location, write_player_sample,
  read_player_sample,
}

vehicle-Carries :
    (v : VehicleState)
    → VehicleFits v
    → valid_vehicle_state v ≡ true
    → Carries (write_vehicle v) read_vehicle 238 v
unfolding write_vehicle read_vehicle
vehicle-Carries v h ok = subst (Carries (write_vehicle v) read_vehicle 238) (reread-eq v h) carried
  where
    flags : ℕ
    flags = horn_flags v.horn.active v.horn.tone

    valid : ℕ
    valid = if v.valid == 0 then 0 else 1

    bool : valid ≤ 1
    bool = ground arith

    small : flags ≤ 5
    small = (horn_byte v.horn.active v.horn.tone h.active h.tone).0

    still_valid : valid_vehicle_state (reread v) ≡ true
    still_valid = ap valid_vehicle_state (reread-eq v h) ∙ ok

    carried : Carries (write_vehicle v) read_vehicle 238 (reread v)
    carried = Carries-bind _ _ (u8-Carries valid (omega (arith, bool))) (
        Carries-ensure _ _ _ (ground (arith, bool)) (ground (arith, bool)) (
          Carries-bind _ _ (u8-Carries _ h.steering) (
            Carries-bind _ _ (u8s-Carries 4 _ h.lights) (
              Carries-bind _ _ (f32s-Carries 49 _ h.condition) (
                Carries-bind _ _ (u8-Carries _ h.count) (
                  Carries-bind _ _ (f32s-Carries 8 _ h.speeds) (
                    Carries-bind _ _ (u8-Carries flags (omega (arith, small))) (
                      Carries-require (ground (arith, small)) (
                        Carries-bind _ _ (u16-Carries _ h.press_sequence)
                          (Carries-ensure _ _ _ ok still_valid (Carries-done _)))))))))))

location-Carries :
    (v : WorldLocation) → LocationFits v → Carries (write_location v) read_location 36 v
unfolding write_location read_location
location-Carries v h = Carries-bind _ _ (i32-Carries _ h.room_id) (
    Carries-bind _ _ (i32-Carries _ h.road_id) (
      Carries-bind _ _ (i32-Carries _ h.node_id) (
        Carries-bind _ _ (f64-Carries _ h.road_distance) (
          Carries-bind _ _ (i32-Carries _ h.road_segment_vector_id) (
            Carries-bind _ _ (i32-Carries _ h.road_segment_id) (
              Carries-bind _ _ (i32-Carries _ h.aux0)
                (Carries-bind _ _ (i32-Carries _ h.aux1) (Carries-done _))))))))

pub player_sample-Carries :
    (m : PlayerSample)
    → PlayerSampleFits m
    → Carries (write_player_sample m) read_player_sample 378 m
unfolding write_player_sample read_player_sample
player_sample-Carries m h = Carries-bind _ _ (u64-Carries _ h.player_id) (
    Carries-bind _ _ (u64-Carries _ h.incarnation_id) (
      Carries-bind _ _ (u64-Carries _ h.sample_time_ms) (
        Carries-bind _ _ (u64-Carries _ h.receive_time_us) (
          Carries-bind _ _ (u32-Carries _ h.sequence) (
            Carries-bind _ _ (u8-Carries _ h.flags) (
              Carries-bind _ _ (f64s-Carries 3 _ h.position) (
                Carries-bind _ _ (f32s-Carries 4 _ h.orientation) (
                  Carries-bind _ _ (f32s-Carries 3 _ h.linear_velocity) (
                    Carries-bind _ _ (f32s-Carries 3 _ h.angular_velocity) (
                      Carries-bind _ _ (vehicle-Carries _ h.vehicle h.vehicle_valid) (
                        Carries-bind _ _ (u16-Carries _ h.vehicle_type) (
                          Carries-bind _ _ (u8-Carries _ h.paint_variant) (
                            Carries-bind _ _ (location-Carries _ h.location)
                              (Carries-done _))))))))))))))
