-- ===== src/Protocol/Wire/Sizes.antt =====
-- How many bytes the writers append.
use ht2mp.Prelude.{ℕ, ◌+◌, ◌*◌, ◌≡◌, refl, List, [], ◌∷◌, length, length-append, All, arith}
use ht2mp.Protocol.Types.{Vec3, Quat, WorldLocation, VehicleState, EnvironmentState, PlayerState}
use ht2mp.Protocol.Ranges.{VehicleFits, StateFits}
use ht2mp.Protocol.Writer

pub length-u8 : (n : ℕ) → length (Writer.u8 n) ≡ 1
unfolding Writer.u8
length-u8 n = refl

pub length-u16 : (n : ℕ) → length (Writer.u16 n) ≡ 2
unfolding Writer.u16 Writer.u8
length-u16 n = refl

pub length-u32 : (n : ℕ) → length (Writer.u32 n) ≡ 4
unfolding Writer.u32 Writer.u16 Writer.u8
length-u32 n = refl

pub length-u64 : (n : ℕ) → length (Writer.u64 n) ≡ 8
unfolding Writer.u64 Writer.u32 Writer.u16 Writer.u8
length-u64 n = refl

pub length-i32 : (n : ℕ) → length (Writer.i32 n) ≡ 4
unfolding Writer.i32
length-i32 = length-u32

pub length-f32 : (n : ℕ) → length (Writer.f32 n) ≡ 4
unfolding Writer.f32
length-f32 = length-u32

pub length-f64 : (n : ℕ) → length (Writer.f64 n) ≡ 8
unfolding Writer.f64
length-f64 = length-u64

pub length-string8 : (value : List ℕ) → length (Writer.string8 value) ≡ 1 + length value
unfolding Writer.string8 Writer.u8
length-string8 value = omega arith

pub length-array {ℓ} :
    {A : Type ℓ} (put : A → List ℕ) (size : ℕ)
    → (items : List A) → All (λ a. length (put a) ≡ size) items
    → length (Writer.array put items) ≡ length items * size
unfolding Writer.array
length-array put size [] h = omega arith
length-array put size (a ∷ items) h =
    omega
      (arith, length-append (put a) (Writer.array put items), h.0, length-array put size items h.1)

pub ruleset sizes = (
  length-u8, length-u16, length-u32, length-u64, length-i32, length-f32, length-f64, length-string8,
  length-append,
)

pub length-location : (v : WorldLocation) → length (Writer.write_location v) ≡ 36
unfolding Writer.write_location
length-location v = simp sizes

pub length-vec3d : (v : Vec3) → length (Writer.write_vec3d v) ≡ 24
unfolding Writer.write_vec3d
length-vec3d v = simp sizes

pub length-vec3f : (v : Vec3) → length (Writer.write_vec3f v) ≡ 12
unfolding Writer.write_vec3f
length-vec3f v = simp sizes

pub length-quat : (q : Quat) → length (Writer.write_quat q) ≡ 16
unfolding Writer.write_quat
length-quat q = simp sizes

pub length-environment : (e : EnvironmentState) → length (Writer.write_environment e) ≡ 45
unfolding Writer.write_environment
length-environment e = simp sizes

All-always {ℓ κ} : {A : Type ℓ} (P : A → Type κ) → ((a : A) → P a) → (items : List A) → All P items
All-always P each [] = tt
All-always P each (a ∷ items) = (each a, All-always P each items)

-- An array of `n` words of `size` bytes.
pub length-words :
    (put : ℕ → List ℕ) (size n : ℕ) (items : List ℕ)
    → ((a : ℕ) → length (put a) ≡ size)
    → length items ≡ n
    → length (Writer.array put items) ≡ n * size
length-words put size n items each e =
    rw (← e) (length-array put size items (All-always _ each items))

pub length-vehicle : (v : VehicleState) → VehicleFits v → length (Writer.write_vehicle v) ≡ 238
unfolding Writer.write_vehicle
length-vehicle v h =
    let lights = length-words Writer.u8 1 4 v.lights length-u8 h.lights.0 in
    let condition = length-words Writer.f32 4 49 v.condition length-f32 h.condition.0 in
    let speeds = length-words Writer.f32 4 8 v.wheels.radians_per_second length-f32 h.speeds.0 in
    simp (sizes, lights, condition, speeds)

-- A player state takes 378 bytes.
pub length-state : (s : PlayerState) → StateFits s → length (Writer.write_state s) ≡ 378
unfolding Writer.write_state
length-state s h = simp (
  sizes,
  length-vec3d,
  length-vec3f,
  length-quat,
  length-location,
  length-vehicle s.vehicle h.vehicle,
)

pub length-states :
    (players : List PlayerState)
    → All StateFits players
    → length (Writer.array Writer.write_state players) ≡ length players * 378
length-states players h = length-array Writer.write_state 378 players (each players h)
  where
    each :
        (players : List PlayerState)
        → All StateFits players
        → All (λ s. length (Writer.write_state s) ≡ 378) players
    each [] h = tt
    each (s ∷ players) h = (length-state s h.0, each players h.1)
