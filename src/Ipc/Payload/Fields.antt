-- ===== src/Ipc/Payload/Fields.antt =====
-- A payload that holds a value: what the writer puts, the reader takes back, and its size.
use ht2mp.Prelude.{
  ℕ, ◌+◌, ◌*◌, ◌≡◌, refl, arith, Bool, true, List, [], ◌∷◌, ◌++◌, length, length-append,
}
use ht2mp.Protocol.Ranges.{IsU8, IsU16, IsU32, IsU64, IsArray}
use ht2mp.Protocol.Writer.{horn_flags}
use ht2mp.Protocol.Writer
use ht2mp.Protocol.Reader.{Reader, ◌>>=◌, ◌>>◌, pure, require}
use ht2mp.Protocol.Reader
use ht2mp.Protocol.Wire.Reads.{Reads, Reads-bind, Reads-pure, Reads-require}
use ht2mp.Protocol.Wire.Sizes.{length-words}
use ht2mp.Protocol.Wire.Structs.{array-Reads}
use ht2mp.Ipc.Payload.{
  Put, all_of, put_u8, put_u16, put_u32, put_u64, put_i32, put_f32, put_f64, put_bytes, put_each,
  ensure, get_u8, get_u16, get_u32, get_u64, get_i32, get_f32, get_f64, get_bytes,
}
use ht2mp.Ipc.Payload.Puts.{
  Puts, u8-Puts, u16-Puts, u32-Puts, u64-Puts, f32-Puts, f64-Puts, bytes-Puts, ensure-Puts,
  all_of-Puts, all_of-nil, put_each-Puts, length-shifted_bytes,
}
use ht2mp.Ipc.Payload.Gets.{u8-Gets, u16-Gets, u32-Gets, u64-Gets, f32-Gets, f64-Gets, bytes-Gets}

pub record Carries {ℓ} {A : Type ℓ} (put : Put) (get : Reader A) (size : ℕ) (a : A) : Type ℓ where
  pub bytes : List ℕ
  pub puts : Puts put bytes
  pub gets : Reads get bytes a
  pub sized : length bytes ≡ size

pub Carries-done {ℓ} : {A : Type ℓ} (a : A) → Carries (all_of []) (pure a) 0 a
Carries-done a = record { bytes = []; puts = all_of-nil; gets = Reads-pure a; sized = refl }

-- The next field of a payload.
pub Carries-bind {ℓ κ} :
    {A : Type ℓ} {B : Type κ} {put : Put} (puts : List Put) {get : Reader A} (next : A → Reader B)
    {size more : ℕ} {a : A} {b : B}
    → Carries put get size a
    → Carries (all_of puts) (next a) more b
    → Carries (all_of (put ∷ puts)) (get >>= next) (size + more) b
Carries-bind {put} puts next c d = record {
  bytes = c.bytes ++ d.bytes;
  puts = all_of-Puts put puts c.puts d.puts;
  gets = Reads-bind next c.gets d.gets;
  sized = omega (arith, length-append c.bytes d.bytes, c.sized, d.sized);
}

-- A test that both sides make.
pub Carries-ensure {ℓ} :
    {A : Type ℓ} (puts : List Put) {get : Reader A} (b b' : Bool) {size : ℕ} {a : A}
    → b ≡ true
    → b' ≡ true
    → Carries (all_of puts) get size a
    → Carries (all_of (ensure b ∷ puts)) (require b' >> get) size a
Carries-ensure puts b b' e e' c = record {
  bytes = c.bytes;
  puts = all_of-Puts (ensure b) puts (ensure-Puts b e) c.puts;
  gets = Reads-require e' c.gets;
  sized = c.sized;
}

-- A test that the reader makes alone.
pub Carries-require {ℓ} :
    {A : Type ℓ} {put : Put} {get : Reader A} {b : Bool} {size : ℕ} {a : A}
    → b ≡ true
    → Carries put get size a
    → Carries put (require b >> get) size a
Carries-require e c = record {
  bytes = c.bytes;
  puts = c.puts;
  gets = Reads-require e c.gets;
  sized = c.sized;
}

pub u8-Carries : (n : ℕ) → IsU8 n → Carries (put_u8 n) get_u8 1 n
u8-Carries n h = record { bytes = _; puts = u8-Puts n; gets = u8-Gets n h; sized = refl }

pub u16-Carries : (n : ℕ) → IsU16 n → Carries (put_u16 n) get_u16 2 n
u16-Carries n h = record { bytes = _; puts = u16-Puts n; gets = u16-Gets n h; sized = refl }

pub u32-Carries : (n : ℕ) → IsU32 n → Carries (put_u32 n) get_u32 4 n
u32-Carries n h = record {
  bytes = _;
  puts = u32-Puts n;
  gets = u32-Gets n h;
  sized = length-shifted_bytes 4 0 n;
}

pub u64-Carries : (n : ℕ) → IsU64 n → Carries (put_u64 n) get_u64 8 n
u64-Carries n h = record {
  bytes = _;
  puts = u64-Puts n;
  gets = u64-Gets n h;
  sized = length-shifted_bytes 8 0 n;
}

pub i32-Carries : (n : ℕ) → IsU32 n → Carries (put_i32 n) get_i32 4 n
unfolding put_i32 get_i32
i32-Carries = u32-Carries

pub f32-Carries : (n : ℕ) → IsU32 n → Carries (put_f32 n) get_f32 4 n
unfolding put_f32 get_f32
f32-Carries = u32-Carries

pub f64-Carries : (n : ℕ) → IsU64 n → Carries (put_f64 n) get_f64 8 n
unfolding put_f64 get_f64
f64-Carries = u64-Carries

pub bytes-Carries :
    (size : ℕ) (value : List ℕ)
    → length value ≡ size
    → Carries (put_bytes value) (get_bytes size) size value
bytes-Carries size value e = record {
  bytes = value;
  puts = bytes-Puts value;
  gets = bytes-Gets size value e;
  sized = e;
}

-- A std::array of words.
array-Carries :
    (put : ℕ → Put) (get : Reader ℕ) (write : ℕ → List ℕ) (P : ℕ → Type 0) (count size : ℕ)
    → ((n : ℕ) → Puts (put n) (write n))
    → ((n : ℕ) → P n → Reads get (write n) n)
    → ((n : ℕ) → length (write n) ≡ size)
    → (items : List ℕ) → IsArray count P items
    → Carries (put_each put items) (Reader.array count get) (count * size) items
array-Carries put get write P count size puts gets sized items h = record {
  bytes = Writer.array write items;
  puts = put_each-Puts put write puts items;
  gets = array-Reads write get P count gets items h;
  sized = length-words write size count items sized h.0;
}

pub u8s-Carries :
    (count : ℕ) (items : List ℕ)
    → IsArray count IsU8 items
    → Carries (put_each put_u8 items) (Reader.array count get_u8) (count * 1) items
u8s-Carries count items h =
    array-Carries put_u8 get_u8 _ IsU8 count 1 u8-Puts u8-Gets (λ n. refl) items h

pub f32s-Carries :
    (count : ℕ) (items : List ℕ)
    → IsArray count IsU32 items
    → Carries (put_each put_f32 items) (Reader.array count get_f32) (count * 4) items
f32s-Carries count items h =
    array-Carries put_f32 get_f32 _ IsU32 count 4 f32-Puts f32-Gets (length-shifted_bytes 4 0) items
      h

pub f64s-Carries :
    (count : ℕ) (items : List ℕ)
    → IsArray count IsU64 items
    → Carries (put_each put_f64 items) (Reader.array count get_f64) (count * 8) items
f64s-Carries count items h =
    array-Carries put_f64 get_f64 _ IsU64 count 8 f64-Puts f64-Gets (length-shifted_bytes 8 0) items
      h
