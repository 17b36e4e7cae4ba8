-- ===== src/Ipc/Payload/Puts.antt =====
-- What a method of the writer appends if there is room.
use ht2mp.Prelude.{
  ℕ, zero, suc, ◌+◌, ◌/◌, ◌%◌, ◌^◌, ◌≤◌, ◌≡◌, refl, arith, Bool, true, some, List, [], ◌∷◌, ◌++◌,
  length, length-append, append_assoc, append-nil, ◌∙◌,
}
use ht2mp.Protocol.Writer
use ht2mp.Ipc.Payload.{
  PayloadWriter, Put, append, shifted_bytes, put_u8, put_u16, put_u32, put_u64, put_i32, put_f32,
  put_f64, put_bytes, all_of, put_each, ensure,
}

pub record Puts (put : Put) (bytes : List ℕ) : Type 0 where
  pub on :
      (w : PayloadWriter)
      → length w.bytes + length bytes ≤ w.capacity
      → put w ≡ some (append w bytes)

pub length-shifted_bytes :
    (count shift value : ℕ) → length (shifted_bytes count shift value) ≡ count
unfolding shifted_bytes
length-shifted_bytes zero shift value = refl
length-shifted_bytes (suc count) shift value =
    omega (arith, length-shifted_bytes count (shift + 8) value)

pub u8-Puts : (value : ℕ) → Puts (put_u8 value) (value % 2 ^ 8 ∷ [])
unfolding put_u8
u8-Puts value = record { on = λ w room. ground arith }

pub u16-Puts : (value : ℕ) → Puts (put_u16 value) (value % 2 ^ 8 ∷ value / 2 ^ 8 % 2 ^ 8 ∷ [])
unfolding put_u16
u16-Puts value = record { on = λ w room. ground arith }

pub u32-Puts : (value : ℕ) → Puts (put_u32 value) (shifted_bytes 4 0 value)
unfolding put_u32
u32-Puts value = record { on = λ w room. ground (arith, length-shifted_bytes 4 0 value) }

pub u64-Puts : (value : ℕ) → Puts (put_u64 value) (shifted_bytes 8 0 value)
unfolding put_u64
u64-Puts value = record { on = λ w room. ground (arith, length-shifted_bytes 8 0 value) }

pub i32-Puts : (value : ℕ) → Puts (put_i32 value) (shifted_bytes 4 0 value)
unfolding put_i32
i32-Puts = u32-Puts

pub f32-Puts : (value : ℕ) → Puts (put_f32 value) (shifted_bytes 4 0 value)
unfolding put_f32
f32-Puts = u32-Puts

pub f64-Puts : (value : ℕ) → Puts (put_f64 value) (shifted_bytes 8 0 value)
unfolding put_f64
f64-Puts = u64-Puts

pub bytes-Puts : (value : List ℕ) → Puts (put_bytes value) value
unfolding put_bytes
bytes-Puts value = record { on = λ w room. ground arith }

pub ensure-Puts : (b : Bool) → b ≡ true → Puts (ensure b) []
unfolding ensure
ensure-Puts b e = record { on = λ w room. rw (e, append-nil) }

pub all_of-nil : Puts (all_of []) []
unfolding all_of
all_of-nil = record { on = λ w room. rw append-nil }

pub all_of-Puts :
    (put : Put) (puts : List Put) {bytes more : List ℕ}
    → Puts put bytes
    → Puts (all_of puts) more
    → Puts (all_of (put ∷ puts)) (bytes ++ more)
unfolding all_of
all_of-Puts put puts {bytes} {more} h k = record {
  on = λ w room.
      let sizes = length-append bytes more in
      let done = length-append w.bytes bytes in
      rw (all_of, h.on w (omega (arith, sizes)))
        (k.on (append w bytes) (omega (arith, sizes, done))
          ∙ rw (append_assoc w.bytes bytes more) refl);
}

pub put_each-Puts :
    (put : ℕ → Put) (write : ℕ → List ℕ)
    → ((value : ℕ) → Puts (put value) (write value))
    → (values : List ℕ) → Puts (put_each put values) (Writer.array write values)
unfolding put_each Writer.array
put_each-Puts put write each [] = record { on = λ w room. rw append-nil }
put_each-Puts put write each (value ∷ values) = record {
  on = λ w room.
      let more = Writer.array write values in
      let sizes = length-append (write value) more in
      let done = length-append w.bytes (write value) in
      rw (put_each, (each value).on w (omega (arith, sizes)))
        ((put_each-Puts put write each values).on (append w (write value))
            (omega (arith, sizes, done))
          ∙ rw (append_assoc w.bytes (write value) more) refl);
}
