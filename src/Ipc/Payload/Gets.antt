-- ===== src/Ipc/Payload/Gets.antt =====
-- What the writer's methods append, the reader's methods give back.
use Prim.Native.Nat.{bit_or}
use ht2mp.Prelude.{
  ℕ, ◌+◌, ◌*◌, ◌/◌, ◌%◌, ◌^◌, ◌<◌, ◌≡◌, arith, some, List, [], ◌∷◌, length, ◌∙◌, ap, length-append,
}
use ht2mp.Prelude.Bits.{bit_or_disjoint}
use ht2mp.Protocol.Ranges.{IsU8, IsU16, IsU32, IsU64}
use ht2mp.Protocol.Wire.Reads.{Reads}
use ht2mp.Protocol.Wire.Words.{raw_take, raw_drop}
use ht2mp.Ipc.Payload.Puts.{length-shifted_bytes}
use ht2mp.Ipc.Payload.{
  shifted_bytes, get_u8, get_u16, get_u32, get_u64, get_i32, get_f32, get_f64, get_bytes,
  join_bytes,
}

pub u8-Gets : (n : ℕ) → IsU8 n → Reads get_u8 (n % 2 ^ 8 ∷ []) n
unfolding get_u8
u8-Gets n h = record { on = λ rest. ground arith }

pub u16-Gets : (n : ℕ) → IsU16 n → Reads get_u16 (n % 2 ^ 8 ∷ n / 2 ^ 8 % 2 ^ 8 ∷ []) n
unfolding get_u16
u16-Gets n h = record { on = λ rest. ap (λ (v : ℕ). some (v, rest)) joined }
  where
    joined : bit_or (n % 2 ^ 8) (n / 2 ^ 8 % 2 ^ 8 * 2 ^ 8) % 2 ^ 16 ≡ n
    joined = omega (arith, bit_or_disjoint 8 (n % 2 ^ 8) (n / 2 ^ 8 % 2 ^ 8) (omega arith))

-- One round of the loop: the byte at a shift of `k` joins the `k` bits below it.
abbrev Joins : ℕ → ℕ → ℕ → Type 0
Joins width k n = bit_or (n % 2 ^ k) (n / 2 ^ k % 2 ^ 8 * 2 ^ k % 2 ^ width) ≡ n % 2 ^ (k + 8)

joins :
    (width k n : ℕ)
    → n / 2 ^ k % 2 ^ 8 * 2 ^ k % 2 ^ width ≡ n / 2 ^ k % 2 ^ 8 * 2 ^ k
    → n % 2 ^ k + n / 2 ^ k % 2 ^ 8 * 2 ^ k ≡ n % 2 ^ (k + 8)
    → n % 2 ^ k < 2 ^ k
    → Joins width k n
joins width k n fits sum small =
    ap (bit_or (n % 2 ^ k)) fits ∙ bit_or_disjoint k (n % 2 ^ k) (n / 2 ^ k % 2 ^ 8) small ∙ sum

-- The first round.
joins_first :
    (width n : ℕ)
    → n / 2 ^ 0 % 2 ^ 8 * 2 ^ 0 % 2 ^ width ≡ n % 2 ^ 8
    → bit_or 0 (n / 2 ^ 0 % 2 ^ 8 * 2 ^ 0 % 2 ^ width) ≡ n % 2 ^ 8
joins_first width n fits =
    ap (bit_or 0) (fits ∙ omega arith) ∙ bit_or_disjoint 0 0 (n % 2 ^ 8) (omega arith) ∙ omega arith

joined32 : (n : ℕ) → IsU32 n → join_bytes 32 0 0 (shifted_bytes 4 0 n) ≡ n
unfolding shifted_bytes join_bytes
joined32 n h =
    let at8 = joins 32 8 n (omega arith) (omega arith) (omega arith) in
    let at16 = joins 32 16 n (omega arith) (omega arith) (omega arith) in
    let at24 = joins 32 24 n (omega arith) (omega arith) (omega arith) in
    rw (joins_first 32 n (omega arith), at8, at16, at24) (omega (arith, h))

pub u32-Gets : (n : ℕ) → IsU32 n → Reads get_u32 (shifted_bytes 4 0 n) n
unfolding get_u32
u32-Gets n h = record {
  on = λ rest.
      let e = joined32 n h in
      let size = length-shifted_bytes 4 0 n in
      let front = raw_take (shifted_bytes 4 0 n) rest in
      let back = raw_drop (shifted_bytes 4 0 n) rest in
      ground
        (arith, length-append (shifted_bytes 4 0 n) rest, e, rw size at front, rw size at back);
}

joined64 : (n : ℕ) → IsU64 n → join_bytes 64 0 0 (shifted_bytes 8 0 n) ≡ n
unfolding shifted_bytes join_bytes
joined64 n h =
    let at8 = joins 64 8 n (omega arith) (omega arith) (omega arith) in
    let at16 = joins 64 16 n (omega arith) (omega arith) (omega arith) in
    let at24 = joins 64 24 n (omega arith) (omega arith) (omega arith) in
    let at32 = joins 64 32 n (omega arith) (omega arith) (omega arith) in
    let at40 = joins 64 40 n (omega arith) (omega arith) (omega arith) in
    let at48 = joins 64 48 n (omega arith) (omega arith) (omega arith) in
    let at56 = joins 64 56 n (omega arith) (omega arith) (omega arith) in
    rw (joins_first 64 n (omega arith), at8, at16, at24, at32, at40, at48, at56) (omega (arith, h))

pub u64-Gets : (n : ℕ) → IsU64 n → Reads get_u64 (shifted_bytes 8 0 n) n
unfolding get_u64
u64-Gets n h = record {
  on = λ rest.
      let e = joined64 n h in
      let size = length-shifted_bytes 8 0 n in
      let front = raw_take (shifted_bytes 8 0 n) rest in
      let back = raw_drop (shifted_bytes 8 0 n) rest in
      ground
        (arith, length-append (shifted_bytes 8 0 n) rest, e, rw size at front, rw size at back);
}

pub i32-Gets : (n : ℕ) → IsU32 n → Reads get_i32 (shifted_bytes 4 0 n) n
unfolding get_i32
i32-Gets = u32-Gets

pub f32-Gets : (n : ℕ) → IsU32 n → Reads get_f32 (shifted_bytes 4 0 n) n
unfolding get_f32
f32-Gets = u32-Gets

pub f64-Gets : (n : ℕ) → IsU64 n → Reads get_f64 (shifted_bytes 8 0 n) n
unfolding get_f64
f64-Gets = u64-Gets

pub bytes-Gets :
    (count : ℕ) (value : List ℕ) → length value ≡ count → Reads (get_bytes count) value value
unfolding get_bytes
bytes-Gets count value e = record {
  on = λ rest.
      rw (← e) (ground (arith, length-append value rest, raw_take value rest, raw_drop value rest));
}
