-- ===== src/Rotation/Ops.antt =====
-- The primitives of kmod/rotation_ops.h on 64-bit words and buffers.
pub mod Transpose
pub mod Pack
pub mod Block
use p4_hmd.Base.{ℕ, ◌+◌, ◌*◌, ◌/◌, ◌%◌, ◌^◌, u8, u64, ◌<<<◌, ◌>>>◌, bit_and, bit_or, bit_xor}
use p4_hmd.Base.{Bool, true, false, ◌==◌, if◌then◌else◌}
use p4_hmd.Update.Word.{Buffer}
use p4_hmd.Update.Packet.{bitrev8}

unfoldable pub gather8_rot : Buffer → ℕ → ℕ
gather8_rot s stride =
    bit_or
      (bit_or
        (bit_or
          (bit_or
            (bit_or
              (bit_or (bit_or (bitrev8 (s (0 * stride)) <<< 56) (bitrev8 (s (1 * stride)) <<< 48))
                (bitrev8 (s (2 * stride)) <<< 40))
              (bitrev8 (s (3 * stride)) <<< 32))
            (bitrev8 (s (4 * stride)) <<< 24))
          (bitrev8 (s (5 * stride)) <<< 16))
        (bitrev8 (s (6 * stride)) <<< 8))
      (bitrev8 (s (7 * stride)))

-- `d[i] = x` for a byte `d[i]`.
abbrev pub store : Buffer → ℕ → ℕ → Buffer
store d i x = λ j. if j == i then u8 x else d j

-- `scatter8_rot` at the pointer `d + at`.
unfoldable pub scatter8_rot : Buffer → ℕ → ℕ → ℕ → Buffer
scatter8_rot d at stride x =
    let d0 = store d (at + 0 * stride) (x >>> 56) in
    let d1 = store d0 (at + 1 * stride) (x >>> 48) in
    let d2 = store d1 (at + 2 * stride) (x >>> 40) in
    let d3 = store d2 (at + 3 * stride) (x >>> 32) in
    let d4 = store d3 (at + 4 * stride) (x >>> 24) in
    let d5 = store d4 (at + 5 * stride) (x >>> 16) in
    let d6 = store d5 (at + 6 * stride) (x >>> 8) in store d6 (at + 7 * stride) x

-- One of the three stages of `transpose8x8_rot`.
unfoldable pub delta_swap : ℕ → ℕ → ℕ → ℕ
delta_swap shift mask x =
    let t = bit_and (bit_xor x (x >>> shift)) mask in bit_xor (bit_xor x t) (u64 (t <<< shift))

abbrev pub mask4 : ℕ
mask4 = 0x00000000F0F0F0F0

abbrev pub mask2 : ℕ
mask2 = 0x0000CCCC0000CCCC

abbrev pub mask1 : ℕ
mask1 = 0x00AA00AA00AA00AA

unfoldable pub transpose8x8_rot : ℕ → ℕ
transpose8x8_rot x = delta_swap 7 mask1 (delta_swap 14 mask2 (delta_swap 28 mask4 x))

-- `__builtin_bswap64`: the eight bytes in the other order.
unfoldable pub bswap64 : ℕ → ℕ
bswap64 x =
    u8 x * 2 ^ 56
    + u8 (x >>> 8) * 2 ^ 48
    + u8 (x >>> 16) * 2 ^ 40
    + u8 (x >>> 24) * 2 ^ 32
    + u8 (x >>> 32) * 2 ^ 24
    + u8 (x >>> 40) * 2 ^ 16
    + u8 (x >>> 48) * 2 ^ 8
    + u8 (x >>> 56)
