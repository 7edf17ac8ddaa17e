-- ===== src/Rotation/Ops/Block.antt =====
-- An 8x8 block: its rows, gathered, transposed and swapped, are the columns, the last one first.
use p4_hmd.Base.{ℕ, zero, suc, ◌+◌, ◌-◌, ◌*◌, ◌<◌, ◌≡◌, ◌∙◌, ap, arith}
use p4_hmd.Base.{u8, ◌>>>◌}
use p4_hmd.Base.BitAt.{bit_at, bit_at-mod, bit_at-div}
use p4_hmd.Update.Word.{Buffer, IsBytes}
use p4_hmd.Update.Packet.{bitrev8}
use p4_hmd.Rotation.Ops.{gather8_rot, transpose8x8_rot, bswap64}
use p4_hmd.Rotation.Ops.Transpose.{transposed, transpose_bit}
use p4_hmd.Rotation.Ops.Pack.{pack_bit, gather8_rot-pack, bitrev8_bit, bitrev8-lt}

-- The word that is scattered for the block at `s`.
abbrev pub block_word : Buffer → ℕ → ℕ
block_word s stride = bswap64 (transpose8x8_rot (gather8_rot s stride))

-- The byte that `scatter8_rot` stores at row `k` of the word `x`.
abbrev pub row_byte : ℕ → ℕ → ℕ
row_byte x k = u8 (x >>> (56 - 8 * k))

-- The bytes of a swapped word come in the other order.
bswap64-row_byte : (x k : ℕ) → k < 8 → row_byte (bswap64 x) k ≡ u8 (x >>> (8 * k))
unfolding bswap64
bswap64-row_byte x zero h = omega arith
bswap64-row_byte x (suc zero) h = omega arith
bswap64-row_byte x (suc (suc zero)) h = omega arith
bswap64-row_byte x (suc (suc (suc zero))) h = omega arith
bswap64-row_byte x (suc (suc (suc (suc zero)))) h = omega arith
bswap64-row_byte x (suc (suc (suc (suc (suc zero))))) h = omega arith
bswap64-row_byte x (suc (suc (suc (suc (suc (suc zero)))))) h = omega arith
bswap64-row_byte x (suc (suc (suc (suc (suc (suc (suc zero))))))) h = omega arith
bswap64-row_byte x (suc (suc (suc (suc (suc (suc (suc (suc k)))))))) h = absurd (omega arith)

-- Pixel `c` of row `k` of the rotated block, the leftmost in the highest bit, is pixel `7 - k` of row
-- `c` of the block, the leftmost in the lowest bit.
pub block_pixel :
    (s : Buffer) (stride k c : ℕ)
    → IsBytes s
    → k < 8
    → c < 8
    → bit_at (row_byte (block_word s stride) k) (7 - c) ≡ bit_at (s (c * stride)) (7 - k)
block_pixel s stride k c h hk hc =
    let x = gather8_rot s stride in
    let i = 7 - c + 8 * k in
    let back : transposed i ≡ k + 8 * (8 - 1 - c) = omega arith in
    ap (λ (y : ℕ). bit_at y (7 - c)) (bswap64-row_byte (transpose8x8_rot x) k hk)
    ∙ bit_at-mod 8 (transpose8x8_rot x >>> (8 * k)) (7 - c) (omega arith)
    ∙ bit_at-div (8 * k) (transpose8x8_rot x) (7 - c)
    ∙ transpose_bit x i (omega arith)
    ∙ ap (bit_at x) back
    ∙ ap (λ (y : ℕ). bit_at y (k + 8 * (8 - 1 - c))) (gather8_rot-pack s stride)
    ∙ pack_bit 8 (λ j. bitrev8 (s (j * stride))) c k (λ j. bitrev8-lt (s (j * stride))) hc hk
    ∙ bitrev8_bit (s (c * stride)) k (h (c * stride)) hk
