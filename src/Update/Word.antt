-- ===== src/Update/Word.antt =====
-- The 64-bit words of kmod/update.c: a load through `(const u64 *)buf`, and the macros `LZB`, `TZB`,
-- `LAST_BYTE` and `SPREAD` in their little-endian form. `__builtin_ctzll` and `__builtin_clzll` are
-- counted on words of 64 bits, bit by bit.
pub mod Count
pub mod Agree
pub mod Located
use p4_hmd.Base.{ℕ, zero, suc, ◌+◌, ◌*◌, ◌/◌, ◌%◌, ◌^◌, ◌<◌, u8, u64, ◌>>>◌, Bool, true, false}
use p4_hmd.Base.{◌==◌, ltb}

-- A buffer behind a `const u8 *`.
abbrev pub Buffer : Type 0
Buffer = ℕ → ℕ

abbrev pub IsBytes : Buffer → Type 0
IsBytes f = (j : ℕ) → f j < 256

-- The first `n` bytes, least significant first.
unfoldable pub bytes_value : ℕ → Buffer → ℕ
bytes_value zero f = 0
bytes_value (suc n) f = bytes_value n (λ j. f (suc j)) * 2 ^ 8 + f 0

-- `buf + k`
abbrev pub at : Buffer → ℕ → Buffer
at buf k = λ j. buf (k + j)

-- `((const u64 *)buf)[i]` on a little-endian machine.
unfoldable pub load64 : Buffer → ℕ → ℕ
load64 buf i = bytes_value 8 (at buf (i * 8))

-- Zero bits from the least significant one on, of a word of `k` bits.
unfoldable pub ctz : ℕ → ℕ → ℕ
ctz zero x = 0
ctz (suc k) x = elim (x % 2 == 0) [ true ↦ suc (ctz k (x / 2)) | false ↦ 0 ]

-- Zero bits from the most significant one on, of a word of `k` bits.
unfoldable pub clz : ℕ → ℕ → ℕ
clz zero x = 0
clz (suc k) x = elim (ltb x (2 ^ k)) [ true ↦ suc (clz k x) | false ↦ 0 ]

unfoldable pub lzb : ℕ → ℕ
lzb w = ctz 64 w >>> 3

unfoldable pub tzb : ℕ → ℕ
tzb w = clz 64 w >>> 3

unfoldable pub last_byte : ℕ → ℕ
last_byte w = u8 (w >>> 56)

unfoldable pub spread : ℕ → ℕ
spread b = u64 (b * 0x0101010101010101)
