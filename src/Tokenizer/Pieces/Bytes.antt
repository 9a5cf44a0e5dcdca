-- ===== src/Tokenizer/Pieces/Bytes.antt =====
-- Byte pieces: each of the 256 bytes has its piece, and the piece stands for that byte.
use iom.Base.{
  ◌==◌, ==→eq, ℕ, zero, suc, ◌<◌, ◌≡◌, refl, ap, Bool, true, false, ◌&&◌, Option, none, some, arith,
}
use iom.Tokenizer.Pieces.{byte_piece, is_byte_fallback_piece, hex_digit}

-- Every value below a bound, by evaluation.
every : ℕ → (ℕ → Bool) → Bool
every zero p = true
every (suc n) p = p n && every n p

every_below : (n : ℕ) (p : ℕ → Bool) (x : ℕ) → every n p ≡ true → x < n → p x ≡ true
unfolding every
every_below zero p x e h = absurd (omega arith)
every_below (suc n) p x e h = ground (arith, every_below n p x)

abbrev stands_for : Option ℕ → ℕ → Bool
stands_for none byte = false
stands_for (some b) byte = b == byte

stands_for-some : (r : Option ℕ) (byte : ℕ) → stands_for r byte ≡ true → r ≡ some byte
stands_for-some none byte e = cc
stands_for-some (some b) byte e = ap some (==→eq b byte e)

all_bytes : every 256 (λ b. stands_for (is_byte_fallback_piece (byte_piece b)) b) ≡ true
unfolding every is_byte_fallback_piece byte_piece hex_digit
all_bytes = refl

-- For each byte, `is_byte_fallback_piece` recognises the piece that `byte_piece` makes for it
-- and gives the byte back.
pub is_byte_fallback_piece-byte_piece :
    (byte : ℕ) → byte < 256 → is_byte_fallback_piece (byte_piece byte) ≡ some byte
is_byte_fallback_piece-byte_piece byte h =
    stands_for-some (is_byte_fallback_piece (byte_piece byte)) byte
      (every_below 256 (λ b. stands_for (is_byte_fallback_piece (byte_piece b)) b) byte all_bytes h)
