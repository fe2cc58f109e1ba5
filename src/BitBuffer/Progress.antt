-- ===== src/BitBuffer/Progress.antt =====
-- How far the calls of `BitBuffer` move the cursor.
use tms.Prelude.{ℕ, ◌+◌, ◌*◌, ◌^◌, ◌≤◌, ◌<◌, List, ◌≡◌, arith, true, false, some}
use tms.BitBuffer.{BitBuffer, bits_left, more_than_bits, more_than_bytes, get_bytes, get_string}

-- A successful `GetBytes` uses up the bits of its bytes.
pub get_bytes-left :
    (w n : ℕ) (b b' : BitBuffer) (x : ℕ)
    → 0 < n
    → get_bytes w n b ≡ (true, x, b')
    → bits_left b' + n * 8 ≡ bits_left b
unfolding get_bytes more_than_bits bits_left
get_bytes-left w n b b' x h e = ground arith

-- A failed one does not move.
pub get_bytes-stays :
    (w n : ℕ) (b b' : BitBuffer) (x : ℕ) → get_bytes w n b ≡ (false, x, b') → b' ≡ b
unfolding get_bytes
get_bytes-stays w n b b' x e = ground arith

-- Where the bytes are there `GetBytes` succeeds.
pub get_bytes-there :
    (w n : ℕ) (b : BitBuffer) → more_than_bytes n b ≡ true → (get_bytes w n b).0 ≡ true
unfolding get_bytes more_than_bytes
get_bytes-there w n b h = ground arith

pub get_string-left :
    (n : ℕ) (b b' : BitBuffer) (s : List ℕ)
    → get_string n b ≡ some (s, b')
    → bits_left b' ≤ bits_left b
unfolding get_string bits_left
get_string-left n b b' s e = ground arith

pub get_bytes-le : (w n : ℕ) (b : BitBuffer) → bits_left (get_bytes w n b).2 ≤ bits_left b
unfolding get_bytes more_than_bits bits_left
get_bytes-le w n b = ground arith

pub get_bytes-takes :
    (w n : ℕ) (b : BitBuffer)
    → 0 < n
    → more_than_bytes n b ≡ true
    → bits_left (get_bytes w n b).2 + n * 8 ≡ bits_left b
unfolding get_bytes more_than_bytes more_than_bits bits_left
get_bytes-takes w n b h e = ground arith

pub u32-lt : (n : ℕ) (b : BitBuffer) → (get_bytes 32 n b).1 < 2 ^ 32
unfolding get_bytes
u32-lt n b = ground arith
