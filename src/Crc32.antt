-- ===== src/Crc32.antt =====
-- `CRC32` (src/crc32.h, src/crc32.cpp): checksums by tables. The tables are static members, which the
-- objects share; they are filled when the first object of a type is made.
pub mod Sctp
mod Tests
use Prim.Native.Nat.{bit_xor}
use tms.Prelude.{
  ℕ, zero, suc, ◌+◌, ◌-◌, ◌*◌, ◌/◌, ◌%◌, ◌^◌, List, [], ◌∷◌, ◌++◌, ◌==◌, if◌then◌else◌, map, get_or,
  leb, replicate, not,
}
use tms.Crc32.Sctp.{sctp_table}

pub record Tables : Type 0 where
  pub stun : List ℕ
  pub hls : List ℕ
  pub sctp : List ℕ

-- The members before any object is made.
unfoldable pub static_tables : Tables
unfolding sctp_table
static_tables = record { stun = replicate 256 0; hls = replicate 256 0; sctp = sctp_table }

abbrev pub hls_type : ℕ
hls_type = 0

abbrev pub stun_type : ℕ
stun_type = 1

abbrev pub sctp_type : ℕ
sctp_type = 2

-- A round of the inner loop of `MakeStunTable` and `MakeSctpTable`.
unfoldable pub low_round : ℕ → ℕ → ℕ
low_round polynomial c = if c % 2 == 1 then bit_xor polynomial (c / 2) else c / 2

unfoldable pub rounds : ℕ → (ℕ → ℕ) → ℕ → ℕ
rounds zero f c = c
rounds (suc n) f c = rounds n f (f c)

-- `f i`, `f (i + 1)`, and so on, `n` entries.
unfoldable pub entries : ℕ → ℕ → (ℕ → ℕ) → List ℕ
entries zero i f = []
entries (suc n) i f = f i ∷ entries n (i + 1) f

-- `k = (k << 1) ^ (((k ^ j) & 0x80000000) ? 0x04c11db7 : 0)`, on 32 bits.
unfoldable pub hls_round : ℕ → ℕ → ℕ
hls_round j k = bit_xor (k * 2 % 2 ^ 32) (if bit_xor k j / 2 ^ 31 % 2 == 1 then 0x04c11db7 else 0)

-- The inner loop of `MakeHlsTable`, with `n` rounds left. `j` begins as `(i << 24) | 0x800000` and
-- is 0x80000000 after eight.
unfoldable pub hls_entry : ℕ → ℕ → ℕ → ℕ
unfolding hls_round
hls_entry zero j k = k
hls_entry (suc n) j k = if j == 0x80000000 then k else hls_entry n (j * 2 % 2 ^ 32) (hls_round j k)

unfoldable pub make_stun_table : Tables → Tables
unfolding entries rounds low_round
make_stun_table t =
    if not (get_or t.stun 1 0 == 0)
    then t
    else record t { stun = entries 256 0 (rounds 8 (low_round 0xEDB88320)) }

unfoldable pub make_sctp_table : Tables → Tables
unfolding entries rounds low_round
make_sctp_table t =
    if not (get_or t.sctp 1 0 == 0)
    then t
    else record t { sctp = entries 256 0 (rounds 8 (low_round 0x1EDC6F41)) }

unfoldable pub make_hls_table : Tables → Tables
unfolding entries hls_entry
make_hls_table t =
    if not (get_or t.hls 1 0 == 0)
    then t
    else record t { hls = entries 256 0 (λ i. hls_entry 32 (i * 2 ^ 24 + 0x800000) 0) }

-- The constructor.
unfoldable pub new_crc32 : ℕ → Tables → Tables
unfolding make_hls_table make_stun_table make_sctp_table
new_crc32 type t =
    if type == hls_type
    then make_hls_table t
    else if type == stun_type
    then make_stun_table t
    else if type == sctp_type
    then make_sctp_table t
    else t

-- The loop of the STUN and SCTP checksums.
unfoldable pub low_loop : List ℕ → ℕ → List ℕ → ℕ
low_loop table c [] = c
low_loop table c (d ∷ bs) =
    low_loop table (bit_xor (get_or table (bit_xor c d % 256) 0) (c / 256)) bs

-- The loop of the HLS checksum.
unfoldable pub hls_loop : List ℕ → ℕ → List ℕ → ℕ
hls_loop table c [] = c
hls_loop table c (d ∷ bs) =
    hls_loop table (bit_xor (c * 256 % 2 ^ 32) (get_or table (bit_xor (c / 2 ^ 24) d % 256) 0)) bs

-- The bytes of a 32-bit number, the other way round.
unfoldable pub swapped : ℕ → ℕ
swapped r =
    r % 256 * 2 ^ 24 + r / 2 ^ 8 % 256 * 2 ^ 16 + r / 2 ^ 16 % 256 * 2 ^ 8 + r / 2 ^ 24 % 256

-- `GetCrc32`. The constructor has filled the table of its type.
unfoldable pub get_crc32 : ℕ → Tables → List ℕ → ℕ
unfolding low_loop hls_loop swapped
get_crc32 type t bs =
    if type == stun_type
    then bit_xor (low_loop t.stun (bit_xor 0 0xFFFFFFFF) bs) 0xFFFFFFFF
    else if type == hls_type
    then hls_loop t.hls 0xffffffff bs
    else if type == sctp_type
    then swapped (0xFFFFFFFF - low_loop t.sctp 0xFFFFFFFF bs)
    else 0
