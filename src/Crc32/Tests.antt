-- ===== src/Crc32/Tests.antt =====
-- Known checksums of src/crc32.cpp, of the nine bytes 123456789.
use tms.Prelude.{ℕ, ◌≡◌, refl, List, [], ◌∷◌}
use tms.Crc32.{
  get_crc32, new_crc32, static_tables, hls_type, stun_type, sctp_type, entries, rounds, low_round,
  swapped,
}
use tms.Crc32.Sctp.{sctp_table}

abbrev digits : List ℕ
digits = 0x31 ∷ 0x32 ∷ 0x33 ∷ 0x34 ∷ 0x35 ∷ 0x36 ∷ 0x37 ∷ 0x38 ∷ 0x39 ∷ []

hls_check : get_crc32 hls_type (new_crc32 hls_type static_tables) digits ≡ 0x0376E6E7
unfolding get_crc32 new_crc32 static_tables
hls_check = refl

stun_check : get_crc32 stun_type (new_crc32 stun_type static_tables) digits ≡ 0xCBF43926
unfolding get_crc32 new_crc32 static_tables
stun_check = refl

sctp_check : swapped (get_crc32 sctp_type (new_crc32 sctp_type static_tables) digits) ≡ 0xE3069283
unfolding get_crc32 new_crc32 static_tables swapped
sctp_check = refl

-- The constants are those of the polynomial 0x1EDC6F41 with its bits the other way round.
sctp_table-entries : sctp_table ≡ entries 256 0 (rounds 8 (low_round 0x82F63B78))
unfolding sctp_table entries rounds low_round
sctp_table-entries = refl
