-- ===== src/TsReader/Pat.antt =====
-- `ParsePAT` of src/ts_reader.cpp on the table that `PacketTsPat` of src/media_muxer.cpp makes.
use tms.Prelude.{
  ℕ, zero, suc, ◌+◌, ◌-◌, ◌*◌, ◌%◌, ◌^◌, ◌<◌, ◌≤◌, List, [], ◌∷◌, ◌++◌, ◌≡◌, refl, sym, ap, ◌∙◌,
  arith, some, none, length, drop, take, Option, replicate, All, IsByte,
}
use tms.Crc32
use tms.BitBuffer.Bounds.{get_bits-bits_value}
use tms.BitBuffer.Value.{bits_value}
use tms.BitStream.{
  BitStream, Write, bits, bytes, text, write_all, new_stream, of_size, written, size_in_bytes,
}
use tms.BitStream.Size.{cost, cost_all, write_all-Moved}
use tms.BitStream.Wrote.{ProperAll}
use tms.BitStream.RoundTrip.{at}
use tms.BitStream.Field.{write_all-of_size, value_at, write_all-append}
use tms.MediaMuxer.{MediaMuxer, next_counter}
use tms.MediaMuxer.Tables.{ts_header, pat_section, finish, table_packet, packet_ts_pat}
use tms.TsReader.{TsReader, get, pass, parse_pat}

pub get-at :
    (w n : ℕ) (bs : List ℕ) (pos : ℕ)
    → pos + n ≤ length bs * 8
    → get w n (at bs pos) ≡ (bits_value bs n pos 0 % 2 ^ w, at bs (pos + n))
unfolding get
get-at w n bs pos fits =
    ground
      (arith, get_bits-bits_value w n (at bs pos) (record { whole = refl; within = omega arith }))

abbrev pub width : List ℕ → ℕ
width [] = 0
width (n ∷ ns) = n + width ns

pub pass-at :
    (ns : List ℕ) (bs : List ℕ) (pos : ℕ)
    → pos + width ns ≤ length bs * 8
    → pass ns (at bs pos) ≡ at bs (pos + width ns)
unfolding pass
pass-at [] bs pos fits = ap (at bs) (omega arith)
pass-at (n ∷ ns) bs pos fits =
    ap (λ r. pass ns r.1) (get-at 64 n bs pos (omega arith))
    ∙ pass-at ns bs (pos + n) (omega arith)
    ∙ ap (at bs) (omega arith)

-- The reader takes the number from 13 bits at a fixed place.
pub parse_pat-at :
    (bs : List ℕ) (r : TsReader)
    → length bs ≡ 188
    → bits_value bs 16 104 0 ≡ 1
    → (parse_pat (at bs 40) r).0 ≡ record r { pmt_pid = bits_value bs 13 123 0 % 2 ^ 16 }
unfolding parse_pat
parse_pat-at bs r l one =
    rw
      (
        pass-at (8 ∷ 1 ∷ 1 ∷ 2 ∷ 12 ∷ 16 ∷ 2 ∷ 5 ∷ 1 ∷ 8 ∷ 8 ∷ []) bs 40 (omega arith),
        get-at 16 16 bs 104 (omega arith),
        pass-at (3 ∷ []) bs 120 (omega arith),
        get-at 16 13 bs 123 (omega arith),
        one,
      )
      refl

replicate-IsByte : (n : ℕ) → All IsByte (replicate n 0xFF)
replicate-IsByte zero = tt
replicate-IsByte (suc n) = (omega arith, replicate-IsByte n)

-- The calls of `PacketTsPat`: those before the checksum, and with it.
abbrev pub front : ℕ → ℕ → List Write
front pid counter = ts_header 0 counter ++ pat_section pid

abbrev pub rest : ℕ → List Write
rest sum = bytes 4 sum ∷ text (replicate 167 0xFF) ∷ []

abbrev pub calls : ℕ → ℕ → ℕ → List Write
calls pid counter sum = front pid counter ++ rest sum

pub calls-Proper : (pid counter sum : ℕ) → ProperAll 0 (calls pid counter sum)
unfolding pat_section cost
calls-Proper pid counter sum = (
  refl,
  (
    tt,
    (
      tt,
      (
        tt,
        (
          tt,
          (
            tt,
            (
              tt,
              (
                tt,
                (
                  refl,
                  (
                    tt,
                    (
                      tt,
                      (
                        tt,
                        (
                          tt,
                          (
                            tt,
                            (
                              tt,
                              (
                                tt,
                                (
                                  tt,
                                  (
                                    tt,
                                    (
                                      tt,
                                      (tt, (tt, (tt, (refl, ((refl, replicate-IsByte 167), tt))))),
                                    ),
                                  ),
                                ),
                              ),
                            ),
                          ),
                        ),
                      ),
                    ),
                  ),
                ),
              ),
            ),
          ),
        ),
      ),
    ),
  ),
)

pub cost_all-calls : (pid counter sum : ℕ) → cost_all (calls pid counter sum) ≡ 1504
unfolding pat_section cost_all
cost_all-calls pid counter sum = refl

cost_all-front : (pid counter : ℕ) → cost_all (front pid counter) ≡ 136
unfolding pat_section cost_all
cost_all-front pid counter = refl

made-of_size :
    (pid counter sum : ℕ)
    → (s : BitStream) × (write_all (calls pid counter sum) (of_size 16384) ≡ some s)
      × (length (written s) ≡ 188)
made-of_size pid counter sum =
    let c = cost_all-calls pid counter sum in
    let (s, made, l) =
      write_all-of_size 16384 (calls pid counter sum) (calls-Proper pid counter sum) (omega arith)
        (omega arith) in
    (s, made, omega arith)

front-front :
    (pid counter : ℕ)
    → (u : BitStream) × (write_all (front pid counter) (of_size 16384) ≡ some u)
      × (size_in_bytes u ≡ 17)
unfolding of_size size_in_bytes
front-front pid counter =
    let c = cost_all-front pid counter in
    let (u, e, moved) = write_all-Moved (front pid counter) (of_size 16384) refl (omega arith) in
    (u, e, omega arith)

finish-rest :
    (t : Crc32.Tables) (u s : BitStream)
    → size_in_bytes u ≡ 17
    → write_all (rest (Crc32.get_crc32 Crc32.hls_type t (drop 5 (written u)))) u ≡ some s
    → finish t u ≡ some s
unfolding finish
finish-rest t u s long end =
    let sum = Crc32.get_crc32 Crc32.hls_type t (drop 5 (written u)) in
    ap (λ n. write_all (bytes 4 sum ∷ text (replicate (188 - (n + 4)) 0xFF) ∷ []) u) long ∙ end

-- The packet is what the calls write.
table_packet-written :
    (t : Crc32.Tables) (pid counter : ℕ) (u s : BitStream)
    → write_all (front pid counter) (of_size 16384) ≡ some u
    → finish t u ≡ some s
    → table_packet t 0 counter (pat_section pid) ≡ some (written s)
unfolding table_packet new_stream
table_packet-written t pid counter u s e f =
    ap {A = Option BitStream} {B = Option (List ℕ)}
      (λ r. elim r [
        | none ↦ none
        | some v ↦ elim (finish t v) [ none ↦ none | some w ↦ some (written w) ]
      ])
      e
    ∙ ap {A = Option BitStream} {B = Option (List ℕ)}
        (λ r. elim r [ none ↦ none | some w ↦ some (written w) ]) f

pub table_packet-calls :
    (t : Crc32.Tables) (pid counter : ℕ)
    → (sum : ℕ) × (s : BitStream) × (write_all (calls pid counter sum) (of_size 16384) ≡ some s)
      × (length (written s) ≡ 188)
      × (table_packet t 0 counter (pat_section pid) ≡ some (written s))
table_packet-calls t pid counter =
    let (u, e, long) = front-front pid counter in
    let sum = Crc32.get_crc32 Crc32.hls_type t (drop 5 (written u)) in
    let (s, made, l) = made-of_size pid counter sum in
    let end = sym (write_all-append (front pid counter) (rest sum) (of_size 16384) u e) ∙ made in
    (sum, s, made, l, table_packet-written t pid counter u s e (finish-rest t u s long end))

-- The program's number and the number of its map table, where the reader looks.
pub program-calls :
    (pid counter sum : ℕ) (s : BitStream)
    → write_all (calls pid counter sum) (of_size 16384) ≡ some s
    → bits_value (written s) 16 104 0 ≡ 1
unfolding pat_section cost cost_all
program-calls pid counter sum s made =
    let c = cost_all-calls pid counter sum in
    value_at 16384 (take 19 (calls pid counter sum)) (drop 20 (calls pid counter sum)) (bits 16 1) s
      (calls-Proper pid counter sum) (omega arith) (omega arith) made

pub pid-calls :
    (pid counter sum : ℕ) (s : BitStream)
    → write_all (calls pid counter sum) (of_size 16384) ≡ some s
    → bits_value (written s) 13 123 0 ≡ pid % 2 ^ 13
unfolding pat_section cost cost_all
pid-calls pid counter sum s made =
    let c = cost_all-calls pid counter sum in
    value_at 16384 (take 21 (calls pid counter sum)) (drop 22 (calls pid counter sum)) (bits 13 pid)
      s (calls-Proper pid counter sum) (omega arith) (omega arith) made

pub packet_ts_pat-first :
    (m : MediaMuxer) (pat : List ℕ)
    → length m.ts_pat < 4
    → table_packet m.crc_32 0 m.ts_pat_continuity_counter (pat_section m.ts_pmt_pid) ≡ some pat
    → (m' : MediaMuxer) × (packet_ts_pat m ≡ some (pat, m'))
unfolding packet_ts_pat
packet_ts_pat-first m pat first e = (
  record m { ts_pat_continuity_counter = next_counter m.ts_pat_continuity_counter; ts_pat = pat },
  ground arith,
)
