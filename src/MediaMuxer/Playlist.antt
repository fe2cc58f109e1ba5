-- ===== src/MediaMuxer/Playlist.antt =====
-- `UpdateM3U8` of src/media_muxer.cpp: the list of the last three segments. The text of a double is a
-- parameter, given the two time stamps of which the duration is the difference in thousandths.
use Prim.Native.Char.{code}
use Prim.Native.String.{String}
use tms.Prelude.{
  ℕ, zero, suc, ◌+◌, ◌-◌, ◌/◌, ◌%◌, ◌^◌, List, [], ◌∷◌, ◌++◌, ◌==◌, ltb, if◌then◌else◌, length,
  none, some,
}
use tms.MediaMuxer.{MediaMuxer, TsMedia, new_ts_media}
use tms.MediaMuxer.Frames.{alter, find, last_key}

abbrev pub codes : String → List ℕ
codes String.[] = []
codes (String.◌∷◌ c s) = code c ∷ codes s

-- The digits of a number with at most as many as the fuel, in front of a text.
decimal_from : ℕ → ℕ → List ℕ → List ℕ
decimal_from zero n text = text
decimal_from (suc fuel) n text =
    let digits = (48 + n % 10) ∷ text in
    let more = decimal_from fuel (n / 10) digits in if n / 10 == 0 then digits else more

-- A number of at most 64 bits, which has at most twenty digits.
unfoldable pub decimal : ℕ → List ℕ
unfolding decimal_from
decimal n = decimal_from 20 n []

-- The longest duration, each rounded up to seconds.
unfoldable pub longest : ℕ → List (ℕ × TsMedia) → ℕ
longest duration [] = duration
longest duration ((k, t) ∷ q) =
    let d = (t.last_dts - t.first_dts + 999) / 1000 in
    longest (if ltb duration d then d else duration) q

-- `ts_queue_[k]`, which makes an empty segment where there is none.
unfoldable pub touch : ℕ → List (ℕ × TsMedia) → List (ℕ × TsMedia)
unfolding alter
touch k q = alter k new_ts_media (λ t. t) q

module _ (seconds : ℕ → ℕ → List ℕ) where
  unfoldable pub duration_text : ℕ → List (ℕ × TsMedia) → List ℕ
  unfolding find
  duration_text k q = elim (find k q) [ none ↦ [] | some t ↦ seconds t.last_dts t.first_dts ]

  unfoldable pub segment_lines : ℕ → List (ℕ × TsMedia) → List ℕ
  unfolding duration_text decimal
  segment_lines k q =
      codes "#EXTINF:" ++ (duration_text k q ++ (codes "\n" ++ (decimal k ++ codes ".ts\n")))

  -- Keys are of 64 bits, and the sequence number of 32.
  unfoldable pub update_m3u8 : MediaMuxer → MediaMuxer
  unfolding longest touch segment_lines decimal last_key
  update_m3u8 m =
      if ltb (length m.ts_queue) 3
      then m
      else (let last = last_key 0 m.ts_queue % 2 ^ 32 in
          let second = (last + 2 ^ 32 - 1) % 2 ^ 32 in
          let first = (last + 2 ^ 32 - 2) % 2 ^ 32 in
          let q = touch last (touch second (touch first m.ts_queue)) in
          record m {
            ts_queue = q;
            m3u8 =
                codes "#EXTM3U\n#EXT-X-VERSION:3\n#EXT-X-ALLOW-CACHE:NO\n#EXT-X-TARGETDURATION:"
                ++ (decimal (longest 0 m.ts_queue)
                    ++ (codes "\n#EXT-X-MEDIA-SEQUENCE:"
                        ++ (decimal last
                            ++ (codes "\n"
                                ++ (segment_lines first q
                                    ++ (segment_lines second q
                                        ++ (segment_lines last q ++ codes "\n")))))));
          })
