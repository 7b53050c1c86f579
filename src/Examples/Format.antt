-- ===== src/Examples/Format.antt =====
-- Runs on io.c, ttytime.c and the times of ttyplay.c.
use ovh_ttyrec.Base.{
  List, Option, [], arith, false, if◌then◌else◌, leb, none, pattern_bits, pos, refl, signed32, some,
  take, true, ℕ, ◌++◌, ◌-ℤ◌, ◌==◌, ◌↔◌, ◌∷◌, ◌≡◌,
}
use ovh_ttyrec.Stdio.{File, Sink, fwrite}
use ovh_ttyrec.Header.{Timeval}
use ovh_ttyrec.Io.{
  little, big, encode_header, decode_header, write_header, word_bytes, convert_to_little_endian,
  is_little_endian, swap_endian,
}
use ovh_ttyrec.Io.Layout.{stamp, AreBytes}
use ovh_ttyrec.Io.RoundTrip.{decode-encode_header, encode-decode_header}
use ovh_ttyrec.Io.Read.{write_header_partial}
use ovh_ttyrec.Recording.{Record, Fits, AllFit, file_bytes}
use ovh_ttyrec.Timeval.{timeval_diff}
use ovh_ttyrec.Timeval.Normal.{micros, timeval_diff_iff, micros-timeval_diff}
use ovh_ttyrec.Ttytime.{calc_time}
use ovh_ttyrec.Ttytime.Duration.{calc_time-file_bytes}

-- The bytes in the file of a time after 2106, which needs the shared word.
encode_header_test :
    encode_header little (stamp 4294967297 7 (pos 3))
    ≡ 1 ∷ 0 ∷ 0 ∷ 0 ∷ 7 ∷ 0 ∷ 16 ∷ 0 ∷ 3 ∷ 0 ∷ 0 ∷ 0 ∷ []
unfolding encode_header word_bytes convert_to_little_endian is_little_endian swap_endian
encode_header_test = refl

decode-encode_header_example :
    decode_header big (encode_header little (stamp 4294967297 7 (pos 3)))
    ≡ stamp 4294967297 7 (pos 3)
decode-encode_header_example =
    decode-encode_header little big 4294967297 7 (pos 3) (omega arith) (omega arith) (ground arith)
      (ground arith)

abbrev twelve : List ℕ
twelve = 1 ∷ 2 ∷ 3 ∷ 4 ∷ 5 ∷ 6 ∷ 255 ∷ 8 ∷ 9 ∷ 10 ∷ 11 ∷ 128 ∷ []

twelve-AreBytes : AreBytes twelve
twelve-AreBytes = ground arith

encode-decode_header_example : encode_header little (decode_header big twelve) ≡ twelve
encode-decode_header_example = encode-decode_header big little twelve refl twelve-AreBytes

abbrev one_header : File
one_header = record {
  content = encode_header big (stamp 9 7 (pos 3)) ++ 65 ∷ [];
  pos = 0;
  seekable = true;
  broken = false;
  error = false;
}

abbrev nearly_full : Sink
nearly_full = record { written = 65 ∷ []; room = 5 }

write_header_partial_example : write_header little fwrite (stamp 9 7 (pos 3)) nearly_full ≡ (
  leb 4 5,
  record { written = 65 ∷ take 5 (encode_header little (stamp 9 7 (pos 3))); room = 0 },
)
write_header_partial_example =
    write_header_partial little (stamp 9 7 (pos 3)) nearly_full (omega arith)

abbrev hello : Record
hello = record { sec = 1000; usec = 900000; payload = 104 ∷ 105 ∷ [] }

abbrev bye : Record
bye = record { sec = 1007; usec = 100000; payload = 98 ∷ [] }

both-AllFit : AllFit (hello ∷ bye ∷ [])
both-AllFit =
    let h : Fits hello = record {
      sec_fits = omega arith;
      usec_fits = omega arith;
      len_fits = omega arith;
    } in
    let b : Fits bye = record {
      sec_fits = omega arith;
      usec_fits = omega arith;
      len_fits = omega arith;
    } in
    (h, (b, _))

abbrev recorded : File
recorded = record {
  content = file_bytes big (hello ∷ bye ∷ []) ++ 0 ∷ [];
  pos = 0;
  seekable = true;
  broken = false;
  error = false;
}

calc_time-file_bytes_example :
    calc_time little 100 recorded ≡ some (signed32 (pattern_bits 32 (pos 1007 -ℤ pos 1000)))
unfolding encode_header word_bytes
calc_time-file_bytes_example =
    calc_time-file_bytes big little 100 hello (bye ∷ []) (0 ∷ []) recorded both-AllFit refl
      (omega arith) refl (omega arith)

abbrev before : Timeval
before = record { tv_sec = pos 1000; tv_usec = pos 900000 }

abbrev after : Timeval
after = record { tv_sec = pos 1007; tv_usec = pos 100000 }

abbrev between : Timeval
between = record { tv_sec = pos 6; tv_usec = pos 200000 }

timeval_diff_iff_example :
    (timeval_diff before after ≡ between) ↔ (micros between ≡ micros after -ℤ micros before)
timeval_diff_iff_example =
    timeval_diff_iff before after between (ground arith) (ground arith) (ground arith)

micros-timeval_diff_example : micros (timeval_diff before after) ≡ micros after -ℤ micros before
micros-timeval_diff_example = micros-timeval_diff before after

-- `ttytime a b`, where there is no b.
abbrev only_a : List ℕ → Option File
only_a [] = none
only_a (c ∷ more) = if c == 97 then some recorded else none
