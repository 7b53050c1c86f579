-- ===== src/Ttyplay/Read/Follow.antt =====
-- `ttypread` of ttyplay.c on a file that another process writes meanwhile.
use ovh_ttyrec.Io.Read.{advance}
use ovh_ttyrec.Io.RoundTrip.{length-encode_header}
use native.Mathlib.Decide.{dec_le}
use ovh_ttyrec.Base.{
  Bool, List, Option, [], ap, append-nil, append_assoc, arith, drop, drop-append, drop-append_le,
  false, length, length-append, length-drop, map, none, refl, some, split_longer, sym, true, ℕ,
  ◌++◌, ◌+◌, ◌<◌, ◌∙◌, ◌∷◌, ◌≡◌, ◌≤◌,
}
use ovh_ttyrec.Stdio.{File, remaining, clearerr}
use ovh_ttyrec.Header.{Header}
use ovh_ttyrec.Io.{Endian, encode_header}
use ovh_ttyrec.Recording.{Record, header_of, record_bytes}
use ovh_ttyrec.Recording.Position.{remaining_rest}
use ovh_ttyrec.Ttyplay.Read.{plain, ttyread, ttypread}
use ovh_ttyrec.Ttyplay.Read.Plain.{Playable, ttyread_record}
use ovh_ttyrec.Ttyplay.Read.Cut.{ttyread_cut}

-- The recorder appends to the file while the player sleeps.
abbrev pub grow : List ℕ → File → File
grow bytes f = record f { content = f.content ++ bytes }

abbrev pub joined : List (List ℕ) → List ℕ
joined [] = []
joined (c ∷ cs) = c ++ joined cs

-- One round of the loop, by the result of `ttyread`.
pub ttypread_found :
    (malloc : ℕ → Bool) (e : Endian) (later : List (File → File)) (fp : File)
    {found : Header × List ℕ} {fp' : File}
    → ttyread plain malloc e fp ≡ (some found, fp')
    → ttypread plain malloc e later fp ≡ (some found, later, fp')
unfolding ttypread
ttypread_found malloc e [] fp h = rw (h, ttypread) refl
ttypread_found malloc e (sleep ∷ later) fp h = rw (h, ttypread) (rw h)

pub ttypread_last :
    (malloc : ℕ → Bool) (e : Endian) (fp : File) {fp' : File}
    → ttyread plain malloc e fp ≡ (none, fp')
    → ttypread plain malloc e [] fp ≡ (none, [], fp')
unfolding ttypread
ttypread_last malloc e fp h = rw (h, ttypread) refl

pub ttypread_retry :
    (malloc : ℕ → Bool) (e : Endian) (sleep : File → File) (later : List (File → File)) (fp : File)
    {fp' : File}
    → ttyread plain malloc e fp ≡ (none, fp')
    → ttypread plain malloc e (sleep ∷ later) fp
      ≡ ttypread plain malloc e later (clearerr (sleep fp'))
unfolding ttypread
ttypread_retry malloc e sleep later fp h = rw (h, ttypread) (rw h)

-- A stream that holds the whole record, and one that does not hold it yet.
module _ (malloc : ℕ → Bool) (e e' : Endian) (r : Record) (rest more : List ℕ) (fp : File)
    (ok : Playable r) (m : malloc (length r.payload) ≡ true)
    (h : remaining fp ++ more ≡ record_bytes e r ++ rest) where
  read_whole :
      length (record_bytes e r) ≤ length (remaining fp)
      → ttyread plain malloc e' fp
        ≡ (some (header_of r, r.payload), advance (length r.payload) (advance 12 (clearerr fp)))
  read_whole long =
      ttyread_record malloc e e' r (drop (length (record_bytes e r)) (remaining fp)) fp ok m
        (split_longer (remaining fp) more (record_bytes e r) rest h long)

  read_cut :
      fp.seekable ≡ true
      → fp.broken ≡ false
      → length (remaining fp) < length (record_bytes e r)
      → ttyread plain malloc e' fp ≡ (none, clearerr fp)
  read_cut s b short =
      let missing = drop (length (remaining fp)) (record_bytes e r) in
      ttyread_cut malloc e e' r missing fp ok m s b
        (sym (split_longer (record_bytes e r) rest (remaining fp) more (sym h) (omega arith)))
        (omega (arith, length-drop (length (remaining fp)) (record_bytes e r)))

-- What is left after the recorder has appended.
pub remaining-grow :
    (bytes : List ℕ) (fp : File)
    → fp.pos ≤ length fp.content
    → remaining (grow bytes fp) ≡ remaining fp ++ bytes
remaining-grow bytes fp inside = drop-append_le fp.pos fp.content bytes inside

pub length-record_bytes :
    (e : Endian) (r : Record) → length (record_bytes e r) ≡ 12 + length r.payload
length-record_bytes e r = omega (
  arith,
  length-append (encode_header e (header_of r)) r.payload,
  length-encode_header e (header_of r),
)

-- What `ttypread` leaves when it has found a record: the stream stands behind it, and with the pieces
-- that are still to come it holds `rest`; the read began at `at`.
pub record Found (r : Record) (rest : List ℕ) (at : ℕ)
    (result : Option (Header × List ℕ) × List (File → File) × File) : Type 0 where
  pub found : result.0 ≡ some (header_of r, r.payload)
  pub to_come : List (List ℕ)
  pub left : result.1 ≡ map grow to_come
  pub position : result.2.pos ≡ at + (12 + length r.payload)
  pub holds : remaining result.2 ++ joined to_come ≡ rest
  pub can_seek : result.2.seekable ≡ true
  pub not_broken : result.2.broken ≡ false
  pub inside : result.2.pos ≤ length result.2.content

read_whole_now :
    (malloc : ℕ → Bool) (e e' : Endian) (r : Record) (rest : List ℕ) (pieces : List (List ℕ))
    (fp : File)
    → Playable r
    → malloc (length r.payload) ≡ true
    → fp.seekable ≡ true
    → fp.broken ≡ false
    → remaining fp ++ joined pieces ≡ record_bytes e r ++ rest
    → length (record_bytes e r) ≤ length (remaining fp)
    → Found r rest fp.pos (ttypread plain malloc e' (map grow pieces) fp)
unfolding clearerr
read_whole_now malloc e e' r rest pieces fp ok m s b h long =
    let bytes = record_bytes e r in
    let behind = drop (length bytes) (remaining fp) in
    let whole : remaining fp ≡ bytes ++ behind =
      split_longer (remaining fp) (joined pieces) bytes rest h long in
    let got =
      ttypread_found malloc e' (map grow pieces) fp
        (read_whole malloc e e' r rest (joined pieces) fp ok m h long) in
    rw got (record {
      found = refl;
      to_come = pieces;
      left = refl;
      position = omega arith;
      holds =
          ap (λ (v : List ℕ). v ++ joined pieces) (remaining_rest e r fp behind whole)
          ∙ sym (drop-append bytes (behind ++ joined pieces) (length bytes) refl)
          ∙ ap (drop (length bytes)) (
              sym (append_assoc bytes behind (joined pieces))
              ∙ ap (λ (v : List ℕ). v ++ joined pieces) (sym whole)
              ∙ h)
          ∙ drop-append bytes rest (length bytes) refl;
      can_seek = s;
      not_broken = b;
      inside = omega (arith, length-record_bytes e r, length-drop fp.pos fp.content);
    })

-- However the bytes of a record arrive, in whatever pieces and with whatever behind them, the loop
-- returns the record. The stream is then behind it, and no byte that follows is lost. Enough is that
-- the pieces, with what the file holds already, hold the record.
pub ttypread_grows :
    (malloc : ℕ → Bool) (e e' : Endian) (r : Record) (rest : List ℕ) (pieces : List (List ℕ))
    (fp : File)
    → Playable r
    → malloc (length r.payload) ≡ true
    → fp.seekable ≡ true
    → fp.broken ≡ false
    → fp.pos ≤ length fp.content
    → remaining fp ++ joined pieces ≡ record_bytes e r ++ rest
    → Found r rest fp.pos (ttypread plain malloc e' (map grow pieces) fp)
unfolding clearerr
ttypread_grows malloc e e' r rest [] fp ok m s b inside h =
    read_whole_now malloc e e' r rest [] fp ok m s b h (
      omega (
        arith,
        ap length (sym (append-nil (remaining fp)) ∙ h),
        length-append (record_bytes e r) rest,
      ))
ttypread_grows malloc e e' r rest (c ∷ cs) fp ok m s b inside h =
    elim (dec_le (length (record_bytes e r)) (length (remaining fp))) [
      | yes long ↦ read_whole_now malloc e e' r rest (c ∷ cs) fp ok m s b h long
      | no short ↦
          let again =
            ttypread_retry malloc e' (grow c) (map grow cs) fp
              (read_cut malloc e e' r rest (c ++ joined cs) fp ok m h s b (omega arith)) in
          rw again (
            ttypread_grows malloc e e' r rest cs (clearerr (grow c (clearerr fp))) ok m s b
              (omega (arith, length-append fp.content c))
              (ap (λ (t : List ℕ). t ++ joined cs) (remaining-grow c fp inside)
                ∙ append_assoc (remaining fp) c (joined cs)
                ∙ h))
    ]
