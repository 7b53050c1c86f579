-- ===== src/Ttyrec/Output/Recorded/Copy.antt =====
-- A round of `dooutput` that writes to a target, and the recordings.
use ovh_ttyrec.Base.{
  Bool, Bool-cases, List, [], ap, append-nil, append_assoc, arith, false, inl, inr, length, ltb,
  not, sym, take_all, true, ℕ, ◌&&◌, ◌++◌, ◌<◌, ◌∙◌, ◌∷◌, ◌≡◌,
}
use ovh_ttyrec.Stdio.{Fwrite}
use ovh_ttyrec.Io.{Endian, encode_header, write_header}
use ovh_ttyrec.Io.RoundTrip.{length-encode_header}
use ovh_ttyrec.Recording.{Record, header_of, record_bytes, payloads}
use ovh_ttyrec.Ttyplay.Read.Plain.{Playable}
use ovh_ttyrec.Ttyrec.Process.{locked}
use ovh_ttyrec.Ttyrec.Output.{Fd, Round, Output, Options, write_record, account, copy}
use ovh_ttyrec.Ttyrec.Output.Recorded.{Reliable, kept, all_payloads, Faithful, Dated, HoldsAfter}
use ovh_ttyrec.Ttyrec.Output.Recorded.Snoc.{
  file_bytes_snoc, payloads_snoc, AllPlayable-snoc, kept-append,
}

module _ {S : Type 0} (fw : Fwrite S) (fc : S → S) (good : Reliable S fw fc) (e : Endian)
    (o : Options) (hide : Fd → Bool) where
  open good use {view, appends, closes}

  -- The record that a round is kept as.
  abbrev record_of : (r : Round) (obuf : List ℕ) → Dated r obuf → Record
  record_of r obuf d = record { sec = d.sec; usec = d.usec; payload = obuf }

  record_of-Playable :
      (r : Round) (obuf : List ℕ) (d : Dated r obuf)
      → 0 < length obuf
      → Playable (record_of r obuf d)
  record_of-Playable r obuf d h = record {
    fits = record {
      sec_fits = d.sec_fits;
      usec_fits = d.usec_fits;
      len_fits = omega (arith, d.fits_buffer);
    };
    not_empty = h;
    not_long = omega (arith, d.fits_buffer);
  }

  -- What stands in the file behind the two writes.
  view-write_record :
      (r : Round) (obuf : List ℕ) (d : Dated r obuf) (s : S)
      → view (write_record fw fc e o r.clock obuf s) ≡ view s ++ record_bytes e (record_of r obuf d)
  unfolding write_record write_header
  view-write_record r obuf d s =
      let q = record_of r obuf d in
      rw d.clock_is (
        let s1 = (fw (encode_header e (header_of q)) 4 3 s).1 in
        appends obuf 1 (length obuf) s1 (omega arith)
        ∙ ap (λ (v : List ℕ). v ++ obuf)
            (appends (encode_header e (header_of q)) 4 3 s (length-encode_header e (header_of q)))
        ∙ append_assoc (view s) (encode_header e (header_of q)) obuf)

  -- A round on a hidden target, and one that is recorded.
  account_hidden :
      (target : Fd) (r : Round) (obuf : List ℕ) (s : Output S)
      → hide target ≡ true
      → Faithful view e hide s
      → Faithful view e hide (account fw fc e o true r obuf ((target, obuf) ∷ []) s)
  unfolding account
  account_hidden target r obuf s h f = record {
    closed = f.closed;
    current = f.current;
    closed_hold = f.closed_hold;
    current_holds = f.current_holds;
    current_plays = f.current_plays;
    all_kept =
        f.all_kept
        ∙ sym (append-nil (kept hide s.shown))
        ∙ sym (kept-append hide s.shown ((target, obuf) ∷ []) ∙ rw h);
  }

  account_seen :
      (target : Fd) (r : Round) (obuf : List ℕ) (s : Output S)
      → hide target ≡ false
      → Dated r obuf
      → 0 < length obuf
      → Faithful view e hide s
      → Faithful view e hide (account fw fc e o false r obuf ((target, obuf) ∷ []) s)
  unfolding account
  account_seen target r obuf s h d some_bytes f =
      let q = record_of r obuf d in
      record {
        closed = f.closed;
        current = f.current ++ q ∷ [];
        closed_hold = f.closed_hold;
        current_holds =
            view-write_record r obuf d s.files.fscript
            ∙ ap (λ (v : List ℕ). v ++ record_bytes e q) f.current_holds
            ∙ sym (file_bytes_snoc e f.current q);
        current_plays =
            AllPlayable-snoc f.current q f.current_plays (record_of-Playable r obuf d some_bytes);
        all_kept =
            ap (◌++◌ (all_payloads f.closed)) (payloads_snoc f.current q)
            ∙ sym (append_assoc (all_payloads f.closed) (payloads f.current) obuf)
            ∙ ap (λ (v : List ℕ). v ++ obuf) f.all_kept
            ∙ sym (
                kept-append hide s.shown ((target, obuf) ∷ [])
                ∙ rw h (ap (◌++◌ (kept hide s.shown)) (append-nil obuf)));
      }

  account-Faithful :
      (target : Fd) (dont_write : Bool) (r : Round) (obuf : List ℕ) (s : Output S)
      → hide target ≡ dont_write
      → Dated r obuf
      → 0 < length obuf
      → Faithful view e hide s
      → Faithful view e hide (account fw fc e o dont_write r obuf ((target, obuf) ∷ []) s)
  account-Faithful target true r obuf s h d some_bytes f = account_hidden target r obuf s h f
  account-Faithful target false r obuf s h d some_bytes f =
      account_seen target r obuf s h d some_bytes f

  pub copy-Faithful :
      (target : Fd) (dont_write : Bool) (r : Round) (obuf : List ℕ) (s : Output S)
      → hide target ≡ dont_write
      → Dated r obuf
      → Faithful view e hide s
      → HoldsAfter (Faithful view e hide) (copy fw fc e o target dont_write r obuf s)
  unfolding copy
  copy-Faithful target dont_write r obuf s h d f =
      elim (Bool-cases (not (locked s.process.activity) && ltb 0 (length obuf))) [
        | inr skip ↦ rw skip f
        | inl go ↦
            let some_bytes : 0 < length obuf = ground (arith, go) in
            rw go (elim d.delivered [
              | inr failed ↦ rw failed f
              | inl all ↦
                  rw (all, take_all (length obuf) obuf (omega arith))
                    (account-Faithful target dont_write r obuf s h d some_bytes f)
            ])
      ]
