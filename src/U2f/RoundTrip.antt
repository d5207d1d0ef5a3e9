-- ===== src/U2f/RoundTrip.antt =====
-- A message that is cut into frames is read again.
use safe_t_mcu.Prelude.{
  ℕ, zero, suc, ◌+◌, ◌*◌, ◌/◌, ◌%◌, ◌^◌, ◌≤◌, ◌<◌, ◌≡◌, ◌≢◌, refl, sym, ap, ◌∙◌, arith, false, not,
  ◌||◌, List, [], ◌∷◌, ◌++◌, ltb, leb, ◌==◌, length, length-append, append_assoc, append-nil, take,
  drop, length-drop, take-append-drop,
}
use mathlib.Core.Path.{subst}
use native.Mathlib.Decide.{dec_lt}
use safe_t_mcu.U2f.{
  Channel, buffer_size, cid_broadcast, pad, cont_frames, message_frames, u2fhid_init_cmd,
  u2fhid_read_start, u2fhid_read, u2fhid_init_command,
}
use safe_t_mcu.U2f.Frames.{
  read_conts, read_frames, with_reader, reading, Complete, last_frame, no_more, length-take,
  one_more, step, pad_full, take_all, drop_all,
}

complete :
    (d : List ℕ) (n seq cmd : ℕ) (c : Channel)
    → n ≡ length (d ++ [])
    → Complete (with_reader (reading d n seq cmd) c) cmd (d ++ [])
unfolding reading
complete d n seq cmd c e =
    let same = ap length (append-nil d) in
    record {
      done = reading d n seq cmd;
      reader = refl;
      cmd = refl;
      len = e;
      all = omega (arith, e, same);
      message = take_all n d (omega (arith, e, same)) ∙ sym (append-nil d);
    }

module _ (version : List ℕ) (fresh_cid : ℕ) where
  -- More than one frame is left.
  long_rest :
      (k : ℕ) (d : List ℕ) (b : ℕ) (bytes : List ℕ) (n seq cmd : ℕ) (c : Channel)
      → length (b ∷ bytes) ≤ suc k
      → length d ≡ 57 + 59 * seq
      → n ≡ length (d ++ b ∷ bytes)
      → n ≤ buffer_size
      → 58 ≤ length bytes
      → ((d' : List ℕ)
          → length (drop 58 bytes) ≤ k
          → length d' ≡ 57 + 59 * (seq + 1)
          → n ≡ length (d' ++ drop 58 bytes)
          → Complete
              (read_conts version fresh_cid
                (cont_frames k c.cid (seq + 1) (drop 58 bytes))
                (with_reader (reading d' n (seq + 1) cmd) c))
              cmd
              (d' ++ drop 58 bytes))
      → Complete
          (read_conts version fresh_cid
            (cont_frames k c.cid (seq + 1) (drop 58 bytes))
            (with_reader (reading (d ++ pad 59 (b ∷ take 58 bytes)) n (seq + 1) cmd) c))
          cmd
          (d ++ b ∷ bytes)
  long_rest k d b bytes n seq cmd c h place total fits long rest =
      let front = length-take 58 bytes long in
      let parts = length-append d (b ∷ take 58 bytes) in
      let again =
        append_assoc d (b ∷ take 58 bytes) (drop 58 bytes)
        ∙ ap (λ bs. d ++ b ∷ bs) (take-append-drop 58 bytes) in
      let full =
        ap
          (λ bs.
            read_conts version fresh_cid (cont_frames k c.cid (seq + 1) (drop 58 bytes))
              (with_reader (reading (d ++ bs) n (seq + 1) cmd) c))
          (pad_full 59 (b ∷ take 58 bytes) (omega (arith, front))) in
      subst (λ t. Complete t cmd (d ++ b ∷ bytes)) (sym full)
        (subst
          (λ bs.
            Complete
              (read_conts version fresh_cid (cont_frames k c.cid (seq + 1) (drop 58 bytes))
                (with_reader (reading (d ++ b ∷ take 58 bytes) n (seq + 1) cmd) c))
              cmd bs)
          again
          (rest (d ++ b ∷ take 58 bytes) (omega (arith, length-drop 58 bytes, h))
            (omega (arith, parts, front, place)) (total ∙ ap length (sym again))))

  read_conts_lem :
      (k : ℕ) (d bytes : List ℕ) (n seq cmd : ℕ) (c : Channel)
      → length bytes ≤ k
      → length d ≡ 57 + 59 * seq
      → n ≡ length (d ++ bytes)
      → n ≤ buffer_size
      → Complete
          (read_conts version fresh_cid
            (cont_frames k c.cid seq bytes)
            (with_reader (reading d n seq cmd) c))
          cmd
          (d ++ bytes)
  unfolding cont_frames
  read_conts_lem zero d [] n seq cmd c h place total fits = complete d n seq cmd c total
  read_conts_lem zero d (b ∷ bytes) n seq cmd c h place total fits = absurd (omega arith)
  read_conts_lem (suc k) d [] n seq cmd c h place total fits = complete d n seq cmd c total
  read_conts_lem (suc k) d (b ∷ bytes) n seq cmd c h place total fits =
      let sum = length-append d (b ∷ bytes) in
      let rest = drop 58 bytes in
      let p = pad 59 (b ∷ take 58 bytes) in
      let low : seq < 127 = omega (arith, total, sum, place, fits) in
      let after : read_conts version fresh_cid (cont_frames (suc k) c.cid seq (b ∷ bytes))
            (with_reader (reading d n seq cmd) c)
          ≡ read_conts version fresh_cid (cont_frames k c.cid (seq + 1) rest)
              (with_reader (reading (d ++ p) n (seq + 1) cmd) c) =
        ap (λ t. read_conts version fresh_cid (cont_frames k c.cid ((seq + 1) % 2 ^ 8) rest) t)
          (step version fresh_cid d p n seq cmd c place (omega (arith, total, sum)) fits)
        ∙ ap
            (λ s.
              read_conts version fresh_cid (cont_frames k c.cid s rest)
                (with_reader (reading (d ++ p) n (seq + 1) cmd) c))
            (one_more seq low) in
      subst (λ t. Complete t cmd (d ++ b ∷ bytes)) (sym after)
        (elim (dec_lt 59 (length (b ∷ bytes))) [
          | no short ↦
              (let path =
                  ap
                    (λ bs.
                      read_conts version fresh_cid (cont_frames k c.cid (seq + 1) bs)
                        (with_reader (reading (d ++ p) n (seq + 1) cmd) c))
                    (drop_all 58 bytes (omega arith))
                  ∙ ap
                      (λ fs.
                        read_conts version fresh_cid fs
                          (with_reader (reading (d ++ p) n (seq + 1) cmd) c))
                      (no_more k c.cid (seq + 1))
                  ∙ ap (λ bs. with_reader (reading (d ++ pad 59 (b ∷ bs)) n (seq + 1) cmd) c)
                      (take_all 58 bytes (omega arith)) in
                subst (λ t. Complete t cmd (d ++ b ∷ bytes)) (sym path)
                  (last_frame d (b ∷ bytes) n 59 (seq + 1) cmd c total (omega arith)))
          | yes long ↦
              long_rest k d b bytes n seq cmd c h place total fits (omega arith)
                (λ d' e f g. read_conts_lem k d' rest n (seq + 1) cmd c e f g fits)
        ])

  first_frame :
      (cid cmd : ℕ) (bytes p : List ℕ) (c : Channel)
      → 128 ≤ cmd
      → cmd ≢ u2fhid_init_command
      → 0 < cid
      → cid < cid_broadcast
      → length bytes ≤ buffer_size
      → u2fhid_read version fresh_cid false
          (record {
            cid = cid;
            type = cmd;
            payload = length bytes / 2 ^ 8 % 2 ^ 8 ∷ length bytes % 2 ^ 8 ∷ p;
          })
          c
        ≡ with_reader (reading p (length bytes) 0 cmd) (record c { cid = cid })
  unfolding u2fhid_read u2fhid_read_start u2fhid_init_cmd reading
  first_frame cid cmd bytes p c h o k l fits =
      rw
        (
          no_init cmd o,
          begins cmd h,
          channel cid k l,
          right_length (length bytes) fits,
          enough (length bytes) fits,
        )
        refl
    where
      no_init : (n : ℕ) → n ≢ u2fhid_init_command → (n == u2fhid_init_command) ≡ false
      no_init n h = ground arith

      begins : (n : ℕ) → 128 ≤ n → not (leb 128 n) ≡ false
      begins n h = ground arith

      channel : (n : ℕ) → 0 < n → n < cid_broadcast → (n == cid_broadcast || n == 0) ≡ false
      channel n h k = ground arith

      right_length : (n : ℕ) → n ≤ buffer_size → n / 2 ^ 8 % 2 ^ 8 * 2 ^ 8 + n % 2 ^ 8 ≡ n
      right_length n h = omega (arith, h)

      enough : (n : ℕ) → n ≤ buffer_size → ltb buffer_size n ≡ false
      enough n h = ground arith

  one_frame :
      (cid cmd : ℕ) (bytes : List ℕ) (c : Channel)
      → length bytes ≤ 57
      → Complete
          (read_conts version fresh_cid
            (cont_frames (length bytes) cid 0 (drop 57 bytes))
            (with_reader (reading (pad 57 (take 57 bytes)) (length bytes) 0 cmd) c))
          cmd
          bytes
  one_frame cid cmd bytes c short =
      let n = length bytes in
      let path =
        ap
          (λ bs.
            read_conts version fresh_cid (cont_frames n cid 0 bs)
              (with_reader (reading (pad 57 (take 57 bytes)) n 0 cmd) c))
          (drop_all 57 bytes short)
        ∙ ap
            (λ fs.
              read_conts version fresh_cid fs
                (with_reader (reading (pad 57 (take 57 bytes)) n 0 cmd) c))
            (no_more n cid 0)
        ∙ ap (λ bs. with_reader (reading (pad 57 bs) n 0 cmd) c) (take_all 57 bytes short) in
      subst (λ t. Complete t cmd bytes) (sym path) (last_frame [] bytes n 57 0 cmd c refl short)

  more_frames :
      (cid cmd : ℕ) (bytes : List ℕ) (c : Channel)
      → 57 ≤ length bytes
      → length bytes ≤ buffer_size
      → Complete
          (read_conts version fresh_cid
            (cont_frames (length bytes) c.cid 0 (drop 57 bytes))
            (with_reader (reading (pad 57 (take 57 bytes)) (length bytes) 0 cmd) c))
          cmd
          bytes
  more_frames cid cmd bytes c long fits =
      let n = length bytes in
      let front = length-take 57 bytes long in
      let whole = take-append-drop 57 bytes in
      let full =
        ap
          (λ bs.
            read_conts version fresh_cid (cont_frames n c.cid 0 (drop 57 bytes))
              (with_reader (reading bs n 0 cmd) c))
          (pad_full 57 (take 57 bytes) front) in
      subst (λ t. Complete t cmd bytes) (sym full)
        (subst
          (λ bs.
            Complete
              (read_conts version fresh_cid (cont_frames n c.cid 0 (drop 57 bytes))
                (with_reader (reading (take 57 bytes) n 0 cmd) c))
              cmd bs)
          whole
          (read_conts_lem n (take 57 bytes) (drop 57 bytes) n 0 cmd c
            (omega (arith, length-drop 57 bytes)) (omega (arith, front)) (ap length (sym whole))
            fits))

-- A message that fits the buffer and has a command of one byte with the first bit set, other than
-- U2FHID_INIT, cut into frames on a channel that is neither 0 nor the broadcast channel, is read
-- again: whatever was read before, the reader then has the command, the length, and all bytes of the
-- message.
pub read_frames-message_frames :
    (version : List ℕ) (fresh_cid cid cmd : ℕ) (bytes : List ℕ) (c : Channel)
    → 128 ≤ cmd
    → cmd < 2 ^ 8
    → cmd ≢ u2fhid_init_command
    → 0 < cid
    → cid < cid_broadcast
    → length bytes ≤ buffer_size
    → Complete (read_frames version fresh_cid (message_frames cid cmd bytes) c) cmd bytes
unfolding message_frames
read_frames-message_frames version fresh_cid cid cmd bytes c h byte o k l fits =
    let c1 : Channel = record c { cid = cid } in
    let n = length bytes in
    let begun =
      ap (λ t. read_conts version fresh_cid (cont_frames n cid 0 (drop 57 bytes)) t)
        (first_frame version fresh_cid cid cmd bytes (pad 57 (take 57 bytes)) c h o k l fits) in
    subst (λ t. Complete t cmd bytes) (sym begun)
      (elim (dec_lt 57 n) [
        | no short ↦ one_frame version fresh_cid cid cmd bytes c1 (omega arith)
        | yes long ↦ more_frames version fresh_cid cid cmd bytes c1 (omega arith) fits
      ])
