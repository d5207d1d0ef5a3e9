-- ===== src/Message/Out/Fill.antt =====
-- What a run of `msg_out_append` leaves in the packet that it fills.
use safe_t_mcu.Prelude.{
  ℕ, zero, suc, ◌+◌, ◌-◌, ◌*◌, ◌%◌, ◌≤◌, ◌<◌, ◌≡◌, refl, sym, ap, ◌∙◌, arith, List, [], ◌∷◌, ◌++◌,
  length, length-append, write_at, write_at-append, drop, take, take_all, take-append-drop,
  length-take, length-drop,
}
use safe_t_mcu.Message.Packets.{pad_to, pad_to_short, pad_to_full, padding}
use safe_t_mcu.Message.Out.{Out, msg_out_append, msg_out_pad, pad_loop, pb_callback_out}
use mathlib.Core.List.{foldl-append}
use native.Mathlib.Decide.{dec_lt}

-- The bytes that `pad_loop` writes.
abbrev zeros : ℕ → List ℕ
zeros zero = []
zeros (suc n) = 0 ∷ zeros n

module _ (slots : ℕ) where
  -- A whole packet, written at once.
  abbrev pub put_packet : Out → List ℕ → Out
  put_packet o c = record o {
    buf = write_at o.buf (o.end * 64) (b'?' ∷ c);
    cur = 0;
    end = (o.end + 1) % slots;
  }

  abbrev pub put_packets : ℕ → Out → List ℕ → Out
  put_packets zero o bs = o
  put_packets (suc n) o bs = put_packets n (put_packet o (pad_to 63 bs)) (drop 63 bs)

  -- The packet that is open, with the bytes `c` put behind what it holds.
  abbrev fill : Out → List ℕ → Out
  fill o c = record o { buf = write_at o.buf (o.end * 64 + o.cur) c; cur = o.cur + length c }

  append_byte :
      (o : Out) (x : ℕ) → 1 ≤ o.cur → o.cur < 63 → msg_out_append slots o x ≡ fill o (x ∷ [])
  unfolding msg_out_append write_at
  append_byte o x h k = ground arith

  fill-fill : (o : Out) (x : ℕ) (c : List ℕ) → fill (fill o (x ∷ [])) c ≡ fill o (x ∷ c)
  unfolding write_at
  fill-fill o x c = ground arith

  -- Bytes that do not fill up the open packet.
  append_inside :
      (c : List ℕ) (o : Out)
      → 1 ≤ o.cur
      → o.cur + length c < 64
      → pb_callback_out slots o c ≡ fill o c
  unfolding pb_callback_out write_at
  append_inside [] o h k = ground arith
  append_inside (x ∷ c) o h k =
      rw (append_byte o x h (omega arith))
        (append_inside c (fill o (x ∷ [])) (omega arith) (omega arith) ∙ fill-fill o x c)

  -- Bytes that fill it up.
  append_full :
      (c : List ℕ) (o : Out)
      → 1 ≤ o.cur
      → o.cur + length c ≡ 64
      → o.cur < 64
      → pb_callback_out slots o c ≡ record o {
        buf = write_at o.buf (o.end * 64 + o.cur) c;
        cur = 0;
        end = (o.end + 1) % slots;
      }
  unfolding pb_callback_out
  append_full [] o h e k = absurd (omega arith)
  append_full (x ∷ []) o h e k = unfold msg_out_append write_at in ground arith
  append_full (x ∷ y ∷ c) o h e k = rw (append_byte o x h (omega arith)) (
      append_full (y ∷ c) (fill o (x ∷ [])) (omega arith) (omega arith) (omega arith)
      ∙ unfold write_at in ground arith)

  pad_loop-fill : (n : ℕ) (o : Out) → pad_loop slots n o ≡ fill o (zeros n)
  unfolding pad_loop write_at
  pad_loop-fill zero o = ground arith
  pad_loop-fill (suc n) o = pad_loop-fill n (fill o (0 ∷ [])) ∙ fill-fill o 0 (zeros n)

  -- An open packet that began with this ring: '?', then the bytes `c`.
  abbrev begun : Out → List ℕ → Out
  begun o c = record o { buf = write_at o.buf (o.end * 64) (b'?' ∷ c); cur = suc (length c) }

  append_first : (o : Out) (x : ℕ) → o.cur ≡ 0 → msg_out_append slots o x ≡ begun o (x ∷ [])
  unfolding msg_out_append write_at
  append_first o x h = ground arith

  fill-begun : (o : Out) (c d : List ℕ) → fill (begun o c) d ≡ begun o (c ++ d)
  fill-begun o c d =
      ground (arith, write_at-append (b'?' ∷ c) d o.buf (o.end * 64), length-append c d)

  append_short :
      (o : Out) (x : ℕ) (c : List ℕ)
      → o.cur ≡ 0
      → length (x ∷ c) < 63
      → pb_callback_out slots o (x ∷ c) ≡ begun o (x ∷ c)
  unfolding pb_callback_out
  append_short o x c h k =
      rw (append_first o x h)
        (append_inside c (begun o (x ∷ [])) (omega arith) (omega arith) ∙ fill-begun o (x ∷ []) c)

  append_packet :
      (o : Out) (x : ℕ) (c : List ℕ)
      → o.cur ≡ 0
      → length (x ∷ c) ≡ 63
      → pb_callback_out slots o (x ∷ c) ≡ put_packet o (x ∷ c)
  unfolding pb_callback_out
  append_packet o x c h k = rw (append_first o x h) (
      append_full c (begun o (x ∷ [])) (omega arith) (omega arith) (omega arith)
      ∙ ground (arith, write_at-append (b'?' ∷ x ∷ []) c o.buf (o.end * 64)))

  padding_nil : (n : ℕ) → padding n [] ≡ zeros n
  padding_nil zero = refl
  padding_nil (suc n) = ap (λ (r : List ℕ). 0 ∷ r) (padding_nil n)

  padding-zeros : (n k : ℕ) (bs : List ℕ) → n - length bs ≡ k → padding n bs ≡ zeros k
  padding-zeros zero k bs e = let e' : k ≡ 0 = omega arith in rw e'
  padding-zeros (suc n) k [] e = let e' : k ≡ suc n = omega arith in rw e' (padding_nil (suc n))
  padding-zeros (suc n) k (b ∷ bs) e = padding-zeros n k bs (omega arith)

  pad-begun :
      (o : Out) (c : List ℕ)
      → length c < 63
      → msg_out_pad slots (begun o c) ≡ put_packet o (pad_to 63 c)
  unfolding msg_out_pad
  pad-begun o c k = ground (
    arith,
    pad_loop-fill (64 - suc (length c)) (begun o c),
    fill-begun o c (zeros (64 - suc (length c))),
    padding-zeros 63 (64 - suc (length c)) c (omega arith),
    pad_to_short 63 c,
  )

  append_chunk :
      (o : Out) (c : List ℕ)
      → o.cur ≡ 0
      → length c ≡ 63
      → pb_callback_out slots o c ≡ put_packet o c
  append_chunk o [] h k = absurd (omega arith)
  append_chunk o (x ∷ c) h k = append_packet o x c h k

  -- The end of a stream.
  pad-append_short :
      (o : Out) (c : List ℕ)
      → o.cur ≡ 0
      → 1 ≤ length c
      → length c ≤ 63
      → msg_out_pad slots (pb_callback_out slots o c) ≡ put_packet o (pad_to 63 c)
  pad-append_short o [] h l k = absurd (omega arith)
  pad-append_short o (x ∷ c) h l k = elim (dec_lt (length (x ∷ c)) 63) [
    | yes p ↦ rw (append_short o x c h p) (pad-begun o (x ∷ c) p)
    | no p ↦ rw (append_packet o x c h (omega arith)) (
        unfold msg_out_pad in
        ap (put_packet o)
          (sym (pad_to_full 63 (x ∷ c) (omega arith) ∙ take_all 63 (x ∷ c) (omega arith))))
  ]

  pub pb_callback_out-append :
      (o : Out) (xs ys : List ℕ)
      → pb_callback_out slots o (xs ++ ys) ≡ pb_callback_out slots (pb_callback_out slots o xs) ys
  unfolding pb_callback_out
  pb_callback_out-append o xs ys = foldl-append (msg_out_append slots) o xs ys

  append_first_packet :
      (o : Out) (bs : List ℕ)
      → o.cur ≡ 0
      → 63 ≤ length bs
      → pb_callback_out slots o bs
        ≡ pb_callback_out slots (put_packet o (pad_to 63 bs)) (drop 63 bs)
  append_first_packet o bs h k =
      ap (pb_callback_out slots o) (sym (take-append-drop 63 bs))
      ∙ pb_callback_out-append o (take 63 bs) (drop 63 bs)
      ∙ ap (λ (s : Out). pb_callback_out slots s (drop 63 bs))
          (append_chunk o (take 63 bs) h (omega (arith, length-take 63 bs))
            ∙ ap (put_packet o) (sym (pad_to_full 63 bs k)))

  -- A stream of `n + 1` packets, the last perhaps not full, leaves them one after the other.
  pub pad-append :
      (n : ℕ) (o : Out) (bs : List ℕ)
      → o.cur ≡ 0
      → 63 * n < length bs
      → length bs ≤ 63 * n + 63
      → msg_out_pad slots (pb_callback_out slots o bs) ≡ put_packets (suc n) o bs
  pad-append zero o bs h l k = pad-append_short o bs h (omega arith) (omega arith)
  pad-append (suc n) o bs h l k = rw (append_first_packet o bs h (omega arith)) (
      pad-append n (put_packet o (pad_to 63 bs)) (drop 63 bs) refl
        (omega (arith, length-drop 63 bs)) (omega (arith, length-drop 63 bs)))
