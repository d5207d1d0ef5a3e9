-- ===== src/Tx/Agree.antt =====
-- A transaction is hashed as it is written: the functions of `Hash` feed the bytes that those of
-- `Tx` write.
use safe_t_mcu.Prelude.{
  ℕ, zero, suc, ◌^◌, ◌<◌, ◌≡◌, ◌≢◌, refl, sym, ap, ◌∙◌, arith, Bool, true, false, List, [], ◌∷◌,
  ◌++◌, append-nil, append_assoc, leb, ◌==◌, ==_iff, if◌then◌else◌, length, get_or, take, le_bytes,
  Hasher,
}
use mathlib.Core.List.{append_cancel_left, append_cancel_right}
use safe_t_mcu.Wire.{ser_length}
use safe_t_mcu.Wire.RoundTrip.{ser_length_hash-feed}
use safe_t_mcu.Tx.{
  TxInput, TxOutputBin, TxStruct, ◌+32◌, reversed, segwit_marker, tx_serialize_script,
  tx_serialize_header, tx_serialize_input, tx_serialize_middle, tx_serialize_footer,
  tx_serialize_output, refuses_output, ends_output,
}
use safe_t_mcu.Tx.Hash.{
  feed_reversed, tx_prevout_hash, tx_script_hash, tx_sequence_hash, tx_output_hash,
  tx_serialize_header_hash, tx_serialize_input_hash, tx_serialize_middle_hash,
  tx_serialize_footer_hash, tx_serialize_output_hash,
}

leb-false : (a b : ℕ) → a < b → leb b a ≡ false
leb-false a b h = ground arith

ne_false : (a b : ℕ) → a ≢ b → (a == b) ≡ false
ne_false a b h = ground arith

footer_split :
    (b : Bool) (m a s l t : List ℕ)
    → m ++ (a ++ (s ++ (if b then l ++ t else [])))
      ≡ (m ++ (a ++ (s ++ (if b then l else [])))) ++ (if b then t else [])
footer_split true m a s l t = simp append_assoc
footer_split false m a s l t = simp (append_assoc, append-nil)

output_count :
    (b : Bool) (r k : ℕ)
    → r +32 8 +32 k +32 (if b then 8 else 0)
      ≡ r +32 (8 +32 k) +32 (if b then 4 else 0) +32 (if b then 4 else 0)
output_count true r k = omega arith
output_count false r k = omega arith

input_count : (r k : ℕ) → r +32 36 +32 k +32 4 ≡ r +32 32 +32 4 +32 k +32 4
input_count r k = omega arith

module _ (H : Hasher) where
  feed_reversed_lem :
      (n : ℕ) (s : H.State) (bs : List ℕ) → feed_reversed H s n bs ≡ H.feed s (reversed n bs)
  unfolding feed_reversed reversed
  feed_reversed_lem zero s bs = sym (H.feed_nil s)
  feed_reversed_lem (suc n) s bs =
      feed_reversed_lem n (H.feed s (get_or bs n 0 ∷ [])) bs
      ∙ H.feed-append s (get_or bs n 0 ∷ []) (reversed n bs)

  -- A call that is made only if a test passes.
  feed_if :
      (b : Bool) (s : H.State) (xs : List ℕ)
      → (if b then H.feed s xs else s) ≡ H.feed s (if b then xs else [])
  feed_if true s xs = refl
  feed_if false s xs = sym (H.feed_nil s)

  tx_script_hash-feed :
      (s : H.State) (bs : List ℕ)
      → length bs < 2 ^ 32
      → tx_script_hash H s bs ≡ (H.feed s (tx_serialize_script bs).1, (tx_serialize_script bs).0)
  unfolding tx_script_hash tx_serialize_script
  tx_script_hash-feed s bs h = rw (ser_length_hash-feed H s (length bs) h) (
      ap (λ (d : H.State). (d, (ser_length (length bs)).0 +32 length bs))
        (H.feed-append s (ser_length (length bs)).1 bs))

  -- The bytes of a header as they are hashed: the pre-block hash is reversed.
  abbrev pub hashed_header : TxStruct H.State → List ℕ
  hashed_header tx =
      le_bytes 4 tx.version
      ++ (segwit_marker tx.is_segwit
          ++ ((if tx.version == 12 then reversed 32 tx.preblock_hash else [])
              ++ (ser_length tx.inputs_len).1))

  tx_serialize_header_hash-feed :
      (tx : TxStruct H.State)
      → tx.inputs_len < 2 ^ 32
      → tx_serialize_header_hash H tx
        ≡ (H.feed tx.hasher (hashed_header tx), (tx_serialize_header tx).0)
  unfolding tx_serialize_header_hash tx_serialize_header
  tx_serialize_header_hash-feed tx h =
      rw
        (
          feed_reversed_lem 32,
          feed_if tx.is_segwit,
          feed_if (tx.version == 12),
          ser_length_hash-feed H _ tx.inputs_len h,
        )
        (simp (H.feed-append, append_assoc))

  tx_prevout_hash-feed :
      (s : H.State) (input : TxInput)
      → tx_prevout_hash H s input
        ≡ (H.feed s (reversed 32 input.prev_hash ++ le_bytes 4 input.prev_index), 36)
  unfolding tx_prevout_hash
  tx_prevout_hash-feed s input =
      ap (λ (d : H.State). (d, 36))
        (rw (feed_reversed_lem 32)
          (H.feed-append s (reversed 32 input.prev_hash) (le_bytes 4 input.prev_index)))

  -- What `tx_serialize_input_hash` starts with.
  header_or_nothing :
      (b : Bool) (tx : TxStruct H.State)
      → tx.inputs_len < 2 ^ 32
      → (if b then tx_serialize_header_hash H tx else (tx.hasher, 0)) ≡ (
        H.feed tx.hasher (if b then hashed_header tx else []),
        (if b then (tx_serialize_header tx).0 else 0),
      )
  header_or_nothing true tx h = tx_serialize_header_hash-feed tx h
  header_or_nothing false tx h = ap (λ (d : H.State). (d, 0)) (sym (H.feed_nil tx.hasher))

  middle_or_nothing :
      (b : Bool) (tx : TxStruct H.State)
      → tx.outputs_len < 2 ^ 32
      → (if b then tx_serialize_middle_hash H tx else (tx.hasher, 0)) ≡ (
        H.feed tx.hasher (if b then (tx_serialize_middle tx).1 else []),
        (if b then (tx_serialize_middle tx).0 else 0),
      )
  unfolding tx_serialize_middle_hash tx_serialize_middle
  middle_or_nothing true tx h = ser_length_hash-feed H tx.hasher tx.outputs_len h
  middle_or_nothing false tx h = ap (λ (d : H.State). (d, 0)) (sym (H.feed_nil tx.hasher))

  -- The bytes that `tx_serialize_input` writes behind the header.
  abbrev pub input_bytes : TxInput → List ℕ
  input_bytes input =
      reversed 32 input.prev_hash
      ++ (le_bytes 4 input.prev_index
          ++ ((tx_serialize_script input.script_sig).1 ++ le_bytes 4 input.sequence))

  tx_serialize_input_hash_lem :
      (tx : TxStruct H.State) (input : TxInput)
      → tx.inputs_len < 2 ^ 32
      → length input.script_sig < 2 ^ 32
      → tx.have_inputs < tx.inputs_len
      → let ((r, bytes), tx') = tx_serialize_input tx input in
        tx_serialize_input_hash H tx input ≡ (
          r,
          record tx' {
            hasher =
                H.feed tx.hasher
                  ((if tx.have_inputs == 0 then hashed_header tx else []) ++ input_bytes input);
          },
        )
  unfolding tx_serialize_input_hash tx_serialize_input tx_sequence_hash
  tx_serialize_input_hash_lem tx input h k g = rw (header_or_nothing (tx.have_inputs == 0) tx h) (
      rw
        (
          tx_prevout_hash-feed,
          tx_script_hash-feed _ input.script_sig k,
          input_count (if tx.have_inputs == 0 then (tx_serialize_header tx).0 else 0),
          leb-false tx.have_inputs tx.inputs_len g,
        )
        (simp (H.feed-append, append_assoc)))

  -- Except in version 12 a header is hashed as it is written.
  hashed_header_eq :
      (tx : TxStruct H.State) → tx.version ≢ 12 → hashed_header tx ≡ (tx_serialize_header tx).1
  unfolding tx_serialize_header
  hashed_header_eq tx h = rw (ne_false tx.version 12 h)

  -- Hashing an input that is expected returns the count that writing it returns, and leaves the
  -- same transaction, with the hash fed exactly the bytes that are written; this holds in every
  -- version but 12.
  pub tx_serialize_input_hash-tx_serialize_input :
      (tx : TxStruct H.State) (input : TxInput)
      → tx.inputs_len < 2 ^ 32
      → length input.script_sig < 2 ^ 32
      → tx.have_inputs < tx.inputs_len
      → tx.version ≢ 12
      → let ((r, bytes), tx') = tx_serialize_input tx input in
        tx_serialize_input_hash H tx input ≡ (r, record tx' { hasher = H.feed tx.hasher bytes })
  tx_serialize_input_hash-tx_serialize_input tx input h k g v =
      rw (tx_serialize_input_hash_lem tx input h k g, hashed_header_eq tx v)
        (unfold tx_serialize_input in rw (leb-false tx.have_inputs tx.inputs_len g))

  tx_output_hash-feed :
      (s : H.State) (output : TxOutputBin)
      → length output.script_pubkey < 2 ^ 32
      → tx_output_hash H s output ≡ (
        H.feed s (le_bytes 8 output.amount ++ (tx_serialize_script output.script_pubkey).1),
        8 +32 (tx_serialize_script output.script_pubkey).0,
      )
  unfolding tx_output_hash
  tx_output_hash-feed s output h =
      rw (tx_script_hash-feed _ output.script_pubkey h) (simp H.feed-append)

  footer_or_nothing :
      (b : Bool) (s : H.State) (tx : TxStruct H.State)
      → (if b then tx_serialize_footer_hash H s tx else (s, 0))
        ≡ (H.feed s (if b then le_bytes 4 tx.lock_time else []), (if b then 4 else 0))
  unfolding tx_serialize_footer_hash
  footer_or_nothing true s tx = refl
  footer_or_nothing false s tx = ap (λ (d : H.State). (d, 0)) (sym (H.feed_nil s))

  -- What hashing an output feeds.
  abbrev pub hashed_output : TxStruct H.State → TxOutputBin → List ℕ
  hashed_output tx output =
      (if tx.have_outputs == 0 then (tx_serialize_middle tx).1 else [])
      ++ (le_bytes 8 output.amount
          ++ ((tx_serialize_script output.script_pubkey).1
              ++ (if ends_output tx then le_bytes 4 tx.lock_time else [])))

  -- Hashing an output that is expected feeds the bytes that writing it leaves, less the four bytes
  -- of the hash type that follow the last output of a transaction with no witnesses; the count is
  -- smaller by these four, and the progress of the transaction is the same.
  pub tx_serialize_output_hash-tx_serialize_output :
      (tx : TxStruct H.State) (output : TxOutputBin)
      → tx.outputs_len < 2 ^ 32
      → length output.script_pubkey < 2 ^ 32
      → refuses_output tx ≡ false
      → let ((r, bytes), tx') = tx_serialize_output tx output in
        let (r', tx'') = tx_serialize_output_hash H tx output in
        (bytes ≡ hashed_output tx output ++ (if ends_output tx then le_bytes 4 1 else []))
        × (tx''.hasher ≡ H.feed tx.hasher (hashed_output tx output))
        × (r ≡ r' +32 (if ends_output tx then 4 else 0))
        × (tx''.have_outputs ≡ tx'.have_outputs)
        × (tx''.size ≡ tx.size +32 r')
  unfolding tx_serialize_output tx_serialize_output_hash tx_serialize_footer
  tx_serialize_output_hash-tx_serialize_output tx output h k g =
      rw
        (
          g,
          middle_or_nothing (tx.have_outputs == 0) tx h,
          tx_output_hash-feed _ output k,
          footer_or_nothing (ends_output tx),
        )
        (
          footer_split (ends_output tx)
              (if tx.have_outputs == 0 then (tx_serialize_middle tx).1 else [])
              (le_bytes 8 output.amount) (tx_serialize_script output.script_pubkey).1
              (le_bytes 4 tx.lock_time) (le_bytes 4 1),
          simp (H.feed-append, append_assoc),
          output_count (ends_output tx)
              (if tx.have_outputs == 0 then (tx_serialize_middle tx).0 else 0)
              (tx_serialize_script output.script_pubkey).0,
          refl,
          refl,
        )

  -- In version 12 the header is hashed with the bytes of the pre-block hash in reverse, and written
  -- with them in order: unless that hash reads the same both ways, what is hashed is not what is
  -- written.
  pub version_12_header :
      (tx : TxStruct H.State)
      → tx.inputs_len < 2 ^ 32
      → tx.version ≡ 12
      → reversed 32 tx.preblock_hash ≢ take 32 tx.preblock_hash
      → (tx_serialize_header_hash H tx
          ≡ (H.feed tx.hasher (hashed_header tx), (tx_serialize_header tx).0))
        × (hashed_header tx ≢ (tx_serialize_header tx).1)
  unfolding tx_serialize_header
  version_12_header tx h v ne = (tx_serialize_header_hash-feed tx h, λ e. ne (preblock_eq e))
    where
      is_12 : (tx.version == 12) ≡ true
      is_12 = (==_iff tx.version 12).1 v

      preblock_eq :
          hashed_header tx ≡ (tx_serialize_header tx).1
          → reversed 32 tx.preblock_hash ≡ take 32 tx.preblock_hash
      preblock_eq e =
          append_cancel_right (reversed 32 tx.preblock_hash) (take 32 tx.preblock_hash)
            (ser_length tx.inputs_len).1
            (append_cancel_left (segwit_marker tx.is_segwit) _ _
              (append_cancel_left (le_bytes 4 tx.version) _ _ (rw is_12 at e)))
