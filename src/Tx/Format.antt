-- ===== src/Tx/Format.antt =====
-- Writing a whole transaction: the pieces that the functions of `Tx` write, one call for each input
-- and each output, are the transaction format.
use safe_t_mcu.Prelude.{
  ℕ, suc, ◌+◌, ◌^◌, ◌<◌, ◌≤◌, ◌≡◌, refl, ap, ap₂, ◌∙◌, arith, Bool, true, false, not, ◌&&◌, List,
  [], ◌∷◌, ◌++◌, append-nil, append_assoc, leb, ◌==◌, if◌then◌else◌, length, take, le_bytes,
}
use safe_t_mcu.Wire.{ser_length}
use safe_t_mcu.Tx.{
  TxInput, TxOutputBin, TxStruct, ◌+32◌, reversed, segwit_marker, tx_serialize_script,
  tx_serialize_header, tx_serialize_input, tx_serialize_middle, tx_serialize_footer,
  tx_serialize_output, refuses_output,
}

module _ {Digest : Type 0} where
  -- The caller's loops: what the calls write, and the transaction after them.
  abbrev pub write_inputs : TxStruct Digest → List TxInput → List ℕ × TxStruct Digest
  write_inputs tx [] = ([], tx)
  write_inputs tx (i ∷ is) =
      let ((r, bytes), tx1) = tx_serialize_input tx i in
      let (more, tx2) = write_inputs tx1 is in (bytes ++ more, tx2)

  abbrev pub write_outputs : TxStruct Digest → List TxOutputBin → List ℕ × TxStruct Digest
  write_outputs tx [] = ([], tx)
  write_outputs tx (o ∷ os) =
      let ((r, bytes), tx1) = tx_serialize_output tx o in
      let (more, tx2) = write_outputs tx1 os in (bytes ++ more, tx2)

-- The format: an outpoint, a script behind its length, a sequence number.
abbrev pub input_format : TxInput → List ℕ
input_format i =
    reversed 32 i.prev_hash
    ++ (le_bytes 4 i.prev_index
        ++ (((ser_length (length i.script_sig)).1 ++ i.script_sig) ++ le_bytes 4 i.sequence))

abbrev pub inputs_format : List TxInput → List ℕ
inputs_format [] = []
inputs_format (i ∷ is) = input_format i ++ inputs_format is

abbrev pub output_format : TxOutputBin → List ℕ
output_format o =
    le_bytes 8 o.amount ++ ((ser_length (length o.script_pubkey)).1 ++ o.script_pubkey)

abbrev pub outputs_format : List TxOutputBin → List ℕ
outputs_format [] = []
outputs_format (o ∷ os) = output_format o ++ outputs_format os

ends_split :
    (b s : Bool) (bs : List ℕ)
    → (if b && not s then bs else []) ≡ (if b then (if s then [] else bs) else [])
ends_split true true bs = refl
ends_split true false bs = refl
ends_split false s bs = refl

footer_parts :
    (b : Bool) (xs ys : List ℕ)
    → (if b then [] else xs ++ ys) ≡ (if b then [] else xs) ++ (if b then [] else ys)
footer_parts true xs ys = refl
footer_parts false xs ys = refl

module _ {Digest : Type 0} where
  abbrev with_inputs : TxStruct Digest → ℕ → ℕ → TxStruct Digest
  with_inputs tx n size = record tx { have_inputs = n; size = size }

  abbrev with_outputs : TxStruct Digest → ℕ → ℕ → TxStruct Digest
  with_outputs tx n size = record tx { have_outputs = n; size = size }

  -- One input: the header stands before the first.
  input_step :
      (tx : TxStruct Digest) (i : TxInput)
      → tx.inputs_len < 2 ^ 32
      → tx.have_inputs < tx.inputs_len
      → (r : ℕ) × (size : ℕ) × (tx_serialize_input tx i ≡ (
        (r, (if tx.have_inputs == 0 then (tx_serialize_header tx).1 else []) ++ input_format i),
        with_inputs tx (suc tx.have_inputs) size,
      ))
  unfolding tx_serialize_input tx_serialize_script
  input_step tx i h g =
      let no_refusal : leb tx.inputs_len tx.have_inputs ≡ false = ground arith in
      let next : tx.have_inputs +32 1 ≡ suc tx.have_inputs = omega arith in
      ((tx_serialize_input tx i).0.0, (tx_serialize_input tx i).1.size, rw (no_refusal, next) refl)

  inputs_rest :
      (is : List TxInput) (tx : TxStruct Digest)
      → tx.inputs_len < 2 ^ 32
      → 0 < tx.have_inputs
      → tx.have_inputs + length is ≤ tx.inputs_len
      → (size : ℕ) × (write_inputs tx is
          ≡ (inputs_format is, with_inputs tx (tx.have_inputs + length is) size))
  inputs_rest [] tx h k l = (tx.size, ap (λ (n : ℕ). ([], with_inputs tx n tx.size)) (omega arith))
  inputs_rest (i ∷ is) tx h k l =
      let (r, size, step) = input_step tx i h (omega arith) in
      let (size', rest) =
        inputs_rest is (with_inputs tx (suc tx.have_inputs) size) h (omega arith) (omega arith) in
      let later : (tx.have_inputs == 0) ≡ false = ground arith in
      (
        size',
        rw step (
            rw rest (
              rw later
                (ap (λ (n : ℕ). (inputs_format (i ∷ is), with_inputs tx n size')) (omega arith)))),
      )

  -- The inputs, from the first on.
  all_inputs :
      (i : TxInput) (is : List TxInput) (tx : TxStruct Digest)
      → tx.inputs_len < 2 ^ 32
      → tx.have_inputs ≡ 0
      → length (i ∷ is) ≡ tx.inputs_len
      → (size : ℕ) × (write_inputs tx (i ∷ is) ≡ (
        (tx_serialize_header tx).1 ++ inputs_format (i ∷ is),
        with_inputs tx tx.inputs_len size,
      ))
  all_inputs i is tx h k l =
      let (r, size, step) = input_step tx i h (omega arith) in
      let (size', rest) =
        inputs_rest is (with_inputs tx (suc tx.have_inputs) size) h (omega arith) (omega arith) in
      let first : (tx.have_inputs == 0) ≡ true = ground arith in
      (
        size',
        rw step (
            rw rest (
              rw first (
                ap₂ (λ (b : List ℕ) (n : ℕ). (b, with_inputs tx n size'))
                  (append_assoc (tx_serialize_header tx).1 (input_format i) (inputs_format is))
                  (omega arith)))),
      )

  -- What follows the last output.
  abbrev pub footer_format : TxStruct Digest → List ℕ
  footer_format tx = if tx.is_segwit then [] else le_bytes 4 tx.lock_time ++ le_bytes 4 1

  output_step :
      (tx : TxStruct Digest) (o : TxOutputBin)
      → tx.outputs_len < 2 ^ 32
      → tx.have_inputs ≡ tx.inputs_len
      → tx.have_outputs < tx.outputs_len
      → (r : ℕ) × (size : ℕ) × (tx_serialize_output tx o ≡ (
        (
          r,
          (if tx.have_outputs == 0 then (ser_length tx.outputs_len).1 else [])
              ++ (output_format o
                  ++ (if suc tx.have_outputs == tx.outputs_len then footer_format tx else [])),
        ),
        with_outputs tx (suc tx.have_outputs) size,
      ))
  unfolding tx_serialize_output tx_serialize_script tx_serialize_middle tx_serialize_footer
  output_step tx o h e g =
      let no_refusal : refuses_output tx ≡ false = ground arith in
      let next : tx.have_outputs +32 1 ≡ suc tx.have_outputs = omega arith in
      (
        (tx_serialize_output tx o).0.0,
        (tx_serialize_output tx o).1.size,
        rw
            (
              no_refusal,
              next,
              ends_split (suc tx.have_outputs == tx.outputs_len) tx.is_segwit
                  (le_bytes 4 tx.lock_time ++ le_bytes 4 1),
            )
            (simp append_assoc),
      )

  outputs_rest :
      (os : List TxOutputBin) (o : TxOutputBin) (tx : TxStruct Digest)
      → tx.outputs_len < 2 ^ 32
      → tx.have_inputs ≡ tx.inputs_len
      → tx.have_outputs + length (o ∷ os) ≡ tx.outputs_len
      → (write_outputs tx (o ∷ os)).0
        ≡ (if tx.have_outputs == 0 then (ser_length tx.outputs_len).1 else [])
          ++ (outputs_format (o ∷ os) ++ footer_format tx)
  outputs_rest [] o tx h e l =
      let (r, size, step) = output_step tx o h e (omega arith) in
      let last : (suc tx.have_outputs == tx.outputs_len) ≡ true = ground arith in
      rw step (rw last (simp (append_assoc, append-nil)))
  outputs_rest (o' ∷ os) o tx h e l =
      let (r, size, step) = output_step tx o h e (omega arith) in
      let more : (suc tx.have_outputs == tx.outputs_len) ≡ false = ground arith in
      let rest =
        outputs_rest os o' (with_outputs tx (suc tx.have_outputs) size) h e (omega arith) in
      let later : (suc tx.have_outputs == 0) ≡ false = ground arith in
      rw step (rw (rest, more, later) (simp (append_assoc, append-nil)))

  -- A transaction in its serialized format, up to the witnesses if it has them: version, the segwit
  -- marker and the pre-block hash where they belong, the inputs and the outputs behind their number,
  -- and a footer of the four bytes of the lock time.
  abbrev pub transaction_format : TxStruct Digest → List TxInput → List TxOutputBin → List ℕ
  transaction_format tx is os =
      (le_bytes 4 tx.version
        ++ (segwit_marker tx.is_segwit
            ++ ((if tx.version == 12 then take 32 tx.preblock_hash else [])
                ++ (ser_length tx.inputs_len).1)))
      ++ (inputs_format is
          ++ ((ser_length tx.outputs_len).1
              ++ (outputs_format os ++ (if tx.is_segwit then [] else le_bytes 4 tx.lock_time))))

  -- A transaction with as many inputs and outputs as it announced, at least one of each, is written
  -- in the transaction format, but if no witnesses follow it has four bytes more than the format: the
  -- hash type 1 stands behind the lock time.
  pub write_transaction :
      (i : TxInput) (is : List TxInput) (o : TxOutputBin) (os : List TxOutputBin)
      (tx : TxStruct Digest)
      → tx.inputs_len < 2 ^ 32
      → tx.outputs_len < 2 ^ 32
      → tx.have_inputs ≡ 0
      → tx.have_outputs ≡ 0
      → length (i ∷ is) ≡ tx.inputs_len
      → length (o ∷ os) ≡ tx.outputs_len
      → let (front, tx1) = write_inputs tx (i ∷ is) in
        front ++ (write_outputs tx1 (o ∷ os)).0
        ≡ transaction_format tx (i ∷ is) (o ∷ os) ++ (if tx.is_segwit then [] else le_bytes 4 1)
  unfolding tx_serialize_header
  write_transaction i is o os tx h k zi zo li lo =
      let (size, e) = all_inputs i is tx h zi li in
      let back = outputs_rest os o (with_inputs tx tx.inputs_len size) k refl (omega arith) in
      let first : (tx.have_outputs == 0) ≡ true = ground arith in
      ap (λ (p : List ℕ × TxStruct Digest). p.0 ++ (write_outputs p.1 (o ∷ os)).0) e
      ∙ ap (λ (b : List ℕ). ((tx_serialize_header tx).1 ++ inputs_format (i ∷ is)) ++ b)
          (back
            ∙ ap
                (λ (b : Bool).
                  (if b then (ser_length tx.outputs_len).1 else [])
                  ++ (outputs_format (o ∷ os) ++ footer_format tx))
                first)
      ∙ append_assoc (tx_serialize_header tx).1 (inputs_format (i ∷ is))
          ((ser_length tx.outputs_len).1 ++ (outputs_format (o ∷ os) ++ footer_format tx))
      ∙ rw (footer_parts tx.is_segwit (le_bytes 4 tx.lock_time) (le_bytes 4 1)) (simp append_assoc)
