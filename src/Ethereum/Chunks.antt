-- ===== src/Ethereum/Chunks.antt =====
-- The data of an Ethereum transaction in chunks, and what comes before a signature.
use safe_t_mcu.Prelude.{
  ℕ, ◌-◌, ◌≤◌, ◌<◌, ◌≡◌, refl, ap, ◌∙◌, arith, Bool, true, false, not, ◌&&◌, ◌||◌, List, [], ◌∷◌,
  ◌++◌, Option, none, some, ltb, leb, ◌==◌, if◌then◌else◌, length, length-append, append-nil, sym,
  Hasher, All,
}
use safe_t_mcu.Ethereum.Signing.{
  Event, requested, Signer, send_request_chunk, send_signed, send_signature, hash_chain, feed_chunk,
  ethereum_signing_txack,
}

-- All data of the chunks.
abbrev pub joined : List (List ℕ) → List ℕ
joined [] = []
joined (c ∷ cs) = c ++ joined cs

abbrev pub IsChunk : List ℕ → Type 0
IsChunk c = 1 ≤ length c

module _ (H : Hasher) (is_token : ℕ → List ℕ → Bool)
    (sign_digest : List ℕ → List ℕ → Option (ℕ × List ℕ)) where
  -- The chunks that come in, one after the other.
  abbrev pub send_chunks :
      List (List ℕ) → Signer H is_token sign_digest → Signer H is_token sign_digest
  send_chunks [] s = s
  send_chunks (c ∷ cs) s = send_chunks cs (ethereum_signing_txack H is_token sign_digest true c s)

  -- What the device asked for and did, without its requests.
  abbrev pub without_requests : List Event → List Event
  without_requests [] = []
  without_requests (requested n ∷ log) = without_requests log
  without_requests (e ∷ log) = e ∷ without_requests log

  abbrev pub core : Signer H is_token sign_digest → Signer H is_token sign_digest
  core s = record s { log = without_requests s.log }

  accepted :
      (c : List ℕ) (s : Signer H is_token sign_digest)
      → s.signing ≡ true
      → length c ≤ s.data_left
      → 1 ≤ length c
      → ethereum_signing_txack H is_token sign_digest true c s
        ≡ feed_chunk H is_token sign_digest c s
  unfolding ethereum_signing_txack
  accepted c s on h k =
      rw (on, fits s.data_left (length c) h, not_empty s.data_left (length c) k) refl
    where
      fits : (n k : ℕ) → k ≤ n → ltb n k ≡ false
      fits n k h = ground arith

      not_empty : (n k : ℕ) → 1 ≤ k → (ltb 0 n && (not true || k == 0)) ≡ false
      not_empty n k h = ground arith

  last_chunk :
      (c : List ℕ) (s : Signer H is_token sign_digest)
      → length c ≡ s.data_left
      → feed_chunk H is_token sign_digest c s
        ≡ send_signature H is_token sign_digest
            (record s { keccak = H.feed s.keccak c; data_left = 0 })
  last_chunk c s h = rw (nothing_left s.data_left (length c) h) refl
    where
      nothing_left : (n k : ℕ) → k ≡ n → n - k ≡ 0
      nothing_left n k h = omega (arith, h)

  -- A request more in the log changes nothing else.
  same_but_requests :
      (o : Option (ℕ × List ℕ)) (n : ℕ) (s : Signer H is_token sign_digest)
      → core (send_signed H is_token sign_digest o (record s { log = requested n ∷ s.log }))
        ≡ core (send_signed H is_token sign_digest o s)
  same_but_requests none n s = refl
  same_but_requests (some (v, sig)) n s = refl

  more_data :
      (c : List ℕ) (s : Signer H is_token sign_digest)
      → length c < s.data_left
      → feed_chunk H is_token sign_digest c s
        ≡ send_request_chunk H is_token sign_digest
            (record s { keccak = H.feed s.keccak c; data_left = s.data_left - length c })
  more_data c s h = rw (left_over s.data_left (length c) h) refl
    where
      left_over : (n k : ℕ) → k < n → ltb 0 (n - k) ≡ true
      left_over n k h = ground arith

  -- However the host cuts the data that is missing into chunks that are not empty, the signing ends as if it came
  -- at once: the hash that is signed is that of all the data, and apart from the requests for
  -- chunks everything that is kept and sent is the same.
  pub send_chunks_lem :
      (c : List ℕ) (cs : List (List ℕ)) (s : Signer H is_token sign_digest)
      → s.signing ≡ true
      → length (joined (c ∷ cs)) ≡ s.data_left
      → All IsChunk (c ∷ cs)
      → core (send_chunks (c ∷ cs) s)
        ≡ core (
            send_signature H is_token sign_digest
              (record s { keccak = H.feed s.keccak (joined (c ∷ cs)); data_left = 0 }))
  unfolding send_signature
  send_chunks_lem c [] s on e chunks =
      let whole = ap length (append-nil c) in
      ap core (
        accepted c s on (omega (arith, e, whole)) chunks.0
        ∙ last_chunk c s (omega (arith, e, whole)))
      ∙ ap
          (λ bs. core (
            send_signature H is_token sign_digest
              (record s { keccak = H.feed s.keccak bs; data_left = 0 })))
          (sym (append-nil c))
  send_chunks_lem c (d ∷ cs) s on e chunks =
      let all = length-append c (joined (d ∷ cs)) in
      let next = length-append d (joined cs) in
      let s1 : Signer H is_token sign_digest = record s {
        keccak = H.feed s.keccak c;
        data_left = s.data_left - length c;
      } in
      let k = H.feed (H.feed s.keccak c) (joined (d ∷ cs)) in
      ap (λ t. core (send_chunks (d ∷ cs) t))
        (accepted c s on (omega (arith, e, all)) chunks.0
          ∙ more_data c s (omega (arith, e, all, next, chunks.1.0)))
      ∙ send_chunks_lem d cs (send_request_chunk H is_token sign_digest s1) on
          (omega (arith, e, all)) chunks.1
      ∙ same_but_requests
          (sign_digest s.privkey (H.digest (hash_chain H is_token sign_digest s.chain_id k)))
          (if leb s1.data_left 1024 then s1.data_left else 1024)
          (record s { keccak = hash_chain H is_token sign_digest s.chain_id k; data_left = 0 })
      ∙ ap
          (λ k.
            core (send_signature H is_token sign_digest (record s { keccak = k; data_left = 0 })))
          (H.feed-append s.keccak c (joined (d ∷ cs)))
