-- ===== src/Fsm/Sign/Verify.antt =====
-- The two places where `fsm_msgEthereumVerifyMessage` of firmware/fsm.c may refuse a signature.
use safe_t_mcu.Prelude.{ℕ, ◌≡◌, refl, ◌∙◌, not, Bool, true, false, List, ◌==◌, if◌then◌else◌}
use safe_t_mcu.Wallet.Library.{Library}
use safe_t_mcu.Host.{World, stopped, ended, returned, data_error, M, ◌>>=◌, pure}
use safe_t_mcu.Fsm.{fsm_send_failure, check, fail}
use safe_t_mcu.Fsm.Messages.{is_signed_by}
use safe_t_mcu.Fsm.Sign.{has_sizes, ethereum_message_verify}

module _ (L : Library) where
  -- A failure of each of two functions.
  unfoldable pub fail_twice : {A : Type 0} → M A
  fail_twice w = stopped ended (fsm_send_failure L data_error (fsm_send_failure L data_error w))

  by_code :
      (b c : Bool) {A : Type 0} (k : M A) (w : World)
      → ((λ (v : World).
              if not b
              then returned 1 (fsm_send_failure L data_error v)
              else returned (if c then 0 else 2) v)
            >>= λ code. check L (code == 0) data_error >>= λ _. k)
          w
        ≡ ((if b then pure tt else fail_twice) >>= λ _. check L c data_error >>= λ _. k) w
  unfolding fail_twice pure check fail
  by_code true true k w = refl
  by_code true false k w = refl
  by_code false c k w = refl

  -- The code that `ethereum_message_verify` returns decides as its two tests do.
  verify_lem :
      (text signature message : List ℕ) {A : Type 0} (k : M A) (w : World)
      → (ethereum_message_verify L text signature message >>= λ code.
            check L (code == 0) data_error >>= λ _. k)
          w
        ≡ ((if has_sizes L text signature then pure tt else fail_twice) >>= λ _.
              check L (is_signed_by L text signature message) data_error >>= λ _. k)
            w
  unfolding ethereum_message_verify
  verify_lem text signature message k w =
      by_code (has_sizes L text signature) (is_signed_by L text signature message) k w

  refused :
      (b c : Bool) {A : Type 0} (k : M A) (w : World)
      → b ≡ false
      → ((if b then pure tt else fail_twice) >>= λ _. check L c data_error >>= λ _. k) w
        ≡ stopped ended (fsm_send_failure L data_error (fsm_send_failure L data_error w))
  unfolding fail_twice
  refused true c k w e = absurd (true_is_not_false e)
    where
      true_is_not_false : true ≡ false → ⊥
      true_is_not_false e = cc
  refused false c k w e = refl

  pub refused_twice :
      (text signature message : List ℕ) {A : Type 0} (k : M A) (w : World)
      → has_sizes L text signature ≡ false
      → (ethereum_message_verify L text signature message >>= λ code.
            check L (code == 0) data_error >>= λ _. k)
          w
        ≡ stopped ended (fsm_send_failure L data_error (fsm_send_failure L data_error w))
  refused_twice text signature message k w h =
      verify_lem text signature message k w
      ∙ refused (has_sizes L text signature) (is_signed_by L text signature message) k w h

  pub ethereum_message_verify_lem :
      (text signature message : List ℕ) {A : Type 0} (k : M A)
      → (ethereum_message_verify L text signature message >>= λ code.
          check L (code == 0) data_error >>= λ _. k)
        ≡ ((if has_sizes L text signature then pure tt else fail_twice) >>= λ _.
            check L (is_signed_by L text signature message) data_error >>= λ _. k)
  ethereum_message_verify_lem text signature message k =
      λ i w. verify_lem text signature message k w i
