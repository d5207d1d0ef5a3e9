-- ===== src/Prelude/Crypto.antt =====
-- The streaming hash of the crypto library that the firmware links (hasher.h): a state that bytes
-- are fed to. What the firmware relies on is that the feeding may be cut anywhere.
use Prim.Native.Nat.{ℕ}
use mathlib.Core.Path.{◌≡◌}
use mathlib.Core.List.{List, [], ◌++◌, append-nil, append_assoc}

pub record Hasher : Type 1 where
  pub State : Type 0
  -- `hasher_Init`, for the hash that a number names
  pub init : ℕ → State
  -- `hasher_Update`
  pub feed : State → List ℕ → State
  -- `hasher_Final`
  pub digest : State → List ℕ
  pub feed_nil : (s : State) → feed s [] ≡ s
  pub feed-append : (s : State) (xs ys : List ℕ) → feed (feed s xs) ys ≡ feed s (xs ++ ys)

-- The hash that keeps what it is fed.
abbrev pub list_hasher : Hasher
list_hasher = record {
  State = List ℕ;
  init = λ _. [];
  feed = λ s xs. s ++ xs;
  digest = λ s. s;
  feed_nil = append-nil;
  feed-append = append_assoc;
}
