-- ===== src/Lib.antt =====
-- A model of the firmware's core and what makes it correct.
--
-- The device talks to a host in messages, keeps secrets in flash behind a PIN, asks its user for
-- consent by buttons and a scrambled keypad, and signs transactions that it serializes and hashes
-- piece by piece. The files follow these parts:
--   Wire       lengths on the wire: firmware/crypto.c (ser_length, deser_length), op_push of
--              firmware/transaction.c, and util.c (readprotobufint, data2hex)
--   Message    firmware/messages.c: `Out` is the ring that msg_write_common fills and msg_out_data
--              empties, `In` the reader of msg_read_common, `Tiny` msg_read_tiny
--   Storage    firmware/storage.c: `Commit` is storage_commit_locked, `Fields` the accessors,
--              `PinArea` the counter of wrong PINs, `U2f` the U2F counter in spare flash and `Load`
--              storage_loadDevice and session_getState
--   Buttons    buttons.c, and PinMatrix firmware/pinmatrix.c
--   Protect    firmware/protect.c: the dialogues, over Storage, Buttons and PinMatrix; `Keeps` and
--              `Failures` say what they leave alone and what they send
--   Tx         firmware/transaction.c: what is written, `Hash` what is hashed, `Script` the scripts,
--              `Weight` the estimates for fees, `Address` addresses and the scripts of outputs
--   Wallet     what signing asks of the crypto library, with the coin (firmware/coins.h), and the
--              multisig keys of firmware/crypto.c; `Library` is what the handlers ask of it, with the
--              rows of the table of coins (firmware/coins.c)
--   Signing    firmware/signing.c: `Check` the checks of the first phase, `Sign` the signatures,
--              `Phase1` and `Phase2` the stages of signing_txack, over Tx and Wallet; `Safety` what
--              holds whatever the host sends
--   Reset      firmware/reset.c, a new seed and its backup, over Storage and Protect: `Words` is about
--              the words that are shown, `Laws` about the whole
--   Recovery   firmware/recovery.c: `Handler` has the handlers, `Matrix` is about the scrambled
--              matrix, `Bounds`, `Table` and `Run` about whole recoveries
--   U2f        the frames of firmware/u2f.c: `Frames` is about single ones, `RoundTrip` about messages
--   Ethereum   firmware/ethereum.c: the RLP hashing, with `RoundTrip` and `ChainId` about it, and
--              `Signing` the handlers, with `Chunks` and `Consent` about them
--   Host       what the handlers of firmware/fsm.c work on: the device, what host and user do in the
--              dialogues, the questions and messages, and the log
--   Fsm        firmware/fsm.c over Host: Initialize and the checks that the handlers begin with;
--              `Root` the key that a path names (storage_getRootNode, fsm_getDerivedNode), `Path`
--              path_mismatched and the paths that it lets through, `Messages` messages that are signed
--              (firmware/crypto.c and the end of firmware/ethereum.c), `Settings`, `Keys`, `Sign` and
--              `Begin` the handlers, `Dispatch` all of them. `Rules` and `Guarded` are about what a
--              handler does before it uses a key or changes what is stored, `Answers` about its answers,
--              `Session` about Initialize
-- Prelude has what they share: lists and tests over machine numbers, memory, and the interface of a
-- streaming hash.
--
-- A C function becomes a function with its name in lower case, from the state it works on to the
-- result and the state after it. Numbers of 32 bits wrap around where that is written out. Code that
-- is not in the repository is a parameter: nanopb's encoding and decoding, the table of messages
-- that the build generates, the hash functions (what is used of them is that feeding may be cut
-- anywhere), the derivation of keys, the word list with its tables and checks, the random generator,
-- and the board's registers. So is the lookup in the table of tokens (firmware/ethereum_tokens.c).
--
-- The storage is that of the build without the CryptoMemory chip (CRYPTOMEM=0), and without the
-- debug link in the dialogues. The search for the word that counts PIN failures stops at the end of
-- its flash sector, 4096 words on; a device that counts has such a word, so the search ends before.
-- Loops that wait for the user go through a list of what comes in, and say when it was not enough.
--
-- A signing keeps a log of what is seen outside: what comes in and what it sends, each question with
-- the user's answer, whatever the answer is, and each use of a private key. The answers come with the
-- piece that leads to the question. In Reset and Ethereum too the answers of protectButton are given.
-- In Recovery nothing depends on them; what is given is whether Initialize ends the dialogue.
-- An answer stands for no also when Cancel or Initialize ended the dialogue; that Initialize is then
-- answered in place of the failure, and clears the session, is part of Fsm and Recovery only.
--
-- A handler is a do block over a world that has the device, the user's answers and entries still to
-- come, and a log of what is seen outside. An answer of protectButton comes with the message that
-- waits when it returns. A message that a handler hands over to Signing, Reset, Recovery or Ethereum
-- is logged as handed over, so that what holds of a request there is said in those parts. What comes
-- in while the seed is derived from the mnemonic is left out, and so are the versions and the table of
-- coins that Features repeats.
--
-- Not modelled: the signing of NEM transactions and the messages of the debug link, the U2F requests,
-- storage_from_flash, and what only draws or drives hardware (layouts, USB, timers, the chip's driver,
-- the bootloader).
pub mod Prelude
pub mod Wire
pub mod Message
pub mod Fsm
pub mod Host
pub mod Tx
pub mod Wallet
pub mod Signing
pub mod Reset
pub mod Recovery
pub mod U2f
pub mod Storage
pub mod Ethereum
pub mod Buttons
pub mod PinMatrix
pub mod Protect
