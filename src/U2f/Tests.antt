-- ===== src/U2f/Tests.antt =====
-- A message of 60 bytes, in two frames.
use safe_t_mcu.Prelude.{arith, [], ◌∷◌, none, replicate}
use safe_t_mcu.U2f.{Channel, message_frames}
use safe_t_mcu.U2f.Frames.{Complete, read_frames}
use safe_t_mcu.U2f.RoundTrip.{read_frames-message_frames}

abbrev channel : Channel
channel = record {
  cid = 0;
  out_start = 0;
  out_end = 0;
  packets = λ i. record { cid = 0; type = 0; payload = [] };
  reader = none;
}

read_frames-message_frames_example :
    Complete
      (read_frames (1 ∷ 2 ∷ 3 ∷ []) 9 (message_frames 5 0x83 (replicate 60 7)) channel)
      0x83
      (replicate 60 7)
read_frames-message_frames_example =
    read_frames-message_frames (1 ∷ 2 ∷ 3 ∷ []) 9 5 0x83 (replicate 60 7) channel (omega arith)
      (omega arith) (omega arith) (omega arith) (omega arith) (omega arith)
