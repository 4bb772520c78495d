-- ===== src/Tests/Ipc.antt =====
-- A short request after a heartbeat.
use velo_rift.Ipc.Frame.{Codec, ok, err, out_of_fuel, send_frame, read_message}
use velo_rift.Ipc.Frame.Laws.{heartbeats, read_message-send_frame, read_message_fuel}
use velo_rift.Ipc.Header.{request, IpcHeader, new, frame_type, to_bytes}
use velo_rift.Prelude.{ℕ, ◌≡◌, ◌≢◌, refl, sym, some, List, [], ◌∷◌, ◌++◌, arith}

-- messages that are bytes already
abbrev bytes_codec : Codec (List ℕ)
bytes_codec = record { serialize = λ m. some m; deserialize = λ p. some p }

abbrev message : List ℕ
message = 10 ∷ 20 ∷ []

abbrev frame : List ℕ
frame = to_bytes (new request 2 9) ++ message

read_message-send_frame_example :
    (h : IpcHeader) × (read_message bytes_codec request
        (heartbeats (8 ∷ []) ++ (frame ++ (77 ∷ [])))
      ≡ ok (h, message, 77 ∷ []))
    × (h.seq_id ≡ 9)
    × (frame_type h ≡ some request)
read_message-send_frame_example =
    read_message-send_frame bytes_codec request message 9 (8 ∷ []) frame (77 ∷ []) (λ m' p e. sym e)
      (λ e. absurd (ground arith)) (omega arith) (omega arith, tt) (unfold send_frame in refl)

read_message_fuel_example : read_message bytes_codec request frame ≢ err out_of_fuel
read_message_fuel_example = read_message_fuel bytes_codec request frame
