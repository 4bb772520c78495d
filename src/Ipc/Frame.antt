-- ===== src/Ipc/Frame.antt =====
-- Frames over a byte stream: `frame_sync` of crates/vrift-ipc/src/lib.rs. The stream to read from
-- is the list of the bytes that are still to come.
pub mod Laws
use velo_rift.Ipc.Header.{
  FrameType, request, response, heartbeat, IpcHeader, new, frame_type, version, is_valid,
  magic_matches, to_bytes, from_bytes, header_size, max_length, protocol_version, frame_code,
}
use velo_rift.Prelude.{
  ℕ, zero, suc, ◌+◌, ◌%◌, ◌^◌, List, [], ◌∷◌, ◌++◌, Option, none, some, Bool, true, false, not,
  ◌==◌, ltb, if◌then◌else◌, length, take, drop,
}

pub data IoError : Type 0 where
  unexpected_eof invalid_magic version_mismatch invalid_frame_type : IoError
  unexpected_frame : Option FrameType → IoError
  unencodable payload_too_large undecodable out_of_fuel : IoError

pub data Result {ℓ} (A : Type ℓ) : Type ℓ where
  ok : A → Result A
  err : IoError → Result A

infixl 5 ◌>>=◌
abbrev pub ◌>>=◌ {ℓ κ} : {A : Type ℓ} {B : Type κ} → Result A → (A → Result B) → Result B
ok a >>= f = f a
err e >>= f = err e

-- `rkyv::to_bytes` and `rkyv::from_bytes` at a type of messages
pub record Codec (Msg : Type 0) : Type 0 where
  pub serialize : Msg → Option (List ℕ)
  pub deserialize : List ℕ → Option Msg

-- `AtomicU32::fetch_add`: the value, and the counter's next value
unfoldable pub next_seq_id : ℕ → ℕ × ℕ
next_seq_id counter = (counter, (counter + 1) % 2 ^ 32)

unfoldable pub read_exact : ℕ → List ℕ → Result (List ℕ × List ℕ)
read_exact n input =
    if ltb (length input) n then err unexpected_eof else ok (take n input, drop n input)

unfoldable pub check_header : IpcHeader → Result IpcHeader
check_header h =
    if is_valid h
    then ok h
    else if not (magic_matches h)
    then err invalid_magic
    else if not (version h == protocol_version)
    then err version_mismatch
    else err invalid_frame_type

unfoldable pub read_header : List ℕ → Result (IpcHeader × List ℕ)
unfolding read_exact check_header
read_header input = do
  (buf, rest) ← read_exact header_size input
  h ← check_header (from_bytes buf)
  ok (h, rest)

abbrev pub same_frame : Option FrameType → FrameType → Bool
same_frame none t = false
same_frame (some s) t = frame_code s == frame_code t

unfoldable pub is_heartbeat : IpcHeader → Bool
is_heartbeat h = same_frame (frame_type h) heartbeat

-- the bytes of `send_heartbeat`
unfoldable pub send_heartbeat : ℕ → List ℕ
send_heartbeat seq_id = to_bytes (new heartbeat 0 seq_id)

module _ {Msg : Type 0} (codec : Codec Msg) where
  -- the bytes of `send_request` and `send_response`
  unfoldable pub send_frame : FrameType → Msg → ℕ → Result (List ℕ)
  send_frame t msg seq_id = elim (codec.serialize msg) [
    | none ↦ err unencodable
    | some payload ↦
        if ltb max_length (length payload)
        then err payload_too_large
        else ok (to_bytes (new t (length payload % 2 ^ 32) seq_id) ++ payload)
  ]

  unfoldable pub decode : List ℕ → Result Msg
  decode payload = elim (codec.deserialize payload) [ none ↦ err undecodable | some m ↦ ok m ]

  -- what follows the header of a frame that is no heartbeat
  unfoldable pub read_payload : FrameType → IpcHeader → List ℕ → Result (IpcHeader × Msg × List ℕ)
  unfolding decode read_exact
  read_payload want h input =
      if not (same_frame (frame_type h) want)
      then err (unexpected_frame (frame_type h))
      else (do (payload, rest) ← read_exact h.length input; msg ← decode payload; ok (h, msg, rest))

  -- The loop of `read_request` and `read_response`. Each heartbeat takes a header's bytes.
  unfoldable pub read_loop : ℕ → FrameType → List ℕ → Result (IpcHeader × Msg × List ℕ)
  read_loop zero want input = err out_of_fuel
  read_loop (suc fuel) want input = elim (read_header input) [
    | err e ↦ err e
    | ok hr ↦ elim (is_heartbeat hr.0) [
      | true ↦ read_loop fuel want hr.1
      | false ↦ read_payload want hr.0 hr.1
    ]
  ]

  unfoldable pub read_message : FrameType → List ℕ → Result (IpcHeader × Msg × List ℕ)
  read_message want input = read_loop (suc (length input)) want input
