-- ===== src/Ipc/Header.antt =====
-- The frame header: crates/vrift-ipc/src/lib.rs, `IpcHeader`.
pub mod Laws
use Prim.Native.Nat.{bit_and, bit_or}
use velo_rift.Prelude.{
  ◌^◌, ℕ, ◌*◌, ◌/◌, ◌≤◌, List, [], ◌∷◌, ◌++◌, Option, none, some, Bool, true, false, ◌&&◌, ◌==◌,
  leb, if◌then◌else◌, get_or,
}
use velo_rift.Prelude.Bytes.{le_bytes, from_le_bytes}

abbrev pub protocol_version : ℕ
protocol_version = 4

abbrev pub min_protocol_version : ℕ
min_protocol_version = 1

-- `*b"VR"`
abbrev pub ipc_magic : ℕ × ℕ
ipc_magic = (b'V', b'R')

abbrev pub header_size : ℕ
header_size = 12

abbrev pub max_length : ℕ
max_length = 32 * 1024 * 1024

pub data FrameType : Type 0 where
  request response heartbeat : FrameType

abbrev pub frame_code : FrameType → ℕ
frame_code request = 0
frame_code response = 1
frame_code heartbeat = 2

-- `FrameType::try_from`
unfoldable pub frame_type_of : ℕ → Option FrameType
frame_type_of value =
    if value == 0
    then some request
    else if value == 1
    then some response
    else if value == 2
    then some heartbeat
    else none

pub record IpcHeader : Type 0 where
  pub magic : ℕ × ℕ
  pub type_ver : ℕ
  pub flags : ℕ
  pub length : ℕ
  pub seq_id : ℕ

unfoldable pub new : FrameType → ℕ → ℕ → IpcHeader
new frame_type length seq_id = record {
  magic = ipc_magic;
  type_ver = bit_or (frame_code frame_type * 2 ^ 4) (bit_and protocol_version 0x0f);
  flags = 0;
  length = length;
  seq_id = seq_id;
}

unfoldable pub frame_type : IpcHeader → Option FrameType
unfolding frame_type_of
frame_type h = frame_type_of (h.type_ver / 2 ^ 4)

unfoldable pub version : IpcHeader → ℕ
version h = bit_and h.type_ver 0x0f

abbrev pub is_some {ℓ} : {A : Type ℓ} → Option A → Bool
is_some none = false
is_some (some a) = true

abbrev pub magic_matches : IpcHeader → Bool
magic_matches h = h.magic.0 == ipc_magic.0 && h.magic.1 == ipc_magic.1

unfoldable pub is_valid : IpcHeader → Bool
unfolding version frame_type
is_valid h = magic_matches h && (version h == protocol_version && is_some (frame_type h))

unfoldable pub to_bytes : IpcHeader → List ℕ
to_bytes h =
    h.magic.0 ∷ h.magic.1 ∷ h.type_ver ∷ h.flags ∷ (le_bytes 4 h.length ++ le_bytes 4 h.seq_id)

-- the argument holds twelve bytes
unfoldable pub from_bytes : List ℕ → IpcHeader
from_bytes bytes =
    let at = λ (i : ℕ). get_or bytes i 0 in
    record {
      magic = (at 0, at 1);
      type_ver = at 2;
      flags = at 3;
      length = from_le_bytes (at 4 ∷ at 5 ∷ at 6 ∷ at 7 ∷ []);
      seq_id = from_le_bytes (at 8 ∷ at 9 ∷ at 10 ∷ at 11 ∷ []);
    }

unfoldable pub is_version_compatible : ℕ → Bool
is_version_compatible client_version =
    leb min_protocol_version client_version && leb client_version protocol_version
