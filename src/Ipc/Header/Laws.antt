-- ===== src/Ipc/Header/Laws.antt =====
-- The header's encoding and its checks.
use velo_rift.Ipc.Header.{
  FrameType, request, response, heartbeat, IpcHeader, new, frame_type, version, is_valid, to_bytes,
  from_bytes, header_size, protocol_version, is_version_compatible,
}
use velo_rift.Prelude.{ℕ, ◌^◌, ◌≤◌, ◌<◌, ◌≡◌, refl, List, ◌++◌, some, true, arith, length, ◌↔◌}
use velo_rift.Prelude.Bytes.{le_bytes, from_le_bytes}

-- every field fits its width
pub record Fits (h : IpcHeader) : Type 0 where
  pub length : h.length < 2 ^ 32
  pub seq_id : h.seq_id < 2 ^ 32

le_roundtrip : (n : ℕ) → n < 2 ^ 32 → from_le_bytes (le_bytes 4 n) ≡ n
unfolding from_le_bytes le_bytes
le_roundtrip n h = omega arith

pub length-to_bytes : (h : IpcHeader) → length (to_bytes h) ≡ header_size
unfolding to_bytes le_bytes
length-to_bytes h = refl

-- Decoding an encoded header whose fields fit their widths gives the header back, whatever follows
-- it.
pub from_bytes-to_bytes :
    (h : IpcHeader) (rest : List ℕ) → Fits h → from_bytes (to_bytes h ++ rest) ≡ h
unfolding from_bytes to_bytes le_bytes
from_bytes-to_bytes h rest fits =
    let a = le_roundtrip h.length fits.length in
    let b = le_roundtrip h.seq_id fits.seq_id in
    λ i. record {
      magic = h.magic;
      type_ver = h.type_ver;
      flags = h.flags;
      length = a i;
      seq_id = b i;
    }

-- A header made for a frame type is valid, and carries the type and the current version.
pub new-is_valid :
    (t : FrameType) (n seq : ℕ)
    → (is_valid (new t n seq) ≡ true)
      × (frame_type (new t n seq) ≡ some t)
      × (version (new t n seq) ≡ protocol_version)
unfolding is_valid new
new-is_valid request n seq = (refl, refl, refl)
new-is_valid response n seq = (refl, refl, refl)
new-is_valid heartbeat n seq = (refl, refl, refl)

-- The versions from 1 to the current one are compatible, and no other.
pub is_version_compatible_iff :
    (v : ℕ) → (is_version_compatible v ≡ true) ↔ ((1 ≤ v) × (v ≤ protocol_version))
unfolding is_version_compatible
is_version_compatible_iff v = (λ h. ground arith, λ h. ground arith)
