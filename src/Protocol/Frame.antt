-- ===== src/Protocol/Frame.antt =====
-- `encode_frame` and `decode_frame` of rrq-rs/protocol/src/lib.rs. A byte is a number below 256;
-- serde_json is given, with its round trip.
use rrq.Prelude.{
  ℕ, ◌+◌, ◌-◌, ◌*◌, ◌/◌, ◌%◌, Option, none, some, List, [], ◌∷◌, ◌++◌, if◌then◌else◌, length, drop,
  take, ltb, nat_eq, not,
}

-- `Result<_, FrameError>`.
pub data FrameResult (A : Type 0) : Type 0 where
  ok : A → FrameResult A
  invalid_length : FrameResult A
  json : FrameResult A

abbrev pub frame_header_len : ℕ
frame_header_len = 4

-- u32::MAX + 1.
abbrev pub two_32 : ℕ
two_32 = 4294967296

unfoldable pub to_be_bytes : ℕ → List ℕ
to_be_bytes n = (n / 16777216 % 256) ∷ (n / 65536 % 256) ∷ (n / 256 % 256) ∷ (n % 256) ∷ []

unfoldable pub from_be_bytes : List ℕ → ℕ
from_be_bytes (a ∷ b ∷ c ∷ d ∷ []) = a * 16777216 + b * 65536 + c * 256 + d
from_be_bytes _ = 0

module _ {Message : Type 0} (to_vec : Message → Option (List ℕ))
    (from_slice : List ℕ → Option Message) where
  abbrev framed : List ℕ → FrameResult (List ℕ)
  framed payload =
      if ltb (length payload) two_32
      then ok (to_be_bytes (length payload) ++ payload)
      else invalid_length

  unfoldable pub encode_frame : Message → FrameResult (List ℕ)
  encode_frame message = elim (to_vec message) [ none ↦ json | some payload ↦ framed payload ]

  unfoldable pub decode_frame : List ℕ → FrameResult Message
  decode_frame frame =
      if ltb (length frame) frame_header_len
      then invalid_length
      else if not (nat_eq (length frame - frame_header_len) (from_be_bytes (take 4 frame)))
      then invalid_length
      else elim (from_slice (drop 4 frame)) [ none ↦ json | some message ↦ ok message ]
