-- ===== src/Chunk/Decoder.antt =====
-- network/protocol/chunk/decoder.go. A reader is nil, or the bytes that are left in it; every
-- function also returns the reader that it leaves.
use cipher.Prelude.{
  ℕ, ◌-◌, not, Option, none, some, Bytes, take, drop, get_or, ltb, ◌==◌, Result, ok, err,
  if◌then◌else◌,
}
use cipher.Prelude.Encoding.{le_value}
use cipher.Chunk.Limits.{MessageType, current_message_version, max_payload_size_for_message}
use cipher.Chunk.Messages.{read_full}

pub data FrameError : Type 0 where
  nil_reader truncated_frame invalid_payload_size invalid_protocol_version : FrameError
  unknown_message_type payload_too_large unexpected_message_type : FrameError

pub record Frame : Type 0 where
  pub version : ℕ
  pub message_type : MessageType
  pub payload : Bytes

abbrev pub Reader : Type 0
Reader = Option Bytes

abbrev pub payload_read :
    {A : Type 0} → (Bytes → A) → Bytes × Option Bytes → Reader × Result FrameError A
payload_read f (rest, none) = (some rest, err truncated_frame)
payload_read f (rest, some p) = (some rest, ok (f p))

-- DecodeFrame behind its header: `h` holds the 7 bytes, `rest` what is left.
unfoldable pub decode_declared : Bytes → Bytes → Reader × Result FrameError Frame
decode_declared h rest =
    let frame_size = le_value (take 4 h) in
    let version = le_value (take 2 (drop 4 h)) in
    let message_type = get_or h 6 0 in
    let max_payload_size = max_payload_size_for_message message_type in
    let declared_size = frame_size - 3 in
    if ltb frame_size 3
    then (some rest, err invalid_payload_size)
    else if not (version == current_message_version)
    then (some rest, err invalid_protocol_version)
    else if max_payload_size == 0
    then (some rest, err unknown_message_type)
    else if declared_size == 0
    then (some rest, err invalid_payload_size)
    else if ltb max_payload_size declared_size
    then (some rest, err payload_too_large)
    else payload_read (λ p. record { version = version; message_type = message_type; payload = p })
        (read_full declared_size rest)

abbrev pub declared_read : Bytes × Option Bytes → Reader × Result FrameError Frame
declared_read (rest, none) = (some rest, err truncated_frame)
declared_read (rest, some h) = decode_declared h rest

-- DecodeFrame
unfoldable pub decode_frame : Reader → Reader × Result FrameError Frame
decode_frame none = (none, err nil_reader)
decode_frame (some r) = declared_read (read_full 7 r)

abbrev expect : MessageType → Frame → Result FrameError Frame
expect expected f = if not (f.message_type == expected) then err unexpected_message_type else ok f

-- DecodeExpectedFrame
unfoldable pub decode_expected_frame : Reader → MessageType → Reader × Result FrameError Frame
decode_expected_frame r expected =
    let (r', frame) = decode_frame r in
    elim frame [ err e ↦ (r', err e) | ok f ↦ (r', expect expected f) ]

-- The named results of DecodeFrameHeader: an error leaves those that are set before it.
pub record FrameHeader : Type 0 where
  pub version : ℕ
  pub message_type : MessageType
  pub payload_size : ℕ
  pub error : Option FrameError

-- DecodeFrameHeader behind the header's 7 bytes.
unfoldable pub header_fields : Bytes → FrameHeader
header_fields h =
    let frame_size = le_value (take 4 h) in
    let version = le_value (take 2 (drop 4 h)) in
    let message_type = get_or h 6 0 in
    let max_payload_size = max_payload_size_for_message message_type in
    let payload_size = frame_size - 3 in
    if ltb frame_size 3
    then record {
      version = 0;
      message_type = 0;
      payload_size = 0;
      error = some invalid_payload_size;
    }
    else if not (version == current_message_version)
    then record {
      version = version;
      message_type = 0;
      payload_size = 0;
      error = some invalid_protocol_version;
    }
    else if max_payload_size == 0
    then record {
      version = version;
      message_type = message_type;
      payload_size = 0;
      error = some unknown_message_type;
    }
    else if payload_size == 0
    then record {
      version = version;
      message_type = message_type;
      payload_size = 0;
      error = some invalid_payload_size;
    }
    else if ltb max_payload_size payload_size
    then record {
      version = version;
      message_type = message_type;
      payload_size = payload_size;
      error = some payload_too_large;
    }
    else record {
      version = version;
      message_type = message_type;
      payload_size = payload_size;
      error = none;
    }

abbrev pub header_read : Bytes × Option Bytes → Reader × FrameHeader
header_read (rest, none) = (
  some rest,
  record { version = 0; message_type = 0; payload_size = 0; error = some truncated_frame },
)
header_read (rest, some h) = (some rest, header_fields h)

-- DecodeFrameHeader
unfoldable pub decode_frame_header : Reader → Reader × FrameHeader
decode_frame_header none =
    (none, record { version = 0; message_type = 0; payload_size = 0; error = some nil_reader })
decode_frame_header (some r) = header_read (read_full 7 r)

-- ReadFramePayload
unfoldable pub read_frame_payload : Reader → MessageType → ℕ → Reader × Result FrameError Bytes
read_frame_payload none message_type payload_size = (none, err nil_reader)
read_frame_payload (some r) message_type payload_size =
    let max_payload_size = max_payload_size_for_message message_type in
    if max_payload_size == 0
    then (some r, err unknown_message_type)
    else if payload_size == 0
    then (some r, err invalid_payload_size)
    else if ltb max_payload_size payload_size
    then (some r, err payload_too_large)
    else payload_read (λ p. p) (read_full payload_size r)
