-- ===== src/Protocol.antt =====
-- include/efsw/agent_protocol.hpp: constants and the frame of the wire protocol between the agent
-- and its client. `Writer` serializes payloads, `Reader` reads them back, `FrameParser` cuts a
-- byte stream into frames; the other children prove what these promise.
pub mod Writer
pub mod Reader
pub mod FrameParser
pub mod Fields
pub mod ReadBack
pub mod Payload
pub mod RoundTrip
pub mod Split
pub mod Cut
pub mod Stream
pub mod Consume
pub mod Chunks
mod Tests
use efsw.Base.{ℕ, ◌*◌, Text}

abbrev pub protocol_version : ℕ
protocol_version = 1

-- Frames larger than this are rejected as malformed.
abbrev pub max_payload_size : ℕ
max_payload_size = 16 * 1024 * 1024

abbrev pub header_size : ℕ
header_size = 8

pub record Frame : Type 0 where
  pub version : ℕ
  pub type : ℕ
  pub payload : Text
