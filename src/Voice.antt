-- ===== src/Voice.antt =====
-- The voice sidecar, `src/agent/voice`: the audio ring buffer.
pub mod RingBuffer
pub mod Pipeline
