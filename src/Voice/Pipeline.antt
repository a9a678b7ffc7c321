-- ===== src/Voice/Pipeline.antt =====
-- `HandsfreePipeline` of `src/agent/voice/pipeline.py`: the state machine from the wake word to the
-- submission. The audio thread calls `on_chunk`; the event loop runs the coroutines it starts. A
-- time is a number of nanoseconds; a sample is a number.
pub mod Reach
pub mod Raises
mod Tests
use hyprland_agent.Prelude.{
  ℕ, zero, suc, ◌+◌, ◌*◌, Text, Bool, true, false, not, ◌&&◌, ◌||◌, Option, none, some, List, [],
  ◌∷◌, ◌++◌, length, ltb, leb, if◌then◌else◌,
}

pub data PipelineState : Type 0 where
  listening waking recording transcribing submitting : PipelineState

abbrev pub Audio : Type 0
Audio = List ℕ

-- A coroutine that waits: for the detector, for the transcription, for the daemon.
pub data Task : Type 0 where
  check_wake_word : Audio → Task
  transcribe : Audio → Task
  submit : Text → Task

-- What a coroutine on the event loop still has to write before its next wait. The audio thread may
-- run between these writes.
pub data Write : Type 0 where
  set_frames : Audio → Write
  reset_silence set_deadline set_listening : Write

pub record Pipeline : Type 0 where
  pub state : PipelineState
  pub recording_frames : List Audio
  pub speech_end_time : ℕ
  pub wake_chunk : Option Audio
  pub silence_blocks : ℕ
  pub tts_stop : Bool
  pub tasks : List Task
  pub writes : List Write

abbrev pub started : Pipeline
started = record {
  state = PipelineState.listening;
  recording_frames = [];
  speech_end_time = 0;
  wake_chunk = none;
  silence_blocks = 0;
  tts_stop = false;
  tasks = [];
  writes = [];
}

-- `BLOCK_DURATION`, in milliseconds
abbrev pub block_duration : ℕ
block_duration = 80

-- A chunk, what the voice detector says of it, and the clock at the first reading and the second.
pub record Chunk : Type 0 where
  pub mono : Audio
  pub is_speech : Bool
  pub now : ℕ
  pub later : ℕ

abbrev pub flatten : List Audio → Audio
flatten [] = []
flatten (a ∷ rest) = a ++ flatten rest

abbrev pub with_task : Pipeline → Task → Pipeline
with_task p t = record p { tasks = p.tasks ++ (t ∷ []) }

-- Whether the call raised: `np.concatenate` of no arrays does.
abbrev pub Called : Type 0
Called = Pipeline × Bool

-- `_trigger_transcribe`
unfoldable pub transcribe_frames : Pipeline → List Audio → Called
transcribe_frames p [] = (record p { state = PipelineState.transcribing }, true)
transcribe_frames p (frame ∷ frames) = (
  with_task (record p { state = PipelineState.transcribing; recording_frames = [] })
      (Task.transcribe (flatten (frame ∷ frames))),
  false,
)

abbrev pub trigger_transcribe : Pipeline → Called
trigger_transcribe p = transcribe_frames p p.recording_frames

-- What follows a call that did not raise.
abbrev pub and_then : Called → (Pipeline → Called) → Called
and_then (p, true) f = (p, true)
and_then (p, false) f = f p

-- `silence_s >= 1.0 and len(self._recording_frames) > 20`
abbrev pub is_silent : Pipeline → Bool
is_silent p = leb 1000 (p.silence_blocks * block_duration) && ltb 20 (length p.recording_frames)

-- `if not is_speech: ... else: ...`
unfoldable pub on_silence : Pipeline → Bool → Called
on_silence p true = (record p { silence_blocks = 0 }, false)
on_silence p false =
    let counted = record p { silence_blocks = suc p.silence_blocks } in
    if is_silent counted then trigger_transcribe counted else (counted, false)

-- `time.monotonic() > end and len(frames) > 5 or time.monotonic() > end`
abbrev pub is_over : Pipeline → Chunk → Bool
is_over p c =
    (ltb p.speech_end_time c.now && ltb 5 (length p.recording_frames))
    || ltb p.speech_end_time c.later

unfoldable pub on_deadline : Chunk → Pipeline → Called
on_deadline c p = if is_over p c then trigger_transcribe p else (p, false)

-- A chunk while listening.
unfoldable pub listen : Pipeline → Chunk → Pipeline
listen p c =
    if c.is_speech
    then record p {
      state = PipelineState.waking;
      wake_chunk = some c.mono;
      speech_end_time = c.now + 2000000000;
    }
    else p

-- A chunk while waking, behind `np.concatenate([self._wake_chunk, mono])`, which needs a chunk.
unfoldable pub wake : Pipeline → Chunk → Option Audio → Called
wake p c none = (p, true)
wake p c (some audio) =
    if not c.is_speech || ltb p.speech_end_time c.now
    then (
      with_task (record p { state = PipelineState.listening; wake_chunk = none })
          (Task.check_wake_word (audio ++ c.mono)),
      false,
    )
    else (record p { wake_chunk = some (audio ++ c.mono) }, false)

-- A chunk while recording.
unfoldable pub record_chunk : Pipeline → Chunk → Called
record_chunk p c =
    let grown = record p { recording_frames = p.recording_frames ++ (c.mono ∷ []) } in
    and_then (on_silence grown c.is_speech) (on_deadline c)

unfoldable pub chunk_in : PipelineState → Pipeline → Chunk → Called
chunk_in PipelineState.listening p c = (listen p c, false)
chunk_in PipelineState.waking p c = wake p c p.wake_chunk
chunk_in PipelineState.recording p c = record_chunk p c
chunk_in PipelineState.transcribing p c = (p, false)
chunk_in PipelineState.submitting p c = (p, false)

abbrev pub on_chunk : Pipeline → Chunk → Called
on_chunk p c = chunk_in p.state p c

-- `_check_wake_word`, when the detector has answered whether it is a wake word: the state is set
-- first, and the buffer, the counter and the deadline follow.
unfoldable pub wake_checked : Pipeline → Audio → Bool → Pipeline
wake_checked p audio false = p
wake_checked p audio true = record p {
  tts_stop = true;
  state = PipelineState.recording;
  writes = Write.set_frames audio ∷ Write.reset_silence ∷ Write.set_deadline ∷ [];
}

-- One of the writes; `now` is the clock, and `record_timeout` how long a recording may be.
unfoldable pub write : ℕ → ℕ → Write → Pipeline → Pipeline
write record_timeout now (Write.set_frames audio) p = record p { recording_frames = audio ∷ [] }
write record_timeout now (Write.reset_silence) p = record p { silence_blocks = 0 }
write record_timeout now (Write.set_deadline) p = record p {
  speech_end_time = now + record_timeout;
}
write record_timeout now (Write.set_listening) p = record p { state = PipelineState.listening }

-- `_transcribe_and_submit`, when the engine has answered; `none` is an exception. On an empty text
-- the `finally` sets the state once more.
unfoldable pub transcribed : Pipeline → Option Text → Pipeline
transcribed p none = record p { state = PipelineState.listening }
transcribed p (some []) = record p {
  state = PipelineState.listening;
  writes = Write.set_listening ∷ [];
}
transcribed p (some (c ∷ cs)) =
    with_task (record p { state = PipelineState.submitting }) (Task.submit (c ∷ cs))

-- `_submit`, when the daemon has answered or refused, and what follows it.
abbrev pub submitted : Pipeline → Pipeline
submitted p = record p { state = PipelineState.listening }
