-- ===== src/Lib.antt =====
-- Voxray (github.com/Voxray-AI/Voxray): a server for voice agents, in Go. Audio and text travel as
-- frames through a chain of processors. This library models the chain and its branches, the processors
-- that decide when the user and the bot have their turns, and those that gather text and hold frames
-- back.
--
-- The parts and their files:
-- - Frames: pkg/frames, the frames as a data type, and the two directions of pkg/processors.
-- - Processors.Queue: FrameQueue of pkg/processors/queue.go, two lists behind a mutex.
-- - Processors.Filters: the filters of pkg/processors/filters; Processors.Filters.Mute is
--   STTMuteFilter.
-- - Processors.Gated and Processors.Dtmf: pkg/processors/aggregators/gated and dtmf.
-- - Processors.Interruption: InterruptionController of pkg/processors/voice, over the strategies of
--   pkg/audio/interruptions, which Audio.Interruptions models.
-- - Audio.Pcm: 16-bit samples in bytes; Audio.Floats: the operations of float64 that the code uses.
-- - Audio.Vad: the analyzer of pkg/audio/vad/analyzer.go; Audio.Vad.Energy: the energy backend and
--   detectors of vad.go.
-- - Turn.Controller: UserTurnController of pkg/audio/turn with its strategies; Turn.Silence:
--   SilenceTurnAnalyzer; Turn.Processor: TurnProcessor of pkg/processors/voice/turn.go, which runs the
--   detector, the controller and the analyzer on each chunk of audio.
-- - Audio.G711, Audio.Mix, Audio.Wav: ulaw.go, alaw.go, mix.go, wav.go and the writer of dtmf_wav.go in
--   pkg/audio.
-- - Transport.Backoff: pkg/utils/backoff.go; Transport.Reconnect: WebsocketServiceBase of
--   pkg/transport/websocket/reconnect.go.
-- - Observers.TurnTracking, Observers.Latency and Observers.Transcript: turn_tracking.go,
--   user_bot_latency.go and transcript.go of pkg/observers.
-- - Pipeline.Chain: the links of a Pipeline and of BaseProcessor; Pipeline.Parallel,
--   Pipeline.SyncParallel and Pipeline.Switcher: parallel.go, sync_parallel.go and service_switcher.go
--   of pkg/pipeline, over branches that are parameters, with Pipeline.Once for the ids seen.
-- - Pipeline.Task: PipelineTask of pkg/pipeline/task.go, with what can happen at its queue as steps.
-- - Utils.Patterns and Utils.Sentences: patternaggregator and textaggregator of pkg/utils; Texts: the
--   functions of Go's package strings.
-- - Processors.Aggregators: llmtext, llmfullresponse, userresponse, gatedcontext and
--   llmcontextsummarizer of pkg/processors/aggregators, and Buffer, which is
--   pkg/processors/aggregator; Processors.Filters.WakeCheck: WakeCheckFilter.
-- - Extensions.Voicemail: the gates and the classifier of pkg/extensions/voicemail; Extensions.Ivr:
--   IVRProcessor of pkg/extensions/ivr; Frames.Keypad: pkg/frames/dtmf.go.
-- - Processors.Voice: stt.go, tts.go and llm.go of pkg/processors/voice, over services that are
--   functions.
-- - Recording: the recorder of pkg/recording and the file that it writes.
-- - Processors.VadProcessor: VADProcessor of pkg/processors/audio, around the analyzer of Audio.Vad.
-- - Processors.AudioBuffer: AudioBufferProcessor of pkg/processors/audio, over a resampler that is a
--   parameter.
-- - Serialize: wire.go of pkg/frames/serialize, Serialize.Varint for its numbers, Serialize.Wire for the
--   encoders and Serialize.Wire.Decoding for the decoders; Serialize.Envelope: envelope.go of
--   pkg/frames/proto/wire.
-- - Base: shared names and lemmas; Base.Calls: calls that goroutines make in any order.
-- - Tests: the theorems applied at concrete inputs.
--
-- Conventions. A processor's ProcessFrame takes the state to the next state and the frames that it
-- pushes, in order; what runs with a mutex held is one step, and so is a timer's callback without
-- one, which fires only if its timer is armed. Where code releases its mutex or has none, and pushes
-- or calls back, what comes in between is an argument (Turn.Controller, Observers.TurnTracking), and
-- so is the order of goroutines (Processors.Voice.Llm, Pipeline.Task); Processors.Dtmf says where it
-- does without. Where an error of the next processor changes what happens, a test says on which
-- frames it fails. Bytes and characters are numbers. float64 is a parameter without laws
-- (Audio.Floats.Floats), so what is shown holds of any arithmetic, rounding included; the time of day
-- is an argument. The loop of Analyze runs on fuel, the length of its buffer: a window has at least
-- one byte, so each round takes one off it.
--
-- Not modelled: the network services, the transports but for the reconnection, the server, the
-- configuration and the metrics, which are input and output; the runners of pkg/pipeline,
-- which are goroutines between channels; the JSON and telephony serializers, and the timer of the
-- voicemail callback.
pub mod Audio
pub mod Base
pub mod Extensions
pub mod Frames
pub mod Observers
pub mod Pipeline
pub mod Processors
pub mod Recording
pub mod Serialize
pub mod Tests
pub mod Texts
pub mod Transport
pub mod Turn
pub mod Utils
