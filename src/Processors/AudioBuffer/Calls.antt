-- ===== src/Processors/AudioBuffer/Calls.antt =====
-- The audio that the callbacks of the audio buffer are given.
use voxray.Base.{
  ℕ, zero, suc, ◌+◌, ◌-◌, ◌≤◌, Bool, true, false, not, ◌&&◌, List, [], ◌∷◌, ◌++◌, length,
  length-append, ◌≡◌, inl, inr, refl, ap, sym, ◌∙◌, leb, ltb, ◌==◌, arith, Bool-cases,
}
use voxray.Audio.Pcm.{Bytes}
use voxray.Audio.Mix.{zeros}
use voxray.Processors.AudioBuffer.{
  Input, Call, AudioBuffer, start, cancel, end_frame, audio_data, track_audio_data,
  user_turn_audio_data, bot_turn_audio_data, sync_buffer_to_position, align_track_buffers,
  track_calls, call_audio_data_handlers, stop_recording, prepare, stop_user, stop_bot, deliver_full,
}

-- A call has audio, and both its tracks are as long.
unfoldable pub is_sound : Call → Bool
is_sound (audio_data merged _ _) = leb 1 (length merged)
is_sound (track_audio_data user bot _ _) = leb 1 (length user) && length user == length bot
is_sound (user_turn_audio_data turn _ _) = leb 1 (length turn)
is_sound (bot_turn_audio_data turn _ _) = leb 1 (length turn)

unfoldable pub all_sound : List Call → Bool
all_sound [] = true
all_sound (call ∷ calls) = is_sound call && all_sound calls

pub all_sound-append :
    (cs ds : List Call) → all_sound cs ≡ true → all_sound ds ≡ true → all_sound (cs ++ ds) ≡ true
unfolding all_sound
all_sound-append [] ds hc hd = hd
all_sound-append (c ∷ cs) ds hc hd =
    let rest : all_sound cs ≡ true = ground arith in ground (arith, all_sound-append cs ds rest hd)

length-zeros : (n : ℕ) → length (zeros n) ≡ n
unfolding zeros
length-zeros zero = refl
length-zeros (suc n) = ap suc (length-zeros n)

length-sync_buffer :
    (buf : Bytes) (target : ℕ)
    → length buf ≤ target
    → length (sync_buffer_to_position buf target) ≡ target
unfolding sync_buffer_to_position
length-sync_buffer buf target h =
    ground
      (arith, length-append buf (zeros (target - length buf)), length-zeros (target - length buf))

align-length :
    (p : AudioBuffer)
    → length (align_track_buffers p).user_buffer ≡ length (align_track_buffers p).bot_buffer
unfolding align_track_buffers
align-length p =
    let u = length p.user_buffer in
    let b = length p.bot_buffer in
    elim (Bool-cases (u == b)) [
      | inl same ↦ rw same (ground (arith, same))
      | inr differ ↦ elim (Bool-cases (ltb u b)) [
        | inl less ↦
            rw (differ, less)
              (length-sync_buffer p.user_buffer b (ground (arith, less))
                ∙ sym (length-sync_buffer p.bot_buffer b (omega arith)))
        | inr more ↦
            rw (differ, more)
              (length-sync_buffer p.user_buffer u (omega arith)
                ∙ sym (length-sync_buffer p.bot_buffer u (ground (arith, more))))
      ]
    ]

align-longest :
    (p : AudioBuffer)
    → (length p.user_buffer == 0 && length p.bot_buffer == 0) ≡ false
    → 1 ≤ length (align_track_buffers p).user_buffer
unfolding align_track_buffers
align-longest p h =
    let u = length p.user_buffer in
    let b = length p.bot_buffer in
    elim (Bool-cases (u == b)) [
      | inl same ↦ rw same (ground (arith, same, h))
      | inr differ ↦ elim (Bool-cases (ltb u b)) [
        | inl less ↦
            rw (differ, less)
              (omega (
                arith,
                length-sync_buffer p.user_buffer b (ground (arith, less)),
                less_of u b less,
              ))
        | inr more ↦
            rw (differ, more)
              (let e = length-sync_buffer p.user_buffer u (omega arith) in
                ground (arith, e, h, more))
      ]
    ]
  where
    less_of : (u b : ℕ) → ltb u b ≡ true → u + 1 ≤ b
    less_of u b h = ground arith

track_calls_sound :
    (p : AudioBuffer)
    → length p.user_buffer ≡ length p.bot_buffer
    → 1 ≤ length p.user_buffer
    → all_sound (track_calls p) ≡ true
unfolding track_calls all_sound is_sound
track_calls_sound p same some = ground (arith, same, some)

call_audio_data_handlers_sound : (p : AudioBuffer) → all_sound (call_audio_data_handlers p).1 ≡ true
unfolding call_audio_data_handlers all_sound
call_audio_data_handlers_sound p = elim (Bool-cases (not p.recording)) [
  | inl off ↦ rw off refl
  | inr on ↦ rw on (elim (Bool-cases (length p.user_buffer == 0 && length p.bot_buffer == 0)) [
    | inl none ↦ rw none refl
    | inr some ↦
        rw some (track_calls_sound (align_track_buffers p) (align-length p) (align-longest p some))
  ])
]

pub stop_recording_sound : (p : AudioBuffer) → all_sound (stop_recording p).1 ≡ true
unfolding stop_recording all_sound
stop_recording_sound p = ground (arith, call_audio_data_handlers_sound p)

pub prepare_sound : (f : Input) (p : AudioBuffer) → all_sound (prepare f p).1 ≡ true
unfolding prepare all_sound
prepare_sound (start _) p = refl
prepare_sound cancel p = stop_recording_sound p
prepare_sound end_frame p = stop_recording_sound p
prepare_sound _ p = refl

pub deliver_full_sound :
    (p : AudioBuffer) (calls : List Call)
    → all_sound calls ≡ true
    → all_sound (deliver_full (p, calls)).1 ≡ true
unfolding deliver_full
deliver_full_sound p calls h = ground (
  arith,
  all_sound-append calls (call_audio_data_handlers p).1 h (call_audio_data_handlers_sound p),
)

pub stop_user_sound : (p : AudioBuffer) → all_sound (stop_user p).1 ≡ true
unfolding stop_user all_sound is_sound
stop_user_sound p = ground arith

pub stop_bot_sound : (p : AudioBuffer) → all_sound (stop_bot p).1 ≡ true
unfolding stop_bot all_sound is_sound
stop_bot_sound p = ground arith
