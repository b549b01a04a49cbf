-- ===== src/Tests/Codecs.antt =====
-- pkg/audio's codecs at concrete buffers.
use voxray.Base.{none, [], ◌∷◌, ◌++◌}
use voxray.Audio.Pcm.{Bytes}
use voxray.Audio.Wav.{Found, data_id}

-- A chunk that is cut short.
abbrev cut : Bytes
cut = data_id ++ 9 ∷ 0 ∷ 0 ∷ 0 ∷ 7 ∷ []

abbrev nothing_found : Found
nothing_found = record { pcm = none; sample_rate = 0 }
