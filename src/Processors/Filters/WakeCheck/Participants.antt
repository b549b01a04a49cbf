-- ===== src/Processors/Filters/WakeCheck/Participants.antt =====
-- Participants neither wake each other nor keep each other awake.
use text.Mathlib.Text.{◌==◌ as str_eq}
use text.Mathlib.TextEquality.{eq_iff}
use voxray.Base.{
  ℕ, String, Bool, true, false, Option, none, some, List, [], ◌∷◌, ◌++◌, ◌≡◌, inl, inr, refl,
  Bool-cases, if◌then◌else◌,
}
use voxray.Frames.{Text, Content, transcription}
use voxray.Processors.Filters.WakeCheck.{
  Participant, Participants, hear, forwarded, update, process_frame,
}

-- A transcription: when it comes, whose it is, its text and whether it is final.
pub record Heard : Type 0 where
  pub now : ℕ
  pub user : String
  pub said : Text
  pub final : Bool

module _ (patterns : List (Text → Option ℕ)) (keepalive : ℕ) where
  unfoldable pub run : List Heard → Participants → Participants × List Content
  run [] ps = (ps, [])
  run (h ∷ hs) ps =
      let (qs, out) =
        process_frame patterns keepalive h.now (transcription h.user h.said h.final) ps in
      let (rs, more) = run hs qs in (rs, out ++ more)

  -- One participant alone.
  unfoldable pub run_one : String → List Heard → Participant → Participant × List Content
  run_one user [] p = (p, [])
  run_one user (h ∷ hs) p =
      let (q, out) = hear patterns keepalive h.now h.said p in
      let (heard, more) = run_one user hs q in
      let (skipped, others) = run_one user hs p in
      if str_eq h.user user
      then (heard, forwarded patterns keepalive user h.final out ++ more)
      else (skipped, others)

  unfoldable pub spoken_by : String → List Content → List Content
  spoken_by user [] = []
  spoken_by user (transcription u t final ∷ fs) =
      let rest = spoken_by user fs in if str_eq u user then transcription u t final ∷ rest else rest
  spoken_by user (_ ∷ fs) = spoken_by user fs

  itself : (user : String) → str_eq user user ≡ true
  itself user = (eq_iff user user).1 refl

  update-same :
      (user : String) (p : Participant) (ps : Participants)
      → update patterns keepalive user p ps user ≡ p
  unfolding update
  update-same user p ps = rw (itself user) refl

  update-other :
      (user u : String) (p : Participant) (ps : Participants)
      → str_eq u user ≡ false
      → update patterns keepalive u p ps user ≡ ps user
  unfolding update
  update-other user u p ps e = rw e refl

  spoken_by-same :
      (user : String) (final : Bool) (out : Option Text) (fs : List Content)
      → let sent = forwarded patterns keepalive user final out in
        spoken_by user (sent ++ fs) ≡ sent ++ spoken_by user fs
  unfolding spoken_by forwarded
  spoken_by-same user final none fs = refl
  spoken_by-same user final (some t) fs = rw (itself user) refl

  spoken_by-other :
      (user u : String) (final : Bool) (out : Option Text) (fs : List Content)
      → str_eq u user ≡ false
      → spoken_by user (forwarded patterns keepalive u final out ++ fs) ≡ spoken_by user fs
  unfolding spoken_by forwarded
  spoken_by-other user u final none fs e = refl
  spoken_by-other user u final (some t) fs e = rw e refl

  nobody : (user : String) → spoken_by user [] ≡ []
  unfolding spoken_by
  nobody user = refl

  -- What the filter does with the transcriptions of a participant among those of others is what it does
  -- with that participant's alone: it forwards the same of them, and keeps the same state.
  pub participants_apart :
      (user : String) (hs : List Heard) (ps : Participants)
      → let r = run hs ps in
        let q = run_one user hs (ps user) in (r.0 user ≡ q.0) × (spoken_by user r.1 ≡ q.1)
  unfolding run run_one process_frame
  participants_apart user [] ps = (refl, nobody user)
  participants_apart user (h ∷ hs) ps = elim (Bool-cases (str_eq h.user user)) [
    | inl same ↦
        let named : h.user ≡ user = (eq_iff h.user user).0 same in
        let (p, out) = hear patterns keepalive h.now h.said (ps user) in
        let after = update patterns keepalive user p ps in
        let (state, heard) = participants_apart user hs after in
        let own : after user ≡ p = update-same user p ps in
        rw (named, itself user, spoken_by-same user h.final out (run hs after).1, state, heard, own)
          (refl, refl)
    | inr other ↦
        let (p, out) = hear patterns keepalive h.now h.said (ps h.user) in
        let after = update patterns keepalive h.user p ps in
        let (state, heard) = participants_apart user hs after in
        let own : after user ≡ ps user = update-other user h.user p ps other in
        rw
          (other, spoken_by-other user h.user h.final out (run hs after).1 other, state, heard, own)
          (refl, refl)
  ]
