-- ===== src/Extensions/Voicemail/Classification/Decisions.antt =====
-- The one decision of the classifier.
use voxray.Base.{
  Bool, true, false, ◌&&◌, List, [], ◌∷◌, ◌++◌, ◌≡◌, inl, inr, refl, ◌∙◌, arith, append-nil,
  Bool-cases, if◌then◌else◌,
}
use voxray.Frames.{
  Text, Content, llm_text, llm_full_response_start, llm_full_response_end, user_started_speaking,
  user_stopped_speaking,
}
use voxray.Texts.{trim_space, has_text}
use voxray.Extensions.Voicemail.Classification.{
  Classifier, Effect, notify_gate, notify_conversation, notify_voicemail, conversation_word,
  voicemail_word, process_classification, end_response, process_frame,
}

unfoldable pub any_effect : List Effect → Bool
any_effect [] = false
any_effect (_ ∷ _) = true

-- The notifiers that are signalled, in order.
unfoldable pub notified : List Effect → List Effect
notified [] = []
notified (notify_gate ∷ es) = notify_gate ∷ notified es
notified (notify_conversation ∷ es) = notify_conversation ∷ notified es
notified (notify_voicemail ∷ es) = notify_voicemail ∷ notified es
notified (_ ∷ es) = notified es

notified-append : (es fs : List Effect) → notified (es ++ fs) ≡ notified es ++ notified fs
unfolding notified
notified-append [] fs = refl
notified-append (notify_gate ∷ es) fs = rw (notified-append es fs) refl
notified-append (notify_conversation ∷ es) fs = rw (notified-append es fs) refl
notified-append (notify_voicemail ∷ es) fs = rw (notified-append es fs) refl
notified-append (_ ∷ es) fs = notified-append es fs

module _ (to_upper : Text → Text) where
  unfoldable pub run : List Content → Classifier → Classifier × List Effect
  run [] p = (p, [])
  run (f ∷ fs) p =
      let (q, effects) = process_frame to_upper f p in
      let (r, more) = run fs q in (r, effects ++ more)

  -- What a response decides, by what it says.
  unfoldable pub verdict : Text → List Effect
  verdict response =
      if has_text conversation_word (to_upper response)
      then notify_gate ∷ notify_conversation ∷ []
      else if has_text voicemail_word (to_upper response)
      then notify_gate ∷ notify_voicemail ∷ []
      else []

  -- The decision of a history, from the text of a response that has begun.
  unfoldable pub first_verdict : Bool → Text → List Content → List Effect
  first_verdict open_response said [] = []
  first_verdict open_response said (llm_full_response_start ∷ fs) = first_verdict true [] fs
  first_verdict open_response said (llm_text t ∷ fs) =
      first_verdict open_response (if open_response then said ++ t else said) fs
  first_verdict open_response said (llm_full_response_end ∷ fs) =
      let later = first_verdict false [] fs in
      let now = verdict (trim_space said) in if open_response && any_effect now then now else later
  first_verdict open_response said (_ ∷ fs) = first_verdict open_response said fs

  process_frame-made :
      (f : Content) (p : Classifier)
      → p.decision_made ≡ true
      → let r = process_frame to_upper f p in (notified r.1 ≡ []) × (r.0.decision_made ≡ true)
  unfolding process_frame end_response process_classification notified
  process_frame-made llm_full_response_start p e = (refl, e)
  process_frame-made llm_full_response_end p e = ground arith
  process_frame-made (llm_text t) p e = ground arith
  process_frame-made user_started_speaking p e = ground arith
  process_frame-made user_stopped_speaking p e = ground arith
  process_frame-made _ p e = (refl, e)

  -- After a decision no notifier is signalled any more.
  made : (fs : List Content) (p : Classifier) → p.decision_made ≡ true → notified (run fs p).1 ≡ []
  unfolding run notified
  made [] p e = refl
  made (f ∷ fs) p e =
      let r = process_frame to_upper f p in
      let (silent, still) = process_frame-made f p e in
      rw (notified-append r.1 (run fs r.0).1, silent, made fs r.0 still) refl

  -- The end of a response that decides, and of one that does not.
  abbrev Ended : Classifier → Type 0
  Ended p =
      let said = trim_space p.response_buffer in
      let r = end_response to_upper p in
      (notified r.1 ≡ verdict said)
      × ((any_effect (verdict said) ≡ r.0.decision_made)
          × ((r.0.processing_response ≡ false) × (r.0.response_buffer ≡ [])))

  end_response-Ended :
      (p : Classifier) → p.processing_response ≡ true → p.decision_made ≡ false → Ended p
  unfolding end_response process_classification notified verdict any_effect
  end_response-Ended p open_response undecided =
      let response = to_upper (trim_space p.response_buffer) in
      elim (Bool-cases (has_text conversation_word response)) [
        | inl talks ↦ rw (open_response, undecided, talks) (refl, (refl, (refl, refl)))
        | inr silent ↦ elim (Bool-cases (has_text voicemail_word response)) [
          | inl records ↦
              rw (open_response, undecided, silent, records) (refl, (refl, (refl, refl)))
          | inr neither ↦
              rw (open_response, undecided, silent, neither) (refl, (refl, (refl, refl)))
        ]
      ]

  end_response-idle :
      (p : Classifier)
      → p.processing_response ≡ false
      → let r = end_response to_upper p in
        (notified r.1 ≡ [])
        × ((r.0.decision_made ≡ p.decision_made)
            × ((r.0.processing_response ≡ false) × (r.0.response_buffer ≡ [])))
  unfolding end_response notified
  end_response-idle p e = rw e (refl, (refl, (refl, refl)))

  -- One way or the other, the same holds of the state that follows.
  either_way :
      (said : Bool → Text) (after : Bool → Classifier) (fs : List Content) (open_response b : Bool)
      → (notified (run fs (after true)).1 ≡ first_verdict open_response (said true) fs)
      → (notified (run fs (after false)).1 ≡ first_verdict open_response (said false) fs)
      → notified (run fs (after b)).1 ≡ first_verdict open_response (said b) fs
  either_way said after fs open_response true yes' no' = yes'
  either_way said after fs open_response false yes' no' = no'

  unnotified :
      (b : Bool) (e : Effect) (es rest : List Effect)
      → notified (e ∷ []) ≡ []
      → notified es ≡ []
      → notified ((if b then e ∷ es else es) ++ rest) ≡ notified rest
  unnotified true e es rest h k =
      notified-append (e ∷ es) rest ∙ rw (notified-append (e ∷ []) es, h, k) refl
  unnotified false e es rest h k = notified-append es rest ∙ rw k refl

  no_effect : (v : List Effect) → any_effect v ≡ false → v ≡ []
  unfolding any_effect
  no_effect [] e = refl
  no_effect (_ ∷ _) e = cc

  chosen :
      (b c : Bool) (v later x y : List Effect)
      → (b && c) ≡ true
      → x ≡ v
      → y ≡ []
      → x ++ y ≡ (if b && c then v else later)
  chosen b c v later x y e h k = rw (e, h, k, append-nil) refl

  passed_on :
      (b c : Bool) (v later x y : List Effect)
      → (b && c) ≡ false
      → x ≡ []
      → y ≡ later
      → x ++ y ≡ (if b && c then v else later)
  passed_on b c v later x y e h k = rw (e, h, k) refl

  -- What follows the end of a response that has not decided.
  after_end :
      (fs : List Content) (q : Classifier)
      → q.processing_response ≡ false
      → q.response_buffer ≡ []
      → notified (run fs q).1 ≡ first_verdict q.processing_response q.response_buffer fs
      → notified (run fs q).1 ≡ first_verdict false [] fs
  after_end fs q closed emptied e = e ∙ rw (closed, emptied) refl

  -- The notifiers signalled over any history, from a classifier that has not decided yet, are those of
  -- the first response from its start to its end that says either word, put together from its texts
  -- and trimmed: the gate's and conversation's if it says CONVERSATION, else the gate's and
  -- voicemail's if it says VOICEMAIL; without such a response there are none.
  pub run-first_verdict :
      (fs : List Content) (p : Classifier)
      → p.decision_made ≡ false
      → notified (run fs p).1 ≡ first_verdict p.processing_response p.response_buffer fs
  unfolding run process_frame first_verdict notified
  run-first_verdict [] p e = refl
  run-first_verdict (llm_full_response_start ∷ fs) p e =
      run-first_verdict fs (record p { processing_response = true; response_buffer = [] }) e
  run-first_verdict (llm_full_response_end ∷ fs) p e =
      let r = end_response to_upper p in
      elim (Bool-cases p.processing_response) [
        | inl speaks ↦
            let (signals, (decides, (closed, emptied))) = end_response-Ended p speaks e in
            elim (Bool-cases r.0.decision_made) [
              | inl done ↦
                  notified-append r.1 _
                  ∙ chosen p.processing_response _ _ _ _ _ (rw decides (ground arith)) signals
                      (made fs r.0 done)
              | inr open' ↦
                  notified-append r.1 _
                  ∙ passed_on p.processing_response _ _ _ _ _ (rw decides (ground arith))
                      (signals ∙ no_effect _ (decides ∙ open'))
                      (after_end fs r.0 closed emptied (run-first_verdict fs r.0 open'))
            ]
        | inr idle ↦
            let (silent, (same, (closed, emptied))) = end_response-idle p idle in
            notified-append r.1 _
            ∙ passed_on p.processing_response _ _ _ _ _ (ground arith) silent
                (after_end fs r.0 closed emptied (run-first_verdict fs r.0 (same ∙ e)))
      ]
  run-first_verdict (llm_text t ∷ fs) p e =
      either_way (λ b. if b then p.response_buffer ++ t else p.response_buffer)
        (λ b. if b then record p { response_buffer = p.response_buffer ++ t } else p) fs
        p.processing_response p.processing_response
        (run-first_verdict fs (record p { response_buffer = p.response_buffer ++ t }) e)
        (run-first_verdict fs p e)
  run-first_verdict (user_started_speaking ∷ fs) p e =
      unnotified p.voicemail_detected _ _ (run fs p).1 refl refl ∙ run-first_verdict fs p e
  run-first_verdict (user_stopped_speaking ∷ fs) p e =
      unnotified p.voicemail_detected _ _ (run fs p).1 refl refl ∙ run-first_verdict fs p e
  run-first_verdict (_ ∷ fs) p e = run-first_verdict fs p e
