-- ===== src/Processors/Aggregators/Summarizer/Requests.antt =====
-- What a summary does to the context, and when summaries are asked for.
use voxray.Base.{
  ℕ, ◌+◌, ◌-◌, ◌≤◌, String, Bool, ◌&&◌, List, [], ◌∷◌, ◌++◌, length, drop, length-append,
  length-drop, ◌≡◌, ◌⊎◌, inl, inr, refl, sym, append_assoc, arith, Bool-cases, leb, ltb,
  if◌then◌else◌,
}
use text.Mathlib.Text.{◌==◌ as str_eq}
use voxray.Processors.Aggregators.Summarizer.{
  Summarizer, Request, Input, response_starts, summary_result, interrupts, should_summarize,
  request_summarization, first_system, apply_summary, handle_summary_result, process_frame,
}

module _ {M : Type 0} (is_system : M → Bool) (text_bytes : M → ℕ)
    (summary_message : String → M) where
  first_system-length :
      (ms : List M) → length (first_system is_system text_bytes summary_message ms) ≤ 1
  unfolding first_system
  first_system-length [] = omega arith
  first_system-length (m ∷ ms) = ground (arith, first_system-length ms)

  -- Applying a summary leaves the context as it is, or it keeps in their order the messages after the
  -- summarised ones, which are then at least as many as are to be kept, behind the summary and at most
  -- one message more; so it never makes the context longer than by one message.
  pub apply_summary-keeps :
      (summary : String) (last min_keep : ℕ) (ms : List M)
      → let after = apply_summary is_system text_bytes summary_message summary last min_keep ms in
        (after ≡ ms)
        ⊎ ((front : List M) × ((after ≡ front ++ drop (last + 1) ms)
              × ((length front ≤ 2)
                  × ((min_keep ≤ length (drop (last + 1) ms)) × (length after ≤ length ms + 1)))))
  unfolding apply_summary
  apply_summary-keeps summary last min_keep ms = elim (Bool-cases (leb (length ms) last)) [
    | inl beyond ↦ rw beyond (inl refl)
    | inr within ↦ elim (Bool-cases (ltb (length ms - 1 - last) min_keep)) [
      | inl few ↦ rw (within, few) (inl refl)
      | inr enough ↦
          let system = first_system is_system text_bytes summary_message ms in
          let front : List M = system ++ summary_message summary ∷ [] in
          let kept : length (drop (last + 1) ms) ≡ length ms - (last + 1) =
            length-drop (last + 1) ms in
          let two : length front ≤ 2 =
            omega (
              arith,
              length-append system (summary_message summary ∷ []),
              first_system-length ms,
            ) in
          rw (within, enough)
            (inr (
              front,
              (
                sym (append_assoc system (summary_message summary ∷ []) (drop (last + 1) ms)),
                (
                  two,
                  (
                    ground (arith, kept),
                    ground (
                      arith,
                      kept,
                      first_system-length ms,
                      length-append system (summary_message summary ∷ drop (last + 1) ms),
                    ),
                  ),
                ),
              ),
            ))
    ]
  ]

  -- A request is answered when its result comes, or given up on an interruption.
  unfoldable pub settles : Input → Summarizer M → ℕ
  settles (response_starts id) p = 0
  settles (summary_result t) p =
      if p.in_progress && str_eq t.summary_id p.pending_request_id then 1 else 0
  settles interrupts p = if p.in_progress then 1 else 0

  -- A history: the processor, the requests sent, and how many have been settled.
  unfoldable pub run : List Input → Summarizer M → Summarizer M × (List Request × ℕ)
  run [] p = (p, ([], 0))
  run (x ∷ xs) p =
      let (q, sent) = process_frame is_system text_bytes summary_message x p in
      let (r, (more, settled)) = run xs q in (r, (sent ++ more, settles x p + settled))

  unfoldable pub waiting : Summarizer M → ℕ
  waiting p = if p.in_progress then 1 else 0

  process_frame-waiting :
      (x : Input) (p : Summarizer M)
      → let r = process_frame is_system text_bytes summary_message x p in
        waiting p + length r.1 ≡ settles x p + waiting r.0
  unfolding process_frame settles waiting request_summarization handle_summary_result
      should_summarize
  process_frame-waiting (response_starts id) p = ground arith
  process_frame-waiting (summary_result t) p =
      elim (Bool-cases (str_eq t.summary_id p.pending_request_id)) [
        | inl same ↦ ground arith
        | inr other ↦ ground arith
      ]
  process_frame-waiting interrupts p = ground arith

  -- Over any history, the requests sent, with one that was awaited before, are as many as those that
  -- were settled, by a result with their id or an interruption, with one that is still awaited: so at
  -- most one is awaited at any time.
  pub run-one_request :
      (xs : List Input) (p : Summarizer M)
      → let (q, (sent, settled)) = run xs p in waiting p + length sent ≡ settled + waiting q
  unfolding run
  run-one_request [] p = ground arith
  run-one_request (x ∷ xs) p =
      let (q, sent) = process_frame is_system text_bytes summary_message x p in
      let (r, (more, settled)) = run xs q in
      omega (arith, process_frame-waiting x p, run-one_request xs q, length-append sent more)
