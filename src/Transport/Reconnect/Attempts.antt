-- ===== src/Transport/Reconnect/Attempts.antt =====
-- How many attempts a reconnection makes, how long it waits, and what it reports.
use voxray.Base.{
  ℕ, zero, suc, ◌+◌, ◌≤◌, ◌<◌, Bool, true, false, List, [], ◌∷◌, ◌≡◌, refl, ap, ◌∙◌, arith, length,
  Bool-cases, inl, inr,
}
use voxray.Base.Int.{ℤ}
use voxray.Frames.{Content}
use voxray.Transport.Backoff.{exponential_backoff}
use voxray.Transport.Reconnect.{
  ServiceBase, World, Outcome, reconnect, report, try_attempts, try_reconnect,
}

-- The waits behind a number of attempts in a row.
pub backoffs : ℕ → ℕ → List ℤ
backoffs first zero = []
backoffs first (suc n) = exponential_backoff first ∷ backoffs (first + 1) n

-- The end of a reconnection, of which `first` is the first attempt and `left` are allowed.
pub data Ending (w : World) (first left : ℕ) (reports : List Content) (o : Outcome) : Type 0 where
  connected :
      o.ok ≡ true
      → length o.waits < left
      → reconnect w (first + length o.waits) ≡ true
      → o.reports ≡ []
      → Ending w first left reports o
  was_cancelled :
      (n : ℕ)
      → o.ok ≡ false
      → length o.waits ≡ suc n
      → suc n ≤ left
      → w.is_cancelled (first + n) ≡ true
      → o.reports ≡ []
      → Ending w first left reports o
  exhausted :
      o.ok ≡ false → length o.waits ≡ left → o.reports ≡ reports → Ending w first left reports o

later :
    (w : World) (first left : ℕ) (reports : List Content) (d : ℤ) (o : Outcome)
    → Ending w (first + 1) left reports o
    → Ending w first (suc left) reports record o { waits = d ∷ o.waits }
later w first left reports d o (connected k few r s) =
    connected k (omega arith) (ap (reconnect w) (omega arith) ∙ r) s
later w first left reports d o (was_cancelled n k few many r s) =
    was_cancelled (suc n) k (ap suc few) (omega arith) (ap w.is_cancelled (omega arith) ∙ r) s
later w first left reports d o (exhausted k all s) = exhausted k (ap suc all) s

module _ (has_report : Bool) (w : World) where
  attempts_end :
      (left first : ℕ)
      → Ending w first left (report has_report true) (try_attempts has_report w left first)
  unfolding try_attempts
  attempts_end zero first = exhausted refl refl refl
  attempts_end (suc left) first = elim (Bool-cases (reconnect w first)) [
    | inl c ↦ rw c (connected refl (omega arith) (ap (reconnect w) (omega arith) ∙ c) refl)
    | inr c ↦ rw c (elim (Bool-cases (w.is_cancelled first)) [
      | inl d ↦
          rw d (was_cancelled 0 refl refl (omega arith) (ap w.is_cancelled (omega arith) ∙ d) refl)
      | inr d ↦ rw d (
          later w first left (report has_report true) (exponential_backoff first)
            (try_attempts has_report w left (first + 1)) (attempts_end left (first + 1)))
    ])
  ]

  attempts_wait :
      (left first : ℕ)
      → let o = try_attempts has_report w left first in o.waits ≡ backoffs first (length o.waits)
  unfolding try_attempts backoffs
  attempts_wait zero first = refl
  attempts_wait (suc left) first = elim (Bool-cases (reconnect w first)) [
    | inl c ↦ rw c refl
    | inr c ↦ rw c (elim (Bool-cases (w.is_cancelled first)) [
      | inl d ↦ rw d refl
      | inr d ↦ rw d (ap (λ t. exponential_backoff first ∷ t) (attempts_wait left (first + 1)))
    ])
  ]

  -- A reconnection that is not under way yet ends in one of three ways: an attempt within the limit
  -- connects, and nothing is reported; the context ends during the wait behind one of them, and nothing
  -- is reported; or the limit is reached, and one fatal error is reported if there is a way to. Its
  -- waits are those of the backoff, from the first attempt on.
  pub try_reconnect-Ending :
      (max_retries : ℕ) (b : ServiceBase)
      → b.reconnect_in_progress ≡ false
      → let o = try_reconnect has_report w max_retries b in
        Ending w 1 max_retries (report has_report true) o × (o.waits ≡ backoffs 1 (length o.waits))
  unfolding try_reconnect
  try_reconnect-Ending max_retries b free =
      rw free (attempts_end max_retries 1, attempts_wait max_retries 1)
