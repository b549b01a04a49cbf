-- ===== src/Pipeline/Switcher/Strategy.antt =====
-- Which service ServiceSwitcherStrategyManual has active.
use text.Mathlib.Text.{◌==◌ as str_eq}
use text.Mathlib.TextEquality.{eq_iff}
use voxray.Base.{
  ℕ, ◌<◌, suc, String, true, false, none, some, List, [], ◌∷◌, length, get_or, ◌≡◌, ◌⊎◌, inl, inr,
  refl, ◌∙◌, arith, Bool-cases, if◌then◌else◌,
}
use voxray.Frames.{Content, manually_switch_service}
use voxray.Processors.Filters.{contains}
use voxray.Pipeline.Switcher.{Manual, active_service_name, index_of, activate, handle_frame}

unfoldable pub handle_frames : List Content → Manual → Manual
handle_frames [] s = s
handle_frames (f ∷ fs) s = handle_frames fs (handle_frame f s).0

-- The last name asked for that is in the list, or `active`.
unfoldable pub last_request : List String → String → List Content → String
last_request names active [] = active
last_request names active (manually_switch_service name ∷ fs) =
    last_request names (if contains name names then name else active) fs
last_request names active (_ ∷ fs) = last_request names active fs

-- A name is looked up: it is not in the list, or the index is one of its places.
abbrev Outcome : String → List String → Type 0
Outcome name names =
    ((index_of name names ≡ none) × (contains name names ≡ false))
    ⊎ ((i : ℕ) × ((index_of name names ≡ some i)
          × ((contains name names ≡ true) × ((i < length names) × (get_or names i "" ≡ name)))))

index_of-Outcome : (name : String) (names : List String) → Outcome name names
unfolding index_of contains
index_of-Outcome name [] = inl (refl, refl)
index_of-Outcome name (x ∷ xs) = elim (Bool-cases (str_eq x name)) [
  | inl same ↦ inr (0, (rw same refl, (ground arith, (omega arith, (eq_iff _ _).0 same))))
  | inr other ↦ elim (index_of-Outcome name xs) [
    | inl (miss, absent) ↦ inl (rw (other, miss) refl, ground arith)
    | inr (i, (hit, (listed, (below, there)))) ↦
        inr (suc i, (rw (other, hit) refl, (ground arith, (omega arith, there))))
  ]
]

-- A request leaves the strategy with the name asked for if it has it, and as it was if not.
handle_frame-request :
    (name : String) (s : Manual)
    → let t = (handle_frame (manually_switch_service name) s).0 in
      (t.service_names ≡ s.service_names)
      × (active_service_name t
          ≡ (if contains name s.service_names then name else active_service_name s))
unfolding handle_frame activate active_service_name
handle_frame-request name s = elim (index_of-Outcome name s.service_names) [
  | inl (miss, absent) ↦ rw (miss, absent) (refl, refl)
  | inr (i, (hit, (listed, (below, there)))) ↦ rw (hit, listed) (refl, ground (arith, there))
]

-- Whatever frames the strategy handles, the active service is the one of the last request that names
-- a service of the list, and as it was if there is no such request.
pub last_request_active :
    (fs : List Content) (s : Manual)
    → active_service_name (handle_frames fs s)
      ≡ last_request s.service_names (active_service_name s) fs
unfolding handle_frames last_request handle_frame
last_request_active [] s = refl
last_request_active (manually_switch_service name ∷ fs) s =
    let (names, active) = handle_frame-request name s in
    last_request_active fs (handle_frame (manually_switch_service name) s).0
    ∙ rw (names, active) refl
last_request_active (_ ∷ fs) s = last_request_active fs s
