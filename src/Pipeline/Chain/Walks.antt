-- ===== src/Pipeline/Chain/Walks.antt =====
-- A frame that every processor forwards comes to all of them, in order.
use voxray.Base.{
  ℕ, zero, suc, ◌+◌, ◌≤◌, true, Option, none, some, List, [], ◌∷◌, ◌++◌, length, ◌≡◌, refl, ap,
  subst, arith, append_assoc, append-nil,
}
use voxray.Frames.{downstream, upstream}
use voxray.Pipeline.Chain.{
  Store, Pipeline, unlinked, new_pipeline, last_of, first_of, link, neighbour, walk, push,
  push_upstream,
}
use voxray.Pipeline.Chain.Links.{distinct, LinkedFrom, IsChain, link-IsChain, empty-IsChain}

unfoldable pub reversed : List ℕ → List ℕ
reversed [] = []
reversed (p ∷ ps) = reversed ps ++ p ∷ []

walk_down :
    (ps : List ℕ) (s : Store) (before : Option ℕ) (fuel : ℕ)
    → LinkedFrom s before ps
    → length ps ≤ fuel
    → walk fuel downstream s (first_of ps) ≡ ps
unfolding walk first_of LinkedFrom neighbour
walk_down [] s before zero l h = refl
walk_down [] s before (suc fuel) l h = refl
walk_down (p ∷ ps) s before zero l h = absurd (omega arith)
walk_down (p ∷ ps) s before (suc fuel) l h =
    rw l.1.0 (ap (λ qs. p ∷ qs) (walk_down ps s (some p) fuel l.1.1 (omega arith)))

unfoldable last_or : Option ℕ → List ℕ → Option ℕ
last_or before [] = before
last_or before (p ∷ ps) = last_or (some p) ps

last_of-last_or : (ps : List ℕ) → last_of ps ≡ last_or none ps
unfolding last_of last_or
last_of-last_or [] = refl
last_of-last_or (p ∷ []) = refl
last_of-last_or (p ∷ q ∷ ps) = last_of-last_or (q ∷ ps)

up_once :
    (p : ℕ) (s : Store) (before : Option ℕ) (fuel : ℕ)
    → (s p).prev ≡ before
    → (ps : List ℕ)
    → ps ++ walk (suc fuel) upstream s (some p) ≡ (ps ++ p ∷ []) ++ walk fuel upstream s before
unfolding walk neighbour
up_once p s before fuel e ps = rw (append_assoc ps (p ∷ []) (walk fuel upstream s before), e) refl

walk_up :
    (ps : List ℕ) (s : Store) (before : Option ℕ) (fuel : ℕ)
    → LinkedFrom s before ps
    → walk (length ps + fuel) upstream s (last_or before ps)
      ≡ reversed ps ++ walk fuel upstream s before
unfolding last_or LinkedFrom reversed
walk_up [] s before fuel l = (let same : 0 + fuel ≡ fuel = omega arith in rw same refl)
walk_up (p ∷ ps) s before fuel l =
    let more : suc (length ps) + fuel ≡ length ps + suc fuel = omega arith in
    rw (more, walk_up ps s (some p) (suc fuel) l.1.1) (up_once p s before fuel l.0 (reversed ps))

walk-none : (fuel : ℕ) (s : Store) → walk fuel upstream s none ≡ []
unfolding walk
walk-none zero s = refl
walk-none (suc fuel) s = refl

walks :
    (p : Pipeline) (spare : ℕ)
    → IsChain p
    → (push (length p.processors + spare) p ≡ p.processors)
      × (push_upstream (length p.processors + spare) p ≡ reversed p.processors)
unfolding push push_upstream
walks p spare (l, _) = (
  walk_down p.processors p.links none (length p.processors + spare) l (omega arith),
  rw
      (
        last_of-last_or p.processors,
        walk_up p.processors p.links none spare l,
        walk-none spare p.links,
        append-nil,
      )
      refl,
)

-- If no processor is added twice, and none is linked yet, a frame that is pushed into the pipeline and
-- that every processor forwards comes to each of them once, in the order in which they were added, and
-- one that is pushed upstream in the reverse order; the fuel is enough for any such pipeline.
pub link-push :
    (procs : List ℕ) (spare : ℕ)
    → distinct procs ≡ true
    → let p = link procs (new_pipeline unlinked) in
      (push (length procs + spare) p ≡ procs)
      × (push_upstream (length procs + spare) p ≡ reversed procs)
link-push procs spare d =
    let p = link procs (new_pipeline unlinked) in
    let (chain, all) = link-IsChain procs (new_pipeline unlinked) d empty-IsChain in
    subst
      (λ ps.
        (push (length ps + spare) p ≡ ps) × (push_upstream (length ps + spare) p ≡ reversed ps))
      all (walks p spare chain)
