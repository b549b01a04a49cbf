-- ===== src/Pipeline/Parallel/Barrier.antt =====
-- What a ParallelPipeline forwards: one lifecycle frame for all branches, and other frames once.
use voxray.Base.{
  ℕ, ◌+◌, ◌-◌, ◌<◌, Bool, true, false, not, ◌&&◌, ◌==◌, Option, List, [], ◌∷◌, ◌++◌, ◌≡◌, inl, inr,
  refl, ap, ◌∙◌, arith, append-nil, append_assoc, Bool-cases, if◌then◌else◌,
}
use voxray.Frames.{Frame, downstream}
use voxray.Pipeline.{Branch}
use voxray.Pipeline.Once.{dedupe, AreFresh, dedupe-AreFresh}
use voxray.Pipeline.Parallel.{
  Parallel, parallel_is_lifecycle_frame, count_down, begin, permits, on_downstream_from_branch,
  collect, push, process_frame,
}

-- How many of the frames are lifecycle frames with an id.
unfoldable pub arrivals : ℕ → List Frame → ℕ
arrivals id [] = 0
arrivals id (f ∷ fs) =
    (if parallel_is_lifecycle_frame f.content && (f.id == id) then 1 else 0) + arrivals id fs

unfoldable pub others : List Frame → List Frame
others [] = []
others (f ∷ fs) =
    let rest = others fs in if parallel_is_lifecycle_frame f.content then rest else f ∷ rest

-- What the branches do with a frame that is pushed into each of them.
unfoldable pub emissions : List Branch → Frame → List Frame
emissions [] f = []
emissions (b ∷ bs) f = (b f).downward ++ emissions bs f

unfoldable pub upward_emissions : List Branch → Frame → List Frame
upward_emissions [] f = []
upward_emissions (b ∷ bs) f = (b f).upward ++ upward_emissions bs f

unfoldable pub all_succeed : List Branch → Frame → Bool
all_succeed [] f = true
all_succeed (b ∷ bs) f = not (b f).fails && all_succeed bs f

module _ (output_filter : Option (Frame → Bool)) where
  unfoldable pub permitted : List Frame → List Frame
  permitted [] = []
  permitted (f ∷ fs) = let rest = permitted fs in if permits output_filter f then f ∷ rest else rest

  collect-append :
      (fs gs : List Frame) (p : Parallel)
      → let q = collect output_filter fs p in
        let r = collect output_filter gs q.0 in
        collect output_filter (fs ++ gs) p ≡ (r.0, q.1 ++ r.1)
  unfolding collect
  collect-append [] gs p = refl
  collect-append (f ∷ fs) gs p =
      let q = on_downstream_from_branch output_filter f p in
      rw
        (
          collect-append fs gs q.0,
          append_assoc q.1 (collect output_filter fs q.0).1
              (collect output_filter gs (collect output_filter fs q.0).0).1,
        )
        refl

  collect-silent :
      (f : Frame) (fs : List Frame) (p q : Parallel)
      → on_downstream_from_branch output_filter f p ≡ (q, [])
      → collect output_filter (f ∷ fs) p ≡ collect output_filter fs q
  unfolding collect
  collect-silent f fs p q e = rw e refl

  -- While branches are awaited, nothing is forwarded, and all but lifecycle frames are buffered.
  waiting :
      (fs : List Frame) (p : Parallel) (k : ℕ)
      → p.synchronizing ≡ true
      → arrivals p.sync_frame_id fs + k ≡ p.counter
      → 0 < k
      → collect output_filter fs p
        ≡ (record p { counter = k; buffered = p.buffered ++ others fs }, [])
  unfolding collect arrivals others on_downstream_from_branch count_down
  waiting [] p k s e h = rw append-nil (ground arith)
  waiting (f ∷ fs) p k s e h =
      let q = record p { buffered = p.buffered ++ f ∷ [] } in
      let r = record p { counter = p.counter - 1 } in
      elim (Bool-cases (parallel_is_lifecycle_frame f.content)) [
        | inr plain ↦
            collect-silent f fs p q (ground arith)
            ∙ waiting fs q k s (ground arith) h
            ∙ ground (arith, append_assoc p.buffered (f ∷ []) (others fs))
        | inl marks ↦ elim (Bool-cases (f.id == p.sync_frame_id)) [
          | inl same ↦
              collect-silent f fs p r (ground arith)
              ∙ waiting fs r k s (ground arith) h
              ∙ ground arith
          | inr other ↦
              collect-silent f fs p p (ground arith)
              ∙ waiting fs p k s (ground arith) h
              ∙ ground arith
        ]
      ]

  last :
      (f : Frame) (p : Parallel)
      → parallel_is_lifecycle_frame f.content ≡ true
      → p.counter ≡ 1
      → p.synchronizing ≡ true
      → p.sync_frame_id ≡ f.id
      → collect output_filter (f ∷ []) p
        ≡ (record p { counter = 0; synchronizing = false; buffered = [] }, f ∷ p.buffered)
  unfolding collect on_downstream_from_branch count_down
  last f p marks one s same =
      let done = record p { counter = 0; synchronizing = false; buffered = [] } in
      let step : on_downstream_from_branch output_filter f p ≡ (done, f ∷ p.buffered) =
        ground arith in
      rw (step, append-nil) refl

  -- When a lifecycle frame comes in and has then been emitted once by every branch, the last time
  -- last, it is forwarded once, and after it, in the order in which they were emitted, the frames
  -- buffered meanwhile, each as often as it was emitted; no frame is forwarded before it, and then no
  -- branch is awaited any more.
  pub lifecycle_barrier :
      (f : Frame) (fs : List Frame) (p : Parallel)
      → parallel_is_lifecycle_frame f.content ≡ true
      → arrivals f.id fs + 1 ≡ p.branch_count
      → collect output_filter (fs ++ f ∷ []) (begin f p) ≡ (
        record p { sync_frame_id = f.id; counter = 0; synchronizing = false; buffered = [] },
        f ∷ (p.buffered ++ others fs),
      )
  unfolding begin
  lifecycle_barrier f fs p marks e =
      let q = record p { sync_frame_id = f.id; counter = p.branch_count; synchronizing = true } in
      rw (marks, collect-append fs (f ∷ []) q, waiting fs q 1 refl e (omega arith))
        (last f _ marks refl refl refl)

  push-collect :
      (bs : List Branch) (f : Frame) (p : Parallel)
      → all_succeed bs f ≡ true
      → let q = collect output_filter (emissions bs f) p in
        push output_filter bs f p
        ≡ record { pipeline = q.0; down = q.1; up = upward_emissions bs f; failed = false }
  unfolding push collect all_succeed emissions upward_emissions
  push-collect [] f p ok = refl
  push-collect (b ∷ bs) f p ok =
      let q = (collect output_filter (b f).downward p).0 in
      let head : (b f).fails ≡ false = ground arith in
      rw
        (head, push-collect bs f q (ground arith), collect-append (b f).downward (emissions bs f) p)
        refl

  forwards :
      (fs : List Frame) (p : Parallel)
      → p.synchronizing ≡ false
      → let kept = dedupe p.seen_ids (permitted (others fs)) in
        collect output_filter fs p ≡ (record p { seen_ids = kept.1 }, kept.0)
  unfolding collect others permitted dedupe on_downstream_from_branch
  forwards [] p s = refl
  forwards (f ∷ fs) p s =
      let ids = record p { seen_ids = f.id ∷ p.seen_ids } in
      ground (arith, forwards fs p s, forwards fs ids s)

  -- If all branches accept a lifecycle frame, and among what they emit, in order, an emission of that
  -- frame makes as many of it as there are branches, then the next processor receives the frame first;
  -- then the frames buffered before and those emitted until that emission, each as often as it was
  -- emitted; then, of those emitted after it, what the output filter permits, each id once and none
  -- seen before. Other lifecycle frames that the branches emit are dropped, and afterwards no branch
  -- is awaited.
  pub process_frame_lifecycle :
      (bs : List Branch) (f : Frame) (fs gs : List Frame) (p : Parallel)
      → parallel_is_lifecycle_frame f.content ≡ true
      → all_succeed bs f ≡ true
      → emissions bs f ≡ (fs ++ f ∷ []) ++ gs
      → arrivals f.id fs + 1 ≡ p.branch_count
      → process_frame output_filter bs downstream f p ≡ record {
        pipeline = record p {
          sync_frame_id = f.id;
          counter = 0;
          synchronizing = false;
          buffered = [];
          seen_ids = (dedupe p.seen_ids (permitted (others gs))).1;
        };
        down = (f ∷ (p.buffered ++ others fs)) ++ (dedupe p.seen_ids (permitted (others gs))).0;
        up = upward_emissions bs f;
        failed = false;
      }
  unfolding process_frame
  process_frame_lifecycle bs f fs gs p marks ok out e =
      let done = record p {
        sync_frame_id = f.id;
        counter = 0;
        synchronizing = false;
        buffered = [];
      } in
      rw
        (
          push-collect bs f (begin f p) ok,
          out,
          collect-append (fs ++ f ∷ []) gs (begin f p),
          lifecycle_barrier f fs p marks e,
          forwards gs done refl,
        )
        refl

  -- While no branch is awaited, what is forwarded of the frames that the branches emit are those
  -- that are not lifecycle frames and that the output filter permits, the first of each id, and no
  -- id twice or again.
  forwarded_once :
      (fs : List Frame) (p : Parallel)
      → p.synchronizing ≡ false
      → ((collect output_filter fs p).1 ≡ (dedupe p.seen_ids (permitted (others fs))).0)
        × AreFresh p.seen_ids (collect output_filter fs p).1
  forwarded_once fs p s =
      let e = ap (λ r. r.1) (forwards fs p s) in
      (e, rw e (dedupe-AreFresh p.seen_ids (permitted (others fs))))
