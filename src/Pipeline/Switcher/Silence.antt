-- ===== src/Pipeline/Switcher/Silence.antt =====
-- What a ServiceSwitcher forwards.
use voxray.Base.{
  ℕ, String, Bool, Option, some, List, [], ◌∷◌, ◌++◌, map, ◌≡◌, inl, inr, refl, Bool-cases,
}
use voxray.Frames.{Frame, Direction, downstream, upstream}
use voxray.Processors.Filters.{same_direction}
use voxray.Pipeline.Parallel
use voxray.Pipeline.Parallel.{Parallel, collect, push, begin}
use voxray.Pipeline.Switcher.{
  Service, Switcher, filter_processor, filter_down, filter_up, service_branch, serve, output_filter,
  active_service_name, handle_frame, is_service_switcher_frame, process_frame,
}

-- filterUp lets no frame through that goes down, and filterDown none that goes up.
stopped_down :
    (active name : String) (fs : List Frame)
    → filter_processor (filter_up active name) downstream fs ≡ []
unfolding filter_processor filter_up same_direction
stopped_down active name [] = refl
stopped_down active name (f ∷ fs) = stopped_down active name fs

stopped_up :
    (active name : String) (fs : List Frame)
    → filter_processor (filter_down active name) upstream fs ≡ []
unfolding filter_processor filter_down same_direction
stopped_up active name [] = refl
stopped_up active name (f ∷ fs) = stopped_up active name fs

serve-silent :
    (active : String) (s : Service) (fs : List Frame)
    → ((serve active s fs).downward ≡ []) × ((serve active s fs).upward ≡ [])
unfolding serve
serve-silent active s [] = (refl, refl)
serve-silent active s (f ∷ _) = (stopped_down active s.name _, stopped_up active s.name _)

service_branch-silent :
    (active : String) (s : Service) (f : Frame)
    → ((service_branch active s f).downward ≡ []) × ((service_branch active s f).upward ≡ [])
unfolding service_branch
service_branch-silent active s f = serve-silent active s _

push-silent :
    (filter : Option (Frame → Bool)) (active : String) (services : List Service) (f : Frame)
    (p : Parallel)
    → let r = push filter (map (service_branch active) services) f p in
      (r.pipeline ≡ p) × ((r.down ≡ []) × (r.up ≡ []))
unfolding push collect
push-silent filter active [] f p = (refl, (refl, refl))
push-silent filter active (s ∷ services) f p =
    let (down, up) = service_branch-silent active s f in
    let (same, (no_down, no_up)) = push-silent filter active services f p in
    elim (Bool-cases (service_branch active s f).fails) [
      | inl stops ↦ rw (stops, down, up) (refl, (refl, refl))
      | inr goes ↦ rw (goes, down, up) (same, (no_down, no_up))
    ]

-- A history: frames with their directions, and the ids for the frames that ask for metadata.
unfoldable pub run :
    List Service → List (ℕ × (Direction × Frame)) → Switcher → Switcher × (List Frame × List Frame)
run services [] w = (w, ([], []))
run services ((id, (dir, f)) ∷ xs) w =
    let r = process_frame services id dir f w in
    let (v, (down, up)) = run services xs r.switcher in (v, (r.down ++ down, r.up ++ up))

unfoldable pub upstream_frames : List (ℕ × (Direction × Frame)) → List Frame
upstream_frames [] = []
upstream_frames ((_, (upstream, f)) ∷ xs) = f ∷ upstream_frames xs
upstream_frames ((_, (downstream, f)) ∷ xs) = upstream_frames xs

process_frame-silent :
    (services : List Service) (id : ℕ) (f : Frame) (w : Switcher)
    → let r = process_frame services id downstream f w in (r.down ≡ []) × (r.up ≡ [])
unfolding process_frame Parallel.process_frame
process_frame-silent services id f w =
    let (s, switched) = handle_frame f.content w.strategy in
    let silent = push-silent (some (output_filter s)) (active_service_name s) services in
    elim (Bool-cases (is_service_switcher_frame f.content)) [
      | inr plain ↦ rw plain (silent f (begin f w.parallel)).1
      | inl switches ↦ elim (Bool-cases switched) [
        | inl done ↦ rw (switches, done) (silent _ w.parallel).1
        | inr missed ↦ rw (switches, missed) (refl, refl)
      ]
    ]

-- Whatever the services do and whichever is active, over every history a switcher hands no frame to
-- the next processor, and to the previous one only the frames that come to it from the next.
pub switcher_silent :
    (services : List Service) (xs : List (ℕ × (Direction × Frame))) (w : Switcher)
    → (run services xs w).1 ≡ ([], upstream_frames xs)
unfolding run upstream_frames process_frame
switcher_silent services [] w = refl
switcher_silent services ((id, (upstream, f)) ∷ xs) w = rw (switcher_silent services xs w) refl
switcher_silent services ((id, (downstream, f)) ∷ xs) w =
    let (down, up) = process_frame-silent services id f w in
    rw (down, up) (switcher_silent services xs _)
