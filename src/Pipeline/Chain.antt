-- ===== src/Pipeline/Chain.antt =====
-- pkg/pipeline/pipeline.go and BaseProcessor of pkg/processors/processor.go: the links of a chain. A
-- processor is a pointer, here a number, and the store holds the links of each, so that a processor which
-- stands in two chains has one pair of links.
pub mod Links
pub mod Walks
use voxray.Base.{
  ℕ, zero, suc, Bool, true, false, ◌==◌, Option, none, some, List, [], ◌∷◌, ◌++◌, if◌then◌else◌,
}
use voxray.Frames.{Direction, downstream, upstream}

pub record Ends : Type 0 where
  pub next : Option ℕ
  pub prev : Option ℕ

abbrev pub Store : Type 0
Store = ℕ → Ends

abbrev pub unlinked : Store
unlinked p = record { next = none; prev = none }

unfoldable pub set_next : ℕ → ℕ → Store → Store
set_next p q s = λ x. if p == x then record (s x) { next = some q } else s x

unfoldable pub set_prev : ℕ → ℕ → Store → Store
set_prev p q s = λ x. if p == x then record (s x) { prev = some q } else s x

pub record Pipeline : Type 0 where
  pub processors : List ℕ
  pub links : Store

-- New, in a store
abbrev pub new_pipeline : Store → Pipeline
new_pipeline s = record { processors = []; links = s }

unfoldable pub last_of : List ℕ → Option ℕ
last_of [] = none
last_of (p ∷ []) = some p
last_of (p ∷ q ∷ ps) = last_of (q ∷ ps)

unfoldable pub link_after : Option ℕ → ℕ → Store → Store
link_after none proc s = s
link_after (some l) proc s = set_prev proc l (set_next l proc s)

unfoldable pub add : ℕ → Pipeline → Pipeline
add proc p = record {
  processors = p.processors ++ proc ∷ [];
  links = link_after (last_of p.processors) proc p.links;
}

unfoldable pub link : List ℕ → Pipeline → Pipeline
link [] p = p
link (proc ∷ procs) p = link procs (add proc p)

unfoldable pub neighbour : Direction → Ends → Option ℕ
neighbour downstream l = l.next
neighbour upstream l = l.prev

-- BaseProcessor.ProcessFrame from a processor on, where every processor forwards the frame: the
-- processors that it comes to, at most as many as the fuel.
unfoldable pub walk : ℕ → Direction → Store → Option ℕ → List ℕ
walk zero dir s p = []
walk (suc fuel) dir s none = []
walk (suc fuel) dir s (some p) = p ∷ walk fuel dir s (neighbour dir (s p))

unfoldable pub first_of : List ℕ → Option ℕ
first_of [] = none
first_of (p ∷ ps) = some p

-- Push and PushUpstream
unfoldable pub push : ℕ → Pipeline → List ℕ
push fuel p = walk fuel downstream p.links (first_of p.processors)

unfoldable pub push_upstream : ℕ → Pipeline → List ℕ
push_upstream fuel p = walk fuel upstream p.links (last_of p.processors)
