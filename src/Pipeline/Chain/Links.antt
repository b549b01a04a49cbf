-- ===== src/Pipeline/Chain/Links.antt =====
-- Add and Link make a doubly linked chain.
use voxray.Base.{
  ℕ, Bool, true, false, not, ◌&&◌, ◌||◌, ◌==◌, Option, none, some, List, [], ◌∷◌, ◌++◌, ◌≡◌, inl,
  inr, refl, sym, ap, ◌∙◌, arith, append_assoc, append-nil, Bool-cases,
}
use voxray.Pipeline.Once.{seen}
use voxray.Pipeline.Chain.{
  Store, Pipeline, unlinked, new_pipeline, set_next, set_prev, last_of, first_of, link_after, add,
  link,
}

-- No processor stands in the chain twice.
unfoldable pub distinct : List ℕ → Bool
distinct [] = true
distinct (p ∷ ps) = not (seen p ps) && distinct ps

-- The processors are linked in order, the first one behind `before`.
unfoldable pub LinkedFrom : Store → Option ℕ → List ℕ → Type 0
LinkedFrom s before [] = Unit {0}
LinkedFrom s before (p ∷ ps) =
    ((s p).prev ≡ before) × (((s p).next ≡ first_of ps) × LinkedFrom s (some p) ps)

-- Links that do not change at a processor.
unchanged :
    (o : Option ℕ) (proc x : ℕ) (s : Store)
    → (proc == x) ≡ false
    → ((l : ℕ) → o ≡ some l → (l == x) ≡ false)
    → link_after o proc s x ≡ s x
unfolding link_after set_prev set_next
unchanged none proc x s h k = refl
unchanged (some l) proc x s h k = rw (h, k l refl) refl

last_of-seen : (p : ℕ) (ps : List ℕ) (l : ℕ) → last_of (p ∷ ps) ≡ some l → seen l (p ∷ ps) ≡ true
unfolding last_of seen
last_of-seen p [] l e = (let same : p ≡ l = cc in ground arith)
last_of-seen p (q ∷ ps) l e = ground (arith, last_of-seen q ps l e)

linked_pair :
    (p proc : ℕ) (s : Store) (before : Option ℕ)
    → (s p).prev ≡ before
    → (p == proc) ≡ false
    → s proc ≡ record { next = none; prev = none }
    → LinkedFrom (link_after (some p) proc s) before (p ∷ proc ∷ [])
unfolding LinkedFrom first_of link_after set_prev set_next
linked_pair p proc s before l h e =
    let away : (proc == p) ≡ false = ground arith in
    let itself : (p == p) ≡ true = ground arith in
    let itself' : (proc == proc) ≡ true = ground arith in
    rw (h, away, itself, itself') (l, (refl, (refl, (ap (λ x. x.next) e, tt))))

distinct-parts :
    (p : ℕ) (ps : List ℕ) → distinct (p ∷ ps) ≡ true → (seen p ps ≡ false) × (distinct ps ≡ true)
unfolding distinct
distinct-parts p ps h = ground arith

absent-parts :
    (x p : ℕ) (ps : List ℕ)
    → seen x (p ∷ ps) ≡ false
    → ((x == p) ≡ false) × (((p == x) ≡ false) × (seen x ps ≡ false))
unfolding seen
absent-parts x p ps h = ground arith

apart : (x p : ℕ) (ps : List ℕ) → seen x ps ≡ true → seen p ps ≡ false → (x == p) ≡ false
apart x p ps there absent = elim (Bool-cases (x == p)) [
  | inr other ↦ other
  | inl same ↦ let e : x ≡ p = ground arith in absurd (cc)
]

-- A processor that stands in no chain, added behind one.
add-LinkedFrom :
    (p : ℕ) (ps : List ℕ) (proc : ℕ) (s : Store) (before : Option ℕ)
    → LinkedFrom s before (p ∷ ps)
    → distinct (p ∷ ps) ≡ true
    → seen proc (p ∷ ps) ≡ false
    → s proc ≡ record { next = none; prev = none }
    → LinkedFrom (link_after (last_of (p ∷ ps)) proc s) before ((p ∷ ps) ++ proc ∷ [])
unfolding LinkedFrom last_of first_of
add-LinkedFrom p [] proc s before l d h e =
    linked_pair p proc s before l.0 (absent-parts proc p [] h).1.0 e
add-LinkedFrom p (q ∷ ps) proc s before l d h e =
    let (once, distinct_rest) = distinct-parts p (q ∷ ps) d in
    let (away, (_, absent)) = absent-parts proc p (q ∷ ps) h in
    let t = link_after (last_of (q ∷ ps)) proc s in
    let same : t p ≡ s p =
      unchanged (last_of (q ∷ ps)) proc p s away
        λ x is_last. apart x p (q ∷ ps) (last_of-seen q ps x is_last) once in
    (rw same l.0, (rw same l.1.0, add-LinkedFrom q ps proc s (some p) l.1.1 distinct_rest absent e))

seen-append : (x : ℕ) (ps qs : List ℕ) → seen x (ps ++ qs) ≡ (seen x ps || seen x qs)
unfolding seen
seen-append x [] qs = refl
seen-append x (p ∷ ps) qs = ground (arith, seen-append x ps qs)

distinct-append_one :
    (ps : List ℕ) (x : ℕ) → distinct ps ≡ true → seen x ps ≡ false → distinct (ps ++ x ∷ []) ≡ true
unfolding distinct seen
distinct-append_one [] x d h = refl
distinct-append_one (p ∷ ps) x d h =
    let (once, rest) = distinct-parts p ps d in
    let (away, (away', absent)) = absent-parts x p ps h in
    let later : seen p (ps ++ x ∷ []) ≡ false = rw (seen-append p ps (x ∷ []), once, away) refl in
    rw (later, distinct-append_one ps x rest absent) refl

-- The links of a pipeline and of the processors that are in none.
abbrev pub IsChain : Pipeline → Type 0
IsChain p =
    LinkedFrom p.links none p.processors
    × ((distinct p.processors ≡ true)
        × ((q : ℕ) → seen q p.processors ≡ false → p.links q ≡ record { next = none; prev = none }))

added :
    (ps : List ℕ) (proc : ℕ) (s : Store)
    → LinkedFrom s none ps
    → distinct ps ≡ true
    → seen proc ps ≡ false
    → s proc ≡ record { next = none; prev = none }
    → LinkedFrom (link_after (last_of ps) proc s) none (ps ++ proc ∷ [])
unfolding LinkedFrom last_of link_after first_of
added [] proc s l d h e = (ap (λ x. x.prev) e, (ap (λ x. x.next) e, tt))
added (p ∷ ps) proc s l d h e = add-LinkedFrom p ps proc s none l d h e

not_last : (ps : List ℕ) (q l : ℕ) → seen q ps ≡ false → last_of ps ≡ some l → (l == q) ≡ false
unfolding last_of
not_last [] q l absent e = cc
not_last (p ∷ ps) q l absent e = apart l q (p ∷ ps) (last_of-seen p ps l e) absent

untouched :
    (ps : List ℕ) (proc q : ℕ) (s : Store)
    → seen q (ps ++ proc ∷ []) ≡ false
    → (link_after (last_of ps) proc s q ≡ s q) × (seen q ps ≡ false)
unfolding seen
untouched ps proc q s h =
    let parts : (seen q ps || seen q (proc ∷ [])) ≡ false = rw⁻¹ (seen-append q ps (proc ∷ [])) h in
    let absent : seen q ps ≡ false = ground arith in
    let away : (proc == q) ≡ false = ground arith in
    (unchanged (last_of ps) proc q s away λ l e. not_last ps q l absent e, absent)

distinct-middle :
    (ps : List ℕ) (x : ℕ) (xs : List ℕ) → distinct (ps ++ x ∷ xs) ≡ true → seen x ps ≡ false
unfolding seen
distinct-middle [] x xs d = refl
distinct-middle (p ∷ ps) x xs d =
    let (once, rest) = distinct-parts p (ps ++ x ∷ xs) d in
    let parts : (seen p ps || seen p (x ∷ xs)) ≡ false = rw⁻¹ (seen-append p ps (x ∷ xs)) once in
    ground (arith, distinct-middle ps x xs rest)

add-IsChain :
    (proc : ℕ) (p : Pipeline) → seen proc p.processors ≡ false → IsChain p → IsChain (add proc p)
unfolding add
add-IsChain proc p h (l, (d, others)) = (
  added p.processors proc p.links l d h (others proc h),
  (
    distinct-append_one p.processors proc d h,
    λ q absent.
        let (same, before) = untouched p.processors proc q p.links absent in same ∙ others q before,
  ),
)

pub link-IsChain :
    (procs : List ℕ) (p : Pipeline)
    → distinct (p.processors ++ procs) ≡ true
    → IsChain p
    → IsChain (link procs p) × ((link procs p).processors ≡ p.processors ++ procs)
unfolding link add LinkedFrom
link-IsChain [] p d c = (c, sym (append-nil p.processors))
link-IsChain (x ∷ xs) p d c =
    let q = add x p in
    let whole : q.processors ++ xs ≡ p.processors ++ x ∷ xs =
      append_assoc p.processors (x ∷ []) xs in
    let absent = distinct-middle p.processors x xs d in
    let (chain, all) = link-IsChain xs q (rw whole d) (add-IsChain x p absent c) in
    (chain, all ∙ whole)

pub empty-IsChain : IsChain (new_pipeline unlinked)
unfolding LinkedFrom distinct
empty-IsChain = (tt, (refl, λ q absent. refl))
