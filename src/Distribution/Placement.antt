-- ===== src/Distribution/Placement.antt =====
-- What planner.go of network/distribution assigns.
use cipher.Prelude.{
  ℕ, zero, suc, ◌+◌, ◌%◌, ◌≡◌, inl, inr, refl, sym, ap, ◌∙◌, Bool, true, false, List, [], ◌∷◌, ◌++◌,
  Bytes, bytes_eq, bytes_eq_refl, length, get_or, lookup, insert, lookup-insert, ok, if◌then◌else◌,
  Bool-cases, arith,
}
use mathlib.Core.List.{append_assoc, append-nil}
use cipher.Prelude.Int.{ℤ, pos_part}
use cipher.Distribution.Planner.{
  PlacementPlan, Manifest, or_none, push, assign, place_replicas, place_chunks, plan_placement,
  empty_lists,
}

-- The providers of a chunk with index `i`: `left` of them, in a circle from `i + r` on.
unfoldable pub circle : List Bytes → ℕ → ℕ → ℕ → List Bytes
circle providers i zero r = []
circle providers i (suc left) r =
    get_or providers ((i + r) % length providers) [] ∷ circle providers i left (r + 1)

-- The peers that a plan lists for a chunk.
abbrev pub peers : Bytes → PlacementPlan → List Bytes
peers c plan = or_none (lookup c plan.assignments)

peers-assign :
    (c d p : Bytes) (plan : PlacementPlan)
    → peers d (assign c p plan) ≡ (if bytes_eq c d then peers c plan ++ (p ∷ []) else peers d plan)
unfolding assign push
peers-assign c d p plan =
    let e = ap or_none (lookup-insert c d (peers c plan ++ (p ∷ [])) plan.assignments) in
    elim (Bool-cases (bytes_eq c d)) [ inl a ↦ e ∙ (rw a refl) | inr a ↦ e ∙ (rw a refl) ]

peers-place_replicas :
    (ps : List Bytes) (i : ℕ) (c : Bytes) (left r : ℕ) (plan : PlacementPlan)
    → peers c (place_replicas ps i c left r plan) ≡ peers c plan ++ circle ps i left r
unfolding place_replicas circle
peers-place_replicas ps i c zero r plan = sym (append-nil (peers c plan))
peers-place_replicas ps i c (suc left) r plan =
    let p = get_or ps ((i + r) % length ps) [] in
    peers-place_replicas ps i c left (r + 1) (assign c p plan)
    ∙ ap (λ l. l ++ circle ps i left (r + 1))
        (peers-assign c c p plan ∙ (rw (bytes_eq_refl c) refl))
    ∙ append_assoc (peers c plan) (p ∷ []) (circle ps i left (r + 1))

elsewhere-place_replicas :
    (ps : List Bytes) (i : ℕ) (c d : Bytes) (left r : ℕ) (plan : PlacementPlan)
    → bytes_eq c d ≡ false
    → peers d (place_replicas ps i c left r plan) ≡ peers d plan
unfolding place_replicas
elsewhere-place_replicas ps i c d zero r plan h = refl
elsewhere-place_replicas ps i c d (suc left) r plan h =
    let p = get_or ps ((i + r) % length ps) [] in
    elsewhere-place_replicas ps i c d left (r + 1) (assign c p plan) h
    ∙ peers-assign c d p plan
    ∙ (rw h refl)

abbrev pub is_listed : Bytes → List Bytes → Bool
is_listed c [] = false
is_listed c (x ∷ xs) = if bytes_eq x c then true else is_listed c xs

abbrev reset : Bytes → PlacementPlan → PlacementPlan
reset c plan = record plan { assignments = insert c [] plan.assignments }

peers-reset :
    (c d : Bytes) (plan : PlacementPlan)
    → peers d (reset c plan) ≡ (if bytes_eq c d then [] else peers d plan)
peers-reset c d plan =
    let e = ap or_none (lookup-insert c d [] plan.assignments) in
    elim (Bool-cases (bytes_eq c d)) [ inl a ↦ e ∙ (rw a refl) | inr a ↦ e ∙ (rw a refl) ]

unlisted_peers :
    (ps : List Bytes) (n i : ℕ) (c : Bytes) (cs : List Bytes) (plan : PlacementPlan)
    → is_listed c cs ≡ false
    → peers c (place_chunks ps n i cs plan) ≡ peers c plan
unfolding place_chunks
unlisted_peers ps n i c [] plan h = refl
unlisted_peers ps n i c (x ∷ cs) plan h = elim (Bool-cases (bytes_eq x c)) [
  | inl a ↦ absurd (ground arith)
  | inr a ↦
      unlisted_peers ps n (i + 1) c cs (place_replicas ps i x n 0 (reset x plan)) (ground arith)
      ∙ elsewhere-place_replicas ps i x c n 0 (reset x plan) a
      ∙ peers-reset x c plan
      ∙ (rw a refl)
]

listed_peers :
    (ps : List Bytes) (n i : ℕ) (before : List Bytes) (c : Bytes) (after : List Bytes)
    (plan : PlacementPlan)
    → is_listed c after ≡ false
    → peers c (place_chunks ps n i (before ++ (c ∷ after)) plan) ≡ circle ps (i + length before) n 0
unfolding place_chunks
listed_peers ps n i [] c after plan h =
    let z : i + 0 ≡ i = omega arith in
    let blank : peers c (reset c plan) ≡ [] = peers-reset c c plan ∙ (rw (bytes_eq_refl c) refl) in
    unlisted_peers ps n (i + 1) c after (place_replicas ps i c n 0 (reset c plan)) h
    ∙ peers-place_replicas ps i c n 0 (reset c plan)
    ∙ ap (λ l. l ++ circle ps i n 0) blank
    ∙ ap (λ k. circle ps k n 0) (sym z)
listed_peers ps n i (x ∷ before) c after plan h =
    let z : i + 1 + length before ≡ i + length (x ∷ before) = omega arith in
    listed_peers ps n (i + 1) before c after (place_replicas ps i x n 0 (reset x plan)) h
    ∙ ap (λ k. circle ps k n 0) z

length-circle : (ps : List Bytes) (i left r : ℕ) → length (circle ps i left r) ≡ left
unfolding circle
length-circle ps i zero r = refl
length-circle ps i (suc left) r = ap (λ n. suc n) (length-circle ps i left (r + 1))

start : Manifest → List Bytes → ℤ → PlacementPlan
start m ps replication = record {
  content_id = m.content_id;
  manifest = m;
  assignments = [];
  provider_chunks = empty_lists ps [];
  replication = pos_part replication;
}

planned :
    (m : Manifest) (ps : List Bytes) (replication : ℤ) {plan : PlacementPlan}
    → plan_placement m ps replication ≡ ok plan
    → plan ≡ place_chunks ps (pos_part replication) 0 m.chunk_ids (start m ps replication)
unfolding plan_placement start
planned m ps replication e = ground arith

-- In a plan, the chunk at an index of the manifest has as many peers as the replication says:
-- the providers in a circle from that index on. A chunk that is listed twice has those of its last
-- index.
pub plan_placement-circle :
    (m : Manifest) (ps : List Bytes) (replication : ℤ) (before : List Bytes) (c : Bytes)
    (after : List Bytes) {plan : PlacementPlan}
    → plan_placement m ps replication ≡ ok plan
    → m.chunk_ids ≡ before ++ (c ∷ after)
    → is_listed c after ≡ false
    → (peers c plan ≡ circle ps (length before) (pos_part replication) 0)
      × (length (peers c plan) ≡ pos_part replication)
plan_placement-circle m ps replication before c after {plan} e listed last =
    let n = pos_part replication in
    let s = start m ps replication in
    let q =
      ap (peers c) (planned m ps replication e)
      ∙ ap (λ cs. peers c (place_chunks ps n 0 cs s)) listed
      ∙ listed_peers ps n 0 before c after s last in
    let z : 0 + length before ≡ length before = omega arith in
    let w = q ∙ ap (λ k. circle ps k n 0) z in
    (w, ap (length {A = Bytes}) w ∙ length-circle ps (length before) n 0)
