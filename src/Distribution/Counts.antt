-- ===== src/Distribution/Counts.antt =====
-- What tracker.go of network/distribution counts.
use cipher.Prelude.{
  ℕ, suc, ◌+◌, ◌≤◌, ◌≡◌, ◌↔◌, refl, ap, ◌∙◌, true, Option, none, some, List, [], ◌∷◌, Bytes,
  bytes_eq, bytes_eq→eq, subst, length, lookup, insert, lookup-insert, if◌then◌else◌, Bool-cases,
  arith, inl, inr, All,
}
use cipher.Distribution.Tracker.{
  ReplicaState, GlobalReplicaTracker, or_empty, replicas, set_status, is_committed, count_committed,
  committed_count, reaches, is_chunk_satisfied, is_complete, count_satisfied, get_summary,
}

count_satisfied_le :
    (ids : List Bytes) (t : GlobalReplicaTracker) → count_satisfied ids t ≤ length ids
unfolding count_satisfied
count_satisfied_le [] t = omega arith
count_satisfied_le (id ∷ ids) t = ground (arith, count_satisfied_le ids t)

complete_summary :
    (ids : List Bytes) (t : GlobalReplicaTracker)
    → (is_complete ids t ≡ true) ↔ (count_satisfied ids t ≡ length ids)
unfolding is_complete count_satisfied
complete_summary [] t = (λ h. refl, λ h. refl)
complete_summary (id ∷ ids) t =
    let e = complete_summary ids t in
    let b = count_satisfied_le ids t in
    elim (Bool-cases (reaches (count_committed (replicas id t)) t.required_r)) [
      | inl a ↦ rw a (λ h. ap (λ n. suc n) (e.0 h), λ h. e.1 (omega (arith, h)))
      | inr a ↦ rw a (λ h. cc, λ h. absurd (omega (arith, h, b)))
    ]

complete_satisfied :
    (ids : List Bytes) (t : GlobalReplicaTracker)
    → (is_complete ids t ≡ true) ↔ All (λ id. is_chunk_satisfied id t ≡ true) ids
unfolding is_complete is_chunk_satisfied committed_count
complete_satisfied [] t = (λ h. tt, λ h. refl)
complete_satisfied (id ∷ ids) t =
    let e = complete_satisfied ids t in
    elim (Bool-cases (reaches (count_committed (replicas id t)) t.required_r)) [
      | inl a ↦ rw a (λ h. (refl, e.0 h), λ h. e.1 h.1)
      | inr a ↦ rw a (λ h. cc, λ h. absurd (let x = h.0 in cc))
    ]

-- IsComplete says that every chunk is satisfied by IsChunkSatisfied, and it says so exactly when
-- GetSummary counts as many satisfied chunks as there are.
is_complete_iff :
    (ids : List Bytes) (t : GlobalReplicaTracker)
    → ((is_complete ids t ≡ true) ↔ All (λ id. is_chunk_satisfied id t ≡ true) ids)
      × ((is_complete ids t ≡ true) ↔ ((get_summary ids t).0 ≡ (get_summary ids t).1))
unfolding get_summary
is_complete_iff ids t = (complete_satisfied ids t, complete_summary ids t)

-- The share of one status in a count.
abbrev pub weight : Option ReplicaState → ℕ
weight none = 0
weight (some s) = if is_committed s then 1 else 0

count_committed-insert :
    (p : Bytes) (s : ReplicaState) (m : List (Bytes × ReplicaState))
    → count_committed (insert p s m) + weight (lookup p m) ≡ count_committed m + weight (some s)
unfolding count_committed insert lookup
count_committed-insert p s [] = ground arith
count_committed-insert p s ((q, r) ∷ m) =
    let h = count_committed-insert p s m in
    elim (Bool-cases (bytes_eq q p)) [
      | inl a ↦ rw a (ground arith)
      | inr a ↦ rw a (ground (arith, h))
    ]

replicas-set_status :
    (c d p : Bytes) (s : ReplicaState) (t : GlobalReplicaTracker)
    → replicas d (set_status c p s t)
      ≡ (if bytes_eq c d then insert p s (replicas c t) else replicas d t)
unfolding replicas set_status
replicas-set_status c d p s t =
    let e = ap or_empty (lookup-insert c d (insert p s (replicas c t)) t.state) in
    elim (Bool-cases (bytes_eq c d)) [ inl a ↦ e ∙ (rw a refl) | inr a ↦ e ∙ (rw a refl) ]

-- SetStatus replaces the status of one replica: the committed replicas of its chunk lose the old
-- status and gain the new one, and those of every other chunk stay as many as they are.
pub committed_count-set_status :
    (c d p : Bytes) (s : ReplicaState) (t : GlobalReplicaTracker)
    → committed_count d (set_status c p s t)
        + (if bytes_eq c d then weight (lookup p (replicas c t)) else 0)
      ≡ committed_count d t + (if bytes_eq c d then weight (some s) else 0)
unfolding committed_count
committed_count-set_status c d p s t = elim (Bool-cases (bytes_eq c d)) [
  | inl a ↦
      let e = bytes_eq→eq c d a in
      rw (replicas-set_status c d p s t, a)
        (subst
          (λ k.
            count_committed (insert p s (replicas c t)) + weight (lookup p (replicas c t))
            ≡ count_committed (replicas k t) + weight (some s))
          e (count_committed-insert p s (replicas c t)))
  | inr a ↦ rw (replicas-set_status c d p s t, a) refl
]
