-- ===== src/RepoWorker/Delegation/Descent.antt =====
-- The walk over a lineage finds the manager exactly where it is.
use ciacola.Base.{
  ℕ, zero, suc, ◌+◌, ◌<◌, String, ◌≡◌, refl, sym, ap, subst, Bool, true, false, ◌&&◌, ◌||◌, Option,
  none, some, List, [], ◌∷◌, ltb, contains, ok, ok_or, arith, Bool-cases, Option-cases, inl, inr,
  ◌⊎◌, eq_iff, ◌==◌, ==_self,
}
use ciacola.Ledger.Rows.{Ledger}
use ciacola.Ledger.Turns.{get_agent}
use ciacola.RepoWorker.Delegation.Lineage.{
  DelegatedLineageRefusal, outside_manager, seen_at, lineage_from, delegated_lineage_hops,
}
use ciacola.RepoWorker.Delegation.Ancestors.{
  Rooted, root, child, Above, itself, parent_of, Descends, same_parent, same_height,
}

module _ (l : Ledger) (agent_id manager : String) (allow : Bool) where
  -- what the loop has found, or may still find
  Found : ℕ → ℕ → Option ℕ → String → Type 0
  Found n hops found current =
      (found ≡ some n)
      ⊎ ((d : ℕ) × Above l manager current d × (n ≡ hops + d) × ((ltb 0 n || allow) ≡ true))

  seen-Found :
      (hops : ℕ) (found : Option ℕ) (current : String) (n : ℕ)
      → seen_at l agent_id manager allow current hops found ≡ some n
      → Found n hops found current
  unfolding Found
  seen-Found hops found current n h =
      elim (Bool-cases ((current == manager) && (ltb 0 hops || allow))) [
        | inl e ↦
            let here : current ≡ manager = ground (arith, eq_iff current manager) in
            let now : hops ≡ n = ground arith in
            inr (0, subst (λ c. Above l manager c 0) (sym here) itself, omega arith, ground arith)
        | inr e ↦ inl (ground arith)
      ]

  answer : (o : Option ℕ) (e : DelegatedLineageRefusal) (n : ℕ) → ok_or o e ≡ ok n → o ≡ some n
  answer none e n h = cc
  answer (some m) e n h = ground arith

  lineage_from_sound :
      (rounds hops : ℕ) (visited : List String) (found : Option ℕ) (current : String) (n : ℕ)
      → lineage_from l agent_id manager allow rounds hops visited found current ≡ ok n
      → Found n hops found current × ((k : ℕ) × Rooted l current k × (k < rounds))
  unfolding lineage_from Found
  lineage_from_sound zero hops visited found current n h = cc
  lineage_from_sound (suc rounds) hops visited found current n h =
      elim (Bool-cases (contains visited current)) [
        | inl c ↦ let z = rw c at h in cc
        | inr c ↦ elim (Option-cases (get_agent l current)) [
          | inl e ↦ let z = rw (c, e) at h in cc
          | inr (a, e) ↦ elim (Option-cases a.spawned_by) [
            | inl s ↦
                let z = rw (c, e, s) at h in
                (
                  seen-Found hops found current n (
                      answer (seen_at l agent_id manager allow current hops found)
                        (outside_manager agent_id manager) n z),
                  (0, root current a e s, omega arith),
                )
            | inr (p, s) ↦
                let z = rw (c, e, s) at h in
                let (later, (k, r, short)) =
                  lineage_from_sound rounds (hops + 1) (current ∷ visited)
                    (seen_at l agent_id manager allow current hops found) p n z in
                (
                  elim later [
                    | inl now ↦ seen-Found hops found current n now
                    | inr (d, up, same, counts) ↦
                        inr (suc d, parent_of current p a d e s up, omega (arith, same), counts)
                  ],
                  (suc k, child current p a k e s r, omega (arith, short)),
                )
          ]
        ]
      ]

  -- what was visited is further from the root
  Behind : ℕ → List String → Type 0
  Behind k visited = (v : String) → contains visited v ≡ true → (j : ℕ) × Rooted l v j × (k < j)

  not_visited :
      (k : ℕ) (visited : List String) (current : String)
      → Rooted l current k
      → Behind k visited
      → contains visited current ≡ false
  unfolding Behind
  not_visited k visited current r b = elim (Bool-cases (contains visited current)) [
    | inl c ↦
        let (j, q, far) = b current c in absurd (omega (arith, same_height l current k j r q, far))
    | inr c ↦ c
  ]

  further :
      (k : ℕ) (visited : List String) (current : String)
      → Rooted l current (suc k)
      → Behind (suc k) visited
      → Behind k (current ∷ visited)
  unfolding Behind contains
  further k visited current r b v c = elim (Bool-cases (current == v)) [
    | inl e ↦
        (suc k, subst (λ v. Rooted l v (suc k)) (ground (arith, eq_iff current v)) r, omega arith)
    | inr e ↦ let (j, q, far) = b v (ground arith) in (j, q, omega (arith, far))
  ]

  seen_past :
      (hops k j : ℕ) (found : Option ℕ) (current : String)
      → Rooted l current k
      → Rooted l manager j
      → k < j
      → seen_at l agent_id manager allow current hops found ≡ found
  seen_past hops k j found current r up far = elim (Bool-cases (current == manager)) [
    | inl e ↦
        let here : current ≡ manager = ground (arith, eq_iff current manager) in
        absurd (omega (arith, same_height l manager k j (subst (λ c. Rooted l c k) here r) up, far))
    | inr e ↦ ground arith
  ]

  -- the manager lies behind
  lineage_from_past :
      (rounds hops k n j : ℕ) (visited : List String) (current : String)
      → Rooted l current k
      → k < rounds
      → Behind k visited
      → Rooted l manager j
      → k < j
      → lineage_from l agent_id manager allow rounds hops visited (some n) current ≡ ok n
  unfolding lineage_from
  lineage_from_past zero hops k n j visited current r short b up far = absurd (omega arith)
  lineage_from_past (suc rounds) hops k n j visited current (root _ a e s) short b up far =
      let c = not_visited 0 visited current (root current a e s) b in
      rw (c, e, s, seen_past hops 0 j (some n) current (root current a e s) up far) refl
  lineage_from_past (suc rounds) hops k n j visited current (child _ p a m e s r) short b up far =
      let c = not_visited (suc m) visited current (child current p a m e s r) b in
      rw (c, e, s, seen_past hops (suc m) j (some n) current (child current p a m e s r) up far)
        (lineage_from_past rounds (hops + 1) m n j (current ∷ visited) p r (omega (arith, short))
          (further m visited current (child current p a m e s r) b) up (omega (arith, far)))

  seen_here :
      (hops : ℕ) (found : Option ℕ) (current : String)
      → current ≡ manager
      → (ltb 0 hops || allow) ≡ true
      → seen_at l agent_id manager allow current hops found ≡ some hops
  seen_here hops found current e counts =
      let same : (current == manager) ≡ true =
        subst (λ c. (c == manager) ≡ true) (sym e) (==_self manager) in
      ground arith

  -- the manager lies ahead, so many steps away
  lineage_from_ahead :
      (rounds hops k d n : ℕ) (visited : List String) (found : Option ℕ) (current : String)
      → Rooted l current k
      → k < rounds
      → Behind k visited
      → Above l manager current d
      → n ≡ hops + d
      → (ltb 0 n || allow) ≡ true
      → lineage_from l agent_id manager allow rounds hops visited found current ≡ ok n
  unfolding lineage_from
  lineage_from_ahead zero hops k d n visited found current r short b up far counts =
      absurd (omega arith)
  lineage_from_ahead (suc rounds) hops k d n visited found current (root _ a e s) short b itself far
        counts =
      let c = not_visited 0 visited current (root current a e s) b in
      let now : n ≡ hops = omega arith in
      let seen =
        seen_here hops found current refl (subst (λ n. (ltb 0 n || allow) ≡ true) now counts) in
      rw (c, e, s, seen) (ap ok (sym now))
  lineage_from_ahead (suc rounds) hops k d n visited found current (root _ a e s) short b
        (parent_of _ p a' m e' s' up) far counts =
      let z = same_parent l current a a' e e' in cc
  lineage_from_ahead (suc rounds) hops k d n visited found current (child _ p a m e s r) short b
        itself far counts =
      let here = child current p a m e s r in
      let c = not_visited (suc m) visited current here b in
      let now : n ≡ hops = omega arith in
      let seen =
        seen_here hops found current refl (subst (λ n. (ltb 0 n || allow) ≡ true) now counts) in
      rw (c, e, s, seen, now)
        (lineage_from_past rounds (hops + 1) m hops (suc m) (current ∷ visited) p r
          (omega (arith, short)) (further m visited current here b) here (omega arith))
  lineage_from_ahead (suc rounds) hops k d n visited found current (child _ p a m e s r) short b
        (parent_of _ q a' j e' s' up) far counts =
      let here = child current p a m e s r in
      let c = not_visited (suc m) visited current here b in
      let z = same_parent l current a a' e e' in
      let same : q ≡ p = ground arith in
      rw (c, e, s)
        (lineage_from_ahead rounds (hops + 1) m j n (current ∷ visited)
          (seen_at l agent_id manager allow current hops found) p r (omega (arith, short))
          (further m visited current here b) (subst (λ p. Above l manager p j) same up)
          (omega (arith, far)) counts)

-- The walk answers with a number of hops exactly where the agent's lineage is whole, ends within 64
-- steps, and has the manager that number of steps up, which is the agent itself only where that is
-- allowed. In every other case it refuses.
pub delegated_lineage_hops-Descends :
    (l : Ledger) (agent_id manager : String) (allow : Bool) (n : ℕ)
    → (delegated_lineage_hops l agent_id manager allow ≡ ok n → Descends l agent_id manager allow n)
      × (Descends l agent_id manager allow n
          → delegated_lineage_hops l agent_id manager allow ≡ ok n)
unfolding delegated_lineage_hops lineage_from Found Behind contains
delegated_lineage_hops-Descends l agent_id manager allow n = (
  λ h.
      let (found, (k, r, short)) =
        lineage_from_sound l agent_id manager allow 65 0 [] none agent_id n h in
      elim found [
        | inl z ↦ cc
        | inr (d, up, same, counts) ↦
            let e : d ≡ n = omega (arith, same) in
            record {
              above = subst (Above l manager agent_id) e up;
              counts = counts;
              depth = k;
              rooted = r;
              shallow = omega (arith, short);
            }
      ],
  λ d.
      lineage_from_ahead l agent_id manager allow 65 0 d.depth n n [] none agent_id d.rooted
        (omega (arith, d.shallow)) (λ v c. cc) d.above (omega arith) d.counts,
)
