-- ===== src/Lock/Cycle.antt =====
-- The depth-first search of `has_cycle` in core/lock_manager.cc: what it reports is a deadlock.
use custom_sql_database.Prelude.{
  ℕ, zero, suc, ◌≡◌, ◌⊎◌, inl, inr, refl, sym, ◌∙◌, true, false, List, [], ◌∷◌, ◌==◌, arith, nat_eq,
  lookup, member, set_insert, member-set_insert, member-set_erase, Bool-cases, ==_iff, length,
}
use custom_sql_database.Lock.Manager.{
  Graph, Search, or_empty, leave, new_search, visit_all, dfs, has_cycle,
}

abbrev pub successors : Graph → ℕ → List ℕ
successors graph node = or_empty (lookup node graph)

-- `a` waits for `b`.
abbrev pub Edge : Graph → ℕ → ℕ → Type 0
Edge graph a b = member b (successors graph a) ≡ true

-- A walk of one edge or more.
pub data Walk (graph : Graph) : ℕ → ℕ → Type 0 where
  edge : {a b : ℕ} → Edge graph a b → Walk graph a b
  then' : {a b c : ℕ} → Walk graph a b → Edge graph b c → Walk graph a c

-- The node itself, or one that it waits for through others.
abbrev pub Waits : Graph → ℕ → ℕ → Type 0
Waits graph a b = (a ≡ b) ⊎ Walk graph a b

Waits-Edge : {graph : Graph} {a b c : ℕ} → Waits graph a b → Edge graph b c → Walk graph a c
Waits-Edge {graph} {c = c} (inl e) h = edge (rw e h)
Waits-Edge (inr w) h = then' w h

-- `start` waits, perhaps through others, for a transaction that waits for itself.
unfoldable pub Deadlock : Graph → ℕ → Type 0
Deadlock graph start = (v : ℕ) × Waits graph start v × Walk graph v v

-- The path of the search leads to the node.
Leads : Graph → ℕ → Search → Type 0
Leads graph node s = (v : ℕ) → member v s.visiting ≡ true → Walk graph v node

-- A search function that reports only deadlocks, and otherwise gives the path back.
record IsSound (graph : Graph) (start : ℕ) (f : ℕ → Search → Search) : Type 0 where
  reports :
      (node : ℕ) (s : Search)
      → s.found ≡ false
      → Leads graph node s
      → Waits graph start node
      → (f node s).found ≡ true
      → Deadlock graph start
  restores :
      (node : ℕ) (s : Search)
      → s.found ≡ false
      → (f node s).found ≡ false
      → (v : ℕ) → member v (f node s).visiting ≡ true
      → member v s.visiting ≡ true

module _ (graph : Graph) (start : ℕ) (f : ℕ → Search → Search) (sound : IsSound graph start f) where
  visit_all-restores :
      (nexts : List ℕ) (s : Search)
      → s.found ≡ false
      → (visit_all f nexts s).found ≡ false
      → (v : ℕ) → member v (visit_all f nexts s).visiting ≡ true
      → member v s.visiting ≡ true
  unfolding visit_all
  visit_all-restores [] s open' h v m = m
  visit_all-restores (n ∷ nexts) s open' h v m = elim (Bool-cases (f n s).found) [
    | inl stop ↦ absurd (ground arith)
    | inr go ↦
        sound.restores n s open' go v
          (visit_all-restores nexts (f n s) go (ground arith) v (ground arith))
  ]

  visit_all-reports :
      (nexts : List ℕ) (s : Search)
      → s.found ≡ false
      → ((n : ℕ) → member n nexts ≡ true → Leads graph n s × Waits graph start n)
      → (visit_all f nexts s).found ≡ true
      → Deadlock graph start
  unfolding visit_all Leads member
  visit_all-reports [] s open' ok h = absurd (cc (open', h))
  visit_all-reports (n ∷ nexts) s open' ok h =
      let (leads, waits) = ok n (ground (arith, ==_iff n n)) in
      elim (Bool-cases (f n s).found) [
        | inl stop ↦ sound.reports n s open' leads waits stop
        | inr go ↦
            visit_all-reports nexts (f n s) go
              (λ k m.
                let (l, w) = ok k (ground (arith, ==_iff n k)) in
                (λ v here. l v (sound.restores n s open' go v here), w))
              (ground arith)
      ]

abbrev enter : ℕ → Search → Search
enter node s = record s { visiting = set_insert node s.visiting }

leave-found : (node : ℕ) (s : Search) → (leave node s).found ≡ s.found
leave-found node s = ground arith

module _ (fuel : ℕ) (graph : Graph) (start : ℕ) (ih : IsSound graph start (dfs fuel graph)) where
  abbrev inside : ℕ → Search → Search
  inside node s = visit_all (dfs fuel graph) (successors graph node) (enter node s)

  -- Inside a node, the path leads to each of its successors.
  enter-Leads :
      (node : ℕ) (s : Search) (n : ℕ)
      → Leads graph node s
      → Edge graph node n
      → Leads graph n (enter node s)
  unfolding Leads
  enter-Leads node s n leads e = λ v here. elim (Bool-cases (node == v)) [
    | inl same ↦ edge (rw (← (==_iff node v).0 same) e)
    | inr other ↦ then' (leads v (ground (arith, member-set_insert node v s.visiting))) e
  ]

  dfs_new :
      (node : ℕ) (s : Search)
      → member node s.visiting ≡ false
      → member node s.visited ≡ false
      → dfs (suc fuel) graph node s ≡ leave node (inside node s)
  unfolding dfs
  dfs_new node s off new = rw (off, new)

  dfs-reports :
      (node : ℕ) (s : Search)
      → s.found ≡ false
      → Leads graph node s
      → Waits graph start node
      → (dfs (suc fuel) graph node s).found ≡ true
      → Deadlock graph start
  unfolding Leads Deadlock
  dfs-reports node s open' leads waits h = elim (Bool-cases (member node s.visiting)) [
    | inl on ↦ (node, waits, leads node on)
    | inr off ↦ elim (Bool-cases (member node s.visited)) [
      | inl seen ↦ absurd (unfold dfs in ground arith)
      | inr new ↦
          visit_all-reports graph start (dfs fuel graph) ih (successors graph node) (enter node s)
            open' (λ n e. (enter-Leads node s n leads e, inr (Waits-Edge waits e)))
            (sym (leave-found node (inside node s)) ∙ (rw (dfs_new node s off new) at h))
    ]
  ]

  dfs-restores :
      (node : ℕ) (s : Search)
      → s.found ≡ false
      → (dfs (suc fuel) graph node s).found ≡ false
      → (v : ℕ) → member v (dfs (suc fuel) graph node s).visiting ≡ true
      → member v s.visiting ≡ true
  dfs-restores node s open' h v m = elim (Bool-cases (member node s.visiting)) [
    | inl on ↦ absurd (unfold dfs in ground arith)
    | inr off ↦ elim (Bool-cases (member node s.visited)) [
      | inl seen ↦ unfold dfs in ground arith
      | inr new ↦
          let result = inside node s in
          let closed : result.found ≡ false =
            sym (leave-found node result) ∙ (rw (dfs_new node s off new) at h) in
          let left : member v (leave node result).visiting ≡ true =
            rw (dfs_new node s off new) at m in
          ground (
            arith,
            member-set_erase node v result.visiting,
            member-set_insert node v s.visiting,
            visit_all-restores graph start (dfs fuel graph) ih (successors graph node)
                (enter node s) open' closed v,
          )
    ]
  ]

dfs-IsSound : (fuel : ℕ) (graph : Graph) (start : ℕ) → IsSound graph start (dfs fuel graph)
unfolding dfs
dfs-IsSound zero graph start = record {
  reports = λ node s open' leads waits h. absurd (cc (open', h));
  restores = λ node s open' h v m. m;
}
dfs-IsSound (suc fuel) graph start = record {
  reports = dfs-reports fuel graph start (dfs-IsSound fuel graph start);
  restores = dfs-restores fuel graph start (dfs-IsSound fuel graph start);
}

-- A transaction that `has_cycle` reports waits in the graph, perhaps through others, for a
-- transaction that waits for itself.
pub has_cycle-Deadlock :
    (graph : Graph) (start : ℕ) → has_cycle graph start ≡ true → Deadlock graph start
unfolding has_cycle Leads member
has_cycle-Deadlock graph start h =
    (dfs-IsSound (suc (suc (length graph))) graph start).reports start new_search refl
      (λ v here. absurd (ground arith)) (inl refl) h
