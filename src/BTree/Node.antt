-- ===== src/BTree/Node.antt =====
-- The nodes of `BTreeIndex` (core/btree_index.{h,cc}) over the order of the keys. The vectors `keys`
-- and `row_lists` of a node change together and are one list of entries. A read of a child or of an
-- entry that is not there, undefined in C++, is `none`.
use mathlib.Core.Option
use custom_sql_database.Prelude.{
  ℕ, zero, suc, Bool, false, Option, none, some, List, [], ◌∷◌, ◌++◌, ◌==◌, length, take, drop,
  get_elem?, if◌then◌else◌,
}

mutual
  pub data Node (K : Type 0) : Type 0 where
    node : Bool → List (K × List ℕ) → Nodes K → Node K

  pub data Nodes (K : Type 0) : Type 0 where
    nil : Nodes K
    cons : Node K → Nodes K → Nodes K

-- keys.size()
abbrev pub size : {K : Type 0} → Node K → ℕ
size (node leaf entries children) = length entries

abbrev pub min_degree : ℕ
min_degree = 16

-- 2 * kMinDegree - 1
abbrev pub max_keys : ℕ
max_keys = 31

-- vector::insert at an index.
abbrev pub insert_at : {A : Type 0} → ℕ → A → List A → List A
insert_at zero x xs = x ∷ xs
insert_at (suc i) x [] = []
insert_at (suc i) x (y ∷ xs) = y ∷ insert_at i x xs

module _ {K : Type 0} where
  -- children[i]
  abbrev pub child_at : ℕ → Nodes K → Option (Node K)
  child_at i nil = none
  child_at zero (cons c cs) = some c
  child_at (suc i) (cons c cs) = child_at i cs

  abbrev pub set_child : ℕ → Node K → Nodes K → Nodes K
  set_child i c nil = nil
  set_child zero c (cons d cs) = cons c cs
  set_child (suc i) c (cons d cs) = cons d (set_child i c cs)

  abbrev pub insert_child : ℕ → Node K → Nodes K → Nodes K
  insert_child zero c cs = cons c cs
  insert_child (suc i) c nil = nil
  insert_child (suc i) c (cons d cs) = cons d (insert_child i c cs)

  abbrev pub take_nodes : ℕ → Nodes K → Nodes K
  take_nodes zero cs = nil
  take_nodes (suc n) nil = nil
  take_nodes (suc n) (cons c cs) = cons c (take_nodes n cs)

  abbrev pub drop_nodes : ℕ → Nodes K → Nodes K
  drop_nodes zero cs = cs
  drop_nodes (suc n) nil = nil
  drop_nodes (suc n) (cons c cs) = drop_nodes n cs

  -- row_lists[i].push_back(row)
  abbrev pub push_row : ℕ → ℕ → List (K × List ℕ) → List (K × List ℕ)
  push_row i row [] = []
  push_row zero row ((key, rows) ∷ entries) = (key, rows ++ row ∷ []) ∷ entries
  push_row (suc i) row (e ∷ entries) = e ∷ push_row i row entries

  -- The left half and the right half of a full child, without its middle entry.
  abbrev pub left_half : Node K → Node K
  left_half (node leaf entries children) =
      node leaf (take 15 entries) (if leaf then children else take_nodes 16 children)

  abbrev pub right_half : Node K → Node K
  right_half (node leaf entries children) =
      node leaf (drop 16 entries) (if leaf then nil else drop_nodes 16 children)

  abbrev pub middle : Node K → Option (K × List ℕ)
  middle (node leaf entries children) = get_elem? entries 15

  abbrev pub split_at : ℕ → Node K → K × List ℕ → Bool → List (K × List ℕ) → Nodes K → Node K
  split_at i child mid leaf entries children =
      node leaf (insert_at i mid entries)
        (insert_child (suc i) (right_half child) (set_child i (left_half child) children))

  -- The parent after the split.
  unfoldable pub split_child : ℕ → Node K → Option (Node K)
  split_child i (node leaf entries children) = elim (child_at i children) [
    | none ↦ none
    | some child ↦ elim (middle child) [
      | none ↦ none
      | some mid ↦ some (split_at i child mid leaf entries children)
    ]
  ]

module _ {K : Type 0} (less eq : K → K → Bool) where
  -- The loop that starts every search: the first index whose key is not below `key`.
  unfoldable pub lower_bound : K → List (K × List ℕ) → ℕ
  lower_bound key [] = 0
  lower_bound key ((k, rows) ∷ entries) =
      let rest = lower_bound key entries in if less k key then suc rest else 0

  -- i < keys.size() && is_equal(keys[i], key)
  abbrev pub is_at : ℕ → K → List (K × List ℕ) → Bool
  is_at i key entries = elim (get_elem? entries i) [ none ↦ false | some (k, rows) ↦ eq k key ]

  -- The last call of `insert_non_full`, on children[i].
  abbrev pub into_child :
      (Node K → Option (Node K)) → ℕ → Bool → List (K × List ℕ) → Nodes K → Option (Node K)
  into_child rec i leaf entries children = elim (child_at i children) [
    | none ↦ none
    | some c ↦ Option.map (λ c'. node leaf entries (set_child i c' children)) (rec c)
  ]

  -- Behind the split of children[i].
  abbrev pub after_split : (Node K → Option (Node K)) → ℕ → K → ℕ → Node K → Option (Node K)
  after_split rec i key row (node leaf entries children) = elim (get_elem? entries i) [
    | none ↦ none
    | some (k, rows) ↦
        if less k key
        then into_child rec (suc i) leaf entries children
        else if eq k key
        then some (node leaf (push_row i row entries) children)
        else into_child rec i leaf entries children
  ]

  abbrev pub is_full_at : ℕ → Nodes K → Bool
  is_full_at i children = elim (child_at i children) [ none ↦ false | some c ↦ size c == max_keys ]

  abbrev pub and_then : Option (Node K) → (Node K → Option (Node K)) → Option (Node K)
  and_then none f = none
  and_then (some n) f = f n

  -- The calls go down one level each, so the height bounds them; `none` if the fuel runs out.
  unfoldable pub insert_non_full : ℕ → K → ℕ → Node K → Option (Node K)
  unfolding lower_bound split_child
  insert_non_full zero key row n = none
  insert_non_full (suc fuel) key row (node leaf entries children) =
      let i = lower_bound key entries in
      let rec = insert_non_full fuel key row in
      if is_at i key entries
      then some (node leaf (push_row i row entries) children)
      else if leaf
      then some (node leaf (insert_at i (key, row ∷ []) entries) children)
      else if is_full_at i children
      then and_then (split_child i (node leaf entries children)) (after_split rec i key row)
      else into_child rec i leaf entries children

  -- rows.erase(std::remove(rows.begin(), rows.end(), row), rows.end())
  abbrev pub without_row : ℕ → List ℕ → List ℕ
  without_row row [] = []
  without_row row (r ∷ rows) =
      let rest = without_row row rows in if r == row then rest else r ∷ rest

  -- The rows of entry i without `row`; an entry without rows is erased.
  abbrev pub remove_row : ℕ → ℕ → List (K × List ℕ) → List (K × List ℕ)
  remove_row i row [] = []
  remove_row zero row ((key, rows) ∷ entries) = elim (without_row row rows) [
    | [] ↦ entries
    | r ∷ rest ↦ (key, r ∷ rest) ∷ entries
  ]
  remove_row (suc i) row (e ∷ entries) = e ∷ remove_row i row entries

unfoldable mutual
  -- Without the answer, which `remove` drops.
  pub remove_from_node : {K : Type 0} → (K → K → Bool) → (K → K → Bool) → K → ℕ → Node K → Node K
  remove_from_node less eq key row (node leaf entries children) =
      let i = lower_bound less eq key entries in
      let below = node leaf entries (remove_from_child less eq i key row children) in
      if is_at less eq i key entries
      then node leaf (remove_row less eq i row entries) children
      else if leaf
      then node leaf entries children
      else below

  pub remove_from_child :
      {K : Type 0} → (K → K → Bool) → (K → K → Bool) → ℕ → K → ℕ → Nodes K → Nodes K
  remove_from_child less eq i key row nil = nil
  remove_from_child less eq zero key row (cons c cs) = cons (remove_from_node less eq key row c) cs
  remove_from_child less eq (suc i) key row (cons c cs) =
      cons c (remove_from_child less eq i key row cs)
