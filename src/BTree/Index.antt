-- ===== src/BTree/Index.antt =====
-- `BTreeIndex` of core/btree_index.{h,cc}: the index over the keys of core/index_key.cc. The state is
-- `root_`, `none` for the null pointer.
use mathlib.Core.Option
use custom_sql_database.Prelude.{
  ℕ, suc, Bool, true, false, not, ◌&&◌, ◌||◌, Option, none, some, List, [], ◌∷◌, ◌==◌,
  if◌then◌else◌,
}
use custom_sql_database.Types.Compare.{Floats, value_less}
use custom_sql_database.IndexKey.{IndexKey, has_null, starts_with, key_eq, key_less}
use custom_sql_database.BTree.Node.{
  Node, node, nil, cons, size, max_keys, split_child, insert_non_full, remove_from_node,
}
use custom_sql_database.BTree.Search.{collect_equal, Visit, takes, passes_over, stops, scan, height}

abbrev pub Root : Type 0
Root = Option (Node IndexKey)

abbrev pub is_empty : IndexKey → Bool
is_empty [] = true
is_empty (v ∷ vs) = false

-- Keys that the index leaves out.
unfoldable pub is_skipped : IndexKey → Bool
unfolding has_null
is_skipped key = has_null key || is_empty key

abbrev pub new_node : Node IndexKey
new_node = node true [] nil

abbrev pub ensure_root : Root → Node IndexKey
ensure_root none = new_node
ensure_root (some n) = n

module _ (fl : Floats) where
  abbrev insert_below : IndexKey → ℕ → Node IndexKey → Option (Node IndexKey)
  insert_below key row n = insert_non_full (key_less fl) (key_eq fl) (suc (height n)) key row n

  -- A full root gets a new root above it, which is split.
  abbrev insert_into : IndexKey → ℕ → Node IndexKey → Option (Node IndexKey)
  insert_into key row root =
      if size root == max_keys
      then elim (split_child 0 (node false [] (cons root nil))) [
        | none ↦ none
        | some root' ↦ insert_below key row root'
      ]
      else insert_below key row root

  -- `none` would be a read outside a node.
  unfoldable pub insert : IndexKey → ℕ → Root → Option Root
  unfolding is_skipped
  insert key row root =
      if is_skipped key then some root else Option.map some (insert_into key row (ensure_root root))

  -- The two adjustments of the root behind a removal.
  abbrev pub shrink_root : Node IndexKey → Root
  shrink_root (node true [] children) = none
  shrink_root (node false [] (cons (node true [] children) nil)) = none
  shrink_root (node false [] (cons child nil)) = some child
  shrink_root root = some root

  unfoldable pub remove : IndexKey → ℕ → Root → Root
  unfolding is_skipped
  remove key row none = none
  remove key row (some root) =
      if is_skipped key
      then some root
      else shrink_root (remove_from_node (key_less fl) (key_eq fl) key row root)

  unfoldable pub find_equal : IndexKey → Root → List ℕ
  unfolding is_skipped
  find_equal key none = []
  find_equal key (some root) =
      if is_skipped key then [] else collect_equal (key_less fl) (key_eq fl) key root

  unfoldable pub passes_lower : IndexKey → Option IndexKey → Bool → Bool
  passes_lower key none inclusive = true
  passes_lower key (some lower) true = not (key_less fl key lower)
  passes_lower key (some lower) false = key_less fl lower key

  unfoldable pub passes_upper : IndexKey → Option IndexKey → Bool → Bool
  passes_upper key none inclusive = true
  passes_upper key (some upper) true = not (key_less fl upper key)
  passes_upper key (some upper) false = key_less fl key upper

  -- upper.has_value() && is_less(*upper, key)
  abbrev pub is_beyond : Option IndexKey → IndexKey → Bool
  is_beyond none key = false
  is_beyond (some upper) key = key_less fl upper key

  unfoldable pub visit_range : Option IndexKey → Bool → Option IndexKey → Bool → IndexKey → Visit
  unfolding passes_lower passes_upper
  visit_range lower lower_inclusive upper upper_inclusive key =
      if passes_lower key lower lower_inclusive && passes_upper key upper upper_inclusive
      then takes
      else if is_beyond upper key
      then stops
      else passes_over

  unfoldable pub find_range : Option IndexKey → Bool → Option IndexKey → Bool → Root → List ℕ
  unfolding visit_range
  find_range lower lower_inclusive upper upper_inclusive none = []
  find_range lower lower_inclusive upper upper_inclusive (some root) =
      scan (visit_range lower lower_inclusive upper upper_inclusive) root

  -- The inner loop of `collect_prefix`: the first components that differ are above the prefix.
  unfoldable pub is_exceeded : IndexKey → IndexKey → Bool
  is_exceeded (p ∷ prefix) (k ∷ key) =
      let rest = is_exceeded prefix key in
      if value_less fl p k then true else if value_less fl k p then false else rest
  is_exceeded _ _ = false

  unfoldable pub visit_prefix : IndexKey → IndexKey → Visit
  unfolding is_exceeded
  visit_prefix prefix key =
      if starts_with fl key prefix
      then takes
      else if key_less fl prefix key && is_exceeded prefix key
      then stops
      else passes_over

  unfoldable pub find_prefix : IndexKey → Root → List ℕ
  unfolding visit_prefix is_skipped
  find_prefix prefix none = []
  find_prefix prefix (some root) = if is_skipped prefix then [] else scan (visit_prefix prefix) root
