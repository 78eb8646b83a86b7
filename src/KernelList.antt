-- ===== src/KernelList.antt =====
-- lib/kernel/list.c of CS439/Project1 (the same functions in Project2 to Project4): the operations on
-- whole lists. A list is the sequence of its elements from front to back, a position in it is the
-- sequence that is left; `less` is the caller's comparison. `none` is a failed ASSERT.
pub mod Order
pub mod Insert
pub mod Merge
pub mod Sort
pub mod Max
pub mod Queue
mod Examples
use mathlib.Core.List.{reverse}
use utcs.Prelude.{
  ℕ, zero, suc, ◌+◌, Bool, true, false, not, ◌&&◌, List, [], ◌∷◌, ◌++◌, Option, none, some, ltb,
  if◌then◌else◌, length, ◌>>=◌, ◌>>◌, check,
}

module _ {ℓ} {A : Type ℓ} where
  -- list_push_back
  pub push_back : List A → A → List A
  push_back xs x = xs ++ x ∷ []

  -- list_pop_front
  abbrev pub pop_front : List A → Option (A × List A)
  pop_front [] = none
  pop_front (x ∷ xs) = some (x, xs)

  -- list_front
  abbrev pub front : List A → Option A
  front [] = none
  front (x ∷ xs) = some x

  -- list_empty
  abbrev pub is_empty : List A → Bool
  is_empty [] = true
  is_empty (x ∷ xs) = false

  module _ (less : A → A → Bool) where
    -- list_insert_ordered
    unfoldable pub insert_ordered : List A → (elem : A) → List A
    insert_ordered [] elem = elem ∷ []
    insert_ordered (e ∷ rest) elem =
        let further = e ∷ insert_ordered rest elem in
        if less elem e then elem ∷ e ∷ rest else further

    -- is_sorted, from the element behind `a` on
    pub is_sorted_from : (a : A) → List A → Bool
    is_sorted_from a [] = true
    is_sorted_from a (b ∷ rest) = not (less b a) && is_sorted_from b rest

    pub is_sorted : List A → Bool
    unfolding is_sorted_from
    is_sorted [] = true
    is_sorted (a ∷ rest) = is_sorted_from a rest

    -- find_end_of_run, us the run and what follows it
    pub find_run : (a : A) → List A → List A × List A
    find_run a [] = (a ∷ [], [])
    find_run a (b ∷ rest) =
        let further = find_run b rest in
        if less b a then (a ∷ [], b ∷ rest) else (a ∷ further.0, further.1)

    -- The loop of inplace_merge, on A0 to A1B0 and A1B0 to B1.
    pub merge_runs : List A → List A → List A
    merge_runs [] vs = vs
    merge_runs (a ∷ us) [] = a ∷ us
    merge_runs (a ∷ us) (b ∷ vs) =
        let keep = a ∷ merge_runs us (b ∷ vs) in
        let splice = b ∷ merge_runs (a ∷ us) vs in if not (less b a) then keep else splice

    -- inplace_merge
    pub inplace_merge : List A → List A → Option (List A)
    unfolding is_sorted merge_runs
    inplace_merge us vs = check (is_sorted us) >> check (is_sorted vs) >> some (merge_runs us vs)

    -- One pass of list_sort: the list after it and `output_run_cnt`. Each round takes a run from the
    -- list, which is not empty.
    pub sort_pass : (fuel : ℕ) → List A → Option (List A × ℕ)
    unfolding find_run inplace_merge
    sort_pass fuel [] = some ([], 0)
    sort_pass zero (x ∷ xs) = none
    sort_pass (suc fuel) (x ∷ xs) =
        let first = find_run x xs in
        elim first.1 [
          | [] ↦ some (first.0, 1)
          | y ∷ ys ↦ do
            let second = find_run y ys
            merged ← inplace_merge first.0 second.0
            (out, output_run_cnt) ← sort_pass fuel second.1
            some (merged ++ out, output_run_cnt + 1)
        ]

    -- `do { ... } while (output_run_cnt > 1);`
    pub sort_loop : (fuel : ℕ) → List A → Option (List A)
    unfolding sort_pass
    sort_loop zero xs = none
    sort_loop (suc fuel) xs = do
      (ys, output_run_cnt) ← sort_pass (length xs) xs
      let again = sort_loop fuel ys
      if ltb 1 output_run_cnt then again else some ys

    -- list_sort
    pub sort : List A → Option (List A)
    unfolding sort_loop is_sorted
    sort xs = do ys ← sort_loop (length xs + 1) xs; check (is_sorted ys); some ys

    -- list_max, for a list that is not empty: `max` so far and the elements behind it
    pub max_from : (max : A) → List A → A
    max_from max [] = max
    max_from max (e ∷ rest) = max_from (if less max e then e else max) rest

    -- list_min
    pub min_from : (min : A) → List A → A
    min_from min [] = min
    min_from min (e ∷ rest) = min_from (if less e min then e else min) rest

    -- list_unique from `elem` on: what stays, and what goes to `duplicates`
    pub unique_from : (elem : A) → List A → List A × List A
    unique_from elem [] = (elem ∷ [], [])
    unique_from elem (next ∷ rest) =
        let same = unique_from elem rest in
        let other = unique_from next rest in
        if not (less elem next) && not (less next elem)
        then (same.0, next ∷ same.1)
        else (elem ∷ other.0, other.1)
