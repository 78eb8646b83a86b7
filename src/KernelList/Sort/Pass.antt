-- ===== src/KernelList/Sort/Pass.antt =====
-- One pass of list_sort: adjacent runs are merged in pairs.
use mathlib.Core.List.{Perm, append_assoc, append-nil}
use mathlib.Core.List.Perm
use utcs.Prelude.{
  ℕ, zero, suc, ◌+◌, ◌*◌, ◌≤◌, ◌≡◌, refl, sym, ap, ◌∙◌, subst, Bool, true, List, [], ◌∷◌, ◌++◌,
  some, length, arith,
}
use utcs.KernelList.{sort_pass, find_run, is_sorted, merge_runs}
use utcs.KernelList.Order.{IsWeakOrder, tied, tied-append}
use utcs.KernelList.Merge.{
  inplace_merge_lem, is_sorted-IsSorted, IsSorted-is_sorted, merge_runs-IsSorted, merge_runs-perm,
  merge_runs-tied,
}
use utcs.KernelList.Sort.Runs.{
  runs, runs-nil, runs-append, find_run-is_sorted, find_run-append, runs-find_run, find_run-shorter,
}

pub record PassDone {ℓ} {A : Type ℓ} (less : A → A → Bool) (fuel : ℕ) (xs out : List A) (n : ℕ)
    : Type ℓ where
  pub ran : sort_pass less fuel xs ≡ some (out, n)
  pub perm : Perm out xs
  pub stable : (k : A) → tied less k out ≡ tied less k xs
  pub fewer : runs less out ≤ n
  pub halved : 2 * n ≤ runs less xs + 1

module _ {ℓ} {A : Type ℓ} {less : A → A → Bool} (w : IsWeakOrder less) where
  -- The rest of the list is one run.
  last_run :
      (fuel : ℕ) (x : A) (xs run : List A)
      → find_run less x xs ≡ (run, [])
      → PassDone less (suc fuel) (x ∷ xs) run 1
  unfolding sort_pass
  last_run fuel x xs run e =
      let whole : run ≡ x ∷ xs = sym (append-nil run) ∙ (rw e at (find_run-append less x xs)) in
      let one : runs less (x ∷ xs) ≡ 1 + runs less [] = rw e at (runs-find_run less x xs) in
      record {
        ran = rw (e, sort_pass) (rw e);
        perm = subst (λ (l : List A). Perm run l) whole (Perm.refl run);
        stable = λ k. ap (tied less k) whole;
        fewer =
            subst (λ (l : List A). runs less l ≤ 1) (sym whole) (omega (arith, one, runs-nil less));
        halved = omega (arith, one, runs-nil less);
      }

  merged_tied :
      (k : A) (us vs rest out : List A)
      → is_sorted less us ≡ true
      → tied less k out ≡ tied less k rest
      → tied less k (merge_runs less us vs ++ out) ≡ tied less k (us ++ (vs ++ rest))
  merged_tied k us vs rest out p e =
      simp
        (tied-append less, merge_runs-tied w k us vs (is_sorted-IsSorted w us p), e, append_assoc)

  merged_perm :
      (us vs rest out : List A)
      → Perm out rest
      → Perm (merge_runs less us vs ++ out) (us ++ (vs ++ rest))
  merged_perm us vs rest out p =
      subst (Perm (merge_runs less us vs ++ out)) (append_assoc us vs rest)
        (Perm.append (merge_runs-perm less us vs) p)

  two_runs_ran :
      (fuel : ℕ) (x y : A) (xs ys run out : List A) (n : ℕ)
      → find_run less x xs ≡ (run, y ∷ ys)
      → is_sorted less run ≡ true
      → sort_pass less fuel (find_run less y ys).1 ≡ some (out, n)
      → sort_pass less (suc fuel) (x ∷ xs)
        ≡ some (merge_runs less run (find_run less y ys).0 ++ out, n + 1)
  unfolding sort_pass
  two_runs_ran fuel x y xs ys run out n e s ran =
      rw (e, sort_pass)
        (rw (
          e,
          inplace_merge_lem less run (find_run less y ys).0 s (find_run-is_sorted less y ys),
          ran,
        ))

  -- Two runs are merged, and the pass goes on behind them.
  two_runs :
      (fuel : ℕ) (x y : A) (xs ys run out : List A) (n : ℕ)
      → find_run less x xs ≡ (run, y ∷ ys)
      → PassDone less fuel (find_run less y ys).1 out n
      → PassDone less
          (suc fuel)
          (x ∷ xs)
          (merge_runs less run (find_run less y ys).0 ++ out)
          (n + 1)
  two_runs fuel x y xs ys run out n e d =
      let second = find_run less y ys in
      let s1 : is_sorted less run ≡ true = rw e at (find_run-is_sorted less x xs) in
      let s2 = find_run-is_sorted less y ys in
      let whole : run ++ (second.0 ++ second.1) ≡ x ∷ xs =
        ap (λ (l : List A). run ++ l) (find_run-append less y ys)
        ∙ (rw e at (find_run-append less x xs)) in
      let merged : is_sorted less (merge_runs less run second.0) ≡ true =
        IsSorted-is_sorted less (merge_runs less run second.0) (
          merge_runs-IsSorted w run second.0 (is_sorted-IsSorted w run s1)
            (is_sorted-IsSorted w second.0 s2)) in
      let one : runs less (x ∷ xs) ≡ 1 + runs less (y ∷ ys) = rw e at (runs-find_run less x xs) in
      record {
        ran = two_runs_ran fuel x y xs ys run out n e s1 d.ran;
        perm =
            subst (Perm (merge_runs less run second.0 ++ out)) whole
              (merged_perm run second.0 second.1 out d.perm);
        stable =
            λ k. merged_tied k run second.0 second.1 out s1 (d.stable k) ∙ ap (tied less k) whole;
        fewer = omega (arith, runs-append less (merge_runs less run second.0) out merged, d.fewer);
        halved = omega (arith, one, runs-find_run less y ys, d.halved);
      }

  pass_from :
      (fuel : ℕ) (x : A) (xs rest : List A)
      → (find_run less x xs).1 ≡ rest
      → length (find_run less x xs).1 ≤ length xs
      → length (x ∷ xs) ≤ suc fuel
      → ((ys : List A) → length ys ≤ fuel → (out : List A) × (n : ℕ) × PassDone less fuel ys out n)
      → (out : List A) × (n : ℕ) × PassDone less (suc fuel) (x ∷ xs) out n
  pass_from fuel x xs [] e short h rec =
      let run = (find_run less x xs).0 in (run, 1, last_run fuel x xs run (λ i. (run, e i)))
  pass_from fuel x xs (y ∷ ys) e short h rec =
      let run = (find_run less x xs).0 in
      let second = find_run less y ys in
      let (out, n, d) = rec second.1 (omega (arith, ap length e, find_run-shorter less y ys)) in
      (
        merge_runs less run second.0 ++ out,
        n + 1,
        two_runs fuel x y xs ys run out n (λ i. (run, e i)) d,
      )

  -- A pass over a list that is no longer than its fuel ends.
  pub sort_pass_lem :
      (fuel : ℕ) (xs : List A)
      → length xs ≤ fuel
      → (out : List A) × (n : ℕ) × PassDone less fuel xs out n
  unfolding sort_pass
  sort_pass_lem fuel [] h = (
    [],
    0,
    record {
      ran = refl;
      perm = Perm.refl [];
      stable = λ k. refl;
      fewer = omega (arith, runs-nil less);
      halved = omega arith;
    },
  )
  sort_pass_lem zero (x ∷ xs) h = absurd (omega arith)
  sort_pass_lem (suc fuel) (x ∷ xs) h =
      pass_from fuel x xs (find_run less x xs).1 refl (find_run-shorter less x xs) h
        (λ ys k. sort_pass_lem fuel ys k)
