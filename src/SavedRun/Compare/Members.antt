-- ===== src/SavedRun/Compare/Members.antt =====
-- Which identifiers the lists of `compare_saved_runs` in src/mcp_behaviour_guard/baseline.py hold.
use mcp_behaviour_guard.Prelude.{
  String, Bool, true, false, not, ◌≡◌, refl, ◌&&◌, List, [], ◌∷◌, arith, contains, is_empty,
  text_leb, ◌∙◌, Option-cases, inl, inr,
}
use mcp_behaviour_guard.SavedRun.Finding.{SavedFinding, Status, find, ids}
use mcp_behaviour_guard.SavedRun.Inventory.{difference, intersection, sorted_names}
use mcp_behaviour_guard.SavedRun.Compare.{
  where_both, transition, on_both, is_comparable, common_ids, moved,
}
use mcp_behaviour_guard.Prelude.Members.{contains-order_by, contains-fetch_all, contains-find}
use mcp_behaviour_guard.SavedRun.Comparability.{ComparisonState}
use mcp_behaviour_guard.Prelude.Table.{fetch_all}

pub contains-difference :
    (a b : List String) (i : String)
    → contains (difference a b) i ≡ (not (contains b i) && contains a i)
unfolding difference
contains-difference a b i =
    contains-order_by text_leb (fetch_all (λ x. not (contains b x)) a) i
    ∙ contains-fetch_all (λ x. not (contains b x)) a i

pub contains-intersection :
    (a b : List String) (i : String)
    → contains (intersection a b) i ≡ (contains b i && contains a i)
unfolding intersection
contains-intersection a b i =
    contains-order_by text_leb (fetch_all (contains b) a) i ∙ contains-fetch_all (contains b) a i

pub is_empty-contains : (xs : List String) (i : String) → is_empty xs ≡ true → contains xs i ≡ false
is_empty-contains [] i h = refl
is_empty-contains (x ∷ xs) i h = cc

module _ (reference candidate : List SavedFinding) where
  -- A list over the common identifiers holds those whose two findings pass the test.
  pub contains-where_both :
      (test : SavedFinding → SavedFinding → Bool) (i : String)
      → contains (where_both reference candidate test) i
        ≡ on_both test (find i reference) (find i candidate)
  unfolding where_both
  contains-where_both test i =
      contains-fetch_all (λ k. on_both test (find k reference) (find k candidate))
        (common_ids reference candidate) i
      ∙ elim (Option-cases (find i reference)) [
        | inl e ↦ rw e
        | inr (r, e) ↦ elim (Option-cases (find i candidate)) [
          | inl f ↦ rw (e, f)
          | inr (c, f) ↦
              rw
                (
                  contains-intersection (ids reference) (ids candidate) i,
                  contains-find (λ x. x.test_id) i reference e,
                  contains-find (λ x. x.test_id) i candidate f,
                )
                (ground arith)
        ]
      ]

  pub contains-sorted_where_both :
      (test : SavedFinding → SavedFinding → Bool) (i : String)
      → contains (sorted_names (where_both reference candidate test)) i
        ≡ on_both test (find i reference) (find i candidate)
  unfolding sorted_names
  contains-sorted_where_both test i =
      contains-order_by text_leb (where_both reference candidate test) i
      ∙ contains-where_both test i

-- Each of the lists new_failures, fixed_failures, persistent_failures, new_errors and
-- resolved_errors holds exactly the identifiers of both runs whose statuses are its two, and none
-- at all unless the runs are comparable.
pub contains-transition :
    (reference candidate : List SavedFinding) (state : ComparisonState) (before after : Status)
    (i : String)
    → contains (transition reference candidate state before after) i ≡ (
        is_comparable state
        && on_both (moved reference candidate before after) (find i reference) (find i candidate))
unfolding transition
contains-transition reference candidate state before after i =
    contains-sorted_where_both reference candidate
      (λ r c. is_comparable state && moved reference candidate before after r c) i
    ∙ ground arith
