-- ===== src/Task/Queue.antt =====
-- Laws of `pruneSummaryTasks` and `upsertSummaryTaskState` of lib/summary-task-utils.ts.
use urwhaturead.Prelude.{
  ℕ, ◌≤◌, ◌<◌, suc, ◌≡◌, refl, sym, ap, ◌∙◌, Bool, true, false, not, some, List, [], ◌∷◌, inl, inr,
  Bool-cases, length, take, filter, all, All-filter, All-take, all-filter_self, all-take,
  filter-of-all, take_all, length-take, length-filter, length-sort, ◌==◌, if◌then◌else◌, leb,
  leb→le, arith, Text, text_eq, ℤ, sort, Keeps, IsSorted, sort-IsSorted, by_desc-IsWeakOrder,
  IsWeakOrder-IsComparator, at_key, keep_if, HasDistinctKeys, filter-HasDistinctKeys,
  take-HasDistinctKeys, sort-HasDistinctKeys, at_key-filter, at_key-sort, has_key,
}
use urwhaturead.Prelude.Host.{Host}
use urwhaturead.Task.{
  SummaryTask, is_retained, prune_summary_tasks, upsert_summary_task_state, newest_first,
  without_key, max_summary_task_entries,
}

abbrev pub task_key : SummaryTask → Text
task_key t = t.key

pub without_key-absent :
    (key : Text) (tasks : List SummaryTask) → has_key task_key key (without_key key tasks) ≡ false
without_key-absent key [] = refl
without_key-absent key (t ∷ ts) = ground (arith, without_key-absent key ts)

pub at_key-without_key :
    (key k : Text) (tasks : List SummaryTask)
    → (key == k) ≡ false
    → at_key task_key k (without_key key tasks) ≡ at_key task_key k tasks
at_key-without_key key k [] h = refl
at_key-without_key key k (t ∷ ts) h = ground (
  arith,
  at_key-without_key key k ts h,
  text_eq.beq_iff t.key key,
  text_eq.beq_iff t.key k,
  text_eq.beq_iff key k,
)

module _ {A : Type 0} (compare : A → A → ℤ) where
  filter-IsSorted :
      (p : A → Bool) (xs : List A) → IsSorted compare xs → IsSorted compare (filter p xs)
  filter-IsSorted p [] h = tt
  filter-IsSorted p (x ∷ xs) h = elim (Bool-cases (p x)) [
    | inl e ↦ rw e (All-filter (Keeps compare x) p xs h.0, filter-IsSorted p xs h.1)
    | inr e ↦ rw e (filter-IsSorted p xs h.1)
  ]

  pub take-IsSorted : (n : ℕ) (xs : List A) → IsSorted compare xs → IsSorted compare (take n xs)
  take-IsSorted ℕ.zero xs h = tt
  take-IsSorted (suc n) [] h = tt
  take-IsSorted (suc n) (x ∷ xs) h = (All-take (Keeps compare x) n xs h.0, take-IsSorted n xs h.1)

module _ (host : Host) (now : ℤ) where
  -- Both branches of the length test are one cut.
  pub prune-eq-take :
      (tasks : List SummaryTask)
      → prune_summary_tasks host now tasks
        ≡ take max_summary_task_entries (filter (is_retained host now) tasks)
  unfolding prune_summary_tasks
  prune-eq-take tasks =
      elim (Bool-cases
        (leb (length (filter (is_retained host now) tasks)) max_summary_task_entries)) [
          | inl e ↦ rw e (sym (take_all _ _ (leb→le _ _ e)))
          | inr e ↦ rw e
        ]

  pub prune-HasDistinctKeys :
      (tasks : List SummaryTask)
      → HasDistinctKeys task_key tasks
      → HasDistinctKeys task_key (prune_summary_tasks host now tasks)
  prune-HasDistinctKeys tasks d = rw prune-eq-take (
      take-HasDistinctKeys task_key max_summary_task_entries (filter (is_retained host now) tasks)
        (filter-HasDistinctKeys task_key (is_retained host now) tasks d))

  pub length-prune :
      (tasks : List SummaryTask)
      → length (prune_summary_tasks host now tasks) ≤ max_summary_task_entries
  length-prune tasks =
      rw prune-eq-take
        (omega (arith, length-take max_summary_task_entries (filter (is_retained host now) tasks)))

  prune-retained :
      (tasks : List SummaryTask)
      → all (is_retained host now) (prune_summary_tasks host now tasks) ≡ true
  prune-retained tasks = rw prune-eq-take (
      all-take (is_retained host now) max_summary_task_entries (filter (is_retained host now) tasks)
        (all-filter_self (is_retained host now) tasks))

  -- Pruning twice at one moment is pruning once.
  prune_idempotent :
      (tasks : List SummaryTask)
      → prune_summary_tasks host now (prune_summary_tasks host now tasks)
        ≡ prune_summary_tasks host now tasks
  prune_idempotent tasks =
      prune-eq-take _
      ∙ ap (take max_summary_task_entries) (
          filter-of-all (is_retained host now) (prune_summary_tasks host now tasks)
            (prune-retained tasks))
      ∙ take_all max_summary_task_entries (prune_summary_tasks host now tasks) (length-prune tasks)

  newest_first-IsSorted :
      (tasks : List SummaryTask) → IsSorted (newest_first host) (sort (newest_first host) tasks)
  newest_first-IsSorted tasks =
      sort-IsSorted _ (IsWeakOrder-IsComparator (by_desc-IsWeakOrder _)) tasks

  module _ (previous : List SummaryTask) (task : SummaryTask) where
    abbrev merged : List SummaryTask
    merged = sort (newest_first host) (task ∷ without_key task.key previous)

    merged-HasDistinctKeys : HasDistinctKeys task_key previous → HasDistinctKeys task_key merged
    merged-HasDistinctKeys d =
        sort-HasDistinctKeys task_key (newest_first host) (task ∷ without_key task.key previous) (
          without_key-absent task.key previous,
          filter-HasDistinctKeys task_key (λ t. not (t.key == task.key)) previous d,
        )

    -- After an upsert into a queue with distinct keys the keys are distinct, at most 80 tasks are
    -- held, newest first, and each is retained: pending, or at most thirty minutes old.
    pub upsert_invariant :
        HasDistinctKeys task_key previous
        → HasDistinctKeys task_key (upsert_summary_task_state host now previous task)
          × (length (upsert_summary_task_state host now previous task) ≤ max_summary_task_entries)
          × IsSorted (newest_first host) (upsert_summary_task_state host now previous task)
          × (all (is_retained host now) (upsert_summary_task_state host now previous task) ≡ true)
    unfolding upsert_summary_task_state
    upsert_invariant d = (
      prune-HasDistinctKeys merged (merged-HasDistinctKeys d),
      length-prune merged,
      rw prune-eq-take (
          take-IsSorted (newest_first host) max_summary_task_entries
            (filter (is_retained host now) merged)
            (filter-IsSorted (newest_first host) (is_retained host now) merged
              (newest_first-IsSorted (task ∷ without_key task.key previous)))),
      prune-retained merged,
    )

    length-merged :
        length previous < max_summary_task_entries
        → length (filter (is_retained host now) merged) ≤ max_summary_task_entries
    length-merged h = omega (
      arith,
      length-filter (is_retained host now) merged,
      length-sort (newest_first host) (task ∷ without_key task.key previous),
      length-filter (λ (t : SummaryTask). not (t.key == task.key)) previous,
    )

    at_key-merged :
        (k : Text)
        → at_key task_key k (task ∷ without_key task.key previous)
          ≡ (if task.key == k then some task else at_key task_key k previous)
    at_key-merged k = elim (Bool-cases (task.key == k)) [
      | inl e ↦ rw e
      | inr e ↦ rw e (at_key-without_key task.key k previous e)
    ]

    -- With distinct keys and fewer than 80 tasks, the task under a key after an upsert is the new one
    -- at its own key and else the old one, in each case only if it is retained.
    pub upsert-at_key :
        HasDistinctKeys task_key previous
        → length previous < max_summary_task_entries
        → (k : Text)
        → at_key task_key k (upsert_summary_task_state host now previous task)
          ≡ keep_if
              (is_retained host now)
              (if task.key == k then some task else at_key task_key k previous)
    unfolding upsert_summary_task_state
    upsert-at_key d h k =
        ap (at_key task_key k)
          (prune-eq-take merged ∙ take_all max_summary_task_entries _ (length-merged h))
        ∙ at_key-filter task_key k (is_retained host now) merged (merged-HasDistinctKeys d)
        ∙ ap (keep_if (is_retained host now)) (
            at_key-sort task_key (newest_first host) k (task ∷ without_key task.key previous) (
              without_key-absent task.key previous,
              filter-HasDistinctKeys task_key (λ t. not (t.key == task.key)) previous d,
            )
            ∙ at_key-merged k)
