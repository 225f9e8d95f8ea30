-- ===== src/Task/Keys.antt =====
-- `buildSummaryTaskKey` of lib/summary-task-utils.ts names a task by article and model.
use urwhaturead.Prelude.{
  ℕ, ◌≡◌, refl, sym, ap, ◌∙◌, true, [], ◌∷◌, ◌++◌, All, arith, Text, codes, nat_beq, if◌then◌else◌,
  ◌↔◌, text_eq, text_beq_iff,
}
use urwhaturead.Prelude.Host.{Host}
use urwhaturead.Prelude.Decimal.{decimal, IsDigit, decimal-digits, decimal-injective}
use urwhaturead.Task.{normalize_model, build_summary_task_key, is_same_model}

-- The text before the first bar, and the text after it.
before_bar : Text → Text
before_bar [] = []
before_bar (c ∷ s) = if nat_beq c b'|' then [] else c ∷ before_bar s

after_bar : Text → Text
after_bar [] = []
after_bar (c ∷ s) = if nat_beq c b'|' then s else after_bar s

before_bar-digits : (ds rest : Text) → All IsDigit ds → before_bar (ds ++ b'|' ∷ rest) ≡ ds
unfolding before_bar
before_bar-digits [] rest h = refl
before_bar-digits (d ∷ ds) rest h = ground (arith, before_bar-digits ds rest h.1, h.0.1)

after_bar-digits : (ds rest : Text) → All IsDigit ds → after_bar (ds ++ b'|' ∷ rest) ≡ rest
unfolding after_bar
after_bar-digits [] rest h = refl
after_bar-digits (d ∷ ds) rest h = ground (arith, after_bar-digits ds rest h.1, h.0.1)

before_bar-build :
    (host : Host) (id : ℕ) (model : Text)
    → before_bar (build_summary_task_key host id model) ≡ decimal id
unfolding build_summary_task_key
before_bar-build host id model = before_bar-digits (decimal id) _ (decimal-digits id)

after_bar-build :
    (host : Host) (id : ℕ) (model : Text)
    → after_bar (build_summary_task_key host id model) ≡ normalize_model host model
unfolding build_summary_task_key
after_bar-build host id model = after_bar-digits (decimal id) _ (decimal-digits id)

-- Two keys agree exactly if the article ids are equal and `isSameModel` accepts the models.
pub build_summary_task_key-eq :
    (host : Host) (id other : ℕ) (model other_model : Text)
    → (build_summary_task_key host id model ≡ build_summary_task_key host other other_model)
      ↔ ((id ≡ other) × (is_same_model host model other_model ≡ true))
unfolding is_same_model
build_summary_task_key-eq host id other model other_model = (
  (λ h. (
    decimal-injective id other (
        sym (before_bar-build host id model)
        ∙ ap before_bar h
        ∙ before_bar-build host other other_model),
    (text_beq_iff _ _).1 (
        sym (after_bar-build host id model)
        ∙ ap after_bar h
        ∙ after_bar-build host other other_model),
  )),
  λ h. rw h.0 (
      unfold build_summary_task_key in
      ap (λ m. decimal other ++ (codes "|" ++ m)) ((text_beq_iff _ _).0 h.1)),
)
