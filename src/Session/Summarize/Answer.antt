-- ===== src/Session/Summarize/Answer.antt =====
-- What the answer to a request for a summary does.
use urwhaturead.Prelude.{
  ◌≡◌, refl, Bool, false, not, ◌&&◌, ◌==◌, if◌then◌else◌, Text, text_eq, includes, includes-without,
  Bool-cases, inl, inr,
}
use urwhaturead.Task.Store.{upsert_summary_task}
use urwhaturead.Task.Summary.{Reply, threw, answered}
use urwhaturead.Session.Summarize.{
  SummaryAnswer, ready, job, Workspace, SummarizeEnv, SummarizeCall, is_newest, on_failed, on_ready,
  job_key, on_started, has_failed, on_answer, on_summarize_reply,
}

module _ (env : SummarizeEnv) (c : SummarizeCall) where
  -- Whether the answer starts a job under the key.
  abbrev pub starts : Reply SummaryAnswer → Text → Bool
  starts (threw message) key = false
  starts (answered (ready summary)) key = false
  starts (answered (job r)) key = not (has_failed env r) && (job_key env c r == key)

  IsHandled : Reply SummaryAnswer → Text → Workspace → Workspace → Type 0
  IsHandled reply key s after =
      (after.reader.loading_article_summary ≡ false)
      × (includes after.store.notified key
          ≡ (not (starts reply key) && includes s.store.notified key))

  on_answer_lem :
      (reply : Reply SummaryAnswer) (key : Text) (s : Workspace)
      → IsHandled reply key s (on_answer env c reply s)
  unfolding IsHandled on_failed on_ready on_started upsert_summary_task
  on_answer_lem (threw message) key s = (refl, refl)
  on_answer_lem (answered (ready summary)) key s = (refl, refl)
  on_answer_lem (answered (job r)) key s = elim (Bool-cases (has_failed env r)) [
    | inl e ↦ rw e (refl, refl)
    | inr e ↦ rw e (refl, includes-without (job_key env c r) key s.store.notified)
  ]

  -- The answer to the newest request ends the loading, and of the announced keys it takes out the
  -- key of a job that it starts, and no other; an answer to an older request changes nothing of the
  -- reader and of the queue.
  pub on_summarize_reply_lem :
      (reply : Reply SummaryAnswer) (key : Text) (s : Workspace)
      → ((on_summarize_reply env c reply s).reader.loading_article_summary
          ≡ (not (is_newest c s) && s.reader.loading_article_summary))
        × (includes (on_summarize_reply env c reply s).store.notified key
            ≡ (not (is_newest c s && starts reply key) && includes s.store.notified key))
        × ((if is_newest c s then s else on_summarize_reply env c reply s) ≡ s)
  unfolding on_summarize_reply
  on_summarize_reply_lem reply key s = elim (Bool-cases (is_newest c s)) [
    | inl e ↦
        let handled : IsHandled reply key s (on_answer env c reply s) = on_answer_lem reply key s in
        rw e (unfold IsHandled in (handled.0, handled.1, refl))
    | inr e ↦ rw e (refl, refl, refl)
  ]
