-- ===== src/Task/Poller/Laws.antt =====
-- What one poll reports of each task, and what it announces.
use urwhaturead.Prelude.{
  ◌≡◌, refl, ap, Bool, true, false, not, ◌&&◌, ◌||◌, Option, none, some, List, [], ◌∷◌, any, ◌==◌,
  Text, text_eq, is_empty, arith, includes, Bool-cases, inl, inr,
}
use urwhaturead.Prelude.Host.{Host}
use urwhaturead.Task.{SummaryTask, SummaryTaskStatus, positive_id, normalize_summary_task_status}
use urwhaturead.Task.Store.{mark_notified, upsert_summary_task}
use urwhaturead.Task.Summary.{CachedSummary, StatusReply, Reply, threw, answered}
use urwhaturead.Task.Poller.{
  PollResult, PollState, PollEnv, Notice, has_summary, fetch_summary, after_status, poll_task,
  show_summary, announce, done_notice, conclude, apply_result, apply_results, finish_poll,
}

abbrev pub is_succeeded : SummaryTaskStatus → Bool
is_succeeded SummaryTaskStatus.succeeded = true
is_succeeded _ = false

abbrev pub is_idle : SummaryTaskStatus → Bool
is_idle SummaryTaskStatus.idle = true
is_idle _ = false

abbrev pub is_failed : SummaryTaskStatus → Bool
is_failed SummaryTaskStatus.failed = true
is_failed _ = false

abbrev is_thrown : {A : Type 0} → Reply A → Bool
is_thrown (threw message) = true
is_thrown (answered a) = false

-- Whether a task with this status is a failure, with the answer to the call for its summary, which is
-- made only of one that has succeeded.
abbrev pub fails : Reply (Option CachedSummary) → SummaryTaskStatus → Bool
fails call SummaryTaskStatus.failed = true
fails call SummaryTaskStatus.idle = true
fails call SummaryTaskStatus.succeeded = is_thrown call
fails call _ = false

fetch_summary_lem :
    (task : SummaryTask) (now_iso updated_at : Text) (call : Reply (Option CachedSummary))
    → (is_succeeded (fetch_summary task now_iso updated_at call).status
        ≡ has_summary (fetch_summary task now_iso updated_at call).cached)
      × (is_failed (fetch_summary task now_iso updated_at call).status ≡ is_thrown call)
      × (is_idle (fetch_summary task now_iso updated_at call).status ≡ false)
unfolding fetch_summary
fetch_summary_lem task now_iso updated_at (threw message) = (refl, refl, refl)
fetch_summary_lem task now_iso updated_at (answered none) = (refl, refl, refl)
fetch_summary_lem task now_iso updated_at (answered (some c)) = ground arith

after_status_lem :
    (task : SummaryTask) (now_iso updated_at : Text) (message : Option Text)
    (call : Reply (Option CachedSummary)) (status : SummaryTaskStatus)
    → (is_succeeded (after_status task now_iso updated_at message call status).status
        ≡ has_summary (after_status task now_iso updated_at message call status).cached)
      × (is_failed (after_status task now_iso updated_at message call status).status
          ≡ fails call status)
      × (is_idle (after_status task now_iso updated_at message call status).status ≡ false)
unfolding after_status
after_status_lem task now_iso updated_at message call SummaryTaskStatus.succeeded =
    fetch_summary_lem task now_iso updated_at call
after_status_lem task now_iso updated_at message call _ = (refl, refl, refl)

-- Whether the replies say that the task has failed: it has no article, a call threw that was made, or
-- the service has lost it or reports a failure.
abbrev pub reports_failure :
    Host → SummaryTask → Reply StatusReply → Reply (Option CachedSummary) → Bool
reports_failure host task (threw message) summary_call = true
reports_failure host task (answered r) summary_call =
    not (positive_id task.article_id)
    || fails summary_call (normalize_summary_task_status host r.status)

-- Whatever the replies, a task is reported as succeeded exactly if its result carries a summary that
-- is not empty, and as failed exactly if it has no positive article id, a call that was made threw,
-- or the status that the service gives is idle (the task is lost) or failed; never as idle.
pub poll_task_lem :
    (host : Host) (task : SummaryTask) (now_iso : Text) (status_call : Reply StatusReply)
    (summary_call : Reply (Option CachedSummary))
    → (is_succeeded (poll_task host task now_iso status_call summary_call).status
        ≡ has_summary (poll_task host task now_iso status_call summary_call).cached)
      × (is_failed (poll_task host task now_iso status_call summary_call).status
          ≡ reports_failure host task status_call summary_call)
      × (is_idle (poll_task host task now_iso status_call summary_call).status ≡ false)
unfolding poll_task
poll_task_lem host task now_iso (threw message) summary_call = (refl, refl, refl)
poll_task_lem host task now_iso (answered r) summary_call =
    elim (Bool-cases (positive_id task.article_id)) [
      | inl e ↦ rw e (after_status_lem task now_iso _ r.error summary_call _)
      | inr e ↦ rw e (refl, refl, refl)
    ]

abbrev ends : SummaryTaskStatus → Option CachedSummary → Bool
ends SummaryTaskStatus.succeeded (some c) = not (is_empty c.summary)
ends SummaryTaskStatus.failed cached = true
ends _ _ = false

-- The result of a valid task that has failed, or succeeded with a summary.
abbrev pub is_final : PollResult → Bool
is_final r = positive_id r.task.article_id && ends r.status r.cached

abbrev pub is_given : Option Notice → Bool
is_given none = false
is_given (some n) = true

any-ext : {A : Type 0} (p q : A → Bool) (xs : List A) → ((x : A) → p x ≡ q x) → any p xs ≡ any q xs
any-ext p q [] h = refl
any-ext p q (x ∷ xs) h = rw (h x, any-ext p q xs h)

-- Behind a test that holds nothing else matters.
any-or :
    {A : Type 0} (b : Bool) (p q : A → Bool) (xs : List A)
    → ((x : A) → (b || p x) ≡ (b || q x))
    → (b || any p xs) ≡ (b || any q xs)
any-or true p q xs h = refl
any-or false p q xs h = any-ext p q xs h

news_bool :
    (ends_r told_r ends_q told_q same : Bool)
    → (same ≡ true → told_r ≡ told_q)
    → ((ends_r && not told_r) || (ends_q && not (told_q || (ends_r && same))))
      ≡ ((ends_r && not told_r) || (ends_q && not told_q))
news_bool ends_r told_r ends_q told_q same h = ground arith

module _ (env : PollEnv) where
  notified-show_summary :
      (r : PollResult) (c : CachedSummary) (s : PollState)
      → ((show_summary env r c s).store ≡ s.store)
        × ((show_summary env r c s).next_notice ≡ s.next_notice)
  unfolding show_summary
  notified-show_summary r c s = ground arith

  announce_lem :
      (key k : Text) (n : Notice) (s : PollState)
      → (includes (announce env key n s).store.notified k
          ≡ (includes s.store.notified k || (key == k)))
        × (is_given (announce env key n s).next_notice
            ≡ (is_given s.next_notice || not (includes s.store.notified key)))
  unfolding announce mark_notified includes
  announce_lem key k n s = ground (arith, text_eq.beq_iff key k)

  conclude_lem :
      (r : PollResult) (status : SummaryTaskStatus) (cached : Option CachedSummary) (k : Text)
      (s : PollState)
      → (includes (conclude env r status cached s).store.notified k
          ≡ (includes s.store.notified k || (ends status cached && (r.task.key == k))))
        × (is_given (conclude env r status cached s).next_notice ≡ (
            is_given s.next_notice
            || (ends status cached && not (includes s.store.notified r.task.key))))
  unfolding conclude
  conclude_lem r SummaryTaskStatus.succeeded (some c) k s = ground (
    arith,
    announce_lem r.task.key k (done_notice env r) (show_summary env r c s),
    notified-show_summary r c s,
  )
  conclude_lem r SummaryTaskStatus.succeeded none k s = ground arith
  conclude_lem r SummaryTaskStatus.failed cached k s = announce_lem r.task.key k _ s
  conclude_lem r _ cached k s = ground arith

  apply_result_lem :
      (r : PollResult) (k : Text) (s : PollState)
      → (includes (apply_result env r s).store.notified k
          ≡ (includes s.store.notified k || (is_final r && (r.task.key == k))))
        × (is_given (apply_result env r s).next_notice ≡ (
            is_given s.next_notice || (is_final r && not (includes s.store.notified r.task.key))))
  unfolding apply_result upsert_summary_task
  apply_result_lem r k s = elim (Bool-cases (positive_id r.task.article_id)) [
    | inl e ↦ rw e (conclude_lem r r.status r.cached k _)
    | inr e ↦ rw e (ground arith, ground arith)
  ]

  notified-apply_results :
      (rs : List PollResult) (k : Text) (s : PollState)
      → includes (apply_results env rs s).store.notified k
        ≡ (includes s.store.notified k || any (λ r. is_final r && (r.task.key == k)) rs)
  unfolding apply_results
  notified-apply_results [] k s = ground arith
  notified-apply_results (r ∷ rs) k s =
      ground (arith, notified-apply_results rs k (apply_result env r s), apply_result_lem r k s)

  -- The results that the state has not announced.
  abbrev pub is_news : PollState → PollResult → Bool
  is_news s r = is_final r && not (includes s.store.notified r.task.key)

  news-apply_result :
      (r q : PollResult) (s : PollState)
      → (is_news s r || is_news (apply_result env r s) q) ≡ (is_news s r || is_news s q)
  news-apply_result r q s = rw ((apply_result_lem r q.task.key s).0) (
      news_bool (is_final r) (includes s.store.notified r.task.key) (is_final q)
        (includes s.store.notified q.task.key) (r.task.key == q.task.key)
        (λ e. ap (includes s.store.notified) ((text_eq.beq_iff r.task.key q.task.key).0 e)))

  notice-apply_results :
      (rs : List PollResult) (s : PollState)
      → is_given (apply_results env rs s).next_notice
        ≡ (is_given s.next_notice || any (is_news s) rs)
  unfolding apply_results
  notice-apply_results [] s = ground arith
  notice-apply_results (r ∷ rs) s = ground (
    arith,
    notice-apply_results rs (apply_result env r s),
    (apply_result_lem r r.task.key s).1,
    any-or (is_news s r) (is_news (apply_result env r s)) (is_news s) rs
        (λ q. news-apply_result r q s),
  )

  -- A poll that is not cancelled gives a notice exactly if some task has ended whose key was not
  -- announced, and afterwards the announced keys are the old ones and those of all ended tasks.
  pub finish_poll_lem :
      (rs : List PollResult) (k : Text) (s : PollState)
      → (is_given (finish_poll env false rs s).1 ≡ any (is_news s) rs)
        × (includes (finish_poll env false rs s).0.store.notified k
            ≡ (includes s.store.notified k || any (λ r. is_final r && (r.task.key == k)) rs))
  unfolding finish_poll
  finish_poll_lem rs k s = (
    notice-apply_results rs (record s { next_notice = none }),
    notified-apply_results rs k (record s { next_notice = none }),
  )
