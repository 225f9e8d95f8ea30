-- ===== src/CatchUp.antt =====
-- hooks/use-reader-catch-up.ts: how many articles are new since the checkpoint, the briefing on them,
-- and the button that moves the checkpoint. The calls are cut at their awaits. Instants are texts as
-- `toISOString` makes them; `to_iso` is that function.
pub mod Races
mod Tests
use urwhaturead.Prelude.{
  ℕ, suc, ◌+◌, Bool, true, false, Option, none, some, List, [], ◌∷◌, ◌++◌, map, length,
  if◌then◌else◌, nat_beq, Text, codes, trim, is_empty, join, ℤ, ◌-ℤ◌, pos,
}
use urwhaturead.Prelude.Host.{Host}
use urwhaturead.Prelude.Decimal.{decimal}
use urwhaturead.Stream.{is_nil}
use urwhaturead.Task.{normalize_model}
use urwhaturead.Task.Poller.{Notice, NoticeKind}
use urwhaturead.Task.Summary.{Reply, threw, answered}
use urwhaturead.Briefing.{FeedBriefingGenerationRequest}

abbrev default_catch_up_window_ms : ℕ
default_catch_up_window_ms = 86400000

abbrev to_iso_or : (ℤ → Text) → Text → Option ℤ → Text
to_iso_or to_iso fallback none = fallback
to_iso_or to_iso fallback (some t) = to_iso t

abbrev stored_time : Host → Option Text → Option ℤ
stored_time host none = none
stored_time host (some stored) =
    if is_empty (trim stored) then none else host.date_parse (trim stored)

-- Of the stored item and the time.
unfoldable pub initial_checkpoint : Host → (ℤ → Text) → Option Text → ℤ → Text
initial_checkpoint host to_iso stored now =
    to_iso_or to_iso (to_iso (now -ℤ pos default_catch_up_window_ms)) (stored_time host stored)

pub record FeedAnswer : Type 0 where
  pub article_ids : List ℕ
  pub total_count : Option ℕ

-- `response.meta.total_count ?? response.data.length`
abbrev pub total_of : FeedAnswer → ℕ
total_of r = elim r.total_count [ none ↦ length r.article_ids | some n ↦ n ]

pub record CatchUpState : Type 0 where
  pub checkpoint : Text
  pub count : ℕ
  pub loading : Bool
  pub error : Option Text
  pub request_sequence : ℕ
  pub stored_checkpoint : Option Text
  pub notice : Option Notice
  pub opened_briefings : ℕ

-- What a call of `refresh` holds across its await.
pub record RefreshCall : Type 0 where
  pub request_id : ℕ
  pub since : Text

pub record GenerateCall : Type 0 where
  pub ai_model : Text
  pub since : Text

unfoldable pub begin_refresh : CatchUpState → CatchUpState × RefreshCall
begin_refresh s = (
  record s { request_sequence = suc s.request_sequence; loading = true; error = none },
  record { request_id = suc s.request_sequence; since = s.checkpoint },
)

abbrev pub is_newest : RefreshCall → CatchUpState → Bool
is_newest c s = nat_beq c.request_id s.request_sequence

-- The answer, with the `finally` behind it.
unfoldable pub on_refresh_reply : RefreshCall → Reply FeedAnswer → CatchUpState → CatchUpState
on_refresh_reply c (answered r) s =
    if is_newest c s then record s { count = total_of r; loading = false } else s
on_refresh_reply c (threw message) s =
    if is_newest c s then record s { error = some message; loading = false } else s

unfoldable pub begin_generate : Text → CatchUpState → CatchUpState × GenerateCall
begin_generate ai_model s = (
  record s { loading = true; error = none },
  record { ai_model = ai_model; since = s.checkpoint },
)

abbrev failed : Text → CatchUpState → CatchUpState
failed message s = record s {
  error = some message;
  notice = some (record { kind = NoticeKind.error; text = codes "生成补课速览失败: " ++ message });
  loading = false;
}

unfoldable pub briefing_request : Host → GenerateCall → FeedAnswer → FeedBriefingGenerationRequest
briefing_request host c r = record {
  article_ids = r.article_ids;
  source_ids = [];
  scope_label = codes "补课速览 · " ++ (decimal (total_of r) ++ codes " 篇新增");
  task_key =
      codes "catch-up|"
      ++ (normalize_model host c.ai_model
          ++ (codes "|"
              ++ (c.since ++ (codes "|" ++ join (codes ",") (map decimal r.article_ids)))));
  title = codes "补课速览";
  select_on_success = false;
}

-- The answer of the feed, with the generation that it starts.
unfoldable pub on_generate_reply :
    Host
    → GenerateCall
    → Reply FeedAnswer
    → CatchUpState
    → CatchUpState × Option FeedBriefingGenerationRequest
on_generate_reply host c (answered r) s =
    if is_nil r.article_ids
    then (
      record s {
        count = total_of r;
        notice = some (record { kind = NoticeKind.info; text = codes "上次处理后没有新增文章。" });
        loading = false;
      },
      none,
    )
    else (record s { count = total_of r }, some (briefing_request host c r))
on_generate_reply host c (threw message) s = (failed message s, none)

-- `generateFeedBriefing` returns whether it succeeded, or throws.
unfoldable pub on_generated : Reply Bool → CatchUpState → CatchUpState
on_generated (answered succeeded) s = record s {
  opened_briefings = if succeeded then suc s.opened_briefings else s.opened_briefings;
  loading = false;
}
on_generated (threw message) s = failed message s

-- `now` is the present instant.
unfoldable pub mark_caught_up : Text → CatchUpState → CatchUpState
mark_caught_up now s = record s {
  stored_checkpoint = some now;
  request_sequence = suc s.request_sequence;
  checkpoint = now;
  count = 0;
  error = none;
  loading = false;
  notice = some (record { kind = NoticeKind.info; text = codes "已将当前时间标记为处理完成。" });
}
