-- ===== src/Access.antt =====
-- hooks/use-admin-access.ts, use-app-tab-actions.ts and use-reader-view-actions.ts: who may manage the
-- sources, and the changes of the tab and of the view.
pub mod Guard
mod Tests
use urwhaturead.Prelude.{
  Bool, true, false, not, ◌&&◌, ◌||◌, Option, none, some, List, [], ◌∷◌, ◌++◌, if◌then◌else◌, Text,
  codes, trim, is_empty, ℤ,
}
use urwhaturead.Task.Poller.{Notice, NoticeKind}
use urwhaturead.Task.Summary.{Reply, threw, answered}
use urwhaturead.Session.{ReadingState, close, finalize_reader_session}

pub data AppTab : Type 0 where
  reader ai sources : AppTab

pub data ReaderView : Type 0 where
  stream detail : ReaderView

pub record AdminSession : Type 0 where
  pub enabled : Bool
  pub authenticated : Bool
  pub ai_model : Option Text

pub record AccessState : Type 0 where
  pub admin_auth_enabled : Bool
  pub admin_authenticated : Bool
  pub admin_session_ready : Bool
  pub public_ai_model : Text
  pub active_tab : AppTab
  pub reader_view : ReaderView
  pub shows_floating_reader : Bool
  pub stream_scroll_y : Option ℤ
  pub reading : ReadingState
  pub notice : Option Notice

unfoldable pub can_access_management : AccessState → Bool
can_access_management s = not s.admin_auth_enabled || s.admin_authenticated

abbrev trimmed : Option Text → Text
trimmed none = []
trimmed (some model) = trim model

unfoldable pub refresh_admin_session : Reply AdminSession → AccessState → AccessState
refresh_admin_session (answered r) s = record s {
  admin_auth_enabled = r.enabled;
  admin_authenticated = r.authenticated;
  public_ai_model = trimmed r.ai_model;
  admin_session_ready = true;
}
refresh_admin_session (threw message) s = record s {
  admin_auth_enabled = true;
  admin_authenticated = false;
  public_ai_model = [];
  admin_session_ready = true;
}

abbrev say : NoticeKind → Text → AccessState → AccessState
say kind text s = record s { notice = some (record { kind = kind; text = text }) }

abbrev logged_in : Reply (Unit {0}) → AccessState → AccessState
logged_in (answered a) s =
    say NoticeKind.info (codes "管理员登录成功。") (record s { admin_authenticated = true })
logged_in (threw message) s = say NoticeKind.error (codes "管理员登录失败: " ++ message) s

abbrev with_password : Option Text → Reply (Unit {0}) → AccessState → AccessState
with_password none reply s = say NoticeKind.error (codes "管理员密码不能为空。") s
with_password (some password) reply s =
    if is_empty password then say NoticeKind.error (codes "管理员密码不能为空。") s else logged_in reply s

abbrev with_name : Option Text → Option Text → Reply (Unit {0}) → AccessState → AccessState
with_name none password reply s = s
with_name (some name) password reply s =
    if is_empty (trim name) then s else with_password password reply s

-- Of the two prompts' answers and the answer of the service.
unfoldable pub on_admin_login :
    Option Text → Option Text → Reply (Unit {0}) → AccessState → AccessState
on_admin_login = with_name

-- Whatever the service answers.
unfoldable pub on_admin_logout : Reply (Unit {0}) → AccessState → AccessState
on_admin_logout reply s =
    say NoticeKind.info (codes "已退出管理权限。") (record s { admin_authenticated = false })

abbrev is_sources : AppTab → Bool
is_sources sources = true
is_sources _ = false

-- The effect that leaves the tab of the sources without access.
unfoldable pub leave_sources : AccessState → AccessState
unfolding can_access_management
leave_sources s =
    if can_access_management s || not (is_sources s.active_tab)
    then s
    else record s { active_tab = reader; reader_view = stream; shows_floating_reader = false }

abbrev show_tab : ℤ → AppTab → AccessState → AccessState
show_tab now tab s = record s {
  reading = finalize_reader_session now close s.reading;
  active_tab = tab;
  reader_view = stream;
  shows_floating_reader = false;
}

unfoldable pub on_open_reader_tab : ℤ → AccessState → AccessState
on_open_reader_tab now = show_tab now reader

unfoldable pub on_open_ai_tab : ℤ → AccessState → AccessState
on_open_ai_tab now = show_tab now ai

unfoldable pub on_open_sources_tab : ℤ → AccessState → AccessState
unfolding can_access_management
on_open_sources_tab now s = if can_access_management s then show_tab now sources s else s

unfoldable pub open_immersive_reader : ℤ → AccessState → AccessState
open_immersive_reader scroll_y s = record s {
  stream_scroll_y = some scroll_y;
  reader_view = detail;
  shows_floating_reader = false;
}

-- With the offset that the page is scrolled to, if any.
unfoldable pub return_to_reader_stream : ℤ → AccessState → AccessState × Option ℤ
return_to_reader_stream now s = (
  record s {
    reading = finalize_reader_session now close s.reading;
    reader_view = stream;
    shows_floating_reader = false;
  },
  s.stream_scroll_y,
)
