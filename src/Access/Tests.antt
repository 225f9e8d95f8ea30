-- ===== src/Access/Tests.antt =====
-- Concrete runs of the access control.
use urwhaturead.Prelude.{◌≡◌, refl, true, false, none, some, List, [], ◌∷◌, codes, pos}
use urwhaturead.Task.Summary.{threw, answered}
use urwhaturead.Access.{leave_sources, AccessState, AppTab, ReaderView}
use urwhaturead.Access.Guard.{
  Operation, login, open_sources, logout, perform, IsGuarded, perform-IsGuarded,
}

abbrev state : AccessState
state = record {
  admin_auth_enabled = true;
  admin_authenticated = false;
  admin_session_ready = false;
  public_ai_model = [];
  active_tab = AppTab.reader;
  reader_view = ReaderView.stream;
  shows_floating_reader = false;
  stream_scroll_y = none;
  reading = record { session = none; read_article_ids = [] };
  notice = none;
}

abbrev operations : List Operation
operations =
    login (some (codes "admin")) (some (codes "x")) (answered tt)
    ∷ open_sources (pos 5)
    ∷ logout (threw [])
    ∷ open_sources (pos 6)
    ∷ []

perform-IsGuarded_example :
    IsGuarded (perform operations state)
    × (leave_sources (perform operations state) ≡ perform operations state)
perform-IsGuarded_example = perform-IsGuarded operations state refl
