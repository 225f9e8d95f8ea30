-- ===== src/Access/Guard.antt =====
-- The tab of the sources is shown only to those who may manage them.
use urwhaturead.Prelude.{
  ◌≡◌, refl, Bool, true, false, not, ◌||◌, Option, some, none, List, [], ◌∷◌, if◌then◌else◌,
  Bool-cases, inl, inr, Text, ℤ, arith,
}
use urwhaturead.Task.Summary.{Reply, threw, answered}
use urwhaturead.Access.{
  AccessState, AdminSession, can_access_management, refresh_admin_session, on_admin_login,
  on_admin_logout, leave_sources, on_open_reader_tab, on_open_ai_tab, on_open_sources_tab,
  open_immersive_reader, return_to_reader_stream, is_sources,
}

pub data Operation : Type 0 where
  refresh_session : Reply AdminSession → Operation
  login : Option Text → Option Text → Reply (Unit {0}) → Operation
  logout : Reply (Unit {0}) → Operation
  open_reader open_ai open_sources immerse return : ℤ → Operation

abbrev act : Operation → AccessState → AccessState
act (refresh_session r) s = refresh_admin_session r s
act (login name password r) s = on_admin_login name password r s
act (logout r) s = on_admin_logout r s
act (open_reader now) s = on_open_reader_tab now s
act (open_ai now) s = on_open_ai_tab now s
act (open_sources now) s = on_open_sources_tab now s
act (immerse y) s = open_immersive_reader y s
act (return now) s = (return_to_reader_stream now s).0

-- Whether the operation can take away the right to manage the sources.
abbrev takes_access : Operation → Bool
takes_access (refresh_session r) = true
takes_access (logout r) = true
takes_access _ = false

-- The operations, with the effect behind those only that can take away the right to manage the sources.
pub perform : List Operation → AccessState → AccessState
perform [] s = s
perform (o ∷ operations) s =
    perform operations (if takes_access o then leave_sources (act o s) else act o s)

-- The tab of the sources is left if there is no access.
abbrev pub IsGuarded : AccessState → Type 0
IsGuarded s = (not (is_sources s.active_tab) || can_access_management s) ≡ true

leave_sources-IsGuarded : (s : AccessState) → IsGuarded (leave_sources s)
unfolding leave_sources can_access_management
leave_sources-IsGuarded s = ground arith

leave_sources_idle : (s : AccessState) → IsGuarded s → leave_sources s ≡ s
unfolding leave_sources
leave_sources_idle s h = ground (arith, h)

login-IsGuarded :
    (name password : Option Text) (r : Reply (Unit {0})) (s : AccessState)
    → IsGuarded s
    → IsGuarded (on_admin_login name password r s)
unfolding on_admin_login can_access_management
login-IsGuarded none password r s h = h
login-IsGuarded (some name) none r s h = ground (arith, h)
login-IsGuarded (some name) (some password) (threw message) s h = ground (arith, h)
login-IsGuarded (some name) (some password) (answered a) s h = ground (arith, h)

-- By themselves a login and the handlers of the tabs and of the view keep the guard.
act-IsGuarded :
    (o : Operation) (s : AccessState) → takes_access o ≡ false → IsGuarded s → IsGuarded (act o s)
unfolding on_open_reader_tab on_open_ai_tab on_open_sources_tab open_immersive_reader
    return_to_reader_stream can_access_management
act-IsGuarded (refresh_session r) s e h = cc
act-IsGuarded (login name password r) s e h = login-IsGuarded name password r s h
act-IsGuarded (logout r) s e h = cc
act-IsGuarded (open_reader now) s e h = refl
act-IsGuarded (open_ai now) s e h = refl
act-IsGuarded (open_sources now) s e h = ground arith
act-IsGuarded (immerse y) s e h = h
act-IsGuarded (return now) s e h = h

settled-IsGuarded :
    (o : Operation) (s : AccessState)
    → IsGuarded s
    → IsGuarded (if takes_access o then leave_sources (act o s) else act o s)
settled-IsGuarded o s h = elim (Bool-cases (takes_access o)) [
  | inl e ↦ rw e (leave_sources-IsGuarded (act o s))
  | inr e ↦ rw e (act-IsGuarded o s e h)
]

all-IsGuarded :
    (operations : List Operation) (s : AccessState) → IsGuarded s → IsGuarded (perform operations s)
unfolding perform
all-IsGuarded [] s h = h
all-IsGuarded (o ∷ operations) s h =
    all-IsGuarded operations (if takes_access o then leave_sources (act o s) else act o s)
      (settled-IsGuarded o s h)

-- Whatever is done, in whatever order, and whatever the service answers: the tab of the sources is
-- shown only where management is open or the user is logged in. The effect that leaves the tab is
-- needed for this only behind a logout and a refresh of the session, since a login and the handlers of
-- the tabs and of the view keep the guard themselves; run once more, it changes nothing.
pub perform-IsGuarded :
    (operations : List Operation) (s : AccessState)
    → IsGuarded s
    → IsGuarded (perform operations s)
      × (leave_sources (perform operations s) ≡ perform operations s)
perform-IsGuarded operations s h =
    let guarded : IsGuarded (perform operations s) = all-IsGuarded operations s h in
    (guarded, leave_sources_idle (perform operations s) guarded)

-- Leaving the large view shows the list again, scrolled to where it was left.
pub return_to_reader_stream-open :
    (scroll_y now : ℤ) (s : AccessState)
    → (return_to_reader_stream now (open_immersive_reader scroll_y s)).1 ≡ some scroll_y
unfolding return_to_reader_stream open_immersive_reader
return_to_reader_stream-open scroll_y now s = refl
