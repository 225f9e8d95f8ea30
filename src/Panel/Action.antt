-- ===== src/Panel/Action.antt =====
-- A handler as an action on the panel that may throw: what was set before a throw stays set.
use urwhaturead.Prelude.{ℕ, Bool, true, false, Option, none, some, ◌∷◌, if◌then◌else◌, Text, ltb}
use urwhaturead.Task.Poller.{NoticeKind}
use urwhaturead.Task.Summary.{Reply, threw, answered}
use urwhaturead.Sanitize.{parse_int}
use urwhaturead.Panel.{Panel, Call, load_sources, load_feed, refresh_status, BulkSourceAction}

abbrev pub Action : Type 0 → Type 0
Action A = Panel → Reply A × Panel

abbrev continue : {A B : Type 0} → Reply A → (A → Action B) → Action B
continue (answered a) f s = f a s
continue (threw message) f s = (threw message, s)

infixl 10 ◌>>=◌ ◌>>◌
abbrev pub ◌>>=◌ : {A B : Type 0} → Action A → (A → Action B) → Action B
◌>>=◌ m f s = continue (m s).0 f (m s).1

abbrev pub ◌>>◌ : {B : Type 0} → Action (Unit {0}) → Action B → Action B
m >> n = m >>= λ _. n

abbrev pub done : Action (Unit {0})
done s = (answered tt, s)

abbrev pub modify : (Panel → Panel) → Action (Unit {0})
modify f s = (answered tt, f s)

-- A call of the service, with its answer.
abbrev pub request : {A : Type 0} → Call → Reply A → Action A
request call reply s = (reply, record s { calls = call ∷ s.calls })

abbrev handle : Reply (Unit {0}) → (Text → Action (Unit {0})) → Action (Unit {0})
handle (answered a) handler s = (answered a, s)
handle (threw message) handler s = handler message s

-- `try { m } catch (error) { handler(error) }`
abbrev pub try_catch : Action (Unit {0}) → (Text → Action (Unit {0})) → Action (Unit {0})
try_catch m handler s = handle (m s).0 handler (m s).1

-- `try { m } finally { set(…) }`, where the setters throw nothing.
abbrev pub finally : Action (Unit {0}) → (Panel → Panel) → Action (Unit {0})
finally m f s = ((m s).0, f (m s).1)

abbrev pub set_notice : NoticeKind → Text → Action (Unit {0})
set_notice kind text =
    modify (λ s. record s { notice = some (record { kind = kind; text = text }) })

abbrev pub set_busy : Option ℕ → Panel → Panel
set_busy id s = record s { busy_source_id = id }

abbrev pub set_bulk : Option BulkSourceAction → Panel → Panel
set_bulk action s = record s { bulk_source_action = action }

-- The reloads catch what they throw, so a handler that awaits one goes on.
abbrev pub reload : Call → Action (Unit {0})
reload call = request call (answered tt)

abbrev pub reload_sources : Action (Unit {0})
reload_sources = reload load_sources

abbrev pub reload_feed : Option Text → Action (Unit {0})
reload_feed source_id = reload (load_feed source_id)

abbrev pub reload_status : Action (Unit {0})
reload_status = reload refresh_status

abbrev positive_of : Bool × Option ℕ → Option ℕ
positive_of (negative, none) = none
positive_of (true, some n) = none
positive_of (false, some n) = if ltb 0 n then some n else none

-- `Number.parseInt(text, 10)`, where it is a number above zero.
abbrev pub positive_int : Text → Option ℕ
positive_int text = positive_of (parse_int text)
