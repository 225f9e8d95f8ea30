-- ===== src/Session/Marks.antt =====
-- When a reading session marks its article as read.
use urwhaturead.Prelude.{
  ℕ, ◌*◌, ◌≤◌, ◌<◌, ◌≡◌, Bool, true, ◌&&◌, ◌||◌, none, some, leb, ℤ, pos, ◌-ℤ◌, -ℤ_parts, leb_ℤ,
  leb→le, le→leb, ltb→lt, ◌≤ℤ◌, includes, nat_eq, nat_beq, length, arith, Bool-cases, inl, inr,
}
use native.Mathlib.Decide.{dec_le}
use urwhaturead.Article.{max_stored_read_articles}
use urwhaturead.Article.Laws.{upsert_read_article_id_lem}
use urwhaturead.Session.{
  Progress, at_least, is_above, ReaderSession, FinalizeReason, close, navigate,
  read_mark_min_scroll_progress, resolve_read_dwell_threshold_ms, ReadingState, mark_article_read,
  has_been_read, finalize_reader_session, update_session_progress,
}

-- Whether the end of a session marks its article.
abbrev pub marks : ℤ → FinalizeReason → ReaderSession → Bool
marks now navigate session = true
marks now close session = has_been_read now session

-- The end of a session of a positive id, with fewer than 3000 read articles, leaves no session
-- open, and exactly the article of a session that marks is added to the read articles.
pub finalize_reader_session_lem :
    (now : ℤ) (reason : FinalizeReason) (s : ReadingState) (session : ReaderSession) (other : ℕ)
    → s.session ≡ some session
    → 0 < session.article_id
    → length s.read_article_ids < max_stored_read_articles
    → ((finalize_reader_session now reason s).session ≡ none)
      × (includes (finalize_reader_session now reason s).read_article_ids other ≡ (
          (marks now reason session && nat_beq session.article_id other)
          || includes s.read_article_ids other))
unfolding finalize_reader_session mark_article_read
finalize_reader_session_lem now close s session other e p room =
    ground (arith, upsert_read_article_id_lem s.read_article_ids session.article_id other p room)
finalize_reader_session_lem now navigate s session other e p room =
    ground (arith, upsert_read_article_id_lem s.read_article_ids session.article_id other p room)

-- Ending the session twice, at whatever times and for whatever reasons, is ending it once.
pub finalize_twice :
    (now later : ℤ) (reason other : FinalizeReason) (s : ReadingState)
    → finalize_reader_session later other (finalize_reader_session now reason s)
      ≡ finalize_reader_session now reason s
unfolding finalize_reader_session mark_article_read
finalize_twice now later close close s = ground arith
finalize_twice now later close navigate s = ground arith
finalize_twice now later navigate close s = ground arith
finalize_twice now later navigate navigate s = ground arith

-- Longer texts never need less time, and every threshold lies between two and eight seconds.
dwell_threshold_mono :
    (fewer more : ℕ)
    → fewer ≤ more
    → (resolve_read_dwell_threshold_ms fewer ≤ℤ resolve_read_dwell_threshold_ms more)
      × (pos 2000 ≤ℤ resolve_read_dwell_threshold_ms fewer)
      × (resolve_read_dwell_threshold_ms more ≤ℤ pos 8000)
unfolding resolve_read_dwell_threshold_ms
dwell_threshold_mono fewer more h = ground arith

or_mono : (a b c : Bool) → (a || b) ≡ true → (b ≡ true → c ≡ true) → (a || c) ≡ true
or_mono a b c h k = ground arith

mul_mono : (x m y : ℕ) → x ≤ m → x * y ≤ m * y
mul_mono x m y h = grind arith

above_lem : (a b p q : ℕ) → 3 * b ≤ a * 10 → a * q < p * b → 3 * q ≤ p * 10
above_lem a b p q h k = elim (dec_le (3 * q) (p * 10)) [
  | yes d ↦ d
  | no n ↦
      absurd
        (omega (arith, mul_mono (p * 10) (3 * q) b (omega arith), mul_mono (3 * b) (a * 10) q h))
]

at_least-above :
    (old new : Progress)
    → at_least old read_mark_min_scroll_progress ≡ true
    → is_above new old ≡ true
    → at_least new read_mark_min_scroll_progress ≡ true
at_least-above old new h k =
    le→leb _ _
      (above_lem old.top old.scrollable new.top new.scrollable (leb→le _ _ h) (ltb→lt _ _ k))

dwell-later :
    (now later : ℤ) (session : ReaderSession)
    → now ≤ℤ later
    → leb_ℤ session.min_dwell_ms (now -ℤ session.opened_at) ≡ true
    → leb_ℤ session.min_dwell_ms (later -ℤ session.opened_at) ≡ true
dwell-later now later session h k =
    le→leb _ _ (
      omega (arith, -ℤ_parts now session.opened_at, -ℤ_parts later session.opened_at, leb→le _ _ k))

stays_read :
    (now later : ℤ) (session : ReaderSession)
    → now ≤ℤ later
    → has_been_read now session ≡ true
    → has_been_read later session ≡ true
unfolding has_been_read
stays_read now later session h r = ground (arith, dwell-later now later session h)

read-further :
    (now : ℤ) (session : ReaderSession) (progress : Progress)
    → is_above progress session.max_scroll_progress ≡ true
    → has_been_read now session ≡ true
    → has_been_read now (record session { max_scroll_progress = progress }) ≡ true
unfolding has_been_read
read-further now session progress f r =
    or_mono _ _ _ r (λ k. at_least-above session.max_scroll_progress progress k f)

scrolled :
    (now : ℤ) (session : ReaderSession) (progress : Progress)
    → has_been_read now session ≡ true
    → has_been_read now (update_session_progress progress session) ≡ true
unfolding update_session_progress
scrolled now session progress r = elim (Bool-cases (leb progress.scrollable 0)) [
  | inl e ↦ rw e r
  | inr e ↦ elim (Bool-cases (is_above progress session.max_scroll_progress)) [
    | inr f ↦ rw (e, f) r
    | inl f ↦ rw (e, f) (read-further now session progress f r)
  ]
]

-- A session that is read stays read later and further down: neither the time nor a scroll event,
-- whatever its position, takes the mark back.
pub has_been_read-later :
    (now later : ℤ) (session : ReaderSession) (progress : Progress)
    → now ≤ℤ later
    → has_been_read now session ≡ true
    → has_been_read later (update_session_progress progress session) ≡ true
unfolding has_been_read update_session_progress
has_been_read-later now later session progress h r =
    scrolled later session progress (stays_read now later session h r)
