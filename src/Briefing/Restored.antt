-- ===== src/Briefing/Restored.antt =====
-- Restoring a briefing comes to rest.
use urwhaturead.Prelude.{
  ◌≡◌, refl, ap, ◌∙◌, Bool, true, false, ◌||◌, Option, none, some, List, if◌then◌else◌, Bool-cases,
  inl, inr, ◌==◌, text_eq, lookup, insert, lookup-insert, Text, is_empty, ℤ, pos, ◌-ℤ◌, leb_ℤ,
  arith,
}
use urwhaturead.Prelude.Host.{Host}
use urwhaturead.Task.Summary.{Reply, threw, answered}
use urwhaturead.Briefing.{Briefing, BriefingState, FeedBriefingSnapshot, Instant}
use urwhaturead.Briefing.Restore.{
  RestoreScope, RestoreCall, begin_restore, on_restore_reply, is_idle, has_feed_briefing_entry,
  show_cached, ask, use_snapshot, since_attempt, or_epoch,
}

module _ (scope : RestoreScope) where
  same_key : (scope.task_key == scope.task_key) ≡ true
  same_key = (text_eq.beq_iff scope.task_key scope.task_key).1 refl

  found-insert :
      (now : ℤ) (attempted : List (Text × ℤ))
      → lookup scope.task_key (insert scope.task_key now attempted) ≡ some now
  found-insert now attempted =
      lookup-insert scope.task_key scope.task_key now attempted ∙ (rw same_key refl)

  since-insert :
      (now now' : ℤ) (attempted : List (Text × ℤ))
      → since_attempt scope.task_key now' (insert scope.task_key now attempted) ≡ now' -ℤ now
  since-insert now now' attempted =
      ap (λ (last : Option ℤ). now' -ℤ or_epoch last) (found-insert now attempted)

module _ {Item : Type 0} (scope : RestoreScope) where
  asked-by :
      (idle : Bool) (found : Option (FeedBriefingSnapshot Item)) (now : ℤ)
      (attempted after : List (Text × ℤ)) (call : RestoreCall) (s t : BriefingState Item)
      → (if idle then (s, attempted, none) else use_snapshot found now scope attempted s)
        ≡ (t, after, some call)
      → (t ≡ s) × (after ≡ insert scope.task_key now attempted) × (found ≡ none) × (idle ≡ false)
  asked-by true found now attempted after call s t h = absurd (ground arith)
  asked-by false (some snapshot) now attempted after call s t h = absurd (ground arith)
  asked-by false none now attempted after call s t h = ground arith

  -- What holds where the effect asks the service.
  asked :
      (now : ℤ) (attempted after : List (Text × ℤ)) (call : RestoreCall) (s t : BriefingState Item)
      → begin_restore now scope attempted s ≡ (t, after, some call)
      → (t ≡ s)
        × (after ≡ insert scope.task_key now attempted)
        × (lookup scope.task_key s.snapshots ≡ none)
        × (is_idle scope s ≡ false)
  unfolding begin_restore
  asked now attempted after call s t h =
      asked-by (is_idle scope s) (lookup scope.task_key s.snapshots) now attempted after call s t h

  ask-early :
      (now now' : ℤ) (attempted : List (Text × ℤ)) (s : BriefingState Item)
      → leb_ℤ (pos 30000) (now' -ℤ now) ≡ false
      → ask now' scope (insert scope.task_key now attempted) s
        ≡ (s, insert scope.task_key now attempted, none)
  ask-early now now' attempted s early = rw (since-insert scope now now' attempted, early) refl

  waits :
      (now now' : ℤ) (attempted : List (Text × ℤ)) (s : BriefingState Item)
      → lookup scope.task_key s.snapshots ≡ none
      → leb_ℤ (pos 30000) (now' -ℤ now) ≡ false
      → begin_restore now' scope (insert scope.task_key now attempted) s
        ≡ (s, insert scope.task_key now attempted, none)
  unfolding begin_restore
  waits now now' attempted s missing early = elim (Bool-cases (is_idle scope s)) [
    | inl e ↦ rw e refl
    | inr e ↦ rw (e, missing) (ask-early now now' attempted s early)
  ]

  shown-is_idle :
      (host : Host) (at : Instant) (b : Briefing Item) (s : BriefingState Item)
      → is_empty b.summary ≡ false
      → is_idle scope (show_cached host at scope b s) ≡ true
  unfolding show_cached is_idle has_feed_briefing_entry
  shown-is_idle host at b s filled = rw (filled, same_key scope) (ground arith)

  shown :
      (host : Host) (at : Instant) (now : ℤ) (b : Briefing Item) (attempted : List (Text × ℤ))
      (s : BriefingState Item)
      → is_empty b.summary ≡ false
      → begin_restore now scope attempted (show_cached host at scope b s)
        ≡ (show_cached host at scope b s, attempted, none)
  unfolding begin_restore
  shown host at now b attempted s filled = rw (shown-is_idle host at b s filled) refl

  unchanged :
      (now now' : ℤ) (attempted after : List (Text × ℤ)) (call : RestoreCall)
      (s t : BriefingState Item)
      → begin_restore now scope attempted s ≡ (t, after, some call)
      → leb_ℤ (pos 30000) (now' -ℤ now) ≡ false
      → begin_restore now' scope after t ≡ (t, after, none)
  unchanged now now' attempted after call s t h early =
      let f = asked now attempted after call s t h in
      rw (f.0, f.1) (waits now now' attempted s f.2 early)

  -- Where the effect asks the service for a cached briefing, it comes to rest: whatever the answer, and
  -- whether or not the effect was cleaned up before it, the next run within 30 seconds changes
  -- nothing and asks nothing.
  pub begin_restore_settles :
      (host : Host) (at : Instant) (cancelled : Bool) (reply : Reply (Option (Briefing Item)))
      (now now' : ℤ) (attempted after : List (Text × ℤ)) (call : RestoreCall)
      (s t : BriefingState Item)
      → begin_restore now scope attempted s ≡ (t, after, some call)
      → leb_ℤ (pos 30000) (now' -ℤ now) ≡ false
      → let u = on_restore_reply host at scope cancelled reply t in
        begin_restore now' scope after u ≡ (u, after, none)
  unfolding on_restore_reply
  begin_restore_settles host at cancelled (threw message) now now' attempted after call s t h
        early =
      unchanged now now' attempted after call s t h early
  begin_restore_settles host at cancelled (answered none) now now' attempted after call s t h
        early =
      unchanged now now' attempted after call s t h early
  begin_restore_settles host at cancelled (answered (some b)) now now' attempted after call s t h
        early =
      elim (Bool-cases (cancelled || is_empty b.summary)) [
        | inl e ↦ rw e (unchanged now now' attempted after call s t h early)
        | inr e ↦ rw e (shown host at now' b after t (ground arith))
      ]
