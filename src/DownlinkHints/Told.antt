-- ===== src/DownlinkHints/Told.antt =====
-- The hints of src/client/lib/qos/downlinkHints.js as a function of the consumer.
use mediasoup_cpp.Shared.{
  ◌≡◌, refl, ap, ◌∙◌, Bool, Option, none, some, List, [], ◌∷◌, Text, text_eq, value_at,
  value_at-set_at, value_at-delete_at, value_at-update_at, map_option, Number, if◌then◌else◌,
}
use mediasoup_cpp.DownlinkHints.{
  Hint, HintInput, Hints, hint_of, set, remove, set_visible, set_pinned, set_active_speaker,
  set_target_size, resize,
}

pub data Event (W : Type 0) : Type 0 where
  given : Text → HintInput W → Event W
  removed : Text → Event W
  shown : Text → Bool → Event W
  pinned : Text → Bool → Event W
  speaking : Text → Bool → Event W
  resized : Text → Option W → Option W → Event W
  cleared : Event W

module _ {W : Type 0} ⦃num : Number W⦄ where
  abbrev pub on_event : Event W → Hints W → Hints W
  on_event (given id i) hints = set id i hints
  on_event (removed id) hints = remove id hints
  on_event (shown id b) hints = set_visible id b hints
  on_event (pinned id b) hints = set_pinned id b hints
  on_event (speaking id b) hints = set_active_speaker id b hints
  on_event (resized id w h) hints = set_target_size id w h hints
  on_event cleared hints = []

  abbrev pub on_events : List (Event W) → Hints W → Hints W
  on_events [] hints = hints
  on_events (e ∷ es) hints = on_events es (on_event e hints)

  -- What an event makes of what is known of one consumer: a change of one that is unknown is passed
  -- over.
  abbrev pub told : Event W → Text → Option (Hint W) → Option (Hint W)
  told (given k i) id known = if text_eq k id then some (hint_of i) else known
  told (removed k) id known = if text_eq k id then none else known
  told (shown k b) id known =
      if text_eq k id then map_option (λ h. record h { visible = b }) known else known
  told (pinned k b) id known =
      if text_eq k id then map_option (λ h. record h { pinned = b }) known else known
  told (speaking k b) id known =
      if text_eq k id then map_option (λ h. record h { active_speaker = b }) known else known
  told (resized k w h) id known = if text_eq k id then map_option (resize w h) known else known
  told cleared id known = none

  abbrev pub told_all : List (Event W) → Text → Option (Hint W) → Option (Hint W)
  told_all [] id known = known
  told_all (e ∷ es) id known = told_all es id (told e id known)

  value_at-on_event :
      (id : Text) (e : Event W) (hints : Hints W)
      → value_at id (on_event e hints) ≡ told e id (value_at id hints)
  unfolding set remove set_visible set_pinned set_active_speaker set_target_size
  value_at-on_event id (given k i) hints = value_at-set_at id k (hint_of i) hints
  value_at-on_event id (removed k) hints = value_at-delete_at id k hints
  value_at-on_event id (shown k b) hints = value_at-update_at id k _ hints
  value_at-on_event id (pinned k b) hints = value_at-update_at id k _ hints
  value_at-on_event id (speaking k b) hints = value_at-update_at id k _ hints
  value_at-on_event id (resized k w h) hints = value_at-update_at id k (resize w h) hints
  value_at-on_event id cleared hints = unfold value_at in refl

  -- After any row of events each consumer's hint is what the events tell of that consumer alone.
  pub value_at-on_events :
      (id : Text) (es : List (Event W)) (hints : Hints W)
      → value_at id (on_events es hints) ≡ told_all es id (value_at id hints)
  value_at-on_events id [] hints = refl
  value_at-on_events id (e ∷ es) hints =
      value_at-on_events id es (on_event e hints)
      ∙ ap (told_all es id) (value_at-on_event id e hints)
