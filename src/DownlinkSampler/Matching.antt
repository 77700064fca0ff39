-- ===== src/DownlinkSampler/Matching.antt =====
-- How src/client/lib/qos/downlinkSampler.js matches the reports with the hints.
use mediasoup_cpp.Shared.{
  ◌≡◌, refl, sym, ◌∙◌, ◌⊎◌, inl, inr, Bool, true, false, not, ◌&&◌, Option, none, some, List, [],
  ◌∷◌, All, All-weaken, count, Number, if◌then◌else◌, is_some, arith,
}
use mediasoup_cpp.DownlinkHints.{Hint}
use mediasoup_cpp.DownlinkSampler.Arithmetic.{InboundReport}
use mediasoup_cpp.DownlinkSampler.Sample.{
  Slot, search, or_search, select_inbound_report, matches_hint, matches_hint_kind,
}

module _ {W : Type 0} where
  -- The reports that no consumer has yet.
  abbrev pub free : List (Slot W) → List (InboundReport W)
  free [] = []
  free (slot ∷ slots) = if slot.is_matched then free slots else slot.report ∷ free slots

  -- What a search gives: a free report that passes the test, which is free no more, or that there is none.
  abbrev pub Finds :
      (InboundReport W → Bool)
      → List (InboundReport W)
      → Option (InboundReport W × List (Slot W))
      → Type 0
  Finds p reports none = All (λ r. p r ≡ false) reports
  Finds p reports (some (r, slots)) =
      (p r ≡ true)
      × ((test : InboundReport W → Bool) → count test (r ∷ free slots) ≡ count test reports)

  Finds-later :
      (p : InboundReport W → Bool) (slot : Slot W) (slots : List (Slot W))
      (found : Option (InboundReport W × List (Slot W)))
      → (slot.is_matched ≡ false → p slot.report ≡ false)
      → Finds p (free slots) found
      → Finds p
          (free (slot ∷ slots))
          (elim found [ none ↦ none | some (r, others) ↦ some (r, slot ∷ others) ])
  unfolding count
  Finds-later p slot slots none h k = ground (arith, h, k)
  Finds-later p slot slots (some (r, others)) h (e, k) = (e, λ test. ground (arith, k test))

  Finds-if :
      (p : InboundReport W → Bool) (reports : List (InboundReport W)) (test : Bool)
      (now later : Option (InboundReport W × List (Slot W)))
      → (test ≡ true → Finds p reports now)
      → (test ≡ false → Finds p reports later)
      → Finds p reports (if test then now else later)
  Finds-if p reports true now later h k = h refl
  Finds-if p reports false now later h k = k refl

  Finds-now :
      (p : InboundReport W → Bool) (slot : Slot W) (slots : List (Slot W))
      → (not slot.is_matched && p slot.report) ≡ true
      → Finds p
          (free (slot ∷ slots))
          (some (slot.report, record slot { is_matched = true } ∷ slots))
  Finds-now p slot slots h = (ground (arith, h), λ test. ground (arith, h))

  search-Finds :
      (p : InboundReport W → Bool) (slots : List (Slot W)) → Finds p (free slots) (search p slots)
  unfolding search
  search-Finds p [] = tt
  search-Finds p (slot ∷ slots) =
      Finds-if p (free (slot ∷ slots)) (not slot.is_matched && p slot.report) _ _
        (Finds-now p slot slots)
        (λ h.
          Finds-later p slot slots (search p slots) (λ e. ground (arith, h, e))
            (search-Finds p slots))

  All-none :
      (p q : InboundReport W → Bool) (reports : List (InboundReport W))
      → ((r : InboundReport W) → p r ≡ false → q r ≡ false)
      → All (λ r. p r ≡ false) reports
      → All (λ r. q r ≡ false) reports
  All-none p q reports h = All-weaken (λ r. p r ≡ false) (λ r. q r ≡ false) reports h

  -- A search that passes more reports, after one that passed none of them.
  Finds-wider :
      (p q : InboundReport W → Bool) (reports : List (InboundReport W))
      (found : Option (InboundReport W × List (Slot W)))
      → ((r : InboundReport W) → p r ≡ q r)
      → Finds p reports found
      → Finds q reports found
  Finds-wider p q reports none h k = All-none p q reports (λ r e. sym (h r) ∙ e) k
  Finds-wider p q reports (some (r, slots)) h (e, k) = (sym (h r) ∙ e, k)

module _ {W : Type 0} ⦃num : Number W⦄ where
  matches_hint-kind :
      (hint : Hint W) (r : InboundReport W)
      → matches_hint hint r ≡ true
      → matches_hint_kind hint r ≡ true
  unfolding matches_hint
  matches_hint-kind hint r h = ground (arith, h)

  -- A report that is chosen without being named by the hint is chosen where the hint names none that is
  -- free.
  abbrev pub Prefers :
      Hint W → List (InboundReport W) → Option (InboundReport W × List (Slot W)) → Type 0
  Prefers hint reports none = Unit
  Prefers hint reports (some (r, slots)) =
      (matches_hint hint r ≡ true) ⊎ All (λ s. matches_hint hint s ≡ false) reports

  abbrev pub Selects :
      Hint W → List (InboundReport W) → Option (InboundReport W × List (Slot W)) → Type 0
  Selects hint reports found =
      Finds (matches_hint_kind hint) reports found × Prefers hint reports found

  any_kind :
      (hint : Hint W) (r : InboundReport W)
      → is_some hint.kind ≡ false
      → true ≡ matches_hint_kind hint r
  any_kind hint r h = ground (arith, h)

  last-Selects :
      (hint : Hint W) (reports : List (InboundReport W)) (test : Bool)
      (found : Option (InboundReport W × List (Slot W)))
      → is_some hint.kind ≡ test
      → All (λ s. matches_hint hint s ≡ false) reports
      → All (λ s. matches_hint_kind hint s ≡ false) reports
      → Finds (λ _. true) reports found
      → Selects hint reports (if test then none else found)
  last-Selects hint reports true found e h k l = (k, tt)
  last-Selects hint reports false none e h k l = (k, tt)
  last-Selects hint reports false (some (r, slots)) e h k l = (
    Finds-wider (λ _. true) (matches_hint_kind hint) reports (some (r, slots))
        (λ s. any_kind hint s e) l,
    inr h,
  )

  or_search-Selects :
      (hint : Hint W) (reports : List (InboundReport W))
      (first second third : Option (InboundReport W × List (Slot W)))
      → Finds (matches_hint hint) reports first
      → Finds (matches_hint_kind hint) reports second
      → Finds (λ _. true) reports third
      → Selects hint reports
          (or_search first (or_search second (if is_some hint.kind then none else third)))
  or_search-Selects hint reports (some (r, slots)) second third (e, k) h l =
      ((matches_hint-kind hint r e, k), inl e)
  or_search-Selects hint reports none (some (r, slots)) third h k l = (k, inr h)
  or_search-Selects hint reports none none third h k l =
      last-Selects hint reports (is_some hint.kind) third refl h k l

  -- The report of a consumer is a free one of the kind of the hint, and one that the hint names where such
  -- a report is free; it is free no more, and the others are as before. There is none only where no report
  -- of the kind is free.
  pub select_inbound_report-Selects :
      (hint : Hint W) (slots : List (Slot W))
      → Selects hint (free slots) (select_inbound_report hint slots)
  unfolding select_inbound_report
  select_inbound_report-Selects hint slots =
      or_search-Selects hint (free slots) _ _ _ (search-Finds (matches_hint hint) slots)
        (search-Finds (matches_hint_kind hint) slots) (search-Finds (λ _. true) slots)
