-- ===== src/Usage/Unique.antt =====
-- What dedupeUsageRecords keeps.
use mathlib.Core.Path.{subst}
use auto_gardener.Base.{
  All, All-weaken, Bool, Bool-cases, List, [], any, arith, false, inl, inr, not, refl, sym, true,
  ◌&&◌, ◌||◌, ◌∙◌, ◌∷◌, ◌≡◌,
}
use auto_gardener.Base.Sort.{All-sort_by, sort_by}
use auto_gardener.Text.{Text, text_eq}
use auto_gardener.Text.Laws.{text_eq_refl, text_eq_iff}
use auto_gardener.Usage.{
  UsageRecord, created_before, dedupe_usage_records, is_positive, keep_unseen, usage_key,
}

-- No two records have the same key.
abbrev pub IsUnique : List UsageRecord → Type 0
IsUnique [] = Unit
IsUnique (rec ∷ more) =
    All (λ (later : UsageRecord). text_eq (usage_key later) (usage_key rec) ≡ false) more
    × IsUnique more

-- A record that counts tokens and whose key is new.
IsNew : List Text → UsageRecord → Type 0
IsNew seen rec =
    (is_positive rec.total_tokens ≡ true) × (any (text_eq (usage_key rec)) seen ≡ false)

IsCounted : UsageRecord → Type 0
IsCounted rec = is_positive rec.total_tokens ≡ true

or_false : (a b : Bool) → (a || b) ≡ false → (a ≡ false) × (b ≡ false)
or_false a b h = ground arith

-- What is new after a record differs from it, and is new before it.
later-IsNew :
    (rec : UsageRecord) (seen : List Text) (out : List UsageRecord)
    → All (IsNew (usage_key rec ∷ seen)) out
    → All (IsNew seen) out
      × All (λ (later : UsageRecord). text_eq (usage_key later) (usage_key rec) ≡ false) out
unfolding IsNew
later-IsNew rec seen out h = (
  All-weaken (IsNew (usage_key rec ∷ seen)) (IsNew seen) (λ r k. (k.0, (or_false _ _ k.1).1)) out h,
  All-weaken (IsNew (usage_key rec ∷ seen)) _ (λ r k. (or_false _ _ k.1).0) out h,
)

keep_unseen-IsNew :
    (seen : List Text) (records : List UsageRecord)
    → All (IsNew seen) (keep_unseen seen records) × IsUnique (keep_unseen seen records)
unfolding keep_unseen IsNew
keep_unseen-IsNew seen [] = (tt, tt)
keep_unseen-IsNew seen (rec ∷ more) =
    let skipped = keep_unseen-IsNew seen more in
    elim (Bool-cases (is_positive rec.total_tokens)) [
      | inr e ↦ rw (keep_unseen, e) skipped
      | inl e ↦ elim (Bool-cases (any (text_eq (usage_key rec)) seen)) [
        | inl s ↦ rw (keep_unseen, e, s) skipped
        | inr s ↦
            let (fresh, distinct) = keep_unseen-IsNew (usage_key rec ∷ seen) more in
            let before = later-IsNew rec seen _ fresh in
            rw (keep_unseen, e, s) (((e, s), before.0), (before.1, distinct))
      ]
    ]

-- A record that counts tokens has its key among the kept records or among those seen before.
IsKept : List Text → List UsageRecord → UsageRecord → Type 0
IsKept seen out rec =
    is_positive rec.total_tokens ≡ true
    → (any (λ (o : UsageRecord). text_eq (usage_key o) (usage_key rec)) out
        || any (text_eq (usage_key rec)) seen)
      ≡ true

text_eq-sym : (s t : Text) → text_eq s t ≡ text_eq t s
text_eq-sym s t = ground (arith, text_eq_iff s t, text_eq_iff t s)

or_swap : (a b c : Bool) → (a || (b || c)) ≡ ((b || a) || c)
or_swap a b c = ground arith

or_true : (b : Bool) → (b || true) ≡ true
or_true b = ground arith

IsKept-later :
    (rec earlier : UsageRecord) (seen : List Text) (out : List UsageRecord)
    → IsKept (usage_key rec ∷ seen) out earlier
    → IsKept seen (rec ∷ out) earlier
unfolding IsKept
IsKept-later rec earlier seen out h p = rw (text_eq-sym (usage_key rec) (usage_key earlier)) (
    sym (
      or_swap (any (λ (o : UsageRecord). text_eq (usage_key o) (usage_key earlier)) out)
        (text_eq (usage_key earlier) (usage_key rec)) (any (text_eq (usage_key earlier)) seen))
    ∙ h p)

keep_unseen-skip :
    (seen : List Text) (rec : UsageRecord) (more : List UsageRecord)
    → (is_positive rec.total_tokens && not (any (text_eq (usage_key rec)) seen)) ≡ false
    → keep_unseen seen (rec ∷ more) ≡ keep_unseen seen more
unfolding keep_unseen
keep_unseen-skip seen rec more h = ground arith

keep_unseen-keep :
    (seen : List Text) (rec : UsageRecord) (more : List UsageRecord)
    → is_positive rec.total_tokens ≡ true
    → any (text_eq (usage_key rec)) seen ≡ false
    → keep_unseen seen (rec ∷ more) ≡ rec ∷ keep_unseen (usage_key rec ∷ seen) more
unfolding keep_unseen
keep_unseen-keep seen rec more p q = rw (keep_unseen, p, q) refl

keep_unseen-IsKept :
    (seen : List Text) (records : List UsageRecord)
    → All (IsKept seen (keep_unseen seen records)) records
unfolding IsKept
keep_unseen-IsKept seen [] = tt
keep_unseen-IsKept seen (rec ∷ more) =
    let P = λ (out : List UsageRecord). All (IsKept seen out) (rec ∷ more) in
    let skip = keep_unseen-IsKept seen more in
    elim (Bool-cases (is_positive rec.total_tokens)) [
      | inr e ↦
          subst P (sym (keep_unseen-skip seen rec more (rw e refl)))
            ((λ p. absurd (cc (e, p))), skip)
      | inl e ↦ elim (Bool-cases (any (text_eq (usage_key rec)) seen)) [
        | inl s ↦
            subst P (sym (keep_unseen-skip seen rec more (rw (e, s) refl)))
              ((λ p. rw s (or_true _)), skip)
        | inr s ↦ subst P (sym (keep_unseen-keep seen rec more e s)) (
          (λ p. rw (text_eq_refl (usage_key rec)) refl),
          All-weaken (IsKept (usage_key rec ∷ seen) _)
              (IsKept seen (rec ∷ keep_unseen (usage_key rec ∷ seen) more))
              (λ earlier h. IsKept-later rec earlier seen _ h) more
              (keep_unseen-IsKept (usage_key rec ∷ seen) more),
        )
      ]
    ]

or_nil : (b : Bool) → (b || false) ≡ true → b ≡ true
or_nil b h = ground arith

either : (a b : Bool) → (a ≡ true → b ≡ true) → (not a || b) ≡ true
either true b h = h refl
either false b h = refl

-- No two kept records have the same key, every kept record counts tokens, and for every record that
-- counts tokens a record with its key is kept.
pub dedupe_usage_records_lem :
    (records : List UsageRecord)
    → let out = dedupe_usage_records records in
      IsUnique out
      × All (λ (rec : UsageRecord). is_positive rec.total_tokens ≡ true) out
      × All
          (λ (rec : UsageRecord).
            (not (is_positive rec.total_tokens)
              || any (λ (o : UsageRecord). text_eq (usage_key o) (usage_key rec)) out)
            ≡ true)
          records
unfolding dedupe_usage_records IsNew IsKept
dedupe_usage_records_lem records =
    let sorted = sort_by created_before records in
    let (fresh, distinct) = keep_unseen-IsNew [] sorted in
    (
      distinct,
      All-weaken (IsNew []) _ (λ rec h. h.0) _ fresh,
      All-weaken (IsKept [] (keep_unseen [] sorted)) _ (λ rec h. either _ _ λ p. or_nil _ (h p))
          records (All-sort_by created_before _ records (keep_unseen-IsKept [] sorted)),
    )
