-- ===== src/AuditLog/Masked.antt =====
-- What masking leaves.
use cloud_sentinel_ai.Base.{Bool, true, false, ◌≡◌, refl, sym, ap, ◌∙◌, if◌then◌else◌}
use cloud_sentinel_ai.Base.Text.{Text}
use cloud_sentinel_ai.AuditLog.{
  Json, scalar, text, list, dict, Items, nil, cons, Fields, end, field, redacted, is_sensitive,
  mask, mask_items, mask_fields, mask_sensitive,
}

-- A sensitive value is redacted, and another has the property that is given.
abbrev pub IsMaskedField : Bool → Json → Type 0 → Type 0
IsMaskedField true value inner = value ≡ redacted
IsMaskedField false value inner = inner

-- At every depth, a field whose key is sensitive has the redacted value.
unfoldable mutual
  pub IsMasked : (Text → Bool) → Json → Type 0
  IsMasked secret (scalar n) = Unit
  IsMasked secret (text t) = Unit
  IsMasked secret (list xs) = IsMaskedItems secret xs
  IsMasked secret (dict fs) = IsMaskedFields secret fs

  pub IsMaskedItems : (Text → Bool) → Items → Type 0
  IsMaskedItems secret nil = Unit
  IsMaskedItems secret (cons x xs) = IsMasked secret x × IsMaskedItems secret xs

  pub IsMaskedFields : (Text → Bool) → Fields → Type 0
  IsMaskedFields secret end = Unit
  IsMaskedFields secret (field key value rest) =
      IsMaskedField (secret key) value (IsMasked secret value) × IsMaskedFields secret rest

field-IsMasked :
    (secret : Bool) (value : Json) (inner : Json → Type 0)
    → inner value
    → IsMaskedField secret
        (if secret then redacted else value)
        (inner (if secret then redacted else value))
field-IsMasked true value inner h = refl
field-IsMasked false value inner h = h

mutual
  unfolding mask IsMasked

  mask-IsMasked : (secret : Text → Bool) (j : Json) → IsMasked secret (mask secret j)
  mask-IsMasked secret (scalar n) = tt
  mask-IsMasked secret (text t) = tt
  mask-IsMasked secret (list xs) = mask_items-IsMaskedItems secret xs
  mask-IsMasked secret (dict fs) = mask_fields-IsMaskedFields secret fs

  mask_items-IsMaskedItems :
      (secret : Text → Bool) (xs : Items) → IsMaskedItems secret (mask_items secret xs)
  mask_items-IsMaskedItems secret nil = tt
  mask_items-IsMaskedItems secret (cons x xs) =
      (mask-IsMasked secret x, mask_items-IsMaskedItems secret xs)

  mask_fields-IsMaskedFields :
      (secret : Text → Bool) (fs : Fields) → IsMaskedFields secret (mask_fields secret fs)
  mask_fields-IsMaskedFields secret end = tt
  mask_fields-IsMaskedFields secret (field key value rest) = (
    field-IsMasked (secret key) (mask secret value) (IsMasked secret) (mask-IsMasked secret value),
    mask_fields-IsMaskedFields secret rest,
  )

field_unchanged :
    (secret : Bool) (value value' : Json) (inner : Type 0)
    → (inner → value' ≡ value)
    → IsMaskedField secret value inner
    → (if secret then redacted else value') ≡ value
field_unchanged true value value' inner f h = sym h
field_unchanged false value value' inner f h = f h

mutual
  unfolding mask IsMasked

  unchanged : (secret : Text → Bool) (j : Json) → IsMasked secret j → mask secret j ≡ j
  unchanged secret (scalar n) h = refl
  unchanged secret (text t) h = refl
  unchanged secret (list xs) h = ap (λ ys. list ys) (items_unchanged secret xs h)
  unchanged secret (dict fs) h = ap (λ gs. dict gs) (fields_unchanged secret fs h)

  items_unchanged :
      (secret : Text → Bool) (xs : Items) → IsMaskedItems secret xs → mask_items secret xs ≡ xs
  items_unchanged secret nil h = refl
  items_unchanged secret (cons x xs) (here, rest) =
      ap (λ y. cons y (mask_items secret xs)) (unchanged secret x here)
      ∙ ap (λ ys. cons x ys) (items_unchanged secret xs rest)

  fields_unchanged :
      (secret : Text → Bool) (fs : Fields) → IsMaskedFields secret fs → mask_fields secret fs ≡ fs
  fields_unchanged secret end h = refl
  fields_unchanged secret (field key value rest) (here, others) =
      ap (λ v. field key v (mask_fields secret rest))
        (field_unchanged (secret key) value (mask secret value) (IsMasked secret value)
          (unchanged secret value) here)
      ∙ ap (λ fs. field key value fs) (fields_unchanged secret rest others)

-- Of the masked details, every field with a sensitive key, at any depth, is redacted; and details of
-- which this holds are masked to themselves, so that masking twice is masking once.
pub mask_sensitive_lem :
    (lower : Text → Text) (j : Json)
    → IsMasked (is_sensitive lower) (mask_sensitive lower j)
      × (mask_sensitive lower (mask_sensitive lower j) ≡ mask_sensitive lower j)
unfolding mask_sensitive
mask_sensitive_lem lower j =
    let secret = is_sensitive lower in
    let masked = mask-IsMasked secret j in (masked, unchanged secret (mask secret j) masked)
