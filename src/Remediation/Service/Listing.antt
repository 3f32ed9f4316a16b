-- ===== src/Remediation/Service/Listing.antt =====
-- The pages of pending requests (`list_pending`).
use mathlib.Core.List.{Perm}
use cloud_sentinel_ai.Base.{
  ℕ, zero, suc, ◌+◌, ◌≡◌, true, false, List, [], ◌∷◌, ◌++◌, refl, ap, sym, ◌∙◌, arith, keep, take,
  drop, take-append-drop,
}
use cloud_sentinel_ai.Base.Order.{order_by, order_by-perm, IsOrdered, order_by-IsOrdered}
use cloud_sentinel_ai.Remediation.{RemediationRequest, World}
use cloud_sentinel_ai.Remediation.Service.{pending_of, newer, list_pending}

newer-asym : (r s : RemediationRequest) → newer r s ≡ true → newer s r ≡ false
newer-asym r s h = ground arith

newer_trans :
    (r s t : RemediationRequest) → newer s r ≡ false → newer t s ≡ false → newer t r ≡ false
newer_trans r s t h k = ground arith

take_nil {ℓ} : {A : Type ℓ} (n : ℕ) → take {A = A} n [] ≡ []
take_nil zero = refl
take_nil (suc n) = refl

take_next {ℓ} :
    {A : Type ℓ} (n m : ℕ) (xs : List A) → take n xs ++ take m (drop n xs) ≡ take (n + m) xs
take_next zero m xs = ap (λ k. take k xs) (omega arith)
take_next (suc n) m [] = take_nil m ∙ sym (take_nil (suc n + m))
take_next (suc n) m (x ∷ xs) =
    let more : suc (n + m) ≡ suc n + m = omega arith in
    ap (λ t. x ∷ t) (take_next n m xs) ∙ ap (λ k. take k (x ∷ xs)) more

-- Two pages, the second with the first one's limit as its offset, make up the page of both limits;
-- and that page is the front of all pending requests of the tenant, each of them once, ordered
-- from the newest to the oldest.
pages_compose :
    (tenant n m : ℕ) (w : World)
    → (list_pending tenant n 0 w ++ list_pending tenant m n w ≡ list_pending tenant (n + m) 0 w)
      × ((rest : List RemediationRequest) × Perm
            (list_pending tenant (n + m) 0 w ++ rest)
            (keep (pending_of tenant) w.requests)
          × IsOrdered newer (list_pending tenant (n + m) 0 w ++ rest))
unfolding list_pending
pages_compose tenant n m w =
    let pending = keep (pending_of tenant) w.requests in
    let all = order_by newer pending in
    let whole = take-append-drop (n + m) all in
    (
      take_next n m all,
      (
        drop (n + m) all,
        rw whole (order_by-perm newer pending),
        rw whole (order_by-IsOrdered newer newer-asym newer_trans pending),
      ),
    )
